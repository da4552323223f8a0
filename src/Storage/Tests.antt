-- ===== src/Storage/Tests.antt =====
-- The theorems on the store at concrete accounts.
use madmail.Prelude.{All, ◌≢◌, true, false, none, some, [], ◌∷◌, codes, ◌≡◌, refl}
use madmail.Prelude.Int.{pos, ◌+ℤ◌, wrap64}
use madmail.Prelude.Dict.{lookup, insert}
use madmail.Quota.{Cache, get, set_max, update_used}
use madmail.Auth.PassTable.Table.{Faults}
use madmail.Storage.{
  global_default, Store, World, cached, new_row, find_row, get_quota, create_imap_acct,
  effective_default, store_jit_registration, store_registration_open,
}
use madmail.Storage.Delivery.{
  Back, done, Delivery, start, accepted, add_rcpt, body, commit, check_quotas,
}
use madmail.Storage.Limits.Kept.Delivered.{Committed, within-commit}
use madmail.Storage.Startup.{populated}
use madmail.Storage.Created.{get_quota-create_imap_acct}
use madmail.Storage.Accounts.{
  has_user, delete_account, delete_imap_acct, block_user, get_or_create_imap_acct,
  invalid_credentials, login-delete_account,
}
use madmail.Storage.Revived.{users-add_rcpt}

abbrev no_faults : Faults
no_faults = record { lookup_fails = λ k. false; set_fails = λ k. false; remove_fails = λ k. false }

abbrev world : World
world = record {
  read_fails = λ u. false;
  write_fails = λ u. false;
  user_fails = λ u. false;
  block_fails = λ u. false;
  block_read_fails = λ u. false;
  used = λ u. some (pos 40);
  settings = no_faults;
  now = 1000;
}

-- Ann has a row with a maximum of 100; the default is 50.
abbrev store : Store
store = record {
  cache = some (record { entries = []; default_quota = pos 50 });
  quotas = ("ann", new_row (pos 100)) ∷ [];
  users = "ann" ∷ [];
  blocked = [];
  default_quota = pos 50;
  settings_table = none;
  auto_create = true;
}

abbrev cache : Cache
cache = record { entries = []; default_quota = pos 50 }

abbrev back : Back
back = record {
  normalize = λ t. some "ann";
  add_rcpt = λ log u. done;
  filter = none;
  special_mailbox = done;
  body_parsed = done;
  commit = done;
}

abbrev delivery : Delivery
delivery = record (start store false) {
  added = ("ann", codes "ann@b.com") ∷ ("bob", codes "bob@b.com") ∷ [];
}

in_force : pos 50 ≡ effective_default world store
unfolding effective_default find_row lookup
in_force = refl

body_accepted : (body world back delivery (pos 7)).0 ≡ accepted
unfolding body check_quotas get_quota find_row effective_default lookup get set_max update_used
    insert wrap64 ◌+ℤ◌
body_accepted = refl

abbrev after_body : Delivery
after_body = (body world back delivery (pos 7)).1

-- The cache after Body.
abbrev checked_cache : Cache
checked_cache = record {
  entries =
      ("ann", record { used_bytes = pos 40; max_bytes = pos 100; is_default = false })
      ∷ ("bob", record { used_bytes = pos 40; max_bytes = pos 50; is_default = true })
      ∷ [];
  default_quota = pos 50;
}

is_checked : after_body.store.cache ≡ some checked_cache
unfolding body check_quotas get_quota find_row effective_default lookup get set_max update_used
    insert wrap64 ◌+ℤ◌
is_checked = refl

-- Another user's message arrives before Commit.
abbrev later_cache : Cache
later_cache = record checked_cache {
  entries =
      ("zed", record { used_bytes = pos 30; max_bytes = pos 20; is_default = false })
      ∷ checked_cache.entries;
}

abbrev later_store : Store
later_store = record store { cache = some later_cache }

undisturbed :
    All (λ u. lookup u later_cache.entries ≡ lookup u checked_cache.entries) ("ann" ∷ "bob" ∷ [])
unfolding lookup
undisturbed = (refl, (refl, tt))

commit_accepted : (commit world back (record after_body { store = later_store })).0 ≡ accepted
unfolding commit
commit_accepted = refl

within-commit_example :
    Committed world back
      (pos 7)
      ("ann" ∷ "bob" ∷ [])
      (commit world back (record after_body { store = later_store })).1.store.cache
within-commit_example =
    within-commit world back delivery cache (pos 7) refl in_force (λ u. refl) refl
      (refl, (refl, tt)) body_accepted later_store checked_cache later_cache is_checked refl
      undisturbed commit_accepted

bob_missed : cached store.cache "bob" ≡ none
unfolding get lookup
bob_missed = refl

bob_rowless : lookup "bob" store.quotas ≡ none
unfolding lookup
bob_rowless = refl

bob_made : (create_imap_acct world store "bob").0 ≡ false
unfolding create_imap_acct find_row lookup
bob_made = refl

bob_named : "bob" ≢ global_default
bob_named = λ e. cc

get_quota-create_imap_acct_example :
    ((get_quota world store "bob").0
      ≡ some (record { used = pos 40; max = effective_default world store; is_default = true }))
    × ((get_quota world (create_imap_acct world store "bob").1 "bob").0
        ≡ some (record { used = pos 40; max = pos 0; is_default = false }))
    × ((get
          (populated world (create_imap_acct world store "bob").1 ("bob" ∷ []) [])
          "bob").0.max_bytes
        ≡ effective_default world (create_imap_acct world store "bob").1)
get_quota-create_imap_acct_example =
    get_quota-create_imap_acct world store "bob" ("bob" ∷ []) [] bob_missed refl bob_named
      bob_rowless bob_made

ann_deleted : (delete_account world store "ann" (codes "spam")).0 ≡ false
unfolding delete_account block_user
ann_deleted = refl

still_on :
    store_jit_registration world (delete_account world store "ann" (codes "spam")).1 ≡ some true
unfolding store_jit_registration store_registration_open delete_account delete_imap_acct block_user
still_on = refl

login-delete_account_example :
    (has_user "ann" (delete_account world store "ann" (codes "spam")).1.users ≡ false)
    × (get_or_create_imap_acct world
          (delete_account world store "ann" (codes "spam")).1
          (some "ann")
        ≡ (invalid_credentials, (delete_account world store "ann" (codes "spam")).1))
login-delete_account_example =
    login-delete_account world store "ann" (codes "spam") true refl ann_deleted refl still_on

-- A delivery after Ann was deleted.
abbrev after_deletion : Delivery
after_deletion =
    record (start (record store { users = []; quotas = []; blocked = ("ann", codes "spam") ∷ [] })
      false) { log = [] }

nobody_added : lookup "ann" after_deletion.added ≡ none
unfolding lookup
nobody_added = refl

delivery_on : store_jit_registration world after_deletion.store ≡ some true
unfolding store_jit_registration store_registration_open
delivery_on = refl

users-add_rcpt_example :
    (has_user "ann" (add_rcpt world back after_deletion (codes "ann@b.com")).1.store.users ≡ true)
    × ((add_rcpt world back after_deletion (codes "ann@b.com")).1.store.blocked
        ≡ ("ann", codes "spam") ∷ [])
users-add_rcpt_example =
    users-add_rcpt world back after_deletion (codes "ann@b.com") "ann" refl nobody_added delivery_on
      refl
