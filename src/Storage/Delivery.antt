-- ===== src/Storage/Delivery.antt =====
-- internal/storage/imapsql/delivery.go: a delivery into the store. The answers of the library below it and of the
-- filters are parameters, and the calls of that library are logged, the last one first.
use madmail.Prelude.{
  String, Bool, true, false, ◌&&◌, Option, none, some, List, [], ◌∷◌, Text, if◌then◌else◌,
}
use madmail.Prelude.Int.{ℤ, pos, ◌+ℤ◌, ltb_ℤ, wrap64}
use madmail.Prelude.Dict.{Dict, lookup, insert}
use madmail.Quota.{Cache, add_used}
use madmail.Storage.{
  Store, World, Answer, get_quota, create_imap_acct, store_jit_registration, on_cache,
}

-- What a call of the library ends in.
pub data BackAnswer : Type 0 where
  done no_user serialization failed : BackAnswer

pub data BackCall : Type 0 where
  adds_rcpt : String → BackCall
  user_mailbox : String → Text → List Text → BackCall
  special_mailbox body_parsed aborts commits : BackCall

pub record Back : Type 0 where
  pub normalize : Text → Option String
  pub add_rcpt : List BackCall → String → BackAnswer
  -- The folder and the flags; `none` is an error.
  pub filter : Option (String → Text → Option (Text × List Text))
  pub special_mailbox : BackAnswer
  pub body_parsed : BackAnswer
  pub commit : BackAnswer

pub data Reply : Type 0 where
  accepted does_not_exist try_later quota_exceeded internal_error : Reply

-- `added` is the map from an account to the address it was added with.
pub record Delivery : Type 0 where
  pub store : Store
  pub added : Dict Text
  pub body_len : ℤ
  pub is_quarantined : Bool
  pub log : List BackCall

abbrev pub start : Store → Bool → Delivery
start s is_quarantined = record {
  store = s;
  added = [];
  body_len = pos 0;
  is_quarantined = is_quarantined;
  log = [];
}

abbrev pub note : BackCall → Delivery → Delivery
note call d = record d { log = call ∷ d.log }

abbrev pub keys : Dict Text → List String
keys [] = []
keys ((account, rcpt) ∷ added) = account ∷ keys added

abbrev pub is_some : Option Text → Bool
is_some none = false
is_some (some t) = true

-- AddRcpt has its own answer for a user that does not exist; the other calls pass that error on.
abbrev pub rcpt_reply : BackAnswer → Reply
rcpt_reply done = accepted
rcpt_reply no_user = does_not_exist
rcpt_reply serialization = try_later
rcpt_reply failed = internal_error

abbrev pub body_reply : BackAnswer → Reply
body_reply done = accepted
body_reply no_user = internal_error
body_reply serialization = try_later
body_reply failed = internal_error

abbrev pub exceeds : Option Answer → ℤ → Bool
exceeds none len = false
exceeds (some q) len = ltb_ℤ (pos 0) q.max && ltb_ℤ q.max (wrap64 (q.used +ℤ len))

module _ (w : World) (b : Back) where
  -- With registration on login the account is made; an error of this is logged only.
  abbrev pub ensure_account : Store → String → Option Bool → Store
  ensure_account s account (some true) = (create_imap_acct w s account).1
  ensure_account s account (some false) = s
  ensure_account s account none = s

  abbrev pub record_rcpt : String → Text → BackAnswer → Delivery → Delivery
  record_rcpt account rcpt done d = record d { added = insert account rcpt d.added }
  record_rcpt account rcpt no_user d = d
  record_rcpt account rcpt serialization d = d
  record_rcpt account rcpt failed d = d

  abbrev pub add_new : Delivery → Text → String → Reply × Delivery
  add_new d rcpt account =
      let reply = b.add_rcpt d.log account in
      let s = ensure_account d.store account (store_jit_registration w d.store) in
      (
        rcpt_reply reply,
        record_rcpt account rcpt reply (note (adds_rcpt account) (record d { store = s })),
      )

  abbrev pub add_account : Delivery → Text → Option String → Reply × Delivery
  add_account d rcpt none = (does_not_exist, d)
  add_account d rcpt (some account) =
      if is_some (lookup account d.added) then (accepted, d) else add_new d rcpt account

  unfoldable pub add_rcpt : Delivery → Text → Reply × Delivery
  unfolding create_imap_acct store_jit_registration
  add_rcpt d rcpt = add_account d rcpt (b.normalize rcpt)

  -- The loop over the recipients' quotas: whether one is exceeded. A failed GetQuota is logged only.
  unfoldable pub check_quotas : Store → ℤ → List String → Bool × Store
  unfolding get_quota
  check_quotas s len [] = (false, s)
  check_quotas s len (account ∷ accounts) =
      let (q, s') = get_quota w s account in
      let rest = check_quotas s' len accounts in if exceeds q len then (true, s') else rest

  abbrev pub filed : Option (Text × List Text) → String → Delivery → Delivery
  filed none account d = d
  filed (some (folder, flags)) account d = note (user_mailbox account folder flags) d

  abbrev pub filter_all :
      (String → Text → Option (Text × List Text)) → Dict Text → Delivery → Delivery
  filter_all f [] d = d
  filter_all f ((account, rcpt) ∷ added) d = filter_all f added (filed (f account rcpt) account d)

  abbrev pub filtered : Option (String → Text → Option (Text × List Text)) → Delivery → Delivery
  filtered none d = d
  filtered (some f) d = if d.is_quarantined then d else filter_all f d.added d

  abbrev pub store_body : BackAnswer → Delivery → Reply × Delivery
  store_body done d = (body_reply b.body_parsed, note body_parsed d)
  store_body no_user d = (internal_error, d)
  store_body serialization d = (try_later, d)
  store_body failed d = (internal_error, d)

  abbrev pub put_in_mailbox : Delivery → Reply × Delivery
  put_in_mailbox d =
      if d.is_quarantined
      then store_body b.special_mailbox (note special_mailbox d)
      else store_body done d

  abbrev pub after_quotas : Delivery → Bool → Reply × Delivery
  after_quotas d true = (quota_exceeded, d)
  after_quotas d false = put_in_mailbox (filtered b.filter d)

  unfoldable pub body : Delivery → ℤ → Reply × Delivery
  unfolding check_quotas
  body d len =
      let (exceeded, s) = check_quotas d.store len (keys d.added) in
      after_quotas (record d { store = s; body_len = len }) exceeded

  -- The loop of Commit over the recipients.
  unfoldable pub add_all : ℤ → List String → Cache → Cache
  add_all len [] c = c
  add_all len (account ∷ accounts) c = add_all len accounts (add_used c account len).0

  abbrev pub after_commit : BackAnswer → Delivery → Reply × Delivery
  after_commit done d = (
    accepted,
    if ltb_ℤ (pos 0) d.body_len
        then record d { store = on_cache (add_all d.body_len (keys d.added)) d.store }
        else d,
  )
  after_commit no_user d = (internal_error, d)
  after_commit serialization d = (internal_error, d)
  after_commit failed d = (internal_error, d)

  unfoldable pub commit : Delivery → Reply × Delivery
  unfolding add_all
  commit d = after_commit b.commit (note commits d)
