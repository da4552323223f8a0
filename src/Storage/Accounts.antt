-- ===== src/Storage/Accounts.antt =====
-- internal/storage/imapsql/imapsql.go and maddyctl.go: the removal of accounts, the block list, and the account that a
-- login opens; and internal/storage/imapsql/delivery.go against them.
use madmail.Prelude.{
  ℕ, String, str_eq, Bool, true, false, not, ◌||◌, Option, none, some, List, [], ◌∷◌, any, ◌==◌,
  Text, codes, ◌≡◌, refl, sym, ap, ◌∙◌, subst, arith, if◌then◌else◌, Bool-cases, inl, inr,
}
use madmail.Prelude.Dict.{lookup, insert, delete, lookup_same}
use madmail.Quota.{invalidate}
use madmail.Auth.{is_empty}
use madmail.Storage.{
  Store, World, Row, FoundRow, no_row, row, read_error, find_row, save, ensure_row, ignore_cache,
  on_cache, store_jit_registration,
}

abbrev pub has_user : String → List String → Bool
has_user u users = any (λ v. str_eq v u) users

abbrev pub without : String → List String → List String
without u [] = []
without u (v ∷ users) = let rest = without u users in if str_eq v u then rest else v ∷ rest

pub data Login : Type 0 where
  opened invalid_credentials store_error : Login

abbrev pub is_listed : Option Text → Bool
is_listed none = false
is_listed (some reason) = true

module _ (w : World) where
  -- DeleteIMAPAcct: the row goes first, whether the user exists or not.
  unfoldable pub delete_imap_acct : Store → String → Bool × Store
  delete_imap_acct s u =
      let s' = record s { quotas = delete u s.quotas } in
      if w.user_fails u || not (has_user u s.users)
      then (true, s')
      else (false, record s' { users = without u s'.users })

  unfoldable pub block_user : Store → String → Text → Bool × Store
  block_user s u reason =
      if w.block_fails u
      then (true, s)
      else (false, record s { blocked = insert u reason s.blocked })

  unfoldable pub unblock_user : Store → String → Bool × Store
  unblock_user s u =
      if w.block_fails u then (true, s) else (false, record s { blocked = delete u s.blocked })

  -- IsBlocked; `none` is its error.
  abbrev pub is_blocked : Store → String → Option Bool
  is_blocked s u = if w.block_read_fails u then none else some (is_listed (lookup u s.blocked))

  abbrev pub reason_or : Text → Text
  reason_or reason = if is_empty reason then codes "account deleted" else reason

  -- DeleteAccount: an error of DeleteIMAPAcct is logged only.
  unfoldable pub delete_account : Store → String → Text → Bool × Store
  unfolding delete_imap_acct block_user
  delete_account s u reason =
      let s' = (delete_imap_acct s u).1 in
      block_user (on_cache (λ c. invalidate c u) (record s' { quotas = delete u s'.quotas })) u
        (reason_or reason)

  abbrev pub or_false : Option Bool → Bool
  or_false none = false
  or_false (some b) = b

  -- An error of the row of an account that a login opens is logged only.
  abbrev pub open_user : Store → String → Login × Store
  open_user s u = (opened, (ensure_row w s u (find_row w s u)).1)

  abbrev pub get_or_create_user : Store → String → Login × Store
  get_or_create_user s u =
      if has_user u s.users
      then open_user s u
      else if w.user_fails u
      then (store_error, s)
      else open_user (record s { users = u ∷ s.users }) u

  abbrev pub get_user : Store → String → Login × Store
  get_user s u =
      if w.user_fails u
      then (store_error, s)
      else if has_user u s.users
      then open_user s u
      else (invalid_credentials, s)

  abbrev pub login_jit : Store → String → Option Bool → Login × Store
  login_jit s u none = (store_error, s)
  login_jit s u (some true) =
      if or_false (is_blocked s u) then (invalid_credentials, s) else get_or_create_user s u
  login_jit s u (some false) = get_user s u

  abbrev pub login_account : Store → Option String → Login × Store
  login_account s none = (invalid_credentials, s)
  login_account s (some u) = login_jit s u (store_jit_registration w s)

  -- GetOrCreateIMAPAcct, with the normalized name.
  unfoldable pub get_or_create_imap_acct : Store → Option String → Login × Store
  unfolding find_row store_jit_registration
  get_or_create_imap_acct s account = login_account s account

  abbrev pub login_times : Row → Row
  login_times r = record r {
    last_login_at = w.now;
    first_login_at = if r.first_login_at == 1 then w.now else r.first_login_at;
  }

  abbrev pub update_found : Store → String → FoundRow → Bool × Store
  update_found s u no_row = (false, s)
  update_found s u read_error = (true, s)
  update_found s u (row r) = save w s u (login_times r) ignore_cache

  unfoldable pub update_first_login : Store → String → Bool × Store
  unfolding find_row
  update_first_login s u = update_found s u (find_row w s u)

  -- The loop of PruneUnusedAccounts over the rows that its query found, with the deletions from the table of
  -- passwords; an account whose deletion fails is passed over.
  unfoldable pub prune : (String → Bool) → List String → Store → ℕ × List String × Store
  unfolding delete_imap_acct
  prune auth_fails [] s = (0, [], s)
  prune auth_fails (u ∷ us) s =
      let r = delete_imap_acct s u in
      let rest = prune auth_fails us r.1 in
      if r.0 then rest else (ℕ.suc rest.0, (if auth_fails u then rest.1 else u ∷ rest.1), rest.2)

  has_user-without : (u : String) (users : List String) → has_user u (without u users) ≡ false
  has_user-without u [] = refl
  has_user-without u (v ∷ users) = ground (arith, has_user-without u users)

  block_user-listed :
      (s : Store) (u : String) (reason : Text)
      → (block_user s u reason).0 ≡ false
      → ((block_user s u reason).1.users ≡ s.users)
        × (lookup u (block_user s u reason).1.blocked ≡ some reason)
  unfolding block_user
  block_user-listed s u reason ok = elim (Bool-cases (w.block_fails u)) [
    | inl fails ↦ let wrong = rw fails at ok in cc (wrong)
    | inr works ↦ rw works (refl, lookup_same u reason s.blocked)
  ]

  has_user-delete_imap_acct :
      (s : Store) (u : String)
      → w.user_fails u ≡ false
      → has_user u (delete_imap_acct s u).1.users ≡ false
  unfolding delete_imap_acct
  has_user-delete_imap_acct s u works = elim (Bool-cases (has_user u s.users)) [
    | inl present ↦ rw (works, present) (has_user-without u s.users)
    | inr absent ↦ rw (works, absent) absent
  ]

  deleted :
      (s : Store) (u : String) (reason : Text)
      → w.user_fails u ≡ false
      → (delete_account s u reason).0 ≡ false
      → (has_user u (delete_account s u reason).1.users ≡ false)
        × (lookup u (delete_account s u reason).1.blocked ≡ some (reason_or reason))
  deleted s u reason works ok =
      let s' = (delete_imap_acct s u).1 in
      let s'' = on_cache (λ c. invalidate c u) (record s' { quotas = delete u s'.quotas }) in
      let is_block : delete_account s u reason ≡ block_user s'' u (reason_or reason) =
        unfold delete_account in refl in
      let (same, listed) =
        block_user-listed s'' u (reason_or reason) (ap (λ x. x.0) (sym is_block) ∙ ok) in
      subst (λ x. (has_user u x.1.users ≡ false) × (lookup u x.1.blocked ≡ some (reason_or reason)))
        (sym is_block) (ap (has_user u) same ∙ has_user-delete_imap_acct s u works, listed)

  login-listed :
      (t : Store) (u : String) (reason : Text) (on : Bool)
      → w.user_fails u ≡ false
      → has_user u t.users ≡ false
      → lookup u t.blocked ≡ some reason
      → w.block_read_fails u ≡ false
      → store_jit_registration w t ≡ some on
      → get_or_create_imap_acct t (some u) ≡ (invalid_credentials, t)
  login-listed t u reason true works absent listed reads jit =
      unfold get_or_create_imap_acct in ap (login_jit t u) jit ∙ (rw (reads, listed) refl)
  login-listed t u reason false works absent listed reads jit =
      unfold get_or_create_imap_acct in ap (login_jit t u) jit ∙ (rw (works, absent) refl)

  -- After DeleteAccount without an error of the user's deletion and of the block list, a login of the name is refused as
  -- having invalid credentials and changes nothing, with registration on login or without: the account
  -- is not made again. The switch and the block list can be read.
  pub login-delete_account :
      (s : Store) (u : String) (reason : Text) (on : Bool)
      → w.user_fails u ≡ false
      → (delete_account s u reason).0 ≡ false
      → w.block_read_fails u ≡ false
      → store_jit_registration w (delete_account s u reason).1 ≡ some on
      → (has_user u (delete_account s u reason).1.users ≡ false)
        × (get_or_create_imap_acct (delete_account s u reason).1 (some u)
            ≡ (invalid_credentials, (delete_account s u reason).1))
  login-delete_account s u reason on users ok reads jit =
      let t = (delete_account s u reason).1 in
      let (absent, listed) = deleted s u reason users ok in
      (absent, login-listed t u (reason_or reason) on users absent listed reads jit)
