-- ===== src/Storage/Revived.antt =====
-- internal/storage/imapsql/delivery.go: the accounts that AddRcpt makes.
use madmail.Prelude.{
  String, str_eq_iff, Bool, true, false, ◌==◌, none, some, ◌∷◌, Text, ◌≡◌, refl, sym, ap, ◌∙◌,
  subst, arith, if◌then◌else◌, Bool-cases, inl, inr,
}
use madmail.Prelude.Dict.{lookup}
use madmail.Storage.{
  Store, World, Row, FoundRow, no_row, row, read_error, find_row, save, ensure_row,
  create_imap_acct, ignore_cache, store_jit_registration,
}
use madmail.Storage.Accounts.{has_user}
use madmail.Storage.Delivery.{
  Back, BackAnswer, done, no_user, serialization, failed, Delivery, add_rcpt, add_new, record_rcpt,
  note, adds_rcpt, ensure_account,
}

module _ (w : World) where
  -- The user is there, and the block list is as it was.
  abbrev IsThere : String → Store → Store → Type 0
  IsThere u s t = (has_user u t.users ≡ true) × (t.blocked ≡ s.blocked)

  IsThere-save :
      (s t : Store) (u : String) (r : Row)
      → IsThere u s t
      → IsThere u s (save w t u r ignore_cache).1
  IsThere-save s t u r h = elim (Bool-cases (w.write_fails u)) [
    | inl fails ↦ rw fails h
    | inr works ↦ rw works h
  ]

  IsThere-ensure_row :
      (s t : Store) (u : String) (f : FoundRow) → IsThere u s t → IsThere u s (ensure_row w t u f).1
  IsThere-ensure_row s t u read_error h = h
  IsThere-ensure_row s t u no_row h = IsThere-save s t u _ h
  IsThere-ensure_row s t u (row r) h =
      let kept : Bool → Bool × Store =
        λ x. if x then save w t u (record r { created_at = w.now }) ignore_cache else (false, t) in
      elim (Bool-cases (r.created_at == 0)) [
        | inl unset ↦ subst (λ x. IsThere u s (kept x).1) (sym unset) (IsThere-save s t u _ h)
        | inr set ↦ subst (λ x. IsThere u s (kept x).1) (sym set) h
      ]

  IsThere-create_imap_acct :
      (s : Store) (u : String) → w.user_fails u ≡ false → IsThere u s (create_imap_acct w s u).1
  unfolding create_imap_acct
  IsThere-create_imap_acct s u works = elim (Bool-cases (has_user u s.users)) [
    | inl present ↦ rw (works, present) (present, refl)
    | inr absent ↦
        rw (works, absent)
          (IsThere-ensure_row s (record s { users = u ∷ s.users }) u
            (find_row w (record s { users = u ∷ s.users }) u)
            (ground (arith, str_eq_iff u u), refl))
  ]

  store-record_rcpt :
      (b : Back) (u : String) (rcpt : Text) (a : BackAnswer) (d : Delivery)
      → (record_rcpt w b u rcpt a d).store ≡ d.store
  store-record_rcpt b u rcpt done d = refl
  store-record_rcpt b u rcpt no_user d = refl
  store-record_rcpt b u rcpt serialization d = refl
  store-record_rcpt b u rcpt failed d = refl

  -- With registration on login, AddRcpt for a name that the delivery does not have yet makes the account, if
  -- it is not there, also where the name is on the block list, and leaves the block list as it was: an
  -- account that DeleteAccount removed and blocked is there again. The library makes the user without an error.
  pub users-add_rcpt :
      (b : Back) (d : Delivery) (rcpt : Text) (u : String)
      → b.normalize rcpt ≡ some u
      → lookup u d.added ≡ none
      → store_jit_registration w d.store ≡ some true
      → w.user_fails u ≡ false
      → (has_user u (add_rcpt w b d rcpt).1.store.users ≡ true)
        × ((add_rcpt w b d rcpt).1.store.blocked ≡ d.store.blocked)
  users-add_rcpt b d rcpt u named fresh jit works =
      let s = ensure_account w b d.store u (store_jit_registration w d.store) in
      let d' : Delivery = note (adds_rcpt u) (record d { store = s }) in
      let is_new : add_rcpt w b d rcpt ≡ add_new w b d rcpt u =
        unfold add_rcpt in rw (named, fresh) refl in
      let is_store : (add_rcpt w b d rcpt).1.store ≡ (create_imap_acct w d.store u).1 =
        ap (λ x. x.1.store) is_new
        ∙ (store-record_rcpt b u rcpt (b.add_rcpt d.log u) d'
            ∙ ap (ensure_account w b d.store u) jit) in
      subst (IsThere u d.store) (sym is_store) (IsThere-create_imap_acct d.store u works)
