-- ===== src/Storage/Created.antt =====
-- internal/storage/imapsql: the quota of an account that was just made.
use madmail.Prelude.{
  List, String, str_eq, Bool, true, false, ◌||◌, Option, none, some, ◌∷◌, any, ◌≡◌, ◌≢◌, refl, sym,
  ap, ◌∙◌, subst, if◌then◌else◌,
}
use madmail.Prelude.Int.{ℤ, pos}
use madmail.Prelude.Dict.{Dict, lookup, insert, lookup_same, update}
use madmail.Quota.{Cache, get}
use madmail.Quota.Loading.{loaded}
use madmail.Storage.Startup.{populated, overlay, baseline, get-populated}
use madmail.Storage.{
  global_default, Store, World, Row, new_row, no_row, as_row, or_zero, cached, answer, from_row,
  find_row, effective_default, get_quota, ensure_row, create_imap_acct, ignore_cache, on_cache,
}

cached-ignore :
    (o : Option Cache) (u : String)
    → cached (elim o [ none ↦ none | some c ↦ some (ignore_cache c) ]) u ≡ cached o u
cached-ignore none u = refl
cached-ignore (some c) u = refl

loaded-zero : (o : Option ℤ) (d : ℤ) → (loaded o (some (pos 0)) d).0.max_bytes ≡ d
loaded-zero none d = refl
loaded-zero (some n) d = refl

abbrev two_guards : {S : Type 0} → Bool → Bool → S → S → S → Bool × S
two_guards true y s t r = (true, s)
two_guards false true s t r = (true, t)
two_guards false false s t r = (false, r)

two_guards-passed :
    {S : Type 0} (x y : Bool) (s t r : S)
    → (two_guards x y s t r).0 ≡ false
    → (two_guards x y s t r).1 ≡ r
two_guards-passed true y s t r ok = cc
two_guards-passed false true s t r ok = cc
two_guards-passed false false s t r ok = refl

two_guards-is :
    {S : Type 0} (x y : Bool) (s t r : S)
    → (if x then (true, s) else if y then (true, t) else (false, r)) ≡ two_guards x y s t r
two_guards-is true y s t r = refl
two_guards-is false true s t r = refl
two_guards-is false false s t r = refl

module _ (w : World) where
  find_row-is :
      (s : Store) (u : String)
      → w.read_fails u ≡ false
      → find_row w s u ≡ as_row (lookup u s.quotas)
  find_row-is s u reads = unfold find_row in rw reads refl

  get_quota-missed :
      (s : Store) (u : String) (o : Option Row)
      → cached s.cache u ≡ none
      → w.read_fails u ≡ false
      → lookup u s.quotas ≡ o
      → get_quota w s u ≡ from_row w s u (or_zero (w.used u)) (as_row o)
  get_quota-missed s u o missed reads rows =
      unfold get_quota in
      ap (answer w s u) missed
      ∙ ap (from_row w s u (or_zero (w.used u))) (find_row-is s u reads ∙ ap as_row rows)

  abbrev fresh : Row
  fresh = record (new_row (pos 0)) { created_at = w.now; first_login_at = 1 }

  abbrev with_user : Store → String → Store
  with_user s u = record s { users = u ∷ s.users }

  created_is :
      (s : Store) (u : String)
      → w.read_fails u ≡ false
      → lookup u s.quotas ≡ none
      → (create_imap_acct w s u).0 ≡ false
      → (create_imap_acct w s u).1
        ≡ on_cache ignore_cache (record (with_user s u) { quotas = insert u fresh s.quotas })
  created_is s u reads absent ok =
      let refused : Bool = w.user_fails u || any (λ v. str_eq v u) s.users in
      let made =
        on_cache ignore_cache (record (with_user s u) { quotas = insert u fresh s.quotas }) in
      let rows : find_row w (with_user s u) u ≡ no_row =
        find_row-is (with_user s u) u reads ∙ ap as_row absent in
      let is_made : create_imap_acct w s u
          ≡ two_guards refused (w.write_fails u) s (with_user s u) made =
        unfold create_imap_acct in
        ap (λ f. if refused then (true, s) else ensure_row w (with_user s u) u f) rows
        ∙ two_guards-is refused (w.write_fails u) s (with_user s u) made in
      ap (λ x. x.1) is_made
      ∙ two_guards-passed refused (w.write_fails u) s (with_user s u) made
          (ap (λ x. x.0) (sym is_made) ∙ ok)

  limit-populated :
      (t : Store) (u : String) (r : Row) (users : List String) (usage : Dict ℤ)
      → u ≢ global_default
      → lookup u t.quotas ≡ some r
      → r.max_storage ≡ pos 0
      → (get (populated w t users usage) u).0.max_bytes ≡ effective_default w t
  limit-populated t u r users usage apart rows zero =
      let used = lookup u (overlay usage (baseline users)) in
      let d = effective_default w t in
      ap (λ x. x.0.max_bytes)
        (get-populated w t users usage u apart
          ∙ (ap (λ o. loaded used (update (λ x. x.max_storage) o) d) rows
              ∙ ap (λ n. loaded used (some n) d) zero))
      ∙ loaded-zero used d

  -- For a name without an account and a row, which the cache does not have, GetQuota reports the default
  -- quota in force; once CreateIMAPAcct made the account without an error it reports the maximum 0, which Body
  -- takes for no limit, as a maximum of its own; but after the next start, which fills the cache from the same
  -- rows, its limit in the cache is the default in force again. The rows of the name are read without an error,
  -- and it is not the key of the global default.
  pub get_quota-create_imap_acct :
      (s : Store) (u : String) (users : List String) (usage : Dict ℤ)
      → cached s.cache u ≡ none
      → w.read_fails u ≡ false
      → u ≢ global_default
      → lookup u s.quotas ≡ none
      → (create_imap_acct w s u).0 ≡ false
      → ((get_quota w s u).0
          ≡ some (record {
            used = or_zero (w.used u);
            max = effective_default w s;
            is_default = true;
          }))
        × ((get_quota w (create_imap_acct w s u).1 u).0
            ≡ some (record { used = or_zero (w.used u); max = pos 0; is_default = false }))
        × ((get (populated w (create_imap_acct w s u).1 users usage) u).0.max_bytes
            ≡ effective_default w (create_imap_acct w s u).1)
  get_quota-create_imap_acct s u users usage missed reads apart absent ok =
      let made =
        on_cache ignore_cache (record (with_user s u) { quotas = insert u fresh s.quotas }) in
      let stored = lookup_same u fresh s.quotas in
      let is_made = sym (created_is s u reads absent ok) in
      (
        ap (λ r. r.0) (get_quota-missed s u none missed reads absent),
        subst
            (λ t.
              (get_quota w t u).0
              ≡ some (record { used = or_zero (w.used u); max = pos 0; is_default = false }))
            is_made
            (ap (λ r. r.0)
              (get_quota-missed made u (some fresh) (cached-ignore s.cache u ∙ missed) reads
                stored)),
        subst (λ t. (get (populated w t users usage) u).0.max_bytes ≡ effective_default w t) is_made
            (limit-populated made u fresh users usage apart stored refl),
      )
