-- ===== src/Quota/Defaults.antt =====
-- The cache's invariant: an entry that follows the default holds the current default.
use madmail.Prelude.{
  String, true, false, Option, none, some, List, [], ◌∷◌, ◌≡◌, arith, Option-cases, inl, inr,
}
use madmail.Prelude.Int.{ℤ}
use madmail.Prelude.Dict.{Dict, lookup, lookup-insert, lookup-delete, lookup-map_values}
use madmail.Quota.{
  Entry, Cache, Call, loads, sets_max, resets_max, sets_default, updates_used, adds_used,
  invalidates, invalidates_all, new, seed_used, apply_quotas, load, set_max, reset_max,
  set_default_quota, update_used, add_used, invalidate, invalidate_all, step, run,
}

-- An entry that follows the default holds `default_quota`.
abbrev pub Follows : ℤ → Option Entry → Type 0
Follows default_quota none = Unit {0}
Follows default_quota (some e) = e.is_default ≡ true → e.max_bytes ≡ default_quota

abbrev pub IsCustom : Option Entry → Type 0
IsCustom none = Unit {0}
IsCustom (some e) = e.is_default ≡ false

pub record IsConsistent (c : Cache) : Type 0 where
  pub at_user : (u : String) → Follows c.default_quota (lookup u c.entries)

pub seed_used-IsCustom : (u : String) (m : Dict ℤ) → IsCustom (lookup u (seed_used m))
unfolding seed_used lookup
seed_used-IsCustom u [] = tt
seed_used-IsCustom u ((v, n) ∷ m) = rw (lookup-insert v u) (ground (arith, seed_used-IsCustom u m))

pub apply_quotas-IsCustom :
    (q : Dict ℤ) (m : Dict Entry)
    → ((v : String) → IsCustom (lookup v m))
    → (u : String) → IsCustom (lookup u (apply_quotas q m))
unfolding apply_quotas
apply_quotas-IsCustom [] m custom u = custom u
apply_quotas-IsCustom ((v, n) ∷ q) m custom u =
    rw (lookup-insert v u)
      (ground (arith, apply_quotas-IsCustom q m custom u, apply_quotas-IsCustom q m custom v))

load-IsConsistent : (used quotas : Dict ℤ) (d : ℤ) → IsConsistent (load used quotas d)
unfolding load
load-IsConsistent used quotas d = record {
  at_user = λ u. rw lookup-map_values (
      ground
        (arith, apply_quotas-IsCustom quotas (seed_used used) (λ v. seed_used-IsCustom v used) u));
}

module _ (c : Cache) (k : IsConsistent c) (v : String) where
  set_max-IsConsistent : (n : ℤ) → IsConsistent (set_max c v n)
  unfolding set_max
  set_max-IsConsistent n = record { at_user = λ u. rw lookup-insert (ground (arith, k.at_user u)) }

  reset_max-IsConsistent : IsConsistent (reset_max c v)
  unfolding reset_max
  reset_max-IsConsistent = elim (Option-cases (lookup v c.entries)) [
    | inl absent ↦ rw (absent, reset_max) k
    | inr (e, present) ↦
        rw (present, reset_max)
          (record { at_user = λ u. rw lookup-insert (ground (arith, k.at_user u)) })
  ]

  update_used-IsConsistent : (n : ℤ) → IsConsistent (update_used c v n)
  unfolding update_used
  update_used-IsConsistent n = record {
    at_user = λ u. rw lookup-insert (ground (arith, k.at_user u, k.at_user v));
  }

  add_used-IsConsistent : (n : ℤ) → IsConsistent (add_used c v n).0
  unfolding add_used
  add_used-IsConsistent n = record {
    at_user = λ u. rw lookup-insert (ground (arith, k.at_user u, k.at_user v));
  }

  invalidate-IsConsistent : IsConsistent (invalidate c v)
  unfolding invalidate
  invalidate-IsConsistent = record { at_user = λ u. rw lookup-delete (ground (arith, k.at_user u)) }

set_default_quota-IsConsistent :
    (c : Cache) (n : ℤ) → IsConsistent c → IsConsistent (set_default_quota c n)
unfolding set_default_quota
set_default_quota-IsConsistent c n k = record {
  at_user = λ u. rw lookup-map_values (ground (arith, k.at_user u));
}

-- Every call of the cache keeps it consistent.
pub step-IsConsistent : (c : Cache) (call : Call) → IsConsistent c → IsConsistent (step c call)
unfolding step invalidate_all lookup
step-IsConsistent c (loads used quotas d) k = load-IsConsistent used quotas d
step-IsConsistent c (sets_max v n) k = set_max-IsConsistent c k v n
step-IsConsistent c (resets_max v) k = reset_max-IsConsistent c k v
step-IsConsistent c (sets_default n) k = set_default_quota-IsConsistent c n k
step-IsConsistent c (updates_used v n) k = update_used-IsConsistent c k v n
step-IsConsistent c (adds_used v d) k = add_used-IsConsistent c k v d
step-IsConsistent c (invalidates v) k = invalidate-IsConsistent c k v
step-IsConsistent c invalidates_all k = record { at_user = λ u. tt }

run_from-IsConsistent :
    (c : Cache) (calls : List Call) → IsConsistent c → IsConsistent (run c calls)
unfolding run
run_from-IsConsistent c [] k = k
run_from-IsConsistent c (call ∷ calls) k =
    run_from-IsConsistent (step c call) calls (step-IsConsistent c call k)

-- After any sequence of calls on a new cache, every entry that is marked as following the default
-- holds the cache's current default quota.
pub run-IsConsistent : (calls : List Call) → IsConsistent (run new calls)
unfolding lookup
run-IsConsistent calls = run_from-IsConsistent new calls (record { at_user = λ u. tt })
