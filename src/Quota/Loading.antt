-- ===== src/Quota/Loading.antt =====
-- What `Get` answers after the bulk load at start-up.
use madmail.Prelude.{
  String, Bool, true, false, Option, none, some, [], ◌∷◌, ◌≡◌, refl, arith, str_eq_iff,
  if◌then◌else◌,
}
use madmail.Prelude.Int.{ℤ, pos, ltb_ℤ}
use madmail.Prelude.Dict.{Dict, lookup, lookup-insert, lookup-map_values, update}
use madmail.Quota.{
  Entry, zero_entry, or_else, missing, apply_max, seed_used, apply_quotas, load, get,
}

abbrev used_entry : ℤ → Entry
used_entry n = record zero_entry { used_bytes = n }

lookup-seed_used :
    (u : String) (m : Dict ℤ) → lookup u (seed_used m) ≡ update used_entry (lookup u m)
unfolding seed_used lookup
lookup-seed_used u [] = refl
lookup-seed_used u ((v, n) ∷ m) = rw (lookup-insert v u) (ground (arith, lookup-seed_used u m))

-- One entry after the second loop.
abbrev with_quota : Option ℤ → Option Entry → Option Entry
with_quota none e = e
with_quota (some n) e = some (apply_max n (or_else e zero_entry))

-- A Go map has no key twice.
abbrev pub IsMap : Dict ℤ → Type 0
IsMap [] = Unit {0}
IsMap ((k, v) ∷ m) = (lookup k m ≡ none) × IsMap m

lookup-apply_quotas :
    (u : String) (q : Dict ℤ) (m : Dict Entry)
    → IsMap q
    → lookup u (apply_quotas q m) ≡ with_quota (lookup u q) (lookup u m)
unfolding apply_quotas lookup
lookup-apply_quotas u [] m d = refl
lookup-apply_quotas u ((v, n) ∷ q) m d =
    rw (lookup-insert v u)
      (ground (arith, lookup-apply_quotas u q m d.1, lookup-apply_quotas v q m d.1, str_eq_iff v u))

abbrev pub used_of : Option ℤ → ℤ
used_of none = pos 0
used_of (some n) = n

-- The loaded entry: a positive quota is the user's own, any other gives way to the default.
abbrev own_quota : ℤ → ℤ → ℤ → Entry
own_quota used n default_quota =
    if ltb_ℤ (pos 0) n
    then record { used_bytes = used; max_bytes = n; is_default = false }
    else record { used_bytes = used; max_bytes = default_quota; is_default = true }

abbrev pub loaded : Option ℤ → Option ℤ → ℤ → Entry × Bool
loaded none none d = (missing d, true)
loaded (some used) none d = (record { used_bytes = used; max_bytes = d; is_default = true }, false)
loaded used (some n) d = (own_quota (used_of used) n d, false)

-- After `Load` of a usage map and of a quota map without double keys, `Get` of a user misses exactly
-- if the user is in neither map; else it reports the loaded usage (0 without one), with the user's
-- quota if that is positive and the global default, marked as such, if not.
pub get-load :
    (used quotas : Dict ℤ) (d : ℤ) (u : String)
    → IsMap quotas
    → get (load used quotas d) u ≡ loaded (lookup u used) (lookup u quotas) d
unfolding get load
get-load used quotas d u unique = rw lookup-map_values (
    rw (lookup-apply_quotas u quotas (seed_used used) unique)
      (rw (lookup-seed_used u used) (ground arith)))
