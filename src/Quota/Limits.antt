-- ===== src/Quota/Limits.antt =====
-- The cache as a table of limits: a global default and an override for some users. `Get` reports
-- the override, or the default, and each call changes the table as its doc comment says.
use madmail.Prelude.{
  String, Bool, true, false, Option, none, some, ◌≡◌, refl, arith, str_eq, ap, ◌∙◌, str_eq_iff,
  if◌then◌else◌, Option-cases, inl, inr,
}
use madmail.Prelude.Int.{ℤ, pos, ltb_ℤ, Int64, wrap64-eq, wrap64-Int64, ◌+ℤ◌, ◌≤ℤ◌}
use madmail.Prelude.Dict.{lookup, lookup-insert, lookup-delete, lookup-map_values}
use madmail.Quota.{
  Entry, Cache, or_else, missing, Call, loads, sets_max, resets_max, sets_default, updates_used,
  adds_used, invalidates, invalidates_all, load, get, set_max, reset_max, set_default_quota,
  update_used, bump, add_used, invalidate, invalidate_all, step,
}
use madmail.Quota.Defaults.{IsConsistent, step-IsConsistent}

-- The limit that an administrator set for a user.
abbrev override_of : Option Entry → Option ℤ
override_of none = none
override_of (some e) = if e.is_default then none else some e.max_bytes

pub override : Cache → String → Option ℤ
override c u = override_of (lookup u c.entries)

abbrev pub limit : Option ℤ → ℤ → ℤ
limit none default_quota = default_quota
limit (some n) default_quota = n

-- `Get` reports the user's override, and the global default for a user without one.
pub get-limit :
    (c : Cache) (u : String)
    → IsConsistent c
    → (get c u).0.max_bytes ≡ limit (override c u) c.default_quota
unfolding get override
get-limit c u k = ground (arith, k.at_user u)

-- What the admin operations do to the table of overrides.
abbrev next_override : Call → String → Option ℤ → Option ℤ
next_override (sets_max v n) u o = if str_eq v u then some n else o
next_override (resets_max v) u o = if str_eq v u then none else o
next_override (invalidates v) u o = if str_eq v u then none else o
next_override invalidates_all u o = none
next_override _ u o = o

abbrev next_default : Call → ℤ → ℤ
next_default (sets_default n) d = n
next_default (loads used quotas n) d = n
next_default _ d = d

abbrev is_load : Call → Bool
is_load (loads used quotas n) = true
is_load _ = false

default_quota-step :
    (c : Cache) (call : Call) → (step c call).default_quota ≡ next_default call c.default_quota
unfolding step load set_max reset_max set_default_quota update_used add_used invalidate
    invalidate_all
default_quota-step c (loads used quotas d) = refl
default_quota-step c (resets_max v) = ground arith
default_quota-step c _ = refl

override-reset_max :
    (c : Cache) (v u : String)
    → override (reset_max c v) u ≡ (if str_eq v u then none else override c u)
unfolding override reset_max
override-reset_max c v u = elim (Option-cases (lookup v c.entries)) [
  | inl absent ↦ rw (absent, reset_max) (ground (arith, str_eq_iff v u))
  | inr (e, present) ↦ rw (present, reset_max) (rw lookup-insert (ground arith))
]

override-step :
    (c : Cache) (call : Call) (u : String)
    → is_load call ≡ false
    → override (step c call) u ≡ next_override call u (override c u)
unfolding step override set_max set_default_quota update_used add_used invalidate invalidate_all
    lookup
override-step c (loads used quotas d) u h = cc
override-step c (sets_max v n) u h = rw lookup-insert (ground arith)
override-step c (resets_max v) u h = override-reset_max c v u
override-step c (sets_default n) u h = rw lookup-map_values (ground arith)
override-step c (updates_used v n) u h = rw lookup-insert (ground (arith, str_eq_iff v u))
override-step c (adds_used v n) u h = rw lookup-insert (ground (arith, str_eq_iff v u))
override-step c (invalidates v) u h = rw lookup-delete (ground arith)
override-step c invalidates_all u h = refl

-- In a consistent cache, every call but the bulk load changes the limit that `Get` reports for each
-- user as the table of overrides and the default say: `SetMax` sets one user's own limit, `ResetMax`
-- and `Invalidate` drop it, `InvalidateAll` drops all, `SetDefaultQuota` moves exactly the users
-- without one, and the usage updates change no limit.
pub step-limit :
    (c : Cache) (call : Call) (u : String)
    → IsConsistent c
    → is_load call ≡ false
    → (get (step c call) u).0.max_bytes
      ≡ limit (next_override call u (override c u)) (next_default call c.default_quota)
step-limit c call u k h = rw (
  get-limit (step c call) u (step-IsConsistent c call k),
  override-step c call u h,
  default_quota-step c call,
)

abbrev pub clamp : ℤ → ℤ
clamp z = if ltb_ℤ z (pos 0) then pos 0 else z

bump_bounds : (used delta : ℤ) → (pos 0 ≤ℤ bump used delta) × Int64 (bump used delta)
unfolding bump
bump_bounds used delta = ground (arith, wrap64-Int64 (used +ℤ delta))

-- `AddUsed` returns a value that is not negative and fits an int64, and stores it: afterwards `Get`
-- reports it for that user with the limit that it reported before, and answers as before for all
-- others.
pub get-add_used :
    (c : Cache) (v u : String) (delta : ℤ)
    → let (c', used) = add_used c v delta in
      (get c' u
        ≡ (if str_eq v u then (record (get c v).0 { used_bytes = used }, false) else get c u))
      × (pos 0 ≤ℤ used)
      × Int64 used
unfolding add_used get
get-add_used c v u delta = (
  rw (lookup-insert v u) (ground (arith, str_eq_iff v u)),
  (bump_bounds _ delta).0,
  (bump_bounds _ delta).1,
)

bump_exact : (used delta : ℤ) → Int64 (used +ℤ delta) → bump used delta ≡ clamp (used +ℤ delta)
unfolding bump
bump_exact used delta h = rw (wrap64-eq (used +ℤ delta) h)

stored-get :
    (c : Cache) (v : String)
    → (or_else (lookup v c.entries) (missing c.default_quota)).used_bytes ≡ (get c v).0.used_bytes
unfolding get
stored-get c v = ground arith

-- Where the exact sum of the usage that `Get` reports and the change fits an int64, `AddUsed` returns
-- it, cut off at 0.
pub add_used_exact :
    (c : Cache) (v : String) (delta : ℤ)
    → Int64 ((get c v).0.used_bytes +ℤ delta)
    → (add_used c v delta).1 ≡ clamp ((get c v).0.used_bytes +ℤ delta)
unfolding add_used
add_used_exact c v delta h = ap (λ n. bump n delta) (stored-get c v) ∙ bump_exact _ delta h
