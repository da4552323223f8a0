-- ===== src/Storage/Startup.antt =====
-- internal/storage/imapsql/imapsql.go: the quota cache as it is filled at the start.
use madmail.Prelude.{
  String, str_eq, str_eq_iff, Bool, true, false, Option, none, some, List, [], ◌∷◌, ◌≡◌, ◌≢◌, refl,
  ap, ◌∙◌, subst, arith, if◌then◌else◌, Bool-cases, inl, inr,
}
use madmail.Prelude.Int.{ℤ, pos}
use madmail.Prelude.Dict.{Dict, lookup, insert, lookup-insert, update}
use madmail.Quota.{Cache, load, get}
use madmail.Quota.Loading.{IsMap, loaded, get-load}
use madmail.Storage.{Store, World, Row, global_default, effective_default}

-- The usage map of an account list: 0 for each.
unfoldable pub baseline : List String → Dict ℤ
baseline [] = []
baseline (u ∷ users) = insert u (pos 0) (baseline users)

unfoldable pub overlay : Dict ℤ → Dict ℤ → Dict ℤ
overlay [] m = m
overlay ((u, used) ∷ usage) m = insert u used (overlay usage m)

-- The maxima of the rows, without the global default.
unfoldable pub quota_map : Dict Row → Dict ℤ
quota_map [] = []
quota_map ((u, r) ∷ rows) =
    let rest = quota_map rows in
    if str_eq u global_default then rest else insert u r.max_storage rest

module _ (w : World) where
  abbrev pub populated : Store → List String → Dict ℤ → Cache
  populated s users usage =
      load (overlay usage (baseline users)) (quota_map s.quotas) (effective_default w s)

  -- populateQuotaCache, with the answers of ListIMAPAccts and GetAllUsedStorage and whether the rows can be read.
  unfoldable pub populate_quota_cache :
      Store → Option (List String) → Option (Dict ℤ) → Bool → Bool × Store
  unfolding baseline overlay quota_map effective_default
  populate_quota_cache s none usage rows_fail = (true, s)
  populate_quota_cache s (some users) none rows_fail = (true, s)
  populate_quota_cache s (some users) (some usage) rows_fail =
      if rows_fail then (true, s) else (false, record s { cache = some (populated s users usage) })

lookup-quota_map :
    (u : String) (rows : Dict Row)
    → u ≢ global_default
    → lookup u (quota_map rows) ≡ update (λ r. r.max_storage) (lookup u rows)
unfolding quota_map lookup
lookup-quota_map u [] apart = refl
lookup-quota_map u ((v, r) ∷ rows) apart = ground (
  arith,
  lookup-quota_map u rows apart,
  lookup-insert v u r.max_storage (quota_map rows),
  str_eq_iff v u,
  str_eq_iff v global_default,
)

IsMap-insert : (u : String) (n : ℤ) (m : Dict ℤ) → IsMap m → IsMap (insert u n m)
unfolding insert
IsMap-insert u n [] h = (unfold lookup in refl, tt)
IsMap-insert u n ((v, k) ∷ m) (absent, rest) = elim (Bool-cases (str_eq v u)) [
  | inl same ↦ rw same (subst (λ x. lookup x m ≡ none) ((str_eq_iff v u).0 same) absent, rest)
  | inr other ↦ rw other (
    lookup-insert u v n m ∙ ground (arith, str_eq_iff u v, str_eq_iff v u, absent),
    IsMap-insert u n m rest,
  )
]

IsMap-quota_map : (rows : Dict Row) → IsMap (quota_map rows)
unfolding quota_map
IsMap-quota_map [] = tt
IsMap-quota_map ((v, r) ∷ rows) = elim (Bool-cases (str_eq v global_default)) [
  | inl is_default ↦ rw is_default (IsMap-quota_map rows)
  | inr other ↦ rw other (IsMap-insert v r.max_storage (quota_map rows) (IsMap-quota_map rows))
]

-- After the start, the cache has the usage that was read, or 0, for each account and each row, and a positive maximum of the
-- row as the limit, else the default quota in force.
pub get-populated :
    (w : World) (s : Store) (users : List String) (usage : Dict ℤ) (u : String)
    → u ≢ global_default
    → get (populated w s users usage) u
      ≡ loaded
          (lookup u (overlay usage (baseline users)))
          (update (λ r. r.max_storage) (lookup u s.quotas))
          (effective_default w s)
get-populated w s users usage u apart =
    get-load (overlay usage (baseline users)) (quota_map s.quotas) (effective_default w s) u
      (IsMap-quota_map s.quotas)
    ∙ ap (λ o. loaded (lookup u (overlay usage (baseline users))) o (effective_default w s))
        (lookup-quota_map u s.quotas apart)
