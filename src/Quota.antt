-- ===== src/Quota.antt =====
-- internal/quota/cache.go: the in-memory quota cache. Every method holds the lock for its whole
-- body, so a run of the cache is a sequence of these operations. Go's map is an association list,
-- and int64 is an integer with its wrap-around at `+=`.
pub mod Defaults
pub mod Loading
pub mod Limits
mod Tests
use madmail.Prelude.{
  ℕ, String, Bool, true, false, ◌&&◌, Option, none, some, List, [], ◌∷◌, length, if◌then◌else◌,
}
use madmail.Prelude.Int.{ℤ, pos, ◌+ℤ◌, ltb_ℤ, eqb_ℤ, wrap64}
use madmail.Prelude.Dict.{Dict, lookup, insert, delete, map_values}

pub record Entry : Type 0 where
  pub used_bytes : ℤ
  pub max_bytes : ℤ
  pub is_default : Bool

-- Go's zero value, `&Entry{}`.
abbrev pub zero_entry : Entry
zero_entry = record { used_bytes = pos 0; max_bytes = pos 0; is_default = false }

pub record Cache : Type 0 where
  pub entries : Dict Entry
  pub default_quota : ℤ

abbrev pub new : Cache
new = record { entries = []; default_quota = pos 0 }

abbrev pub or_else : Option Entry → Entry → Entry
or_else none d = d
or_else (some e) d = e

-- The first loop of `Load`.
unfoldable pub seed_used : Dict ℤ → Dict Entry
seed_used [] = []
seed_used ((username, used) ∷ rest) =
    insert username (record zero_entry { used_bytes = used }) (seed_used rest)

abbrev apply_max : ℤ → Entry → Entry
apply_max max_bytes e =
    if ltb_ℤ (pos 0) max_bytes then record e { max_bytes = max_bytes; is_default = false } else e

-- The second loop: an entry is made for a user without usage.
unfoldable pub apply_quotas : Dict ℤ → Dict Entry → Dict Entry
apply_quotas [] m = m
apply_quotas ((username, max_bytes) ∷ rest) m =
    let m' = apply_quotas rest m in
    insert username (apply_max max_bytes (or_else (lookup username m') zero_entry)) m'

-- The third loop.
abbrev fill_default : ℤ → Entry → Entry
fill_default default_quota e =
    if eqb_ℤ e.max_bytes (pos 0)
    then record e { max_bytes = default_quota; is_default = true }
    else e

unfoldable pub load : Dict ℤ → Dict ℤ → ℤ → Cache
load used_map quota_map default_quota = record {
  entries = map_values (fill_default default_quota) (apply_quotas quota_map (seed_used used_map));
  default_quota = default_quota;
}

abbrev pub missing : ℤ → Entry
missing default_quota = record { used_bytes = pos 0; max_bytes = default_quota; is_default = true }

abbrev pub get_result : Option Entry → ℤ → Entry × Bool
get_result none default_quota = (missing default_quota, true)
get_result (some e) default_quota = (e, false)

unfoldable pub get : Cache → String → Entry × Bool
get c username = get_result (lookup username c.entries) c.default_quota

unfoldable pub set_max : Cache → String → ℤ → Cache
set_max c username max_bytes = record c {
  entries =
      insert username
        (record (or_else (lookup username c.entries) zero_entry) {
          max_bytes = max_bytes;
          is_default = false;
        })
        c.entries;
}

abbrev reset_entry : Option Entry → Cache → String → Cache
reset_entry none c username = c
reset_entry (some e) c username = record c {
  entries = insert username (record e { max_bytes = c.default_quota; is_default = true }) c.entries;
}

unfoldable pub reset_max : Cache → String → Cache
reset_max c username = reset_entry (lookup username c.entries) c username

abbrev rebase : ℤ → ℤ → Entry → Entry
rebase old_default new_default e =
    if e.is_default && eqb_ℤ e.max_bytes old_default
    then record e { max_bytes = new_default }
    else e

unfoldable pub set_default_quota : Cache → ℤ → Cache
set_default_quota c new_default = record {
  entries = map_values (rebase c.default_quota new_default) c.entries;
  default_quota = new_default;
}

unfoldable pub update_used : Cache → String → ℤ → Cache
update_used c username used_bytes = record c {
  entries =
      insert username
        (record (or_else (lookup username c.entries) (missing c.default_quota)) {
          used_bytes = used_bytes;
        })
        c.entries;
}

-- `e.UsedBytes += delta`, and the clamp at 0.
unfoldable pub bump : ℤ → ℤ → ℤ
bump used delta = let sum = wrap64 (used +ℤ delta) in if ltb_ℤ sum (pos 0) then pos 0 else sum

unfoldable pub add_used : Cache → String → ℤ → Cache × ℤ
add_used c username delta =
    let e = or_else (lookup username c.entries) (missing c.default_quota) in
    let used = bump e.used_bytes delta in
    (record c { entries = insert username (record e { used_bytes = used }) c.entries }, used)

unfoldable pub invalidate : Cache → String → Cache
invalidate c username = record c { entries = delete username c.entries }

unfoldable pub invalidate_all : Cache → Cache
invalidate_all c = record c { entries = [] }

abbrev pub get_default_quota : Cache → ℤ
get_default_quota c = c.default_quota

abbrev pub size : Cache → ℕ
size c = length c.entries

-- The calls of the cache, and a run of them.
pub data Call : Type 0 where
  loads : Dict ℤ → Dict ℤ → ℤ → Call
  sets_max : String → ℤ → Call
  resets_max : String → Call
  sets_default : ℤ → Call
  updates_used : String → ℤ → Call
  adds_used : String → ℤ → Call
  invalidates : String → Call
  invalidates_all : Call

unfoldable pub step : Cache → Call → Cache
step c (loads used_map quota_map default_quota) = load used_map quota_map default_quota
step c (sets_max u n) = set_max c u n
step c (resets_max u) = reset_max c u
step c (sets_default n) = set_default_quota c n
step c (updates_used u n) = update_used c u n
step c (adds_used u d) = (add_used c u d).0
step c (invalidates u) = invalidate c u
step c invalidates_all = invalidate_all c

unfoldable pub run : Cache → List Call → Cache
run c [] = c
run c (call ∷ calls) = run (step c call) calls
