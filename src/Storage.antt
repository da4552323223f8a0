-- ===== src/Storage.antt =====
-- internal/storage/imapsql/imapsql.go and maddyctl.go: the quotas and the accounts of the store, with the cache of
-- internal/quota before the table of quotas. A row whose maximum is NULL is read as 0. The answers of the
-- database and of the library below it are parameters; the child Delivery is delivery.go.
pub mod Delivery
pub mod Limits
pub mod Startup
pub mod Created
pub mod Accounts
pub mod Revived
mod Tests
use madmail.Prelude.{
  ℕ, String, str_eq, Bool, true, false, not, ◌&&◌, ◌||◌, Option, none, some, List, [], ◌∷◌, any,
  ◌==◌, Text, if◌then◌else◌,
}
use madmail.Prelude.Int.{ℤ, pos}
use madmail.Prelude.Dict.{Dict, lookup, insert, delete, map_values}
use madmail.Quota.{
  Cache, Entry, get, set_max, reset_max, set_default_quota, update_used, invalidate, load,
}
use madmail.Auth.PassTable.Table.{Faults, Table, look_up}
use madmail.Auth.PassTable.Login.{flag_key, flag_or, registration_open, jit_registration}

-- db.Quota
pub record Row : Type 0 where
  pub max_storage : ℤ
  pub created_at : ℕ
  pub first_login_at : ℕ
  pub last_login_at : ℕ

abbrev pub new_row : ℤ → Row
new_row max = record { max_storage = max; created_at = 0; first_login_at = 0; last_login_at = 0 }

pub record Store : Type 0 where
  pub cache : Option Cache
  pub quotas : Dict Row
  pub users : List String
  pub blocked : Dict Text
  pub default_quota : ℤ
  pub settings_table : Option Table
  pub auto_create : Bool

-- Which calls fail, the sum of the sizes of a user's messages as the database gives it, and the time.
pub record World : Type 0 where
  pub read_fails : String → Bool
  pub write_fails : String → Bool
  pub user_fails : String → Bool
  pub block_fails : String → Bool
  pub block_read_fails : String → Bool
  pub used : String → Option ℤ
  pub settings : Faults
  pub now : ℕ

pub record Answer : Type 0 where
  pub used : ℤ
  pub max : ℤ
  pub is_default : Bool

pub data FoundRow : Type 0 where
  no_row read_error : FoundRow
  row : Row → FoundRow

abbrev pub global_default : String
global_default = "__GLOBAL_DEFAULT__"

abbrev pub as_row : Option Row → FoundRow
as_row none = no_row
as_row (some r) = row r

abbrev pub on_cache : (Cache → Cache) → Store → Store
on_cache f s = record s { cache = elim s.cache [ none ↦ none | some c ↦ some (f c) ] }

abbrev pub hit : Entry × Bool → Option Entry
hit (e, true) = none
hit (e, false) = some e

abbrev pub cached : Option Cache → String → Option Entry
cached none username = none
cached (some c) username = hit (get c username)

abbrev pub or_zero : Option ℤ → ℤ
or_zero none = pos 0
or_zero (some n) = n

abbrev pub of_entry : Entry → Answer
of_entry e = record { used = e.used_bytes; max = e.max_bytes; is_default = e.is_default }

abbrev pub ignore_cache : Cache → Cache
ignore_cache c = c

module _ (w : World) where
  unfoldable pub find_row : Store → String → FoundRow
  find_row s username =
      if w.read_fails username then read_error else as_row (lookup username s.quotas)

  abbrev pub default_of : Store → FoundRow → ℤ
  default_of s (row r) = r.max_storage
  default_of s no_row = s.default_quota
  default_of s read_error = s.default_quota

  -- GetDefaultQuota
  unfoldable pub effective_default : Store → ℤ
  unfolding find_row
  effective_default s = default_of s (find_row s global_default)

  abbrev pub from_row : Store → String → ℤ → FoundRow → Option Answer × Store
  from_row s username used (row r) = (
    some (record { used = used; max = r.max_storage; is_default = false }),
    on_cache (λ c. update_used (set_max c username r.max_storage) username used) s,
  )
  from_row s username used read_error = (none, s)
  from_row s username used no_row = (
    some (record { used = used; max = effective_default s; is_default = true }),
    on_cache (λ c. update_used c username used) s,
  )

  abbrev pub answer : Store → String → Option Entry → Option Answer × Store
  answer s username (some e) = (some (of_entry e), s)
  answer s username none = from_row s username (or_zero (w.used username)) (find_row s username)

  unfoldable pub get_quota : Store → String → Option Answer × Store
  unfolding find_row effective_default
  get_quota s username = answer s username (cached s.cache username)

  -- `GORMDB.Save` of a row; the Boolean says whether there is an error.
  abbrev pub save : Store → String → Row → (Cache → Cache) → Bool × Store
  save s username r f =
      if w.write_fails username
      then (true, s)
      else (false, on_cache f (record s { quotas = insert username r s.quotas }))

  -- SetDefaultQuota of the store.
  unfoldable pub store_default_quota : Store → ℤ → Bool × Store
  store_default_quota s max = save s global_default (new_row max) (λ c. set_default_quota c max)

  abbrev pub set_found : Store → String → ℤ → FoundRow → Bool × Store
  set_found s username max read_error = (true, s)
  set_found s username max no_row =
      save s username (record (new_row max) { created_at = w.now; first_login_at = 1 })
        (λ c. set_max c username max)
  set_found s username max (row r) =
      save s username (record r { max_storage = max }) (λ c. set_max c username max)

  unfoldable pub set_quota : Store → String → ℤ → Bool × Store
  unfolding find_row
  set_quota s username max = set_found s username max (find_row s username)

  abbrev pub without_max : String → Dict Row → Dict Row
  without_max username [] = []
  without_max username ((u, r) ∷ rows) =
      let rest = without_max username rows in
      if str_eq u username then (u, record r { max_storage = pos 0 }) ∷ rest else (u, r) ∷ rest

  unfoldable pub reset_quota : Store → String → Bool × Store
  reset_quota s username = if w.write_fails username then (true, s) else (
    false,
    on_cache (λ c. reset_max c username) (record s { quotas = without_max username s.quotas }),
  )

  abbrev pub ensure_row : Store → String → FoundRow → Bool × Store
  ensure_row s username read_error = (true, s)
  ensure_row s username no_row =
      save s username (record (new_row (pos 0)) { created_at = w.now; first_login_at = 1 })
        ignore_cache
  ensure_row s username (row r) =
      if r.created_at == 0
      then save s username (record r { created_at = w.now }) ignore_cache
      else (false, s)

  -- CreateIMAPAcct
  unfoldable pub create_imap_acct : Store → String → Bool × Store
  unfolding find_row
  create_imap_acct s username =
      if w.user_fails username || any (λ u. str_eq u username) s.users
      then (true, s)
      else let s' = record s { users = username ∷ s.users } in
        ensure_row s' username (find_row s' username)

  abbrev pub setting_or : Store → Option Bool → Option Table → String → Option Bool
  setting_or s fallback none key = fallback
  setting_or s fallback (some t) key = flag_or fallback (look_up w.settings t key)

  -- IsRegistrationOpen and IsJitRegistrationEnabled of the store.
  unfoldable pub store_registration_open : Store → Option Bool
  unfolding look_up
  store_registration_open s =
      setting_or s (some s.auto_create) s.settings_table (flag_key registration_open)

  unfoldable pub store_jit_registration : Store → Option Bool
  unfolding look_up store_registration_open
  store_jit_registration s =
      setting_or s (store_registration_open s) s.settings_table (flag_key jit_registration)
