-- ===== src/Auth/PassTable/Table.antt =====
-- internal/auth/pass_table/table.go: the accounts and the settings of a table of passwords. A table that
-- fails to look a key up finds nothing, as table.sql and table.gorm do; which calls fail is given.
use madmail.Prelude.{
  String, Bool, not, ◌&&◌, Option, none, some, List, [], ◌∷◌, ◌++◌, Text, if◌then◌else◌,
}
use madmail.Prelude.Dict.{Dict, lookup, insert, delete}
use madmail.Auth.{Libs, normalize_username}
use madmail.Auth.PassTable.{Crypto, HashOpts, no_opts, colon, default_hash, hash_compute, is_known}

pub record Table : Type 0 where
  pub entries : Dict Text
  pub is_mutable : Bool

-- Auth: without a table for them, the settings are in the table of the accounts.
pub record Auth : Type 0 where
  pub table : Table
  pub settings_table : Option Table
  pub auto_create : Bool
  pub jit_domain : Text

-- Which calls of a table fail.
pub record Faults : Type 0 where
  pub lookup_fails : String → Bool
  pub set_fails : String → Bool
  pub remove_fails : String → Bool

-- `compare_key` is precis.UsernameCaseMapped.CompareKey.
pub record Env : Type 0 where
  pub libs : Libs
  pub crypto : Crypto
  pub compare_key : Text → Option String
  pub users : Faults
  pub settings : Faults

pub data Error : Type 0 where
  bad_name unknown_credentials lookup_error not_mutable unknown_hash : Error
  already_exists hash_error write_error no_hash_tag wrong_password : Error
  auto_create_failed : Error → Error

pub data Found : Type 0 where
  found : Text → Found
  missing lookup_failed : Found

abbrev pub as_found : Option Text → Found
as_found none = missing
as_found (some v) = found v

unfoldable pub look_up : Faults → Table → String → Found
look_up f t key = if f.lookup_fails key then lookup_failed else as_found (lookup key t.entries)

abbrev pub set_key : Faults → Table → String → Text → Option Error × Table
set_key f t key value =
    if f.set_fails key
    then (some write_error, t)
    else (none, record t { entries = insert key value t.entries })

abbrev pub remove_key : Faults → Table → String → Option Error × Table
remove_key f t key =
    if f.remove_fails key
    then (some write_error, t)
    else (none, record t { entries = delete key t.entries })

abbrev pub on_users : Auth → Option Error × Table → Option Error × Auth
on_users a (e, t) = (e, record a { table = t })

abbrev pub on_settings : Auth → Option Table → Option Error × Table → Option Error × Auth
on_settings a none (e, t) = (e, record a { table = t })
on_settings a (some old) (e, t) = (e, record a { settings_table = some t })

module _ (env : Env) where
  abbrev pub key_of : Text → Option String
  key_of username = env.compare_key (normalize_username env.libs username)

  abbrev pub store_hash : Auth → String → Text → Option Text → Option Error × Auth
  store_hash a key algo none = (some hash_error, a)
  store_hash a key algo (some hash) =
      on_users a (set_key env.users a.table key (algo ++ colon ∷ hash))

  abbrev pub store_keyed : Auth → Text → Option String → Option Error × Auth
  store_keyed a password none = (some bad_name, a)
  store_keyed a password (some key) =
      store_hash a key default_hash (hash_compute env.crypto default_hash no_opts password)

  -- SetUserPassword
  unfoldable pub set_user_password : Auth → Text → Text → Option Error × Auth
  set_user_password a username password =
      if a.table.is_mutable then store_keyed a password (key_of username) else (some not_mutable, a)

  -- CreateUserIfNotExists, which makes the same calls.
  unfoldable pub create_user_if_not_exists : Auth → Text → Text → Option Error × Auth
  create_user_if_not_exists a username password =
      if a.table.is_mutable then store_keyed a password (key_of username) else (some not_mutable, a)

  abbrev pub create_new : Auth → Text → Text → HashOpts → String → Found → Option Error × Auth
  create_new a password algo opts key (found v) = (some already_exists, a)
  create_new a password algo opts key lookup_failed = (some lookup_error, a)
  create_new a password algo opts key missing =
      store_hash a key algo (hash_compute env.crypto algo opts password)

  abbrev pub create_keyed : Auth → Text → Text → HashOpts → Option String → Option Error × Auth
  create_keyed a password algo opts none = (some bad_name, a)
  create_keyed a password algo opts (some key) =
      create_new a password algo opts key (look_up env.users a.table key)

  unfoldable pub create_user_hash : Auth → Text → Text → Text → HashOpts → Option Error × Auth
  unfolding look_up
  create_user_hash a username password algo opts =
      if not a.table.is_mutable
      then (some not_mutable, a)
      else if not (is_known algo)
      then (some unknown_hash, a)
      else create_keyed a password algo opts (key_of username)

  unfoldable pub create_user : Auth → Text → Text → Option Error × Auth
  unfolding create_user_hash
  create_user a username password = create_user_hash a username password default_hash no_opts

  abbrev pub delete_keyed : Auth → Option String → Option Error × Auth
  delete_keyed a none = (some bad_name, a)
  delete_keyed a (some key) = on_users a (remove_key env.users a.table key)

  unfoldable pub delete_user : Auth → Text → Option Error × Auth
  delete_user a username =
      if a.table.is_mutable then delete_keyed a (key_of username) else (some not_mutable, a)

  -- The keys of the table, if it can list them.
  abbrev pub keys_of : Dict Text → List String
  keys_of [] = []
  keys_of ((key, value) ∷ entries) = key ∷ keys_of entries

  unfoldable pub list_users : Bool → Auth → Option (List String)
  list_users fails a =
      if a.table.is_mutable && not fails then some (keys_of a.table.entries) else none

  abbrev pub setting : Auth → String → Option Table → Found
  setting a key none = look_up env.users a.table key
  setting a key (some t) = look_up env.settings t key

  abbrev pub set_in : Auth → String → Text → Option Table → Option Error × Auth
  set_in a key value none =
      if a.table.is_mutable
      then on_settings a none (set_key env.users a.table key value)
      else (some not_mutable, a)
  set_in a key value (some t) =
      if t.is_mutable
      then on_settings a (some t) (set_key env.settings t key value)
      else (some not_mutable, a)

  abbrev pub remove_in : Auth → String → Option Table → Option Error × Auth
  remove_in a key none =
      if a.table.is_mutable
      then on_settings a none (remove_key env.users a.table key)
      else (some not_mutable, a)
  remove_in a key (some t) =
      if t.is_mutable
      then on_settings a (some t) (remove_key env.settings t key)
      else (some not_mutable, a)

  -- GetSetting; SetSetting; DeleteSetting
  unfoldable pub get_setting : Auth → String → Found
  unfolding look_up
  get_setting a key = setting a key a.settings_table

  unfoldable pub set_setting : Auth → String → Text → Option Error × Auth
  set_setting a key value = set_in a key value a.settings_table

  unfoldable pub delete_setting : Auth → String → Option Error × Auth
  delete_setting a key = remove_in a key a.settings_table
