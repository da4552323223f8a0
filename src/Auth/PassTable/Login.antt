-- ===== src/Auth/PassTable/Login.antt =====
-- internal/auth/pass_table/table.go: the switches kept as settings, and AuthPlain.
pub mod Settings
pub mod Flags
pub mod Accepted
pub mod Checked
pub mod Others
use madmail.Prelude.{
  String, Bool, true, false, not, ◌&&◌, Option, none, some, List, [], ◌∷◌, Text, codes, text_eq,
  if◌then◌else◌,
}
use madmail.Auth.{split_n, normalize_username, validate_login_domain, DomainError}
use madmail.Auth.PassTable.{
  Crypto, Check, matches, mismatch, panics, colon, default_hash, hash_verify, is_known,
}
use madmail.Auth.PassTable.Table.{
  Table, Auth, Env, Error, bad_name, unknown_credentials, lookup_error, unknown_hash, no_hash_tag,
  wrong_password, auto_create_failed, Found, found, missing, lookup_failed, look_up, get_setting,
  set_setting, create_user_if_not_exists, set_user_password,
}

-- The switches, each with the key of its setting.
pub data Flag : Type 0 where
  registration_open turn logging_disabled jit_registration : Flag

abbrev pub flag_key : Flag → String
flag_key registration_open = "__REGISTRATION_OPEN__"
flag_key turn = "__TURN_ENABLED__"
flag_key logging_disabled = "__LOG_DISABLED__"
flag_key jit_registration = "__JIT_REGISTRATION_ENABLED__"

abbrev pub flag_text : Bool → Text
flag_text true = codes "true"
flag_text false = codes "false"

-- `none` is the error of the lookup.
abbrev pub flag_or : Option Bool → Found → Option Bool
flag_or fallback (found v) = some (text_eq v (codes "true"))
flag_or fallback missing = fallback
flag_or fallback lookup_failed = none

pub record Logger : Type 0 where
  pub debug : Bool
  pub is_silent : Bool

-- The end of a login: what AuthPlain returns, and whether it starts a task that stores the password again.
pub data Reply : Type 0 where
  refused : Error → Reply
  accepted accepted_and_rehash panicked : Reply

abbrev pub reply_of : Text → Check → Reply
reply_of algo matches = if text_eq algo default_hash then accepted else accepted_and_rehash
reply_of algo mismatch = refused wrong_password
reply_of algo panics = panicked

module _ (env : Env) where
  unfoldable pub is_registration_open : Auth → Option Bool
  unfolding get_setting
  is_registration_open a =
      flag_or (some a.auto_create) (get_setting env a (flag_key registration_open))

  unfoldable pub set_registration_open : Auth → Bool → Option Error × Auth
  unfolding set_setting
  set_registration_open a enabled =
      set_setting env a (flag_key registration_open) (flag_text enabled)

  unfoldable pub is_turn_enabled : Auth → Option Bool
  unfolding get_setting
  is_turn_enabled a = flag_or (some true) (get_setting env a (flag_key turn))

  unfoldable pub set_turn_enabled : Auth → Bool → Option Error × Auth
  unfolding set_setting
  set_turn_enabled a enabled = set_setting env a (flag_key turn) (flag_text enabled)

  unfoldable pub is_logging_disabled : Auth → Option Bool
  unfolding get_setting
  is_logging_disabled a = flag_or (some false) (get_setting env a (flag_key logging_disabled))

  abbrev pub is_mutable_in : Auth → Option Table → Bool
  is_mutable_in a none = a.table.is_mutable
  is_mutable_in a (some t) = t.is_mutable

  abbrev pub silenced : Logger → Bool → Logger
  silenced log disabled = if disabled && not log.debug then record log { is_silent = true } else log

  unfoldable pub set_logging_disabled : Logger → Auth → Bool → Logger × (Option Error × Auth)
  unfolding set_setting
  set_logging_disabled log a disabled =
      if is_mutable_in a a.settings_table
      then (
        silenced log disabled,
        set_setting env a (flag_key logging_disabled) (flag_text disabled),
      )
      else (log, set_setting env a (flag_key logging_disabled) (flag_text disabled))

  unfoldable pub is_jit_registration_enabled : Auth → Option Bool
  unfolding is_registration_open
  is_jit_registration_enabled a =
      flag_or (is_registration_open a) (get_setting env a (flag_key jit_registration))

  unfoldable pub set_jit_registration_enabled : Auth → Bool → Option Error × Auth
  unfolding set_setting
  set_jit_registration_enabled a enabled =
      set_setting env a (flag_key jit_registration) (flag_text enabled)

  abbrev pub found_for : Auth → Option String → Option Found
  found_for a none = none
  found_for a (some key) = some (look_up env.users a.table key)

  -- Lookup; `none` if the name has no key.
  unfoldable pub lookup : Auth → Text → Option Found
  unfolding look_up
  lookup a username = found_for a (env.compare_key (normalize_username env.libs username))

  abbrev pub verify_parts : Text → List Text → Reply
  verify_parts password (algo ∷ hash ∷ []) =
      if is_known algo
      then reply_of algo (hash_verify env.crypto algo password hash)
      else refused unknown_hash
  verify_parts password parts = refused no_hash_tag

  unfoldable pub verify_stored : Text → Text → Reply
  verify_stored password value = verify_parts password (split_n 2 colon value)

  abbrev pub created : Option Error × Auth → Reply × Auth
  created (none, a) = (accepted, a)
  created (some e, a) = (refused (auto_create_failed e), a)

  abbrev pub create_valid : Auth → Text → Text → Option DomainError → Reply × Auth
  create_valid a name password none = created (create_user_if_not_exists env a name password)
  create_valid a name password (some e) = (refused unknown_credentials, a)

  abbrev pub jit : Auth → Text → Text → Option Bool → Reply × Auth
  jit a name password none = (refused lookup_error, a)
  jit a name password (some false) = (refused unknown_credentials, a)
  jit a name password (some true) =
      create_valid a name password (validate_login_domain env.libs name a.jit_domain)

  -- The branch for a name that is not found is taken whatever the error of the lookup.
  abbrev pub login_found : Auth → Text → Text → Found → Reply × Auth
  login_found a name password (found value) = (verify_stored password value, a)
  login_found a name password missing = jit a name password (is_jit_registration_enabled a)
  login_found a name password lookup_failed = jit a name password (is_jit_registration_enabled a)

  abbrev pub login_keyed : Auth → Text → Text → Option String → Reply × Auth
  login_keyed a name password none = (refused bad_name, a)
  login_keyed a name password (some key) =
      login_found a name password (look_up env.users a.table key)

  unfoldable pub auth_plain : Auth → Text → Text → Reply × Auth
  unfolding look_up
  auth_plain a username password =
      let name = normalize_username env.libs username in
      login_keyed a name password (env.compare_key name)

  -- The task that a login starts for a hash that is not of the default algorithm, once it has run.
  abbrev pub migrated : Text → Text → Reply × Auth → Auth
  migrated name password (accepted_and_rehash, a) = (set_user_password env a name password).1
  migrated name password (accepted, a) = a
  migrated name password (panicked, a) = a
  migrated name password (refused e, a) = a

  -- AuthPlain and the task that it starts.
  unfoldable pub login : Auth → Text → Text → Reply × Auth
  unfolding auth_plain set_user_password
  login a username password =
      let r = auth_plain a username password in
      (r.0, migrated (normalize_username env.libs username) password r)
