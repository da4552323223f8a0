-- ===== src/Auth/PassTable/Login/Others.antt =====
-- internal/auth/pass_table/table.go: an operation on one account leaves the others as they are.
use madmail.Prelude.{
  String, str_eq_iff, Bool, true, false, not, Option, none, some, List, [], ◌∷◌, ◌++◌, Text, ◌≡◌,
  ◌≢◌, refl, sym, ap, ◌∙◌, arith, if◌then◌else◌, Bool-cases, inl, inr,
}
use madmail.Prelude.Dict.{lookup, lookup-insert, lookup-delete}
use madmail.Auth.{at_sign, has, normalize_username, validate_login_domain, DomainError}
use madmail.Auth.Names.Normal.{normalize_username_idem}
use madmail.Auth.PassTable.{HashOpts, colon, default_hash, no_opts, hash_compute, is_known}
use madmail.Auth.PassTable.Table.{
  Auth, Env, Error, not_mutable, unknown_hash, Found, found, missing, lookup_failed, look_up,
  key_of, store_hash, store_keyed, set_user_password, create_user_if_not_exists, create_new,
  create_keyed, create_user_hash, create_user, delete_keyed, delete_user,
}
use madmail.Auth.PassTable.Login.{
  Reply, is_jit_registration_enabled, created, create_valid, jit, login_found, login_keyed,
  auth_plain, accepted, accepted_and_rehash, panicked, refused, migrated, login,
}

-- The operations that take the name of an account.
pub data Op : Type 0 where
  create create_if_not_exists set_password logs_in : Text → Op
  create_hash : Text → HashOpts → Text → Op
  deletion : Op

module _ (env : Env) where
  abbrev pub perform : Text → Op → Auth → Auth
  perform username (create password) a = (create_user env a username password).1
  perform username (create_if_not_exists password) a =
      (create_user_if_not_exists env a username password).1
  perform username (set_password password) a = (set_user_password env a username password).1
  perform username (logs_in password) a = (login env a username password).1
  perform username (create_hash algo opts password) a =
      (create_user_hash env a username password algo opts).1
  perform username deletion a = (delete_user env a username).1

  -- The operations in order, each with its name.
  unfoldable pub perform_all : List (Text × Op) → Auth → Auth
  perform_all [] a = a
  perform_all ((username, op) ∷ ops) a = perform_all ops (perform username op a)

  abbrev pub NoneOn : String → List (Text × Op) → Type 0
  NoneOn j [] = Unit {0}
  NoneOn j ((username, op) ∷ ops) = (key_of env username ≢ some j) × NoneOn j ops

  -- The entry of the key, and the settings of a table of their own, are the same.
  abbrev pub Untouched : String → Auth → Auth → Type 0
  Untouched j a b =
      (lookup j b.table.entries ≡ lookup j a.table.entries) × (b.settings_table ≡ a.settings_table)

  Untouched-store_hash :
      (j : String) (a : Auth) (k : String) (algo : Text) (h : Option Text)
      → k ≢ j
      → Untouched j a (store_hash env a k algo h).1
  Untouched-store_hash j a k algo none other = (refl, refl)
  Untouched-store_hash j a k algo (some hash) other = elim (Bool-cases (env.users.set_fails k)) [
    | inl fails ↦ rw fails (refl, refl)
    | inr writes ↦ rw writes (
      ground (arith, lookup-insert k j (algo ++ colon ∷ hash) a.table.entries, str_eq_iff k j),
      refl,
    )
  ]

  Untouched-store_keyed :
      (j : String) (a : Auth) (password : Text) (key : Option String)
      → key ≢ some j
      → Untouched j a (store_keyed env a password key).1
  Untouched-store_keyed j a password none other = (refl, refl)
  Untouched-store_keyed j a password (some k) other =
      Untouched-store_hash j a k default_hash
        (hash_compute env.crypto default_hash no_opts password) (λ e. other (ap some e))

  Untouched-create_new :
      (j : String) (a : Auth) (password algo : Text) (opts : HashOpts) (k : String) (f : Found)
      → k ≢ j
      → Untouched j a (create_new env a password algo opts k f).1
  Untouched-create_new j a password algo opts k (found v) other = (refl, refl)
  Untouched-create_new j a password algo opts k lookup_failed other = (refl, refl)
  Untouched-create_new j a password algo opts k missing other =
      Untouched-store_hash j a k algo (hash_compute env.crypto algo opts password) other

  Untouched-create_keyed :
      (j : String) (a : Auth) (password algo : Text) (opts : HashOpts) (key : Option String)
      → key ≢ some j
      → Untouched j a (create_keyed env a password algo opts key).1
  Untouched-create_keyed j a password algo opts none other = (refl, refl)
  Untouched-create_keyed j a password algo opts (some k) other =
      Untouched-create_new j a password algo opts k (look_up env.users a.table k)
        (λ e. other (ap some e))

  Untouched-delete_keyed :
      (j : String) (a : Auth) (key : Option String)
      → key ≢ some j
      → Untouched j a (delete_keyed env a key).1
  Untouched-delete_keyed j a none other = (refl, refl)
  Untouched-delete_keyed j a (some k) other = elim (Bool-cases (env.users.remove_fails k)) [
    | inl fails ↦ rw fails (refl, refl)
    | inr removes ↦
        let apart : k ≢ j = λ e. other (ap some e) in
        rw removes (ground (arith, lookup-delete k j a.table.entries, str_eq_iff k j), refl)
  ]

  -- A guard that refuses leaves the state.
  Untouched-guard :
      (j : String) (a : Auth) (b : Bool) (e : Error) (r : Option Error × Auth)
      → Untouched j a r.1
      → Untouched j a (if b then r else (some e, a)).1
  Untouched-guard j a true e r h = h
  Untouched-guard j a false e r h = (refl, refl)

  Untouched-guard_not :
      (j : String) (a : Auth) (b : Bool) (e : Error) (r : Option Error × Auth)
      → Untouched j a r.1
      → Untouched j a (if b then (some e, a) else r).1
  Untouched-guard_not j a true e r h = (refl, refl)
  Untouched-guard_not j a false e r h = h

  Untouched-create_user_hash :
      (j : String) (a : Auth) (username password algo : Text) (opts : HashOpts)
      → key_of env username ≢ some j
      → Untouched j a (create_user_hash env a username password algo opts).1
  Untouched-create_user_hash j a username password algo opts other =
      unfold create_user_hash in
      Untouched-guard_not j a (not a.table.is_mutable) not_mutable _ (
        Untouched-guard_not j a (not (is_known algo)) unknown_hash _
          (Untouched-create_keyed j a password algo opts (key_of env username) other))

  Untouched-create_user_if_not_exists :
      (j : String) (a : Auth) (username password : Text)
      → key_of env username ≢ some j
      → Untouched j a (create_user_if_not_exists env a username password).1
  Untouched-create_user_if_not_exists j a username password other =
      unfold create_user_if_not_exists in
      Untouched-guard j a a.table.is_mutable not_mutable _
        (Untouched-store_keyed j a password (key_of env username) other)

  Untouched-created :
      (j : String) (a : Auth) (r : Option Error × Auth)
      → Untouched j a r.1
      → Untouched j a (created env r).1
  Untouched-created j a (none, b) h = h
  Untouched-created j a (some e, b) h = h

  Untouched-create_valid :
      (j : String) (a : Auth) (name password : Text) (e : Option DomainError)
      → key_of env name ≢ some j
      → Untouched j a (create_valid env a name password e).1
  Untouched-create_valid j a name password (some e) other = (refl, refl)
  Untouched-create_valid j a name password none other =
      Untouched-created j a (create_user_if_not_exists env a name password)
        (Untouched-create_user_if_not_exists j a name password other)

  Untouched-jit :
      (j : String) (a : Auth) (name password : Text) (on : Option Bool)
      → key_of env name ≢ some j
      → Untouched j a (jit env a name password on).1
  Untouched-jit j a name password none other = (refl, refl)
  Untouched-jit j a name password (some false) other = (refl, refl)
  Untouched-jit j a name password (some true) other =
      Untouched-create_valid j a name password (validate_login_domain env.libs name a.jit_domain)
        other

  Untouched-login_found :
      (j : String) (a : Auth) (name password : Text) (f : Found)
      → key_of env name ≢ some j
      → Untouched j a (login_found env a name password f).1
  Untouched-login_found j a name password (found value) other = (refl, refl)
  Untouched-login_found j a name password missing other =
      Untouched-jit j a name password (is_jit_registration_enabled env a) other
  Untouched-login_found j a name password lookup_failed other =
      Untouched-jit j a name password (is_jit_registration_enabled env a) other

  Untouched-login_keyed :
      (j : String) (a : Auth) (name password : Text) (key : Option String)
      → key_of env name ≢ some j
      → Untouched j a (login_keyed env a name password key).1
  Untouched-login_keyed j a name password none other = (refl, refl)
  Untouched-login_keyed j a name password (some k) other =
      unfold look_up in Untouched-login_found j a name password (look_up env.users a.table k) other

  module _ (law : (t : Text) → env.libs.is_ip t ≡ true → has at_sign t ≡ false) where
    Untouched-auth_plain :
        (j : String) (a : Auth) (username password : Text)
        → key_of env username ≢ some j
        → Untouched j a (auth_plain env a username password).1
    Untouched-auth_plain j a username password other =
        let name = normalize_username env.libs username in
        let other' : key_of env name ≢ some j = λ e.
          other (sym (ap env.compare_key (normalize_username_idem env.libs username law)) ∙ e) in
        unfold auth_plain in Untouched-login_keyed j a name password (env.compare_key name) other'

    Untouched-migrated :
        (j : String) (a : Auth) (username password : Text) (r : Reply × Auth)
        → key_of env username ≢ some j
        → Untouched j a r.1
        → Untouched j a (migrated env (normalize_username env.libs username) password r)
    Untouched-migrated j a username password (accepted_and_rehash, b) other h =
        let name = normalize_username env.libs username in
        let other' : key_of env name ≢ some j = λ e.
          other (sym (ap env.compare_key (normalize_username_idem env.libs username law)) ∙ e) in
        let k : Untouched j b (set_user_password env b name password).1 =
          unfold set_user_password in
          Untouched-guard j b b.table.is_mutable not_mutable _
            (Untouched-store_keyed j b password (key_of env name) other') in
        (k.0 ∙ h.0, k.1 ∙ h.1)
    Untouched-migrated j a username password (accepted, b) other h = h
    Untouched-migrated j a username password (panicked, b) other h = h
    Untouched-migrated j a username password (refused e, b) other h = h

    Untouched-perform :
        (j : String) (username : Text) (op : Op) (a : Auth)
        → key_of env username ≢ some j
        → Untouched j a (perform username op a)
    Untouched-perform j username (create password) a other =
        unfold create_user in
        Untouched-create_user_hash j a username password default_hash no_opts other
    Untouched-perform j username (create_if_not_exists password) a other =
        Untouched-create_user_if_not_exists j a username password other
    Untouched-perform j username (set_password password) a other =
        unfold set_user_password in
        Untouched-guard j a a.table.is_mutable not_mutable _
          (Untouched-store_keyed j a password (key_of env username) other)
    Untouched-perform j username (logs_in password) a other =
        unfold login in
        Untouched-migrated j a username password (auth_plain env a username password) other
          (Untouched-auth_plain j a username password other)
    Untouched-perform j username (create_hash algo opts password) a other =
        Untouched-create_user_hash j a username password algo opts other
    Untouched-perform j username deletion a other =
        unfold delete_user in
        Untouched-guard j a a.table.is_mutable not_mutable _
          (Untouched-delete_keyed j a (key_of env username) other)

    -- Whatever accounts are created, logged into, given a password or deleted under other names, in any order and
    -- with any failures of the table, the entry of a key and the settings kept in a table of their own stay as they are,
    -- where no text with an at-sign is parsed as an IP address.
    pub Untouched-perform_all :
        (j : String) (ops : List (Text × Op)) (a : Auth)
        → NoneOn j ops
        → Untouched j a (perform_all ops a)
    unfolding perform_all
    Untouched-perform_all j [] a other = (refl, refl)
    Untouched-perform_all j ((username, op) ∷ ops) a (first, others) =
        let here = Untouched-perform j username op a first in
        let later = Untouched-perform_all j ops (perform username op a) others in
        (later.0 ∙ here.0, later.1 ∙ here.1)
