-- ===== src/Auth/PassTable/Login/Checked.antt =====
-- internal/auth/pass_table/table.go: which logins AuthPlain accepts, and what a login does to the accounts.
use madmail.Prelude.{
  String, Bool, true, false, Option, none, some, [], ◌∷◌, Text, ◌≡◌, ◌↔◌, refl, ap, ◌∙◌,
  if◌then◌else◌,
}
use madmail.Auth.{at_sign, has, split_n, normalize_username, validate_login_domain}
use madmail.Auth.Names.Normal.{normalize_username_idem}
use madmail.Auth.PassTable.{matches, colon, hash_verify, is_known}
use madmail.Auth.PassTable.Table.{
  Auth, Env, Error, not_mutable, store_keyed, Found, found, missing, lookup_failed, look_up, key_of,
  set_user_password, create_user_if_not_exists,
}
use madmail.Auth.PassTable.Login.{
  Reply, refused, accepted, accepted_and_rehash, panicked, is_jit_registration_enabled, created,
  auth_plain, login,
}

abbrev pub is_accepted : Reply → Bool
is_accepted (refused e) = false
is_accepted accepted = true
is_accepted accepted_and_rehash = true
is_accepted panicked = false

abbrev value_of : Found → Text
value_of (found v) = v
value_of missing = []
value_of lookup_failed = []

-- The login starts the task that stores the password again.
abbrev pub is_rehashed : Reply → Bool
is_rehashed (refused e) = false
is_rehashed accepted = false
is_rehashed accepted_and_rehash = true
is_rehashed panicked = false

module _ (env : Env) where
  -- A stored value: the name of a known algorithm, a colon and a hash that the password verifies.
  pub record Matches (password value : Text) : Type 0 where
    pub algo : Text
    pub hash : Text
    pub parts : split_n 2 colon value ≡ algo ∷ hash ∷ []
    pub known : is_known algo ≡ true
    pub verified : hash_verify env.crypto algo password hash ≡ matches

  created-none : (r : Option Error × Auth) → r.0 ≡ none → created env r ≡ (accepted, r.1)
  created-none (none, a) ok = refl
  created-none (some e, a) ok = cc

  -- The account of the name has a stored value that the password matches.
  pub record IsAccount (a : Auth) (username password : Text) : Type 0 where
    pub key : String
    pub value : Text
    pub named : key_of env username ≡ some key
    pub found_value : look_up env.users a.table key ≡ found value
    pub matched : Matches password value

  abbrev Decides : Auth → Text → Text → Reply × Auth → Type 0
  Decides a username password r =
      ((is_accepted r.0 ≡ true) ↔ IsAccount a username password) × (r.1 ≡ a)

  -- When the lookup of a name fails, with registration on login and a name whose domain is accepted, AuthPlain
  -- accepts whatever password, and what it does to the accounts is what SetUserPassword does: the password of
  -- the login replaces the one that the account has; SetUserPassword has no error, and no text with an
  -- at-sign is parsed as an IP address.
  pub auth_plain-lookup_failed :
      ((t : Text) → env.libs.is_ip t ≡ true → has at_sign t ≡ false)
      → (a : Auth) (username password : Text) (k : String) → key_of env username ≡ some k
      → env.users.lookup_fails k ≡ true
      → is_jit_registration_enabled env a ≡ some true
      → validate_login_domain env.libs (normalize_username env.libs username) a.jit_domain ≡ none
      → (set_user_password env a username password).0 ≡ none
      → auth_plain env a username password
        ≡ (accepted, (set_user_password env a username password).1)
  auth_plain-lookup_failed law a username password k named fails on valid ok =
      let name = normalize_username env.libs username in
      let same : create_user_if_not_exists env a name password
          ≡ set_user_password env a username password =
        unfold create_user_if_not_exists set_user_password in
        ap
          (λ n.
            if a.table.is_mutable
            then store_keyed env a password (env.compare_key n)
            else (some not_mutable, a))
          (normalize_username_idem env.libs username law) in
      let login : auth_plain env a username password
          ≡ created env (create_user_if_not_exists env a name password) =
        unfold auth_plain in rw (named, fails, on, valid) refl in
      login ∙ (ap (created env) same ∙ created-none (set_user_password env a username password) ok)
