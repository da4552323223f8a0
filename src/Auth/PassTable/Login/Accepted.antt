-- ===== src/Auth/PassTable/Login/Accepted.antt =====
-- internal/auth/pass_table/table.go: AuthPlain accepts the passwords that were stored.
use madmail.Prelude.{
  String, Bool, true, false, not, Option, none, some, [], ◌∷◌, ◌++◌, Text, text_eq, text_eq_sound,
  ◌≡◌, refl, sym, ap, ◌∙◌, subst, arith, if◌then◌else◌, Bool-cases, inl, inr,
}
use madmail.Prelude.Dict.{insert, lookup_same}
use madmail.Prelude.Dict.{lookup as value_at}
use madmail.Auth.{has, split_n}
use madmail.Auth.PassTable.{
  HashOpts, matches, colon, default_hash, hash_sha256, hash_bcrypt, hash_argon2, hash_compute,
  is_known, no_opts,
}
use madmail.Auth.PassTable.Verified.{CryptoLaws, Fits, hash_verify-hash_compute, split_n-append}
use madmail.Auth.PassTable.Table.{
  Auth, Env, Error, not_mutable, unknown_hash, Found, found, missing, lookup_failed, look_up,
  key_of, store_hash, store_keyed, set_user_password, create_new, create_keyed, create_user_hash,
}
use madmail.Auth.PassTable.Login.{Reply, accepted, reply_of, verify_stored, auth_plain}

-- What a login with an algorithm's hash ends in.
abbrev pub granted : Text → Reply
granted algo = reply_of algo matches

has_no_colon : (algo : Text) → is_known algo ≡ true → has colon algo ≡ false
has_no_colon algo known = elim (Bool-cases (text_eq algo hash_sha256)) [
  | inl sha ↦ rw (text_eq_sound algo hash_sha256 sha) refl
  | inr other ↦ elim (Bool-cases (text_eq algo hash_bcrypt)) [
    | inl bc ↦ rw (text_eq_sound algo hash_bcrypt bc) refl
    | inr rest ↦ rw (text_eq_sound algo hash_argon2 (ground arith)) refl
  ]
]

-- A guard that an operation without an error has passed.
passed :
    (b : Bool) (e : Error) (a : Auth) (r : Option Error × Auth)
    → (if b then (some e, a) else r).0 ≡ none
    → (b ≡ false) × ((if b then (some e, a) else r) ≡ r)
passed true e a r ok = cc
passed false e a r ok = (refl, refl)

pub allowed :
    (b : Bool) (e : Error) (a : Auth) (r : Option Error × Auth)
    → (if b then r else (some e, a)).0 ≡ none
    → (if b then r else (some e, a)) ≡ r
allowed true e a r ok = refl
allowed false e a r ok = cc

module _ (env : Env) where
  verify_stored-text :
      (laws : CryptoLaws env.crypto) (algo : Text) (opts : HashOpts) (password hash : Text)
      → is_known algo ≡ true
      → Fits opts
      → hash_compute env.crypto algo opts password ≡ some hash
      → verify_stored env password (algo ++ colon ∷ hash) ≡ granted algo
  unfolding verify_stored
  verify_stored-text laws algo opts password hash known fits made =
      let parts : split_n 2 colon (algo ++ colon ∷ hash) ≡ algo ∷ hash ∷ [] =
        split_n-append 0 colon algo hash (has_no_colon algo known) ∙ (unfold split_n in refl) in
      rw
        (
          parts,
          known,
          hash_verify-hash_compute env.crypto laws algo opts password hash known fits made,
        )
        refl

  pub login_stored :
      (a : Auth) (username password value : Text) (k : String)
      → key_of env username ≡ some k
      → env.users.lookup_fails k ≡ false
      → value_at k a.table.entries ≡ some value
      → auth_plain env a username password ≡ (verify_stored env password value, a)
  unfolding auth_plain
  login_stored a username password value k named works stored = rw (named, works, stored) refl

  abbrev pub stored : Auth → String → Text → Auth
  stored a k value = record a {
    table = record a.table { entries = insert k value a.table.entries };
  }

  -- The operation stored a hash of the password under the key of the name.
  abbrev pub IsStored : Auth → Text → Text → Text → HashOpts → Option Error × Auth → Type 0
  IsStored a username password algo opts r =
      (k : String) × (hash : Text) × (key_of env username ≡ some k)
      × (hash_compute env.crypto algo opts password ≡ some hash)
      × (r ≡ (none, stored a k (algo ++ colon ∷ hash)))

  IsStored-store_hash :
      (a : Auth) (username password algo : Text) (opts : HashOpts) (k : String) (h : Option Text)
      → key_of env username ≡ some k
      → hash_compute env.crypto algo opts password ≡ h
      → (store_hash env a k algo h).0 ≡ none
      → IsStored a username password algo opts (store_hash env a k algo h)
  IsStored-store_hash a username password algo opts k none named made ok = cc
  IsStored-store_hash a username password algo opts k (some hash) named made ok =
      elim (Bool-cases (env.users.set_fails k)) [
        | inl fails ↦ let wrong = rw fails at ok in cc (wrong)
        | inr writes ↦ (k, hash, named, made, rw writes refl)
      ]

  IsStored-create_new :
      (a : Auth) (username password algo : Text) (opts : HashOpts) (k : String) (f : Found)
      → key_of env username ≡ some k
      → (create_new env a password algo opts k f).0 ≡ none
      → IsStored a username password algo opts (create_new env a password algo opts k f)
  IsStored-create_new a username password algo opts k (found v) named ok = cc
  IsStored-create_new a username password algo opts k lookup_failed named ok = cc
  IsStored-create_new a username password algo opts k missing named ok =
      IsStored-store_hash a username password algo opts k
        (hash_compute env.crypto algo opts password) named refl ok

  IsStored-create_keyed :
      (a : Auth) (username password algo : Text) (opts : HashOpts) (key : Option String)
      → key_of env username ≡ key
      → (create_keyed env a password algo opts key).0 ≡ none
      → IsStored a username password algo opts (create_keyed env a password algo opts key)
  IsStored-create_keyed a username password algo opts none named ok = cc
  IsStored-create_keyed a username password algo opts (some k) named ok =
      IsStored-create_new a username password algo opts k (look_up env.users a.table k) named
        (unfold look_up in ok)

  pub IsStored-store_keyed :
      (a : Auth) (username password : Text) (key : Option String)
      → key_of env username ≡ key
      → (store_keyed env a password key).0 ≡ none
      → IsStored a username password default_hash no_opts (store_keyed env a password key)
  IsStored-store_keyed a username password none named ok = cc
  IsStored-store_keyed a username password (some k) named ok =
      IsStored-store_hash a username password default_hash no_opts k
        (hash_compute env.crypto default_hash no_opts password) named refl ok

  pub IsStored-create_user_hash :
      (a : Auth) (username password algo : Text) (opts : HashOpts)
      → (create_user_hash env a username password algo opts).0 ≡ none
      → (is_known algo ≡ true)
        × IsStored a username password algo opts
            (create_user_hash env a username password algo opts)
  unfolding create_user_hash
  IsStored-create_user_hash a username password algo opts ok =
      let rest =
        if not (is_known algo)
        then (some unknown_hash, a)
        else create_keyed env a password algo opts (key_of env username) in
      let first = passed (not a.table.is_mutable) not_mutable a rest ok in
      let second =
        passed (not (is_known algo)) unknown_hash a
          (create_keyed env a password algo opts (key_of env username))
          (ap (λ x. x.0) (sym first.1) ∙ ok) in
      let made =
        IsStored-create_keyed a username password algo opts (key_of env username) refl
          (ap (λ x. x.0) (sym (first.1 ∙ second.1)) ∙ ok) in
      (
        ground (arith, second.0),
        subst (IsStored a username password algo opts) (sym (first.1 ∙ second.1)) made,
      )

  pub IsStored-set_user_password :
      (a : Auth) (username password : Text)
      → (set_user_password env a username password).0 ≡ none
      → IsStored a username password default_hash no_opts
          (set_user_password env a username password)
  unfolding set_user_password
  IsStored-set_user_password a username password ok =
      let same =
        allowed a.table.is_mutable not_mutable a (store_keyed env a password (key_of env username))
          ok in
      subst (IsStored a username password default_hash no_opts) (sym same) (
        IsStored-store_keyed a username password (key_of env username) refl
          (ap (λ x. x.0) (sym same) ∙ ok))

  login_after :
      (laws : CryptoLaws env.crypto) (a : Auth) (username password algo : Text) (opts : HashOpts)
      (r : Option Error × Auth)
      → ((key : String) → env.users.lookup_fails key ≡ false)
      → is_known algo ≡ true
      → Fits opts
      → IsStored a username password algo opts r
      → auth_plain env r.1 username password ≡ (granted algo, r.1)
  login_after laws a username password algo opts r works known fits (k, hash, named, made, same) =
      let after = stored a k (algo ++ colon ∷ hash) in
      subst (λ x. auth_plain env x.1 username password ≡ (granted algo, x.1)) (sym same)
        (login_stored after username password (algo ++ colon ∷ hash) k named (works k)
            (lookup_same k (algo ++ colon ∷ hash) a.table.entries)
          ∙ ap (λ x. (x, after)) (verify_stored-text laws algo opts password hash known fits made))

  -- After CreateUserHash made an account without an error, for any of the three algorithms and with options in
  -- the range of their types, AuthPlain accepts the name with the password, and stores the password again
  -- exactly if the algorithm is not the default one; no lookup of an account fails, and base64, bcrypt and
  -- the formats of numbers read back what they wrote.
  pub auth_plain-create_user_hash :
      (laws : CryptoLaws env.crypto) (a : Auth) (username password algo : Text) (opts : HashOpts)
      → ((key : String) → env.users.lookup_fails key ≡ false)
      → Fits opts
      → (create_user_hash env a username password algo opts).0 ≡ none
      → auth_plain env (create_user_hash env a username password algo opts).1 username password
        ≡ (granted algo, (create_user_hash env a username password algo opts).1)
  auth_plain-create_user_hash laws a username password algo opts works fits ok =
      let (known, made) = IsStored-create_user_hash a username password algo opts ok in
      login_after laws a username password algo opts
        (create_user_hash env a username password algo opts) works known fits made

  -- After SetUserPassword stored a password without an error, whether the account existed or not, AuthPlain
  -- accepts the name with this password and changes nothing; no lookup of an account fails, and base64,
  -- bcrypt and the formats of numbers read back what they wrote.
  pub auth_plain-set_user_password :
      (laws : CryptoLaws env.crypto) (a : Auth) (username password : Text)
      → ((key : String) → env.users.lookup_fails key ≡ false)
      → (set_user_password env a username password).0 ≡ none
      → auth_plain env (set_user_password env a username password).1 username password
        ≡ (accepted, (set_user_password env a username password).1)
  auth_plain-set_user_password laws a username password works ok =
      login_after laws a username password default_hash no_opts
        (set_user_password env a username password) works refl
        (record { time = omega arith; memory = omega arith; threads = omega arith })
        (IsStored-set_user_password a username password ok)
