-- ===== src/Auth/PassTable/Verified.antt =====
-- internal/auth/pass_table/hash.go: a stored password is matched by the password it was made from.
use mathlib.Core.Option.{some-injective}
use madmail.Prelude.{
  ℕ, ◌^◌, ◌<◌, true, false, Option, none, some, List, [], ◌∷◌, ◌++◌, Text, text_eq, ◌≡◌, refl, sym,
  ap, ◌∙◌, arith, Bool-cases, inl, inr, text_eq_refl, Option-cases,
}
use madmail.Auth.{has, cut, split_n, split_on}
use madmail.Auth.Names.{split_on-none, split_on-append}
use madmail.Auth.PassTable.{
  Crypto, HashOpts, matches, colon, hash_sha256, hash_bcrypt, hash_compute, hash_verify, is_known,
  compute_argon2, verify_argon2, compute_sha256, verify_sha256, argon2_text, sha256_text, compared,
}

-- What base64, strconv and bcrypt promise: texts without a colon, read back as they were written.
pub record CryptoLaws (c : Crypto) : Type 0 where
  pub base64_read : (t : Text) → c.base64_decode (c.base64 t) ≡ some t
  pub base64_plain : (t : Text) → has colon (c.base64 t) ≡ false
  pub uint_read : (bits n : ℕ) → n < 2 ^ bits → c.parse_uint bits (c.format_uint n) ≡ some n
  pub uint_plain : (n : ℕ) → has colon (c.format_uint n) ≡ false
  pub bcrypt_made :
      (cost : ℕ) (pass hash : Text)
      → c.bcrypt cost pass ≡ some hash
      → c.bcrypt_matches hash pass ≡ true

-- The machine types of the options.
pub record Fits (opts : HashOpts) : Type 0 where
  pub time : opts.argon2_time < 2 ^ 32
  pub memory : opts.argon2_memory < 2 ^ 32
  pub threads : opts.argon2_threads < 2 ^ 8

pub cut-append : (sep : ℕ) (a b : Text) → has sep a ≡ false → cut sep (a ++ sep ∷ b) ≡ some (a, b)
unfolding cut
cut-append sep [] b h = ground arith
cut-append sep (c ∷ a) b h = rw (cut-append sep a b (ground arith)) (ground arith)

pub cut-none : (sep : ℕ) (a : Text) → has sep a ≡ false → cut sep a ≡ none
unfolding cut
cut-none sep [] h = refl
cut-none sep (c ∷ a) h = rw (cut-none sep a (ground arith)) (ground arith)

pub split_n-append :
    (n sep : ℕ) (a b : Text)
    → has sep a ≡ false
    → split_n (ℕ.suc (ℕ.suc n)) sep (a ++ sep ∷ b) ≡ a ∷ split_n (ℕ.suc n) sep b
unfolding split_n
split_n-append n sep a b h =
    let rest : Option (Text × Text) → List Text = λ r. elim r [
      | none ↦ (a ++ sep ∷ b) ∷ []
      | some (before, after) ↦ before ∷ split_n (ℕ.suc n) sep after
    ] in
    ap rest (cut-append sep a b h)

compared_refl : (t : Text) → compared t t ≡ matches
compared_refl t = rw (text_eq_refl t) refl

module _ (c : Crypto) (laws : CryptoLaws c) where
  verify_sha256-text : (pass salt : Text) → verify_sha256 c pass (sha256_text c pass salt) ≡ matches
  unfolding verify_sha256
  verify_sha256-text pass salt =
      let sum = c.sha256 (salt ++ pass) in
      let parts : split_on colon (sha256_text c pass salt) ≡ c.base64 salt ∷ c.base64 sum ∷ [] =
        split_on-append colon (c.base64 salt) (c.base64 sum) (laws.base64_plain salt)
        ∙ ap (λ ps. c.base64 salt ∷ ps)
            (split_on-none colon (c.base64 sum) (laws.base64_plain sum)) in
      rw (parts, laws.base64_read salt, laws.base64_read sum) (compared_refl sum)

  argon2_parts :
      (opts : HashOpts) (pass salt : Text)
      → split_n 5 colon (argon2_text c opts pass salt)
        ≡ c.format_uint opts.argon2_time
          ∷ c.format_uint opts.argon2_memory
          ∷ c.format_uint opts.argon2_threads
          ∷ c.base64 salt
          ∷ c.base64
              (c.argon2_key pass salt opts.argon2_time opts.argon2_memory opts.argon2_threads)
          ∷ []
  argon2_parts opts pass salt =
      rw
        (
          split_n-append 3 colon (c.format_uint opts.argon2_time) _
              (laws.uint_plain opts.argon2_time),
          split_n-append 2 colon (c.format_uint opts.argon2_memory) _
              (laws.uint_plain opts.argon2_memory),
          split_n-append 1 colon (c.format_uint opts.argon2_threads) _
              (laws.uint_plain opts.argon2_threads),
          split_n-append 0 colon (c.base64 salt) _ (laws.base64_plain salt),
        )
        (unfold split_n in refl)

  verify_argon2-text :
      (opts : HashOpts) (pass salt : Text)
      → Fits opts
      → verify_argon2 c pass (argon2_text c opts pass salt) ≡ matches
  unfolding verify_argon2
  verify_argon2-text opts pass salt fits =
      let key = c.argon2_key pass salt opts.argon2_time opts.argon2_memory opts.argon2_threads in
      rw
        (
          argon2_parts opts pass salt,
          laws.uint_read 32 opts.argon2_time fits.time,
          laws.uint_read 32 opts.argon2_memory fits.memory,
          laws.uint_read 8 opts.argon2_threads fits.threads,
          laws.base64_read salt,
          laws.base64_read key,
        )
        (compared_refl key)

  sha256-made :
      (pass hash : Text) → compute_sha256 c pass ≡ some hash → verify_sha256 c pass hash ≡ matches
  unfolding compute_sha256
  sha256-made pass hash made = elim (Option-cases (c.random 32)) [
    | inl none_left ↦ cc (none_left, made)
    | inr (salt, drawn) ↦
        let text = rw drawn at made in
        rw (sym (some-injective _ hash text)) (verify_sha256-text pass salt)
  ]

  argon2-made :
      (opts : HashOpts) (pass hash : Text)
      → Fits opts
      → compute_argon2 c opts pass ≡ some hash
      → verify_argon2 c pass hash ≡ matches
  unfolding compute_argon2
  argon2-made opts pass hash fits made = elim (Option-cases (c.random 16)) [
    | inl none_left ↦ cc (none_left, made)
    | inr (salt, drawn) ↦
        let text = rw drawn at made in
        rw (sym (some-injective _ hash text)) (verify_argon2-text opts pass salt fits)
  ]

  -- A hash that HashCompute makes, with options in the range of their types, is matched by its password
  -- under HashVerify, for each of the three algorithms, whatever the random salt is.
  pub hash_verify-hash_compute :
      (algo : Text) (opts : HashOpts) (pass hash : Text)
      → is_known algo ≡ true
      → Fits opts
      → hash_compute c algo opts pass ≡ some hash
      → hash_verify c algo pass hash ≡ matches
  unfolding hash_compute hash_verify
  hash_verify-hash_compute algo opts pass hash known fits made =
      elim (Bool-cases (text_eq algo hash_sha256)) [
        | inl sha ↦
            let hashed : compute_sha256 c pass ≡ some hash = rw sha at made in
            rw sha (sha256-made pass hash hashed)
        | inr other ↦ elim (Bool-cases (text_eq algo hash_bcrypt)) [
          | inl bc ↦
              let hashed : c.bcrypt opts.bcrypt_cost pass ≡ some hash = rw (other, bc) at made in
              rw (other, bc, laws.bcrypt_made opts.bcrypt_cost pass hash hashed) refl
          | inr rest ↦
              let hashed : compute_argon2 c opts pass ≡ some hash = rw (other, rest) at made in
              rw (other, rest) (argon2-made opts pass hash fits hashed)
        ]
      ]
