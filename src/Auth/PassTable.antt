-- ===== src/Auth/PassTable.antt =====
-- internal/auth/pass_table/hash.go: the passwords as they are stored. The hash functions, base64, the
-- formats of numbers and the random source are parameters; a table of passwords is in the child Table.
pub mod Table
pub mod Login
pub mod Verified
use madmail.Prelude.{
  ℕ, Bool, true, false, not, ◌&&◌, ◌||◌, Option, none, some, List, [], ◌∷◌, ◌++◌, Text, codes,
  text_eq, if◌then◌else◌,
}
use madmail.Auth.{split_on, split_n}

abbrev pub colon : ℕ
colon = 58

abbrev pub hash_sha256 : Text
hash_sha256 = codes "sha256"

abbrev pub hash_bcrypt : Text
hash_bcrypt = codes "bcrypt"

abbrev pub hash_argon2 : Text
hash_argon2 = codes "argon2"

abbrev pub default_hash : Text
default_hash = hash_sha256

pub record HashOpts : Type 0 where
  pub bcrypt_cost : ℕ
  pub argon2_time : ℕ
  pub argon2_memory : ℕ
  pub argon2_threads : ℕ

abbrev pub no_opts : HashOpts
no_opts = record { bcrypt_cost = 0; argon2_time = 0; argon2_memory = 0; argon2_threads = 0 }

-- `random n` is what a read of n random bytes gives, and `parse_uint` takes the number of bits.
pub record Crypto : Type 0 where
  pub random : ℕ → Option Text
  pub base64 : Text → Text
  pub base64_decode : Text → Option Text
  pub sha256 : Text → Text
  pub argon2_key : Text → Text → ℕ → ℕ → ℕ → Text
  pub bcrypt : ℕ → Text → Option Text
  pub bcrypt_matches : Text → Text → Bool
  pub format_uint : ℕ → Text
  pub parse_uint : ℕ → Text → Option ℕ

-- How a verification ends: no error, an error, or a panic on an index out of range.
pub data Check : Type 0 where
  matches mismatch panics : Check

abbrev with_some : {A : Type 0} → Option A → (A → Check) → Check
with_some none f = mismatch
with_some (some a) f = f a

abbrev part_at : List Text → ℕ → Option Text
part_at [] n = none
part_at (part ∷ parts) ℕ.zero = some part
part_at (part ∷ parts) (ℕ.suc n) = part_at parts n

abbrev indexed : Option Text → (Text → Check) → Check
indexed none f = panics
indexed (some part) f = f part

abbrev with_part : List Text → ℕ → (Text → Check) → Check
with_part parts n f = indexed (part_at parts n) f

abbrev pub compared : Text → Text → Check
compared a b = if text_eq a b then matches else mismatch

module _ (c : Crypto) where
  abbrev pub argon2_text : HashOpts → Text → Text → Text
  argon2_text opts pass salt =
      c.format_uint opts.argon2_time
      ++ colon
        ∷ (c.format_uint opts.argon2_memory
            ++ colon
              ∷ (c.format_uint opts.argon2_threads
                  ++ colon
                    ∷ (c.base64 salt
                        ++ colon
                          ∷ c.base64 (
                              c.argon2_key pass salt opts.argon2_time opts.argon2_memory
                                opts.argon2_threads))))

  abbrev pub argon2_of : HashOpts → Text → Option Text → Option Text
  argon2_of opts pass none = none
  argon2_of opts pass (some salt) = some (argon2_text opts pass salt)

  unfoldable pub compute_argon2 : HashOpts → Text → Option Text
  compute_argon2 opts pass = argon2_of opts pass (c.random 16)

  unfoldable pub verify_argon2 : Text → Text → Check
  verify_argon2 pass hash_salt =
      let parts = split_n 5 colon hash_salt in
      with_part parts 0 λ a. with_some (c.parse_uint 32 a) λ time. with_part parts 1 λ b.
        with_some (c.parse_uint 32 b) λ memory. with_part parts 2 λ d.
          with_some (c.parse_uint 8 d) λ threads. with_part parts 3 λ e.
            with_some (c.base64_decode e) λ salt. with_part parts 4 λ f.
              with_some (c.base64_decode f)
                λ hash. compared (c.argon2_key pass salt time memory threads) hash

  abbrev pub sha256_text : Text → Text → Text
  sha256_text pass salt = c.base64 salt ++ colon ∷ c.base64 (c.sha256 (salt ++ pass))

  abbrev pub sha256_of : Text → Option Text → Option Text
  sha256_of pass none = none
  sha256_of pass (some salt) = some (sha256_text pass salt)

  unfoldable pub compute_sha256 : Text → Option Text
  compute_sha256 pass = sha256_of pass (c.random 32)

  abbrev pub sha256_matches : Text → Option Text → Option Text → Check
  sha256_matches pass none hash = mismatch
  sha256_matches pass (some salt) none = mismatch
  sha256_matches pass (some salt) (some hash) = compared (c.sha256 (salt ++ pass)) hash

  abbrev pub verify_sha256_parts : Text → List Text → Check
  verify_sha256_parts pass (salt ∷ hash ∷ []) =
      sha256_matches pass (c.base64_decode salt) (c.base64_decode hash)
  verify_sha256_parts pass parts = mismatch

  unfoldable pub verify_sha256 : Text → Text → Check
  verify_sha256 pass hash_salt = verify_sha256_parts pass (split_on colon hash_salt)

  -- HashCompute[algo]: `none` is an error of the computation; an unknown name is tested before.
  unfoldable pub hash_compute : Text → HashOpts → Text → Option Text
  unfolding compute_sha256 compute_argon2
  hash_compute algo opts pass =
      if text_eq algo hash_sha256
      then compute_sha256 pass
      else if text_eq algo hash_bcrypt
      then c.bcrypt opts.bcrypt_cost pass
      else compute_argon2 opts pass

  -- HashVerify[algo]
  unfoldable pub hash_verify : Text → Text → Text → Check
  unfolding verify_sha256 verify_argon2
  hash_verify algo pass hash_salt =
      if text_eq algo hash_sha256
      then verify_sha256 pass hash_salt
      else if text_eq algo hash_bcrypt
      then (if c.bcrypt_matches hash_salt pass then matches else mismatch)
      else verify_argon2 pass hash_salt

abbrev pub is_known : Text → Bool
is_known algo = text_eq algo hash_sha256 || text_eq algo hash_bcrypt || text_eq algo hash_argon2
