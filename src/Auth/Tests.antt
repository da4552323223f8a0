-- ===== src/Auth/Tests.antt =====
-- The theorems on user names and passwords at concrete accounts.
use mathlib.Core.Option.{some-injective}
use madmail.Prelude.{
  ℕ, ◌+◌, ◌-◌, leb, String, Bool, true, false, Option, none, some, List, [], ◌∷◌, ◌++◌, map, ◌≡◌,
  ◌≢◌, ◌↔◌, refl, sym, ap, subst, arith, Text, codes, text_eq, text_eq_sound, text_eq_refl,
  if◌then◌else◌,
}
use madmail.Prelude.Dict.{lookup}
use madmail.Auth.{
  Libs, at_sign, split_on, split_n, cut, trim_left, trim_right, has, wrap_ip, normalize_username,
  validate_login_domain,
}
use madmail.Auth.Names.{IsLogin, validate_login_domain_iff}
use madmail.Auth.Names.Normal.{normalize_username_idem}
use madmail.Auth.PassTable.{
  Crypto, hash_compute, hash_verify, HashOpts, no_opts, colon, hash_argon2,
}
use madmail.Auth.PassTable.Verified.{CryptoLaws, Fits}
use madmail.Auth.PassTable.Table.{Auth, Env, Faults, key_of, set_user_password, create_user_hash}
use madmail.Auth.PassTable.Login.{
  auth_plain, verify_stored, set_registration_open, accepted, accepted_and_rehash,
  is_jit_registration_enabled, registration_open, jit_registration, Logger,
}
use madmail.Auth.PassTable.Login.Flags.{
  is_enabled, set_enabled, reads_after, is_enabled-set_enabled,
}
use madmail.Auth.PassTable.Login.Accepted.{auth_plain-create_user_hash}
use madmail.Auth.PassTable.Login.Checked.{is_accepted, auth_plain-lookup_failed}
use madmail.Auth.PassTable.Login.Others.{
  Op, logs_in, deletion, set_password, Untouched, perform_all, Untouched-perform_all,
}

abbrev is_ip : Text → Bool
is_ip t = text_eq t (codes "1.2.3.4")

abbrev libs : Libs
libs = record { is_ip = is_ip; equal_fold = text_eq }

is_ip-no_at_sign : (t : Text) → libs.is_ip t ≡ true → has at_sign t ≡ false
is_ip-no_at_sign t h =
    subst (λ x. has at_sign x ≡ false) (sym (text_eq_sound t (codes "1.2.3.4") h)) refl

validate_login_domain_iff_example :
    (validate_login_domain libs (codes "bob@1.2.3.4") (codes "[1.2.3.4]") ≡ none) ↔ (
      (localpart : Text) × (domain : Text) × IsLogin (codes "bob@1.2.3.4") localpart domain
      × (libs.equal_fold (wrap_ip libs domain) (codes "[1.2.3.4]") ≡ true))
validate_login_domain_iff_example =
    validate_login_domain_iff libs (codes "bob@1.2.3.4") (codes "[1.2.3.4]") refl

normalize_username_idem_example :
    normalize_username libs (normalize_username libs (codes "bob@1.2.3.4"))
    ≡ normalize_username libs (codes "bob@1.2.3.4")
normalize_username_idem_example =
    normalize_username_idem libs (codes "bob@1.2.3.4") is_ip-no_at_sign

-- Texts without a colon: the code points from the colon on move up by one.
abbrev up : ℕ → ℕ
up c = if leb 58 c then c + 1 else c

abbrev down : ℕ → ℕ
down c = if leb 58 c then c - 1 else c

abbrev parse_uint : ℕ → Text → Option ℕ
parse_uint bits (c ∷ []) = some (c - 59)
parse_uint bits s = none

abbrev crypto : Crypto
crypto = record {
  random = λ n. some (codes "salt:");
  base64 = map up;
  base64_decode = λ t. some (map down t);
  sha256 = λ t. t;
  argon2_key = λ pass salt time memory threads. pass ++ salt;
  bcrypt = λ cost pass. some pass;
  bcrypt_matches = text_eq;
  format_uint = λ n. (n + 59) ∷ [];
  parse_uint = parse_uint;
}

down-up : (c : ℕ) → down (up c) ≡ c
down-up c = ground arith

map-down-up : (t : Text) → map down (map up t) ≡ t
map-down-up [] = refl
map-down-up (c ∷ t) = rw (down-up c, map-down-up t) refl

up-plain : (t : Text) → has colon (map up t) ≡ false
up-plain [] = refl
up-plain (c ∷ t) = ground (arith, up-plain t)

crypto-CryptoLaws : CryptoLaws crypto
crypto-CryptoLaws = record {
  base64_read = λ t. ap some (map-down-up t);
  base64_plain = up-plain;
  uint_read = λ bits n h. ap some (omega arith);
  uint_plain = λ n. ground arith;
  bcrypt_made = λ cost pass hash h.
      subst (λ x. text_eq x pass ≡ true) (some-injective pass hash h) (text_eq_refl pass);
}

abbrev no_faults : Faults
no_faults = record { lookup_fails = λ k. false; set_fails = λ k. false; remove_fails = λ k. false }

abbrev compare_key : Text → Option String
compare_key t =
    if text_eq t (codes "bob@b.com")
    then some "bob@b.com"
    else if text_eq t (codes "eve@b.com")
    then some "eve@b.com"
    else none

abbrev env : Env
env = record {
  libs = libs;
  crypto = crypto;
  compare_key = compare_key;
  users = no_faults;
  settings = no_faults;
}

-- The lookups of accounts fail.
abbrev broken : Env
broken = record env { users = record no_faults { lookup_fails = λ k. true } }

abbrev auth : Auth
auth = record {
  table = record { entries = ("eve@b.com", codes "bcrypt:pass") ∷ []; is_mutable = true };
  settings_table = some (record { entries = []; is_mutable = true });
  auto_create = false;
  jit_domain = codes "b.com";
}

abbrev open_auth : Auth
open_auth = record auth { auto_create = true }

abbrev opts : HashOpts
opts = record no_opts { argon2_time = 3; argon2_memory = 1024; argon2_threads = 1 }

account_made :
    (create_user_hash env auth (codes "bob@b.com") (codes "pass") hash_argon2 opts).0 ≡ none
unfolding create_user_hash normalize_username split_on wrap_ip trim_left trim_right hash_compute
    lookup
account_made = refl

opts-Fits : Fits opts
opts-Fits = record { time = omega arith; memory = omega arith; threads = omega arith }

auth_plain-create_user_hash_example :
    auth_plain env
      (create_user_hash env auth (codes "bob@b.com") (codes "pass") hash_argon2 opts).1
      (codes "bob@b.com")
      (codes "pass")
    ≡ (
      accepted_and_rehash,
      (create_user_hash env auth (codes "bob@b.com") (codes "pass") hash_argon2 opts).1,
    )
auth_plain-create_user_hash_example =
    auth_plain-create_user_hash env crypto-CryptoLaws auth (codes "bob@b.com") (codes "pass")
      hash_argon2 opts (λ k. refl) opts-Fits account_made

-- The login that auth_plain_iff is about is accepted.
eve_accepted : is_accepted (auth_plain env auth (codes "eve@b.com") (codes "pass")).0 ≡ true
unfolding auth_plain normalize_username split_on wrap_ip trim_left trim_right verify_stored split_n
    cut hash_verify lookup
eve_accepted = refl

on_login : is_jit_registration_enabled broken open_auth ≡ some true
unfolding is_jit_registration_enabled lookup
on_login = refl

eve_named : key_of broken (codes "eve@b.com") ≡ some "eve@b.com"
unfolding normalize_username split_on wrap_ip trim_left trim_right
eve_named = refl

eve_valid :
    validate_login_domain libs (normalize_username libs (codes "eve@b.com")) (codes "b.com") ≡ none
unfolding validate_login_domain normalize_username split_on wrap_ip trim_left trim_right
eve_valid = refl

eve_stored : (set_user_password broken open_auth (codes "eve@b.com") (codes "wrong")).0 ≡ none
unfolding set_user_password normalize_username split_on wrap_ip trim_left trim_right hash_compute
eve_stored = refl

auth_plain-lookup_failed_example :
    auth_plain broken open_auth (codes "eve@b.com") (codes "wrong")
    ≡ (accepted, (set_user_password broken open_auth (codes "eve@b.com") (codes "wrong")).1)
auth_plain-lookup_failed_example =
    auth_plain-lookup_failed broken is_ip-no_at_sign open_auth (codes "eve@b.com") (codes "wrong")
      "eve@b.com" eve_named refl on_login eve_valid eve_stored

abbrev ops : List (Text × Op)
ops =
    (codes "bob@b.com", logs_in (codes "x"))
    ∷ (codes "bob@b.com", set_password (codes "y"))
    ∷ (codes "bob@b.com", deletion)
    ∷ []

bob_other : key_of env (codes "bob@b.com") ≢ some "eve@b.com"
unfolding normalize_username split_on wrap_ip trim_left trim_right
bob_other = λ e. cc

Untouched-perform_all_example : Untouched env "eve@b.com" open_auth (perform_all env ops open_auth)
Untouched-perform_all_example =
    Untouched-perform_all env is_ip-no_at_sign "eve@b.com" ops open_auth
      (bob_other, (bob_other, (bob_other, tt)))

abbrev log : Logger
log = record { debug = false; is_silent = false }

opened : (set_enabled env log auth registration_open true).0 ≡ none
unfolding set_registration_open
opened = refl

is_enabled-set_enabled_example :
    is_enabled env (set_enabled env log auth registration_open true).1 jit_registration
    ≡ reads_after env auth registration_open true jit_registration
is_enabled-set_enabled_example =
    is_enabled-set_enabled env log auth registration_open jit_registration true (λ k. refl)
      (λ k. refl) opened
