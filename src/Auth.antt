-- ===== src/Auth.antt =====
-- internal/auth/auth.go: normalisation and checks of user names; its child PassTable is
-- internal/auth/pass_table. A text is the list of its code points. `net.ParseIP` and
-- `strings.EqualFold` are parameters.
pub mod Names
pub mod PassTable
mod Tests
use madmail.Prelude.{
  ℕ, zero, suc, Bool, true, false, not, ◌&&◌, ◌||◌, Option, none, some, List, [], ◌∷◌, ◌++◌, any,
  ◌==◌, Text, if◌then◌else◌,
}

pub record Libs : Type 0 where
  pub is_ip : Text → Bool
  pub equal_fold : Text → Text → Bool

abbrev pub push : ℕ → List Text → List Text
push c [] = (c ∷ []) ∷ []
push c (part ∷ parts) = (c ∷ part) ∷ parts

-- strings.Split with a separator of one character.
unfoldable pub split_on : ℕ → Text → List Text
split_on sep [] = [] ∷ []
split_on sep (c ∷ s) = let parts = split_on sep s in if c == sep then [] ∷ parts else push c parts

abbrev pub cons_part : ℕ → Option (Text × Text) → Option (Text × Text)
cons_part c none = none
cons_part c (some (before, after)) = some (c ∷ before, after)

-- The text before and after the first separator, if there is one.
unfoldable pub cut : ℕ → Text → Option (Text × Text)
cut sep [] = none
cut sep (c ∷ s) = let rest = cut sep s in if c == sep then some ([], s) else cons_part c rest

-- strings.SplitN with a separator of one character.
unfoldable pub split_n : ℕ → ℕ → Text → List Text
split_n zero sep s = []
split_n (suc zero) sep s = s ∷ []
split_n (suc (suc n)) sep s = elim (cut sep s) [
  | none ↦ s ∷ []
  | some (before, after) ↦ before ∷ split_n (suc n) sep after
]

abbrev pub is_bracket : ℕ → Bool
is_bracket c = (c == 91) || (c == 93)

unfoldable pub trim_left : Text → Text
trim_left [] = []
trim_left (c ∷ s) = let rest = trim_left s in if is_bracket c then rest else c ∷ s

abbrev pub cons_unless : ℕ → Text → Text
cons_unless c [] = if is_bracket c then [] else c ∷ []
cons_unless c (d ∷ s) = c ∷ d ∷ s

unfoldable pub trim_right : Text → Text
trim_right [] = []
trim_right (c ∷ s) = cons_unless c (trim_right s)

-- strings.Trim(domain, "[]")
abbrev pub trim : Text → Text
trim s = trim_right (trim_left s)

abbrev pub at_sign : ℕ
at_sign = 64

abbrev pub percent : ℕ
percent = 37

abbrev pub has : ℕ → Text → Bool
has c s = any (λ d. d == c) s

pub data DomainError : Type 0 where
  url_encoded bad_format empty_local_part wrong_domain : DomainError

abbrev pub is_empty : Text → Bool
is_empty [] = true
is_empty (c ∷ s) = false

module _ (libs : Libs) where
  unfoldable pub wrap_ip : Text → Text
  wrap_ip domain =
      let trimmed = trim domain in if libs.is_ip trimmed then 91 ∷ (trimmed ++ 93 ∷ []) else domain

  abbrev pub normalize_parts : Text → List Text → Text
  normalize_parts username (localpart ∷ domain ∷ []) = localpart ++ at_sign ∷ wrap_ip domain
  normalize_parts username parts = wrap_ip username

  unfoldable pub normalize_username : Text → Text
  normalize_username username = normalize_parts username (split_on at_sign username)

  abbrev pub validate_parts : Text → List Text → Option DomainError
  validate_parts expected (localpart ∷ domain ∷ []) =
      if is_empty localpart
      then some empty_local_part
      else if libs.equal_fold (wrap_ip domain) expected
      then none
      else some wrong_domain
  validate_parts expected parts = some bad_format

  unfoldable pub validate_login_domain : Text → Text → Option DomainError
  validate_login_domain username expected =
      if is_empty expected
      then none
      else if has percent username
      then some url_encoded
      else validate_parts expected (split_on at_sign username)

  -- Whether a domain is one of the list; without a list none is.
  abbrev listed : Text → Option (List Text) → Bool
  listed domain none = false
  listed domain (some allowed) = any (λ d. libs.equal_fold domain d) allowed

  abbrev is_list : Option (List Text) → Bool
  is_list none = false
  is_list (some allowed) = true

  abbrev allow : Text → Text → Option (List Text) → Text × Bool
  allow account domain allowed =
      if is_empty domain
      then (account, true)
      else if is_list allowed && not (listed domain allowed)
      then ([], false)
      else (account, listed domain allowed)

  abbrev allow_parts : Bool → Text → List Text → Option (List Text) → Text × Bool
  allow_parts true username (localpart ∷ domain ∷ []) allowed = allow username domain allowed
  allow_parts true username parts allowed = ([], false)
  allow_parts false username (localpart ∷ domain ∷ []) allowed = allow localpart domain allowed
  allow_parts false username [] allowed = allow [] [] allowed
  allow_parts false username (localpart ∷ []) allowed = allow localpart [] allowed
  allow_parts false username (localpart ∷ domain ∷ more ∷ parts) allowed =
      allow localpart [] allowed

  unfoldable pub check_domain_auth : Text → Bool → Option (List Text) → Text × Bool
  check_domain_auth username per_domain allowed =
      allow_parts per_domain username (split_on at_sign username) allowed
