-- ===== src/Address/Lookup.antt =====
-- ForLookup and Equal of framework/address/norm.go, and ForLookup of framework/dns/norm.go. Unicode
-- normalisation, lower case, IDNA and the parser of IP addresses are parameters.
use madmail.Prelude.{
  ℕ, Bool, true, false, ◌||◌, Option, none, some, [], ◌∷◌, ◌++◌, Text, text_eq, text_eq_sound, ◌==◌,
  if◌then◌else◌, ◌≡◌, ap, arith, Bool-cases, inl, inr,
}
use madmail.Address.{Error, Result, failed, ok, split, at_sign}

pub record Unicode : Type 0 where
  pub nfc : Text → Text
  pub to_lower : Text → Text
  pub to_unicode : Text → Option Text
  pub is_ip : Text → Bool

-- What lookups are made with, and the error: an address is usable in both cases.
pub data LookupError : Type 0 where
  bad_address : Error → LookupError
  bad_domain : LookupError

pub record Looked : Type 0 where
  pub text : Text
  pub error : Option LookupError

-- The text without its last character, if that is the given one.
abbrev trim_last : ℕ → Text → Text
trim_last ch [] = []
trim_last ch (c ∷ []) = if c == ch then [] else c ∷ []
trim_last ch (c ∷ d ∷ rest) = c ∷ trim_last ch (d ∷ rest)

-- The text before a last "]".
abbrev inside : Text → Option Text
inside [] = none
inside (c ∷ []) = if c == 93 then some [] else none
inside (c ∷ d ∷ rest) = elim (inside (d ∷ rest)) [ none ↦ none | some t ↦ some (c ∷ t) ]

abbrev bracketed : Text → Option Text
bracketed [] = none
bracketed (c ∷ rest) = let t = inside rest in if c == 91 then t else none

module _ (u : Unicode) where
  abbrev is_literal : Option Text → Bool
  is_literal none = false
  is_literal (some t) = u.is_ip t

  -- dns.ForLookup; the flag tells of an error.
  abbrev dns_lookup_name : Text → Option Text → Text × Bool
  dns_lookup_name domain none = (u.to_lower domain, true)
  dns_lookup_name domain (some name) = (trim_last 46 (u.to_lower (u.nfc name)), false)

  unfoldable pub dns_for_lookup : Text → Text × Bool
  dns_for_lookup domain =
      if is_literal (bracketed domain)
      then (domain, false)
      else dns_lookup_name domain (u.to_unicode domain)

  abbrev join : Text → Text → Text
  join mbox [] = u.to_lower (u.nfc mbox)
  join mbox (c ∷ domain) = u.to_lower (u.nfc mbox) ++ at_sign ∷ c ∷ domain

  abbrev joined : Text → Text → Text × Bool → Looked
  joined addr mbox (domain, true) = record { text = u.to_lower addr; error = some bad_domain }
  joined addr mbox (domain, false) = record { text = join mbox domain; error = none }

  abbrev parts_lookup : Text → Result (Text × Text) → Looked
  parts_lookup addr (failed e) = record { text = u.to_lower addr; error = some (bad_address e) }
  parts_lookup addr (ok (mbox, [])) = record { text = join mbox []; error = none }
  parts_lookup addr (ok (mbox, c ∷ domain)) = joined addr mbox (dns_for_lookup (c ∷ domain))

  unfoldable pub for_lookup : Text → Looked
  unfolding dns_for_lookup
  for_lookup [] = record { text = []; error = none }
  for_lookup (c ∷ rest) = parts_lookup (c ∷ rest) (split (c ∷ rest))

  unfoldable pub equal : Text → Text → Bool
  unfolding for_lookup
  equal a b = text_eq a b || text_eq (for_lookup a).text (for_lookup b).text

  -- Two addresses that are equal have one text for lookups.
  pub text-for_lookup : (a b : Text) → equal a b ≡ true → (for_lookup a).text ≡ (for_lookup b).text
  unfolding equal
  text-for_lookup a b h = elim (Bool-cases (text_eq a b)) [
    | inl same ↦ ap (λ t. (for_lookup t).text) (text_eq_sound a b same)
    | inr other ↦ text_eq_sound (for_lookup a).text (for_lookup b).text (ground arith)
  ]
