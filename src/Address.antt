-- ===== src/Address.antt =====
-- framework/address/split.go; its child Validation is `ValidMailboxName` of validation.go. A text is the list of its
-- code points.
pub mod Lookup
pub mod Quoting
pub mod Splitting
pub mod Validation
mod Tests
use madmail.Prelude.{
  Text, ℕ, ◌+◌, Bool, true, false, not, ◌&&◌, ◌||◌, List, [], ◌∷◌, ◌++◌, Option, none, some, any,
  ltb, leb, ◌==◌, if◌then◌else◌,
}

pub data Error : Type 0 where
  missing_at_sign empty_local_part empty_domain : Error
  text_after_quote bare_escape bare_at_sign : Error

pub data Result (A : Type 0) : Type 0 where
  failed : Error → Result A
  ok : A → Result A

abbrev pub quote_mark : ℕ
quote_mark = 34

abbrev pub backslash : ℕ
backslash = 92

abbrev pub at_sign : ℕ
at_sign = 64

-- What the body of the loop of `UnquoteMbox` does with a character.
pub data Step : Type 0 where
  refuses : Error → Step
  toggles escapes writes : Step

abbrev pub classify : Bool → Bool → Bool → ℕ → Step
classify quoted escaped terminated ch =
    if terminated
    then refuses text_after_quote
    else if (ch == quote_mark) && not escaped
    then toggles
    else if (ch == backslash) && not escaped
    then (if quoted then escapes else refuses bare_escape)
    else if (ch == at_sign) && not quoted
    then refuses bare_at_sign
    else writes

abbrev pub finish : Text → Result Text
finish [] = failed empty_local_part
finish (ch ∷ rest) = ok (ch ∷ rest)

-- The loop, with its three flags and the text built so far. A quote mark ends the quotation if one
-- is open.
unfoldable pub unquote_from : Bool → Bool → Bool → Text → Text → Result Text
unquote_from quoted escaped terminated built [] = finish built
unquote_from quoted escaped terminated built (ch ∷ rest) =
    elim (classify quoted escaped terminated ch) [
      | refuses e ↦ failed e
      | toggles ↦ unquote_from (not quoted) escaped quoted built rest
      | escapes ↦ unquote_from quoted true terminated built rest
      | writes ↦ unquote_from quoted false terminated (built ++ ch ∷ []) rest
    ]

unfoldable pub unquote_mbox : Text → Result Text
unfolding unquote_from
unquote_mbox mbox = unquote_from false false false [] mbox

-- ( ) < > [ ] : ; @ \ , " and the space.
abbrev pub mbox_special : Text
mbox_special = 40 ∷ 41 ∷ 60 ∷ 62 ∷ 91 ∷ 93 ∷ 58 ∷ 59 ∷ 64 ∷ 92 ∷ 44 ∷ 34 ∷ 32 ∷ []

abbrev pub is_special : ℕ → Bool
is_special ch = any (λ c. ch == c) mbox_special

abbrev pub needs_escape : ℕ → Bool
needs_escape ch = (ch == backslash) || (ch == quote_mark)

unfoldable pub escape : Text → Text
escape [] = []
escape (ch ∷ rest) =
    let after = escape rest in if needs_escape ch then backslash ∷ ch ∷ after else ch ∷ after

unfoldable pub quote_mbox : Text → Text
unfolding escape
quote_mbox mbox =
    if any is_special mbox then quote_mark ∷ (escape mbox ++ quote_mark ∷ []) else mbox

-- `strings.EqualFold` with a lower-case ASCII letter: its upper case, and for `s` the long s.
abbrev equal_fold_char : ℕ → ℕ → Bool
equal_fold_char ch lower = (ch == lower) || (ch + 32 == lower) || ((lower == 115) && (ch == 383))

unfoldable pub equal_fold : Text → Text → Bool
equal_fold [] [] = true
equal_fold [] (c ∷ cs) = false
equal_fold (ch ∷ rest) [] = false
equal_fold (ch ∷ rest) (c ∷ cs) = equal_fold_char ch c && equal_fold rest cs

abbrev pub postmaster : Text
postmaster = 112 ∷ 111 ∷ 115 ∷ 116 ∷ 109 ∷ 97 ∷ 115 ∷ 116 ∷ 101 ∷ 114 ∷ []

abbrev cut_here : ℕ → Text → Option (Text × Text) → Option (Text × Text)
cut_here ch rest none = if ch == at_sign then some ([], rest) else none
cut_here ch rest (some (mailbox, domain)) = some (ch ∷ mailbox, domain)

-- The text before and after the last at-sign, if there is one.
unfoldable pub cut_last : Text → Option (Text × Text)
cut_last [] = none
cut_last (ch ∷ rest) = cut_here ch rest (cut_last rest)

abbrev checked : Option (Text × Text) → Result (Text × Text)
checked none = failed missing_at_sign
checked (some ([], domain)) = failed empty_local_part
checked (some (ch ∷ rest, [])) = failed empty_domain
checked (some (ch ∷ rest, c ∷ cs)) = ok (ch ∷ rest, c ∷ cs)

unfoldable pub split : Text → Result (Text × Text)
unfolding equal_fold cut_last
split addr = if equal_fold addr postmaster then ok (addr, []) else checked (cut_last addr)
