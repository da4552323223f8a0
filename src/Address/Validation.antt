-- ===== src/Address/Validation.antt =====
-- ValidMailboxName of framework/address/validation.go.
use madmail.Prelude.{
  Text, ℕ, Bool, true, false, not, ◌&&◌, ◌||◌, [], ◌∷◌, any, leb, ltb, ◌==◌, ◌≡◌, ◌≢◌, refl, arith,
  if◌then◌else◌, Bool-cases, inl, inr,
}
use madmail.Address.{Result, ok, failed, unquote_mbox, is_special, quote_mbox, quote_mark}
use madmail.Address.Quoting.{unquote_mbox-quote_mbox}

-- ! # $ % & ' * + - / = ? ^ _ ` { | } ~ .
abbrev valid_graphic : Text
valid_graphic =
    33 ∷ 35 ∷ 36 ∷ 37 ∷ 38 ∷ 39 ∷ 42 ∷ 43 ∷ 45 ∷ 47 ∷ 61 ∷ 63 ∷ 94 ∷ 95 ∷ 96 ∷ 123 ∷ 124 ∷ 125 ∷ 126
    ∷ 46 ∷ []

abbrev is_in : ℕ → ℕ → ℕ → Bool
is_in low high ch = leb low ch && leb ch high

-- A character that is allowed without quotes.
abbrev pub is_plain : ℕ → Bool
is_plain ch =
    any (λ c. ch == c) valid_graphic
    || is_in 48 57 ch
    || is_in 65 90 ch
    || is_in 97 122 ch
    || ltb 127 ch

abbrev pub is_control : ℕ → Bool
is_control ch = ltb ch 32 || (ch == 127)

abbrev valid_raw : Result Text → Bool
valid_raw (failed e) = false
valid_raw (ok raw) = not (any is_control raw)

abbrev has_quote : Text → Bool
has_quote [] = false
has_quote (ch ∷ rest) = ch == quote_mark

unfoldable pub valid_mailbox_name : Text → Bool
unfolding unquote_mbox
valid_mailbox_name mbox =
    if has_quote mbox
    then valid_raw (unquote_mbox mbox)
    else not (any (λ ch. not (is_plain ch)) mbox)

has_quote-special : (m : Text) → any is_special m ≡ false → has_quote m ≡ false
has_quote-special [] h = refl
has_quote-special (ch ∷ m) h = ground arith

has_quote-quote_mbox : (m : Text) → any is_special m ≡ true → has_quote (quote_mbox m) ≡ true
unfolding quote_mbox
has_quote-quote_mbox m h = rw h refl

quote_mbox_plain : (m : Text) → any is_special m ≡ false → quote_mbox m ≡ m
unfolding quote_mbox
quote_mbox_plain m h = rw h refl

-- What `QuoteMbox` returns for a local part that is not empty is a valid mailbox name just if the local
-- part has no control characters, where it needs quotes, or else only characters that are allowed
-- without quotes.
pub valid_mailbox_name-quote_mbox :
    (m : Text)
    → m ≢ []
    → valid_mailbox_name (quote_mbox m)
      ≡ (if any is_special m then not (any is_control m) else not (any (λ ch. not (is_plain ch)) m))
unfolding valid_mailbox_name
valid_mailbox_name-quote_mbox m h = elim (Bool-cases (any is_special m)) [
  | inl special ↦ rw (has_quote-quote_mbox m special, special, unquote_mbox-quote_mbox m h) refl
  | inr plain ↦ rw (quote_mbox_plain m plain, has_quote-special m plain, plain) refl
]
