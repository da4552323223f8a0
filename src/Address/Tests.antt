-- ===== src/Address/Tests.antt =====
-- The theorems on addresses at concrete texts.
use madmail.Prelude.{Text, [], ◌∷◌, ◌≡◌, refl}
use mathlib.Core.List.{cons≢nil}
use madmail.Address.{ok, failed, unquote_mbox, quote_mbox, bare_at_sign}
use madmail.Address.Quoting.{unquote_mbox-quote_mbox}

-- a"@b
abbrev odd : Text
odd = 97 ∷ 34 ∷ 64 ∷ 98 ∷ []

unquote_mbox-quote_mbox_example : unquote_mbox (quote_mbox odd) ≡ ok odd
unquote_mbox-quote_mbox_example = unquote_mbox-quote_mbox odd cons≢nil

bare : unquote_mbox (97 ∷ 64 ∷ []) ≡ failed bare_at_sign
unfolding unquote_mbox
bare = refl
