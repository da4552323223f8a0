-- ===== src/Address/Splitting.antt =====
-- Split of framework/address/split.go.
use madmail.Prelude.{Text, false, ◌||◌, [], ◌∷◌, ◌++◌, none, some, any, ◌==◌, ◌≡◌, ◌≢◌, refl, arith}
use madmail.Address.{ok, at_sign, equal_fold, postmaster, cut_last, checked, split}

cut_last-none : (domain : Text) → any (λ c. c == at_sign) domain ≡ false → cut_last domain ≡ none
unfolding cut_last
cut_last-none [] h = refl
cut_last-none (ch ∷ rest) h = rw (cut_last-none rest (ground arith)) (ground arith)

cut_last-append :
    (mailbox domain : Text)
    → any (λ c. c == at_sign) domain ≡ false
    → cut_last (mailbox ++ at_sign ∷ domain) ≡ some (mailbox, domain)
unfolding cut_last
cut_last-append [] domain h = rw (cut_last-none domain h) refl
cut_last-append (ch ∷ mailbox) domain h = rw (cut_last-append mailbox domain h) refl

equal_fold-at_sign :
    (mailbox domain word : Text)
    → any (λ c. c == at_sign) word || any (λ c. c == 96) word ≡ false
    → equal_fold (mailbox ++ at_sign ∷ domain) word ≡ false
unfolding equal_fold
equal_fold-at_sign [] domain [] h = refl
equal_fold-at_sign [] domain (c ∷ cs) h = ground arith
equal_fold-at_sign (ch ∷ mailbox) domain [] h = refl
equal_fold-at_sign (ch ∷ mailbox) domain (c ∷ cs) h =
    ground (arith, equal_fold-at_sign mailbox domain cs)

checked-nonempty :
    (mailbox domain : Text)
    → mailbox ≢ []
    → domain ≢ []
    → checked (some (mailbox, domain)) ≡ ok (mailbox, domain)
checked-nonempty [] domain h k = absurd (h refl)
checked-nonempty (ch ∷ mailbox) [] h k = absurd (k refl)
checked-nonempty (ch ∷ mailbox) (c ∷ domain) h k = refl

-- `Split` takes apart what an at-sign joins: a local part and a domain that are not empty, where the
-- domain has no at-sign; the local part may have some.
pub split-append :
    (mailbox domain : Text)
    → mailbox ≢ []
    → domain ≢ []
    → any (λ c. c == at_sign) domain ≡ false
    → split (mailbox ++ at_sign ∷ domain) ≡ ok (mailbox, domain)
unfolding split
split-append mailbox domain h k n =
    rw (equal_fold-at_sign mailbox domain postmaster refl, cut_last-append mailbox domain n)
      (checked-nonempty mailbox domain h k)
