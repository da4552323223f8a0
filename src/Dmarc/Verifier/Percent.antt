-- ===== src/Dmarc/Verifier/Percent.antt =====
-- How often `Apply` enforces a policy with a percentage.
use madmail.Prelude.{
  ℕ, zero, suc, ◌+◌, ◌≤◌, ◌<◌, Bool, true, false, not, none, some, List, ◌≡◌, refl, ◌∙◌, arith, ltb,
  Text, if◌then◌else◌,
}
use madmail.Dmarc.{AuthResult, Policy, reject, Record, Names, fail, evaluate_alignment}
use madmail.Dmarc.Verifier.{VerifyData, FetchError, apply, effective_policy, apply_data}

-- For how many numbers below n the test holds.
abbrev pub count_below : ℕ → (ℕ → Bool) → ℕ
count_below zero test = 0
count_below (suc n) test = (if test n then 1 else 0) + count_below n test

count_below-not-ltb :
    (n percent : ℕ) → n ≤ percent → count_below n (λ draw. not (ltb percent draw)) ≡ n
count_below-not-ltb zero percent h = refl
count_below-not-ltb (suc n) percent h = ground (arith, count_below-not-ltb n percent)

count_below_above :
    (n percent : ℕ) → percent < n → count_below n (λ draw. not (ltb percent draw)) ≡ percent + 1
count_below_above zero percent h = absurd (omega arith)
count_below_above (suc n) percent h =
    ground (arith, count_below_above n percent, count_below-not-ltb n percent)

abbrev pub is_reject : Policy → Bool
is_reject reject = true
is_reject _ = false

count_below_ext :
    (n : ℕ) (f g : ℕ → Bool) → ((k : ℕ) → f k ≡ g k) → count_below n f ≡ count_below n g
count_below_ext zero f g h = refl
count_below_ext (suc n) f g h = ground (arith, h n, count_below_ext n f g h)

module _ (names : Names) (error_text : FetchError → Text) where
  enforced :
      (v : VerifyData) (rec : Record) (percent draw : ℕ) (results : List AuthResult)
      → v.record_err ≡ none
      → v.record_found ≡ some rec
      → rec.percent ≡ some percent
      → effective_policy names error_text v rec ≡ reject
      → (evaluate_alignment names v.from_domain rec results).authres.value ≡ fail
      → is_reject (apply names error_text draw v results).1 ≡ not (ltb percent draw)
  unfolding apply
  enforced v rec percent draw results he hr hp hx hv =
      rw (he, apply_data) (rw (hr, hv, hp, hx) (ground arith))

  -- A reject policy for n of 100 messages, where n is below 100, is enforced on a failing message for
  -- n + 1 of the 100 numbers that may be drawn: also with n = 0, for one in a hundred.
  pub count-apply :
      (v : VerifyData) (rec : Record) (percent : ℕ) (results : List AuthResult)
      → percent < 100
      → v.record_err ≡ none
      → v.record_found ≡ some rec
      → rec.percent ≡ some percent
      → effective_policy names error_text v rec ≡ reject
      → (evaluate_alignment names v.from_domain rec results).authres.value ≡ fail
      → count_below 100 (λ draw. is_reject (apply names error_text draw v results).1) ≡ percent + 1
  count-apply v rec percent results h he hr hp hx hv =
      count_below_ext 100 (λ draw. is_reject (apply names error_text draw v results).1)
        (λ draw. not (ltb percent draw))
        (λ draw. enforced v rec percent draw results he hr hp hx hv)
      ∙ count_below_above 100 percent h
