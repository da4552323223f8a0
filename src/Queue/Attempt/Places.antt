-- ===== src/Queue/Attempt/Places.antt =====
-- How the loop of `tryDelivery` splits the recipients.
use madmail.Prelude.{ℕ, suc, ◌+◌, String, List, [], ◌∷◌, ◌++◌, ◌≡◌, arith, str_eq, if◌then◌else◌}
use madmail.Queue.Delivery.{Errs}
use madmail.Queue.Attempt.{Split, split_one, split}

abbrev pub count : String → List String → ℕ
count r [] = 0
count r (x ∷ xs) = if str_eq x r then suc (count r xs) else count r xs

pub count-append : (r : String) (xs ys : List String) → count r (xs ++ ys) ≡ count r xs + count r ys
count-append r [] ys = omega arith
count-append r (x ∷ xs) ys = ground (arith, count-append r xs ys)

abbrev pub places : String → Split → ℕ
places r s = count r s.new_rcpts + count r s.failed_rcpts + count r s.delivered

places-split_one :
    (max_tries : ℕ) (errs : Errs) (s : Split) (x r : String)
    → places r (split_one max_tries errs s x) ≡ places r s + count r (x ∷ [])
unfolding split_one
places-split_one max_tries errs s x r = ground (
  arith,
  count-append r s.new_rcpts (x ∷ []),
  count-append r s.failed_rcpts (x ∷ []),
  count-append r s.delivered (x ∷ []),
)

-- Each recipient goes to exactly one of the three lists, as often as it is listed.
pub places-split :
    (max_tries : ℕ) (errs : Errs) (s : Split) (to : List String) (r : String)
    → places r (split max_tries errs s to) ≡ places r s + count r to
unfolding split
places-split max_tries errs s [] r = omega arith
places-split max_tries errs s (x ∷ to) r = ground (
  arith,
  places-split max_tries errs (split_one max_tries errs s x) to r,
  places-split_one max_tries errs s x r,
)
