-- ===== src/Queue/Delivery.antt =====
-- `partialError` and `deliver` of internal/target/queue/queue.go: one attempt to hand a message to the
-- target, which is a parameter.
pub mod Calls
use madmail.Prelude.{
  ℕ, suc, ◌+◌, String, Bool, true, false, ◌&&◌, Option, none, some, List, [], ◌∷◌, ◌++◌,
}
use madmail.Prelude.Dict.{Dict, lookup, insert}
use madmail.Errors.{GoError}

-- `partialError.Errs`
abbrev pub Errs : Type 0
Errs = Dict GoError

unfoldable pub set_status : Errs → String → Option GoError → Errs
set_status errs rcpt none = errs
set_status errs rcpt (some err) = insert rcpt err errs

-- How the target answers the calls of one attempt. `body` is one error for all, or, for a target that
-- implements PartialDelivery, the calls of `SetStatus` that it makes.
pub data BodyAnswer : Type 0 where
  atomic : Option GoError → BodyAnswer
  non_atomic : List (String × Option GoError) → BodyAnswer

pub record Target : Type 0 where
  pub start : Option GoError
  -- the n-th call of `AddRcpt`
  pub add_rcpt : ℕ → String → Option GoError
  pub body : BodyAnswer
  pub commit : Option GoError

-- The calls on the delivery object that end it.
pub data Call : Type 0 where
  sends_body aborts commits : Call

-- The recipients with an error `err` each: after `Start` failed, and `expandToPartialErr`.
unfoldable pub set_all : GoError → List String → Errs → Errs
set_all err [] errs = errs
set_all err (rcpt ∷ rest) errs = set_all err rest (insert rcpt err errs)

-- The loop over `meta.To`: the errors, and the accepted recipients in order.
abbrev add_answer : Option GoError → String → Errs → List String → Errs × List String
add_answer none rcpt errs accepted = (errs, accepted ++ rcpt ∷ [])
add_answer (some err) rcpt errs accepted = (insert rcpt err errs, accepted)

unfoldable pub add_rcpts :
    (ℕ → String → Option GoError) → ℕ → List String → Errs → List String → Errs × List String
add_rcpts answer n [] errs accepted = (errs, accepted)
add_rcpts answer n (rcpt ∷ rest) errs accepted =
    let (errs', accepted') = add_answer (answer n rcpt) rcpt errs accepted in
    add_rcpts answer (suc n) rest errs' accepted'

unfoldable pub set_statuses : List (String × Option GoError) → Errs → Errs
unfolding set_status
set_statuses [] errs = errs
set_statuses ((rcpt, err) ∷ rest) errs = set_statuses rest (set_status errs rcpt err)

unfoldable pub send_body : BodyAnswer → List String → Errs → Errs
unfolding set_statuses set_all
send_body (atomic none) accepted errs = errs
send_body (atomic (some err)) accepted errs = set_all err accepted errs
send_body (non_atomic statuses) accepted errs = set_statuses statuses errs

abbrev has_error : Option GoError → Bool
has_error none = false
has_error (some err) = true

unfoldable pub all_failed : List String → Errs → Bool
all_failed [] errs = true
all_failed (rcpt ∷ rest) errs = has_error (lookup rcpt errs) && all_failed rest errs

abbrev commit_answer : Option GoError → List String → Errs → Errs
commit_answer none accepted errs = errs
commit_answer (some err) accepted errs = set_all err accepted errs

abbrev finish : Target → List String → Errs → Bool → Errs × List Call
finish t accepted errs true = (errs, sends_body ∷ aborts ∷ [])
finish t accepted errs false = (commit_answer t.commit accepted errs, sends_body ∷ commits ∷ [])

abbrev after_rcpts : Target → List String → Errs → Errs × List Call
after_rcpts t [] errs = (errs, aborts ∷ [])
after_rcpts t (rcpt ∷ rest) errs =
    let errs' = send_body t.body (rcpt ∷ rest) errs in
    finish t (rcpt ∷ rest) errs' (all_failed (rcpt ∷ rest) errs')

abbrev started : Target → List String → Option GoError → Errs × List Call
started t to (some err) = (set_all err to [], [])
started t to none =
    let (errs, accepted) = add_rcpts t.add_rcpt 0 to [] [] in after_rcpts t accepted errs

unfoldable pub deliver : Target → List String → Errs × List Call
unfolding add_rcpts send_body all_failed set_all
deliver t to = started t to t.start
