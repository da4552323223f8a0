-- ===== src/Queue/Tests.antt =====
-- The queue's theorems at concrete messages, and runs of the code.
use madmail.Prelude.{
  Bool, length, ◌++◌, ℕ, String, true, false, Option, none, some, List, [], ◌∷◌, ◌≡◌, ◌≢◌, refl,
  arith,
}
use madmail.Prelude.Dict.{lookup, insert, delete}
use madmail.Errors.{GoError, leaf, to_smtp_err, is_temporary_or_unspec}
use madmail.Queue.Delivery.{Target, atomic, non_atomic, deliver}
use madmail.Queue.Attempt.{Meta, Config, try_delivery, split_one, RecipientInfo, bounce}
use madmail.Queue.Attempt.Reports.{bounce-try_delivery, Reports}
use madmail.Queue.Run.{Try, run}
use madmail.Queue.Run.Settled.{run-settles, total-run, total}
use madmail.Queue.Wheel
use madmail.Queue.Wheel.Drain.{run-firings, firings, Increasing}
use madmail.Queue.Wheel.Order.{run-IsValid, IsValid}
use madmail.Queue.Wheel.Slots.{number}

-- An error with no `Temporary` method, and a permanent one.
abbrev unspecified : GoError
unspecified = leaf (record { temporary = none; fields = []; plain = none })

abbrev permanent : GoError
permanent = leaf (record { temporary = some false; fields = []; plain = none })

abbrev answer : ℕ → String → Option GoError
answer n rcpt = none

-- A target that refuses the body for "b", and one that is down.
abbrev partly : Target
partly = record {
  start = none;
  add_rcpt = answer;
  body = non_atomic (("b", some permanent) ∷ []);
  commit = none;
}

abbrev down : Target
down = record { start = some unspecified; add_rcpt = answer; body = atomic none; commit = none }

abbrev message : Meta
message = record {
  id = "1";
  from = "s@example.org";
  original_from = "s@example.org";
  original_rcpts = [];
  to = "a" ∷ "b" ∷ [];
  rcpt_errs = [];
  tries_count = [];
  first_attempt = 0;
  last_attempt = 0;
}

abbrev config : Config
config = record {
  max_tries = 2;
  has_pipeline = true;
  dsn = record { has_no_id = λ m. false; error = λ m is. none };
  delay = λ n. 900;
}

attempt_fails : (try_delivery config partly message 5).split.failed_rcpts ≡ "b" ∷ []
unfolding try_delivery deliver lookup insert is_temporary_or_unspec to_smtp_err delete split_one
attempt_fails = refl

some_failed : (try_delivery config partly message 5).split.failed_rcpts ≢ []
some_failed e = cc (attempt_fails, e)

bounce-try_delivery_example :
    (is : List RecipientInfo) × ((try_delivery config partly message 5).bounce
      ≡ bounce "s@example.org" "s@example.org" is)
    × Reports
        (deliver partly message.to).0
        []
        (try_delivery config partly message 5).split.failed_rcpts
        is
bounce-try_delivery_example =
    bounce-try_delivery config partly message 5 refl refl (λ m. refl) (λ m is. refl) some_failed

abbrev first_try : Try
first_try = record { target = down; now = 5; is_written = true }

abbrev attempts : List Try
attempts = record { target = partly; now = 9; is_written = true } ∷ []

-- The metadata of the second attempt are not written.
abbrev with_failure : List Try
with_failure = record { target = down; now = 7; is_written = false } ∷ attempts

total-run_example : total "a" (run config (first_try ∷ attempts) message) ≡ 1
total-run_example = total-run config "a" (first_try ∷ attempts) message (refl, (refl, tt))

run-settles_example : (run config (first_try ∷ with_failure) message).left ≡ none
run-settles_example =
    (run-settles config first_try with_failure message "a" (refl, (refl, tt)) (omega arith)).0

down_then_partly : (run config (first_try ∷ attempts) message).delivered ≡ "a" ∷ []
unfolding run try_delivery deliver lookup insert is_temporary_or_unspec to_smtp_err delete split_one
down_then_partly = refl

run-IsValid_example :
    IsValid
      (record { id = 0; time = 9 } ∷ record { id = 1; time = 4 } ∷ record { id = 2; time = 2 } ∷ [])
      (Wheel.run Wheel.new (Wheel.adds 9 ∷ Wheel.adds 4 ∷ Wheel.fires ∷ Wheel.adds 2 ∷ []))
run-IsValid_example = run-IsValid (Wheel.adds 9 ∷ Wheel.adds 4 ∷ Wheel.fires ∷ Wheel.adds 2 ∷ [])

earliest_first :
    (Wheel.run Wheel.new (Wheel.adds 9 ∷ Wheel.adds 4 ∷ Wheel.fires ∷ [])).dispatched
    ≡ record { id = 1; time = 4 } ∷ []
unfolding Wheel.run Wheel.step
earliest_first = refl

abbrev two_adds : List Wheel.Event
two_adds = Wheel.adds 9 ∷ Wheel.adds 4 ∷ []

run-firings_example :
    let w = Wheel.run Wheel.new two_adds in
    let w' = Wheel.run w (firings (length w.slots)) in
    (more : List Wheel.Slot) × (w'.slots ≡ [])
    × (w'.dispatched ≡ w.dispatched ++ more)
    × ((p : Wheel.Slot → Bool) → number p more ≡ number p w.slots)
    × Increasing 0 more
run-firings_example = run-firings two_adds tt
