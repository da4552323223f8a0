-- ===== src/Pipeline/Checks.antt =====
-- internal/msgpipeline/check_runner.go: the runner of the checks of one message. A check is a number,
-- and so is each state object that `CheckStateForMsg` makes. What checks answer may depend on all that
-- happened before. The goroutines of a group run in any order, and each is called and stores all that it
-- has to store before the next one.
use madmail.Prelude.{
  ℕ, ◌+◌, String, text_eq, Bool, true, false, not, ◌&&◌, ◌||◌, Option, none, some, List, [], ◌∷◌,
  ◌++◌, any, ◌==◌, Text, if◌then◌else◌,
}
use madmail.Errors.{GoError}
use madmail.Dmarc.{AuthResult}
pub mod Once
pub mod Verdict
pub mod Results

pub data Kind : Type 0 where
  connection body : Kind
  sender rcpt : Text → Kind

-- What the runner does with a state object.
pub data Event : Type 0 where
  called : Kind → ℕ → Event
  closed : ℕ → Event

pub record CheckResult : Type 0 where
  pub reason : Option GoError
  pub reject : Bool
  pub quarantine : Bool
  pub auth_result : List AuthResult
  pub header : List String

abbrev pub no_result : CheckResult
no_result = record {
  reason = none;
  reject = false;
  quarantine = false;
  auth_result = [];
  header = [];
}

-- The checks: the error of `CheckStateForMsg`, and what a state object answers to a call; without an
-- answer the call panicked. The first argument is all that happened, the newest first. `order` is the order in
-- which the goroutines of a group for these states run.
pub record Env : Type 0 where
  pub order : List Event → Kind → List ℕ → List ℕ
  pub start : List Event → ℕ → Option GoError
  pub answer : List Event → Kind → ℕ → Option CheckResult

-- checkRunner, without the part for DMARC.
pub record Runner : Type 0 where
  pub mail_from : Text
  pub mail_from_received : Bool
  pub checked_rcpts : List Text
  pub checked_per_check : List (ℕ × Text)
  pub states : List (ℕ × ℕ)
  pub next_state : ℕ
  pub log : List Event
  pub auth_result : List AuthResult
  pub header : List String
  pub quarantine : Bool

abbrev pub new_runner : Runner
new_runner = record {
  mail_from = [];
  mail_from_received = false;
  checked_rcpts = [];
  checked_per_check = [];
  states = [];
  next_state = 0;
  log = [];
  auth_result = [];
  header = [];
  quarantine = false;
}

abbrev pub is_checked : ℕ → Text → List (ℕ × Text) → Bool
is_checked state to = any (λ (p : ℕ × Text). (p.0 == state) && text_eq p.1 to)

-- The errors that a group of checks reports: of each sort that of the goroutine that came first, which may be nil.
pub record Verdicts : Type 0 where
  pub quarantine_set : Bool
  pub quarantine_err : Option GoError
  pub reject_set : Bool
  pub reject_err : Option GoError

abbrev no_verdicts : Verdicts
no_verdicts = record {
  quarantine_set = false;
  quarantine_err = none;
  reject_set = false;
  reject_err = none;
}

abbrev set_quarantine : Option GoError → Verdicts → Verdicts
set_quarantine e v =
    if v.quarantine_set then v else record v { quarantine_set = true; quarantine_err = e }

abbrev set_reject : Option GoError → Verdicts → Verdicts
set_reject e v = if v.reject_set then v else record v { reject_set = true; reject_err = e }

abbrev judge : CheckResult → Verdicts → Verdicts
judge res v =
    if res.quarantine
    then set_quarantine res.reason v
    else if res.reject
    then set_reject res.reason v
    else v

abbrev merge_result : Option CheckResult → Runner × Verdicts → Runner × Verdicts
merge_result none (s, v) = (s, v)
merge_result (some res) (s, v) = (
  record s { auth_result = s.auth_result ++ res.auth_result; header = s.header ++ res.header },
  judge res v,
)

abbrev log_call : Kind → ℕ → Runner → Runner
log_call kind state s = record s { log = called kind state ∷ s.log }

abbrev mark_rcpt : ℕ → Text → Runner → Runner
mark_rcpt state to s = record s { checked_per_check = (state, to) ∷ s.checked_per_check }

abbrev pub settle : Option GoError → Option GoError → Runner → Option GoError × Runner
settle (some e) quarantine_err s = (some e, s)
settle none (some e) s = (none, record s { quarantine = true })
settle none none s = (none, s)

abbrev pub finish : Runner × Verdicts → Option GoError × Runner
finish (s, v) = settle v.reject_err v.quarantine_err s

-- Where the chain of calls stops with an error.
pub data Outcome (A : Type 0) : Type 0 where
  stops : GoError → Runner → Outcome A
  goes_on : A → Runner → Outcome A

abbrev bind : {A B : Type 0} → Outcome A → (A → Runner → Outcome B) → Outcome B
bind (stops e s) f = stops e s
bind (goes_on a s) f = f a s

abbrev close_all : List ℕ → Runner → Runner
close_all [] s = s
close_all (state ∷ rest) s = close_all rest (record s { log = closed state ∷ s.log })

-- The states of the checks, and those that are new with their checks.
pub record Started : Type 0 where
  pub all : List ℕ
  pub fresh : List (ℕ × ℕ)

abbrev find_state : ℕ → List (ℕ × ℕ) → Option ℕ
find_state check [] = none
find_state check ((c, state) ∷ rest) = if c == check then some state else find_state check rest

-- The entry of a check that is there already is replaced.
abbrev put_state : ℕ → ℕ → List (ℕ × ℕ) → List (ℕ × ℕ)
put_state check state [] = (check, state) ∷ []
put_state check state ((c, o) ∷ rest) =
    let tail = put_state check state rest in
    if c == check then (check, state) ∷ rest else (c, o) ∷ tail

abbrev put_all : List (ℕ × ℕ) → List (ℕ × ℕ) → List (ℕ × ℕ)
put_all [] states = states
put_all ((check, state) ∷ rest) states = put_all rest (put_state check state states)

abbrev is_empty : List (ℕ × ℕ) → Bool
is_empty [] = true
is_empty (x ∷ rest) = false

abbrev seconds : List (ℕ × ℕ) → List ℕ
seconds [] = []
seconds ((c, state) ∷ rest) = state ∷ seconds rest

module _ (env : Env) where
  -- One goroutine of `runAndMergeResults`. `CheckRcpt` is called once for a recipient.
  abbrev call_logged : Kind → ℕ → Runner → Option CheckResult × Runner
  call_logged kind state s = (env.answer s.log kind state, log_call kind state s)

  abbrev call_check : Kind → ℕ → Runner → Option CheckResult × Runner
  call_check (rcpt to) state s =
      if is_checked state to s.checked_per_check
      then (some no_result, s)
      else call_logged (rcpt to) state (mark_rcpt state to s)
  call_check kind state s = call_logged kind state s

  unfoldable pub merge_all : Kind → List ℕ → Runner × Verdicts → Runner × Verdicts
  merge_all kind [] (s, v) = (s, v)
  merge_all kind (state ∷ rest) (s, v) =
      let (res, s') = call_check kind state s in merge_all kind rest (merge_result res (s', v))

  unfoldable pub run_and_merge : Kind → List ℕ → Runner → Option GoError × Runner
  unfolding merge_all
  run_and_merge kind states s =
      finish (merge_all kind (env.order s.log kind states) (s, no_verdicts))

  -- The calls, after whose error the states are closed.
  abbrev replayed : Started → Option GoError × Runner → Outcome Started
  replayed st (some e, s) = stops e (close_all st.all s)
  replayed st (none, s) = goes_on st s

  abbrev start_one : ℕ → Started → Runner → Option ℕ → Option GoError → Outcome Started
  start_one check st s (some state) e = goes_on (record st { all = st.all ++ state ∷ [] }) s
  start_one check st s none (some e) = stops e (close_all st.all s)
  start_one check st s none none =
      goes_on
        (record st {
          all = st.all ++ s.next_state ∷ [];
          fresh = st.fresh ++ (check, s.next_state) ∷ [];
        })
        (record s { next_state = s.next_state + 1 })

  unfoldable pub start_states : List ℕ → Started → Runner → Outcome Started
  start_states [] st s = goes_on st s
  start_states (check ∷ rest) st s =
      bind (start_one check st s (find_state check s.states) (env.start s.log check))
        (start_states rest)

  abbrev replay_heard : Bool → Started → Runner → Outcome Started
  replay_heard false st s = goes_on st s
  replay_heard true st s =
      bind (replayed st (run_and_merge connection (seconds st.fresh) s))
        (λ st s'. replayed st (run_and_merge (sender s'.mail_from) (seconds st.fresh) s'))

  abbrev replay_sender : Started → Runner → Outcome Started
  replay_sender st s = replay_heard s.mail_from_received st s

  unfoldable pub replay_rcpts : List Text → Started → Runner → Outcome Started
  replay_rcpts [] st s = goes_on st s
  replay_rcpts (to ∷ rest) st s =
      bind (replayed st (run_and_merge (rcpt to) st.all s)) (replay_rcpts rest)

  abbrev store_states : Started → Runner → Outcome (List ℕ)
  store_states st s = goes_on st.all (record s { states = put_all st.fresh s.states })

  abbrev replay_calls : Started → Runner → Outcome Started
  replay_calls st s = bind (replay_sender st s) (λ st s'. replay_rcpts s'.checked_rcpts st s')

  abbrev replay_all : Started → Runner → Outcome (List ℕ)
  replay_all st s = bind (replay_calls st s) store_states

  abbrev replay : Started → Runner → Outcome (List ℕ)
  replay st s = if is_empty st.fresh then goes_on st.all s else replay_all st s

  unfoldable pub check_states : List ℕ → Runner → Outcome (List ℕ)
  unfolding start_states run_and_merge replay_rcpts
  check_states checks s = bind (start_states checks (record { all = []; fresh = [] }) s) replay

  abbrev after_states : Kind → Outcome (List ℕ) → Option GoError × Runner
  after_states kind (stops e s) = (some e, s)
  after_states kind (goes_on states s) = run_and_merge kind states s

  abbrev error_of : Outcome (List ℕ) → Option GoError × Runner
  error_of (stops e s) = (some e, s)
  error_of (goes_on states s) = (none, s)

  unfoldable pub check_conn_sender : List ℕ → Text → Runner → Option GoError × Runner
  unfolding check_states
  check_conn_sender checks from s =
      error_of (check_states checks (record s { mail_from = from; mail_from_received = true }))

  abbrev note_rcpt : Text → Option GoError × Runner → Option GoError × Runner
  note_rcpt to (e, s) = (e, record s { checked_rcpts = s.checked_rcpts ++ to ∷ [] })

  abbrev rcpt_states : Text → Outcome (List ℕ) → Option GoError × Runner
  rcpt_states to (stops e s) = (some e, s)
  rcpt_states to (goes_on states s) = note_rcpt to (run_and_merge (rcpt to) states s)

  unfoldable pub check_rcpt : List ℕ → Text → Runner → Option GoError × Runner
  unfolding check_states
  check_rcpt checks to s = rcpt_states to (check_states checks s)

  unfoldable pub check_body : List ℕ → Runner → Option GoError × Runner
  unfolding check_states
  check_body checks s = after_states body (check_states checks s)

  unfoldable pub close : Runner → Runner
  close s = close_all (seconds s.states) s

-- The calls that a delivery makes.
pub data Request : Type 0 where
  conn_sender_of rcpt_of : List ℕ → Text → Request
  body_of : List ℕ → Request
  close_of : Request

abbrev pub handle : Env → Request → Runner → Option GoError × Runner
handle env (conn_sender_of checks from) s = check_conn_sender env checks from s
handle env (rcpt_of checks to) s = check_rcpt env checks to s
handle env (body_of checks) s = check_body env checks s
handle env close_of s = (none, close env s)

unfoldable pub handle_all : Env → List Request → Runner → Runner
handle_all env [] s = s
handle_all env (r ∷ rest) s = handle_all env rest (handle env r s).1
