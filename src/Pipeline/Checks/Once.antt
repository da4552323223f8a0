-- ===== src/Pipeline/Checks/Once.antt =====
-- The runner asks a state object about a recipient once, whatever is requested.
use madmail.Prelude.{
  ℕ, ◌+◌, ◌≤◌, Text, text_eq, text_eq_sound, Bool, true, false, ◌&&◌, Option, none, some, List, [],
  ◌∷◌, ◌≡◌, refl, sym, ap, ◌∙◌, arith, ◌==◌, if◌then◌else◌, Bool-cases, inl, inr,
}
use madmail.Errors.{GoError}
use madmail.Pipeline.Checks.{
  Env, Kind, connection, body, sender, rcpt, Event, called, Runner, Verdicts, CheckResult, Outcome,
  stops, goes_on, Started, is_checked, call_check, merge_result, merge_all, run_and_merge, settle,
  bind, replayed, start_one, is_empty, replay_heard, replay_sender, replay_calls, replay_all,
  store_states, replay, close_all, start_states, replay_rcpts, check_states, check_conn_sender,
  check_rcpt, check_body, seconds, close, after_states, error_of, rcpt_states, Request,
  conn_sender_of, rcpt_of, body_of, close_of, handle, handle_all, new_runner,
}

abbrev is_rcpt_call : ℕ → Text → Event → Bool
is_rcpt_call state to (called (rcpt other) o) = (o == state) && text_eq other to
is_rcpt_call state to e = false

abbrev pub tick : Bool → ℕ
tick true = 1
tick false = 0

tick_bound : (b : Bool) → tick b ≤ 1
tick_bound true = omega arith
tick_bound false = omega arith

-- How often `CheckRcpt` was called.
abbrev pub rcpt_calls : ℕ → Text → List Event → ℕ
rcpt_calls state to [] = 0
rcpt_calls state to (e ∷ log) =
    let rest = rcpt_calls state to log in if is_rcpt_call state to e then 1 + rest else rest

abbrev Once : Runner → Type 0
Once s =
    (state : ℕ) (to : Text)
    → rcpt_calls state to s.log ≡ tick (is_checked state to s.checked_per_check)

abbrev OutcomeOnce : {A : Type 0} → Outcome A → Type 0
OutcomeOnce (stops e s) = Once s
OutcomeOnce (goes_on a s) = Once s

close_all-Once : (states : List ℕ) (s : Runner) → Once s → Once (close_all states s)
close_all-Once [] s h = h
close_all-Once (o ∷ states) s h = close_all-Once states _ h

merge_result-Once :
    (res : Option CheckResult) (s : Runner) (v : Verdicts)
    → Once s
    → Once (merge_result res (s, v)).0
merge_result-Once none s v h = h
merge_result-Once (some res) s v h = h

settle-Once : (r q : Option GoError) (s : Runner) → Once s → Once (settle r q s).1
settle-Once (some e) q s h = h
settle-Once none (some e) s h = h
settle-Once none none s h = h

bind-Once :
    {A B : Type 0} (m : Outcome A) (f : A → Runner → Outcome B)
    → OutcomeOnce m
    → ((a : A) (s : Runner) → Once s → OutcomeOnce (f a s))
    → OutcomeOnce (bind m f)
bind-Once (stops e s) f h k = h
bind-Once (goes_on a s) f h k = k a s h

is_checked_same :
    (state o : ℕ) (to to' : Text) (l : List (ℕ × Text))
    → ((state == o) && text_eq to to') ≡ true
    → is_checked state to l ≡ is_checked o to' l
is_checked_same state o to to' l h =
    let o_eq : state ≡ o = ground arith in
    let to_eq : to ≡ to' = text_eq_sound to to' (ground arith) in
    ap (λ n. is_checked n to l) o_eq ∙ ap (λ t. is_checked o t l) to_eq

module _ (env : Env) where
  replayed-Once :
      (st : Started) (r : Option GoError × Runner) → Once r.1 → OutcomeOnce (replayed env st r)
  replayed-Once st (some e, s) h = close_all-Once st.all s h
  replayed-Once st (none, s) h = h

  call_check-Once :
      (kind : Kind) (state : ℕ) (s : Runner) → Once s → Once (call_check env kind state s).1
  call_check-Once connection state s h = h
  call_check-Once body state s h = h
  call_check-Once (sender from) state s h = h
  call_check-Once (rcpt to) state s h =
      elim (Bool-cases (is_checked state to s.checked_per_check)) [
        | inl t ↦ λ o to'. rw t (h o to')
        | inr f ↦ λ o to'. elim (Bool-cases ((state == o) && text_eq to to')) [
          | inl same ↦
              rw (f, same)
                (omega (arith, h o to' ∙ ap tick (sym (is_checked_same state o to to' _ same) ∙ f)))
          | inr other ↦ rw (f, other) (h o to')
        ]
      ]

  merge_all-Once :
      (kind : Kind) (states : List ℕ) (s : Runner) (v : Verdicts)
      → Once s
      → Once (merge_all env kind states (s, v)).0
  unfolding merge_all
  merge_all-Once kind [] s v h = h
  merge_all-Once kind (o ∷ states) s v h =
      merge_all-Once kind states _ _ (merge_result-Once _ _ _ (call_check-Once kind o s h))

  run_and_merge-Once :
      (kind : Kind) (states : List ℕ) (s : Runner)
      → Once s
      → Once (run_and_merge env kind states s).1
  unfolding run_and_merge
  run_and_merge-Once kind states s h =
      settle-Once _ _ _ (merge_all-Once kind (env.order s.log kind states) s _ h)

  start_one-Once :
      (check : ℕ) (st : Started) (s : Runner) (found : Option ℕ) (e : Option GoError)
      → Once s
      → OutcomeOnce (start_one env check st s found e)
  start_one-Once check st s (some o) e h = h
  start_one-Once check st s none (some e) h = close_all-Once st.all s h
  start_one-Once check st s none none h = h

  start_states-Once :
      (checks : List ℕ) (st : Started) (s : Runner)
      → Once s
      → OutcomeOnce (start_states env checks st s)
  unfolding start_states
  start_states-Once [] st s h = h
  start_states-Once (check ∷ rest) st s h =
      bind-Once _ _ (start_one-Once check st s _ _ h) (start_states-Once rest)

  replayed_run-Once :
      (kind : Kind) (states : List ℕ) (st : Started) (s : Runner)
      → Once s
      → OutcomeOnce (replayed env st (run_and_merge env kind states s))
  replayed_run-Once kind states st s h = replayed-Once st _ (run_and_merge-Once kind states s h)

  replay_rcpts-Once :
      (tos : List Text) (st : Started) (s : Runner)
      → Once s
      → OutcomeOnce (replay_rcpts env tos st s)
  unfolding replay_rcpts
  replay_rcpts-Once [] st s h = h
  replay_rcpts-Once (to ∷ rest) st s h =
      bind-Once _ _ (replayed_run-Once (rcpt to) st.all st s h) (replay_rcpts-Once rest)

  replay_heard-Once :
      (heard : Bool) (st : Started) (s : Runner)
      → Once s
      → OutcomeOnce (replay_heard env heard st s)
  replay_heard-Once false st s h = h
  replay_heard-Once true st s h =
      bind-Once _ _ (replayed_run-Once connection _ st s h)
        (λ st s' h'. replayed_run-Once (sender s'.mail_from) _ st s' h')

  replay_calls-Once : (st : Started) (s : Runner) → Once s → OutcomeOnce (replay_calls env st s)
  replay_calls-Once st s h =
      bind-Once (replay_sender env st s) _ (replay_heard-Once _ st s h)
        (λ st s' h'. replay_rcpts-Once s'.checked_rcpts st s' h')

  replay_all-Once : (st : Started) (s : Runner) → Once s → OutcomeOnce (replay_all env st s)
  replay_all-Once st s h =
      bind-Once (replay_calls env st s) (store_states env) (replay_calls-Once st s h)
        (λ st s' h'. h')

  replay-Once : (st : Started) (s : Runner) → Once s → OutcomeOnce (replay env st s)
  replay-Once st s h = elim (Bool-cases (is_empty st.fresh)) [
    | inl e ↦ rw e h
    | inr e ↦ rw e (replay_all-Once st s h)
  ]

  check_states-Once :
      (checks : List ℕ) (s : Runner) → Once s → OutcomeOnce (check_states env checks s)
  unfolding check_states
  check_states-Once checks s h = bind-Once _ _ (start_states-Once checks _ s h) replay-Once

  after_states-Once :
      (kind : Kind) (m : Outcome (List ℕ)) → OutcomeOnce m → Once (after_states env kind m).1
  after_states-Once kind (stops e s) h = h
  after_states-Once kind (goes_on states s) h = run_and_merge-Once kind states s h

  error_of-Once : (m : Outcome (List ℕ)) → OutcomeOnce m → Once (error_of env m).1
  error_of-Once (stops e s) h = h
  error_of-Once (goes_on states s) h = h

  rcpt_states-Once :
      (to : Text) (m : Outcome (List ℕ)) → OutcomeOnce m → Once (rcpt_states env to m).1
  rcpt_states-Once to (stops e s) h = h
  rcpt_states-Once to (goes_on states s) h = run_and_merge-Once (rcpt to) states s h

  handle-Once : (r : Request) (s : Runner) → Once s → Once (handle env r s).1
  unfolding check_conn_sender check_rcpt check_body close
  handle-Once (conn_sender_of checks from) s h = error_of-Once _ (check_states-Once checks _ h)
  handle-Once (rcpt_of checks to) s h = rcpt_states-Once to _ (check_states-Once checks s h)
  handle-Once (body_of checks) s h = after_states-Once body _ (check_states-Once checks s h)
  handle-Once close_of s h = close_all-Once (seconds s.states) s h

  handle_all-Once : (rs : List Request) (s : Runner) → Once s → Once (handle_all env rs s)
  unfolding handle_all
  handle_all-Once [] s h = h
  handle_all-Once (r ∷ rs) s h = handle_all-Once rs _ (handle-Once r s h)

-- Whatever calls a delivery makes of the runner of its checks, in whatever order and with whatever
-- groups of checks, and whatever the checks answer, panics included, each state object of a check
-- is asked about each recipient at most once, and exactly once if the runner noted it as asked.
pub rcpt_calls-handle_all :
    (env : Env) (rs : List Request) (state : ℕ) (to : Text)
    → let s = handle_all env rs new_runner in
      (rcpt_calls state to s.log ≡ tick (is_checked state to s.checked_per_check))
      × (rcpt_calls state to s.log ≤ 1)
rcpt_calls-handle_all env rs state to =
    let h = handle_all-Once env rs new_runner (λ o t. refl) state to in (h, rw h (tick_bound _))
