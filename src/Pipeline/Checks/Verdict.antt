-- ===== src/Pipeline/Checks/Verdict.antt =====
-- What a group of checks decides, from what each answered.
use madmail.Prelude.{
  ℕ, Bool, true, false, not, ◌&&◌, ◌||◌, Option, none, some, List, [], ◌∷◌, ◌≡◌, refl, sym, ap, ◌∙◌,
  arith, if◌then◌else◌, Bool-cases, inl, inr,
}
use madmail.Errors.{GoError}
use madmail.Pipeline.Checks.{
  Env, Kind, connection, body, sender, rcpt, is_checked, Runner, Verdicts, no_verdicts, CheckResult,
  call_check, judge, merge_result, merge_all, run_and_merge, settle,
}

abbrev pub answered : Option CheckResult → List CheckResult → List CheckResult
answered none rest = rest
answered (some res) rest = res ∷ rest

-- The answers of a group, without the calls that panicked.
abbrev pub answers : Env → Kind → List ℕ → Runner → List CheckResult
answers env kind [] s = []
answers env kind (state ∷ rest) s =
    let (res, s') = call_check env kind state s in
    answered res (answers env kind rest (merge_result res (s', no_verdicts)).0)

-- The reason of the first that rejects; one that asks for quarantine does not reject.
abbrev pub first_reject : List CheckResult → Option GoError
first_reject [] = none
first_reject (res ∷ rest) =
    let later = first_reject rest in if res.reject && not res.quarantine then res.reason else later

abbrev pub first_quarantine : List CheckResult → Option GoError
first_quarantine [] = none
first_quarantine (res ∷ rest) =
    let later = first_quarantine rest in if res.quarantine then res.reason else later

abbrev pub is_some : Option GoError → Bool
is_some none = false
is_some (some e) = true

abbrev judge_all : List CheckResult → Verdicts → Verdicts
judge_all [] v = v
judge_all (res ∷ rest) v = judge_all rest (judge res v)

-- A set sort keeps its error.
judge-reject_kept :
    (res : CheckResult) (v : Verdicts)
    → v.reject_set ≡ true
    → ((judge res v).reject_set ≡ true) × ((judge res v).reject_err ≡ v.reject_err)
judge-reject_kept res v h = ground arith

judge-quarantine_kept :
    (res : CheckResult) (v : Verdicts)
    → v.quarantine_set ≡ true
    → ((judge res v).quarantine_set ≡ true) × ((judge res v).quarantine_err ≡ v.quarantine_err)
judge-quarantine_kept res v h = ground arith

judge_all-reject_kept :
    (rs : List CheckResult) (v : Verdicts)
    → v.reject_set ≡ true
    → (judge_all rs v).reject_err ≡ v.reject_err
judge_all-reject_kept [] v h = refl
judge_all-reject_kept (res ∷ rs) v h =
    let (set, same) = judge-reject_kept res v h in judge_all-reject_kept rs _ set ∙ same

judge_all-quarantine_kept :
    (rs : List CheckResult) (v : Verdicts)
    → v.quarantine_set ≡ true
    → (judge_all rs v).quarantine_err ≡ v.quarantine_err
judge_all-quarantine_kept [] v h = refl
judge_all-quarantine_kept (res ∷ rs) v h =
    let (set, same) = judge-quarantine_kept res v h in judge_all-quarantine_kept rs _ set ∙ same

judge-rejects :
    (res : CheckResult) (v : Verdicts)
    → v.reject_set ≡ false
    → (res.reject && not res.quarantine) ≡ true
    → ((judge res v).reject_set ≡ true) × ((judge res v).reject_err ≡ res.reason)
judge-rejects res v h r = ground arith

judge-passes :
    (res : CheckResult) (v : Verdicts)
    → (res.reject && not res.quarantine) ≡ false
    → ((judge res v).reject_set ≡ v.reject_set) × ((judge res v).reject_err ≡ v.reject_err)
judge-passes res v r = ground arith

judge-quarantines :
    (res : CheckResult) (v : Verdicts)
    → v.quarantine_set ≡ false
    → res.quarantine ≡ true
    → ((judge res v).quarantine_set ≡ true) × ((judge res v).quarantine_err ≡ res.reason)
judge-quarantines res v h r = ground arith

judge-spares :
    (res : CheckResult) (v : Verdicts)
    → res.quarantine ≡ false
    → ((judge res v).quarantine_set ≡ v.quarantine_set)
      × ((judge res v).quarantine_err ≡ v.quarantine_err)
judge-spares res v r = ground arith

judge_all-reject :
    (rs : List CheckResult) (v : Verdicts)
    → v.reject_set ≡ false
    → v.reject_err ≡ none
    → (judge_all rs v).reject_err ≡ first_reject rs
judge_all-reject [] v h e = e
judge_all-reject (res ∷ rs) v h e = elim (Bool-cases (res.reject && not res.quarantine)) [
  | inl r ↦ let (set, err) = judge-rejects res v h r in rw r (judge_all-reject_kept rs _ set ∙ err)
  | inr r ↦
      let (set, err) = judge-passes res v r in rw r (judge_all-reject rs _ (set ∙ h) (err ∙ e))
]

judge_all-quarantine :
    (rs : List CheckResult) (v : Verdicts)
    → v.quarantine_set ≡ false
    → v.quarantine_err ≡ none
    → (judge_all rs v).quarantine_err ≡ first_quarantine rs
judge_all-quarantine [] v h e = e
judge_all-quarantine (res ∷ rs) v h e = elim (Bool-cases res.quarantine) [
  | inl r ↦
      let (set, err) = judge-quarantines res v h r in
      judge_all-quarantine_kept rs (judge res v) set
      ∙ err
      ∙ sym (ap (λ b. if b then res.reason else first_quarantine rs) r)
  | inr r ↦
      let (set, err) = judge-spares res v r in
      judge_all-quarantine rs (judge res v) (set ∙ h) (err ∙ e)
      ∙ sym (ap (λ b. if b then res.reason else first_quarantine rs) r)
]

called_quarantine :
    (env : Env) (kind : Kind) (o : ℕ) (s : Runner)
    → (call_check env kind o s).1.quarantine ≡ s.quarantine
called_quarantine env connection o s = refl
called_quarantine env body o s = refl
called_quarantine env (sender from) o s = refl
called_quarantine env (rcpt to) o s = elim (Bool-cases (is_checked o to s.checked_per_check)) [
  | inl t ↦ rw t refl
  | inr f ↦ rw f refl
]

module _ (env : Env) (kind : Kind) where
  abbrev AnswersMerged : List ℕ → Type 0
  AnswersMerged states =
      (s : Runner) (v : Verdicts)
      → (merge_all env kind states (s, v)).1 ≡ judge_all (answers env kind states s) v

  answers_of_one :
      (states : List ℕ)
      → AnswersMerged states
      → (res : Option CheckResult) (s : Runner) (v : Verdicts)
      → (merge_all env kind states (merge_result res (s, v))).1
        ≡ judge_all (answered res (answers env kind states (merge_result res (s, no_verdicts)).0)) v
  answers_of_one states h none s v = h s v
  answers_of_one states h (some res) s v = h _ _

  judge_all-answers : (states : List ℕ) → AnswersMerged states
  unfolding merge_all
  judge_all-answers [] s v = refl
  judge_all-answers (o ∷ states) s v =
      answers_of_one states (judge_all-answers states) (call_check env kind o s).0 _ v

  merge_result-quarantine :
      (res : Option CheckResult) (s : Runner) (v : Verdicts)
      → (merge_result res (s, v)).0.quarantine ≡ s.quarantine
  merge_result-quarantine none s v = refl
  merge_result-quarantine (some res) s v = refl

  merge_all-quarantine :
      (states : List ℕ) (s : Runner) (v : Verdicts)
      → (merge_all env kind states (s, v)).0.quarantine ≡ s.quarantine
  unfolding merge_all
  merge_all-quarantine [] s v = refl
  merge_all-quarantine (o ∷ states) s v =
      merge_all-quarantine states _ _
      ∙ merge_result-quarantine _ (call_check env kind o s).1 v
      ∙ called_quarantine env kind o s

settle_lem :
    (r q : Option GoError) (s : Runner)
    → ((settle r q s).0 ≡ r)
      × ((settle r q s).1.quarantine ≡ s.quarantine || (not (is_some r) && is_some q))
settle_lem (some e) q s = (refl, ground arith)
settle_lem none (some e) s = (refl, ground arith)
settle_lem none none s = (refl, ground arith)

-- What a group of checks decides, whatever the order in which its goroutines run, from what they answer in that
-- order; a call that panicked answers nothing. The group fails exactly if the first answer in that order that
-- rejects, and does not ask for quarantine, has a reason, which is the error. The message is marked for
-- quarantine by a group that does not fail and whose first answer in that order that asks for quarantine has a
-- reason, and it keeps a mark that it has.
pub verdict-run_and_merge :
    (env : Env) (kind : Kind) (states : List ℕ) (s : Runner)
    → let rs = answers env kind (env.order s.log kind states) s in
      let (e, s') = run_and_merge env kind states s in
      (e ≡ first_reject rs)
      × (s'.quarantine
          ≡ s.quarantine || (not (is_some (first_reject rs)) && is_some (first_quarantine rs)))
unfolding run_and_merge
verdict-run_and_merge env kind states s =
    let ordered = env.order s.log kind states in
    let rs = answers env kind ordered s in
    let (s', v) = merge_all env kind ordered (s, no_verdicts) in
    let judged = judge_all-answers env kind ordered s no_verdicts in
    let r : v.reject_err ≡ first_reject rs =
      ap (λ (v : Verdicts). v.reject_err) judged ∙ judge_all-reject rs no_verdicts refl refl in
    let q : v.quarantine_err ≡ first_quarantine rs =
      ap (λ (v : Verdicts). v.quarantine_err) judged
      ∙ judge_all-quarantine rs no_verdicts refl refl in
    let (e, mark) = settle_lem v.reject_err v.quarantine_err s' in
    (
      e ∙ r,
      mark
          ∙ ap (λ b. b || (not (is_some v.reject_err) && is_some v.quarantine_err))
              (merge_all-quarantine env kind ordered s no_verdicts)
          ∙ ap (λ e. s.quarantine || (not (is_some e) && is_some v.quarantine_err)) r
          ∙ ap (λ e. s.quarantine || (not (is_some (first_reject rs)) && is_some e)) q,
    )
