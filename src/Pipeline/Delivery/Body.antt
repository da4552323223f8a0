-- ===== src/Pipeline/Delivery/Body.antt =====
-- internal/msgpipeline/msgpipeline.go: Body, BodyNonAtomic, Commit and Abort. What the delivery ranges over in a
-- map goes in an order that is a parameter.
pub mod Keeps
pub mod Ended
pub mod Refused
use madmail.Prelude.{
  ℕ, String, Option, none, some, List, [], ◌∷◌, ◌++◌, Text, text_eq, if◌then◌else◌,
}
use madmail.Errors.{GoError}
use madmail.Dmarc.Verifier.{VerifyData}
use madmail.Pipeline.Checks.{check_body}
use madmail.Pipeline.Checks.Results.{DmarcError, Message, apply_results}
use madmail.Pipeline.Routing.{RcptBlock}
use madmail.Pipeline.Delivery.{
  Failure, error, dmarc_failed, body_sent, committed, aborted, Ret, fails, gives, Pipeline,
  Delivery, Started, Action, and_then, pure, of_error, note, checking, each, group_body,
}
use madmail.Pipeline.Delivery.Start.{close_all}

abbrev Status : Type 0
Status = List (Text × Option Failure)

-- Every recipient gets one status.
abbrev set_all : Option Failure → List Text → Status
set_all e [] = []
set_all e (to ∷ rest) = (to, e) ∷ set_all e rest

abbrev set_status_all : Option Failure → List Started → Status
set_status_all e [] = []
set_status_all e (s ∷ rest) = set_all e s.recipients ++ set_status_all e rest

-- statusCollector.SetStatus
abbrev original_of : List (Text × Text) → Text → Text
original_of [] to = to
original_of ((t, original) ∷ rest) to =
    let later = original_of rest to in if text_eq t to then original else later

abbrev option_error : Option GoError → Option Failure
option_error none = none
option_error (some e) = some (error e)

abbrev translated : List (Text × Text) → List (Text × Option GoError) → Status
translated originals [] = []
translated originals ((to, e) ∷ rest) =
    (original_of originals to, option_error e) ∷ translated originals rest

module _ (p : Pipeline) where
  abbrev check_all : List ℕ → Action (Unit {0})
  check_all checks = checking (check_body p.env checks)

  abbrev check_source : Action (Unit {0})
  check_source d = check_all d.source_block.checks d

  abbrev check_block : RcptBlock × List ℕ → Action (Unit {0})
  check_block (block, states) = check_all block.checks

  abbrev blocks : Delivery → List (RcptBlock × List ℕ)
  blocks d = p.world.order_blocks d.log d.rcpt_states

  -- The targets in the order in which a `range` visits them.
  abbrev visited : Delivery → List Started
  visited d = p.world.order d.log d.deliveries

  abbrev check_blocks : Action (Unit {0})
  check_blocks d = each check_block (blocks d) d

  abbrev add_field : Ret String → Action (Unit {0})
  add_field (fails e) d = (fails e, d)
  add_field (gives field) d = (gives tt, record d { added = d.added ++ field ∷ [] })

  abbrev add_received : Action (Unit {0})
  add_received = if p.first_pipeline then add_field p.world.received else pure tt

  abbrev take_results : Option DmarcError × Message → Action (Unit {0})
  take_results (some e, m) d = (fails (dmarc_failed e), record d { quarantine = m.quarantine })
  take_results (none, m) d = (
    gives tt,
    record d {
      quarantine = m.quarantine;
      added = d.added ++ m.added;
      runner = record d.runner { auth_result = m.auth_result };
    },
  )

  -- The data of DMARC, if it is on.
  abbrev add_results : Option VerifyData → Action (Unit {0})
  add_results v d = take_results (apply_results p.libs p.hostname v d.quarantine d.runner) d

  abbrev rewrite_body : Option (List ℕ) → Action (Unit {0})
  rewrite_body none = pure tt
  rewrite_body (some states) = group_body p.world states

  abbrev rewrite_block : RcptBlock × List ℕ → Action (Unit {0})
  rewrite_block (block, states) = group_body p.world states

  abbrev rewrite_bodies : Action (Unit {0})
  rewrite_bodies d =
      and_then (rewrite_body d.global_state)
        (λ u. and_then (rewrite_body d.source_state) (λ u'. each rewrite_block (blocks d))) d

  abbrev send_body : Started → Action (Unit {0})
  send_body s d = (of_error (p.world.body d.log s.target), note (body_sent s.target) d)

  abbrev send_bodies : Action (Unit {0})
  send_bodies d = each send_body (visited d) d

  abbrev pub checked_body : Action (Unit {0})
  checked_body =
      and_then (check_all p.global_checks) (λ u. and_then check_source (λ u'. check_blocks))

  unfoldable pub body : Option VerifyData → Action (Unit {0})
  unfolding check_body apply_results
  body v = and_then checked_body (λ a.
      and_then add_received
        (λ b. and_then (add_results v) (λ c. and_then rewrite_bodies (λ e. send_bodies))))

  -- The statuses that one target gives, in `BodyNonAtomic`.
  abbrev target_status :
      Started → Option (List (Text × Option GoError)) → Option GoError → Delivery → Status
  target_status s (some statuses) e d = translated d.original_rcpts statuses
  target_status s none none d = []
  target_status s none (some e) d = set_all (some (error e)) s.recipients

  abbrev send_each : List Started → Delivery → Status × Delivery
  send_each [] d = ([], d)
  send_each (s ∷ rest) d =
      let here =
        target_status s (p.world.non_atomic d.log s.target) (p.world.body d.log s.target) d in
      let (later, d') = send_each rest (note (body_sent s.target) d) in (here ++ later, d')

  abbrev or_statuses : Ret (Unit {0}) × Delivery → Status × Delivery
  or_statuses (fails e, d) = (set_status_all (some e) (visited d), d)
  or_statuses (gives u, d) = send_each (visited d) d

  -- Neither the checks of the recipients' blocks nor the results of the checks come into it.
  unfoldable pub body_non_atomic : Delivery → Status × Delivery
  unfolding check_body
  body_non_atomic d =
      or_statuses
        (and_then (check_all p.global_checks) (λ u. and_then check_source (λ u'. rewrite_bodies)) d)

  abbrev commit_one : Started → Action (Unit {0})
  commit_one s d = (of_error (p.world.commit d.log s.target), note (committed s.target) d)

  -- The first error ends it.
  unfoldable pub commit : Action (Unit {0})
  unfolding close_all
  commit d = each commit_one (visited d) (close_all p d)

  abbrev last_error : Option GoError → Option GoError → Option GoError
  last_error e none = e
  last_error e (some e') = some e'

  -- The last error is the result.
  abbrev abort_each : Option GoError → List Started → Delivery → Option GoError × Delivery
  abort_each e [] d = (e, d)
  abort_each e (s ∷ rest) d =
      abort_each (last_error e (p.world.abort d.log s.target)) rest (note (aborted s.target) d)

  unfoldable pub abort : Delivery → Option GoError × Delivery
  unfolding close_all
  abort d = abort_each none (visited d) (close_all p d)
