-- ===== src/Pipeline/Delivery/Start.antt =====
-- internal/msgpipeline/msgpipeline.go: Start and close.
pub mod Keeps
use madmail.Prelude.{ℕ, Option, none, some, List, [], ◌∷◌, Text}
use madmail.Pipeline.Checks.{check_conn_sender, close}
use madmail.Pipeline.Routing.{SourceBlock, RcptBlock, Route, no_route, routed, src_block_for_addr}
use madmail.Pipeline.Delivery.{
  Failure, error, no_block, Ret, fails, gives, Pipeline, Delivery, new_delivery, Action, and_then,
  fail_with, checking, close_group, new_group, group_sender,
}

abbrev close_state : Pipeline → Option (List ℕ) → Delivery → Delivery
close_state p none d = d
close_state p (some states) d = close_group p.world states d

abbrev close_rcpt_states : Pipeline → List (RcptBlock × List ℕ) → Delivery → Delivery
close_rcpt_states p [] d = d
close_rcpt_states p ((block, states) ∷ rest) d =
    close_rcpt_states p rest (close_group p.world states d)

unfoldable pub close_all : Pipeline → Delivery → Delivery
close_all p d =
    let d' = record d { runner = close p.env d.runner } in
    close_rcpt_states p (p.world.order_blocks d.log d.rcpt_states)
      (close_state p d.source_state (close_state p d.global_state d'))

module _ (p : Pipeline) where
  -- The states are closed if the sender is not rewritten.
  abbrev or_close : List ℕ → Ret Text × Delivery → Ret Text × Delivery
  or_close states (fails e, d) = (fails e, close_group p.world states d)
  or_close states (gives from, d) = (gives from, record d { global_state = some states })

  abbrev run_global : Text → List ℕ → Action Text
  run_global from states d = or_close states (group_sender p.world states from d)

  unfoldable pub init_run_global_modifiers : Text → Action Text
  unfolding new_group group_sender
  init_run_global_modifiers from =
      and_then (new_group p.world [] p.global_modifiers) (run_global from)

  abbrev accepted : Option Failure → SourceBlock → Action SourceBlock
  accepted none block d = (gives block, record d { source_block = block })
  accepted (some e) block d = (fails e, d)

  abbrev as_failure : SourceBlock → Option Failure
  as_failure block = elim block.reject_err [ none ↦ none | some e ↦ some (error e) ]

  abbrev take_block : Route SourceBlock → Action SourceBlock
  take_block (no_route e) = fail_with (no_block e)
  take_block (routed block) = accepted (as_failure block) block

  abbrev set_source : List ℕ → Text → Action (Unit {0})
  set_source states from d = (gives tt, record d { source_state = some states; source_addr = from })

  -- The states of the source's modifiers are stored only if they rewrite the sender.
  abbrev run_source : Text → SourceBlock → Action (Unit {0})
  run_source from block =
      and_then (new_group p.world [] block.modifiers)
        (λ states. and_then (group_sender p.world states from) (set_source states))

  abbrev enter_block : Text → SourceBlock → Action (Unit {0})
  enter_block from block =
      and_then (checking (check_conn_sender p.env block.checks from)) (λ u. run_source from block)

  abbrev choose_block : Text → Action (Unit {0})
  choose_block from =
      and_then
        (take_block (src_block_for_addr p.unicode p.source_in p.per_source p.default_source from))
        (enter_block from)

  unfoldable pub start : Text → Action (Unit {0})
  unfolding init_run_global_modifiers src_block_for_addr
  start from =
      and_then (checking (check_conn_sender p.env p.global_checks from))
        (λ u. and_then (init_run_global_modifiers from) choose_block)

  abbrev or_closed : Ret (Unit {0}) × Delivery → Ret (Unit {0}) × Delivery
  or_closed (fails e, d) = (fails e, close_all p d)
  or_closed (gives u, d) = (gives u, d)

  unfoldable pub start_delivery : Text → Ret (Unit {0}) × Delivery
  unfolding start close_all
  start_delivery from = or_closed (start from (new_delivery p))
