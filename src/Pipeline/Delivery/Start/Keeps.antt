-- ===== src/Pipeline/Delivery/Start/Keeps.antt =====
-- Start and close keep what was started.
use madmail.Prelude.{ℕ, Option, none, some, List, [], ◌∷◌, Text, ◌≡◌, refl, ◌∙◌}
use madmail.Pipeline.Checks.{check_conn_sender, close}
use madmail.Pipeline.Routing.{SourceBlock, RcptBlock, Route, no_route, routed, src_block_for_addr}
use madmail.Pipeline.Delivery.{
  Failure, Ret, fails, gives, Pipeline, Delivery, new_delivery, and_then, checking, close_group,
  new_group, group_sender, note, mod_closed,
}
use madmail.Pipeline.Delivery.Kept.{
  Kept, Keeps, and_then-Keeps, close_group-Kept, new_group-Keeps, group_sender-Keeps,
}
use madmail.Pipeline.Delivery.Start.{
  close_state, close_rcpt_states, close_all, or_close, run_global, init_run_global_modifiers,
  accepted, as_failure, take_block, set_source, run_source, enter_block, choose_block, start,
  or_closed, start_delivery,
}

module _ (p : Pipeline) where
  close_state-Kept :
      (states : Option (List ℕ)) (d : Delivery) → Kept d → Kept (close_state p states d)
  close_state-Kept none d v = v
  close_state-Kept (some states) d v = close_group-Kept p.world states d v

  close_rcpt_states-Kept :
      (groups : List (RcptBlock × List ℕ)) (d : Delivery)
      → Kept d
      → Kept (close_rcpt_states p groups d)
  close_rcpt_states-Kept [] d v = v
  close_rcpt_states-Kept ((block, states) ∷ rest) d v =
      close_rcpt_states-Kept rest _ (close_group-Kept p.world states d v)

  pub close_all-Kept : (d : Delivery) → Kept d → Kept (close_all p d)
  unfolding close_all
  close_all-Kept d v =
      let d' = record d { runner = close p.env d.runner } in
      let d'' = close_state p d.global_state d' in
      close_rcpt_states-Kept (p.world.order_blocks d.log d.rcpt_states)
        (close_state p d.source_state d'')
        (close_state-Kept d.source_state d'' (close_state-Kept d.global_state d' v))

  deliveries-close_group :
      (states : List ℕ) (d : Delivery) → (close_group p.world states d).deliveries ≡ d.deliveries
  deliveries-close_group [] d = refl
  deliveries-close_group (state ∷ rest) d = deliveries-close_group rest (note (mod_closed state) d)

  deliveries-close_state :
      (states : Option (List ℕ)) (d : Delivery) → (close_state p states d).deliveries ≡ d.deliveries
  deliveries-close_state none d = refl
  deliveries-close_state (some states) d = deliveries-close_group states d

  deliveries-close_rcpt_states :
      (groups : List (RcptBlock × List ℕ)) (d : Delivery)
      → (close_rcpt_states p groups d).deliveries ≡ d.deliveries
  deliveries-close_rcpt_states [] d = refl
  deliveries-close_rcpt_states ((block, states) ∷ rest) d =
      deliveries-close_rcpt_states rest (close_group p.world states d)
      ∙ deliveries-close_group states d

  pub deliveries-close_all : (d : Delivery) → (close_all p d).deliveries ≡ d.deliveries
  unfolding close_all
  deliveries-close_all d =
      let d' = record d { runner = close p.env d.runner } in
      let d'' = close_state p d.global_state d' in
      deliveries-close_rcpt_states (p.world.order_blocks d.log d.rcpt_states)
        (close_state p d.source_state d'')
      ∙ (deliveries-close_state d.source_state d'' ∙ deliveries-close_state d.global_state d')

  or_close-Kept :
      (states : List ℕ) (r : Ret Text × Delivery) → Kept r.1 → Kept (or_close p states r).1
  or_close-Kept states (fails e, d) v = close_group-Kept p.world states d v
  or_close-Kept states (gives from, d) v = v

  init_run_global_modifiers-Keeps : (from : Text) → Keeps (init_run_global_modifiers p from)
  unfolding init_run_global_modifiers
  init_run_global_modifiers-Keeps from =
      and_then-Keeps (new_group p.world [] p.global_modifiers) (run_global p from)
        (new_group-Keeps p.world [] p.global_modifiers)
        (λ states d v.
          or_close-Kept states (group_sender p.world states from d)
            (group_sender-Keeps p.world states from d v))

  accepted-Keeps : (e : Option Failure) (block : SourceBlock) → Keeps (accepted p e block)
  accepted-Keeps none block d v = v
  accepted-Keeps (some e) block d v = v

  take_block-Keeps : (r : Route SourceBlock) → Keeps (take_block p r)
  take_block-Keeps (no_route e) = λ d v. v
  take_block-Keeps (routed block) = accepted-Keeps (as_failure p block) block

  run_source-Keeps : (from : Text) (block : SourceBlock) → Keeps (run_source p from block)
  run_source-Keeps from block =
      let rewrite =
        λ (states : List ℕ). and_then (group_sender p.world states from) (set_source p states) in
      and_then-Keeps (new_group p.world [] block.modifiers) rewrite
        (new_group-Keeps p.world [] block.modifiers)
        (λ states.
          and_then-Keeps (group_sender p.world states from) (set_source p states)
            (group_sender-Keeps p.world states from) (λ from' d v. v))

  enter_block-Keeps : (from : Text) (block : SourceBlock) → Keeps (enter_block p from block)
  enter_block-Keeps from block =
      and_then-Keeps (checking (check_conn_sender p.env block.checks from))
        (λ u. run_source p from block) (λ d v. v) (λ u. run_source-Keeps from block)

  choose_block-Keeps : (from : Text) → Keeps (choose_block p from)
  choose_block-Keeps from =
      let r = src_block_for_addr p.unicode p.source_in p.per_source p.default_source from in
      and_then-Keeps (take_block p r) (enter_block p from) (take_block-Keeps r)
        (enter_block-Keeps from)

  start-Keeps : (from : Text) → Keeps (start p from)
  unfolding start
  start-Keeps from =
      let go_on = λ (u : Unit {0}). and_then (init_run_global_modifiers p from) (choose_block p) in
      and_then-Keeps (checking (check_conn_sender p.env p.global_checks from)) go_on (λ d v. v)
        (λ u.
          and_then-Keeps (init_run_global_modifiers p from) (choose_block p)
            (init_run_global_modifiers-Keeps from) choose_block-Keeps)

  or_closed-Kept : (r : Ret (Unit {0}) × Delivery) → Kept r.1 → Kept (or_closed p r).1
  or_closed-Kept (fails e, d) v = close_all-Kept d v
  or_closed-Kept (gives u, d) v = v

  pub start_delivery-Kept : (from : Text) → Kept (start_delivery p from).1
  unfolding start_delivery
  start_delivery-Kept from =
      or_closed-Kept (start p from (new_delivery p))
        (start-Keeps from (new_delivery p) (refl, refl, tt))
