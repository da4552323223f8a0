-- ===== src/Pipeline/Delivery/Recipients.antt =====
-- internal/msgpipeline/msgpipeline.go: AddRcpt.
pub mod Keeps
use madmail.Prelude.{
  ℕ, ◌==◌, Bool, true, false, Option, none, some, List, [], ◌∷◌, ◌++◌, Text, text_eq, if◌then◌else◌,
}
use madmail.Errors.{GoError}
use madmail.Pipeline.Checks.{check_rcpt}
use madmail.Pipeline.Routing.{RcptBlock, Route, no_route, routed, rcpt_block_for_addr}
use madmail.Pipeline.Delivery.{
  error, no_block, effective_rcpt, started, refused, rcpt_added, Ret, fails, gives, Pipeline,
  Delivery, Started, Action, and_then, pure, fail_with, of_error, note, checking, each, close_group,
  new_group, group_sender, group_rcpt, rewrite_each,
}

abbrev find_states : RcptBlock → List (RcptBlock × List ℕ) → Option (List ℕ)
find_states block [] = none
find_states block ((b, states) ∷ rest) =
    let later = find_states block rest in if b.id == block.id then some states else later

abbrev pub has_target : ℕ → List Started → Bool
has_target target [] = false
has_target target (s ∷ rest) =
    let later = has_target target rest in if s.target == target then true else later

abbrev add_recipient : ℕ → Text → List Started → List Started
add_recipient target to [] = []
add_recipient target to (s ∷ rest) =
    let later = add_recipient target to rest in
    if s.target == target
    then record s { recipients = s.recipients ++ to ∷ [] } ∷ rest
    else s ∷ later

abbrev set_original : Text → Text → List (Text × Text) → List (Text × Text)
set_original to original [] = (to, original) ∷ []
set_original to original ((t, o) ∷ rest) =
    let later = set_original to original rest in
    if text_eq t to then (t, original) ∷ rest else (t, o) ∷ later

abbrev wrapped : {A : Type 0} → Bool → Text → Ret A × Delivery → Ret A × Delivery
wrapped false to (fails e, d) = (fails (effective_rcpt to e), d)
wrapped true to (fails e, d) = (fails e, d)
wrapped plain to (gives a, d) = (gives a, d)

abbrev wrap_rcpt : {A : Type 0} → Bool → Text → Action A → Action A
wrap_rcpt plain to m d = wrapped plain to (m d)

module _ (p : Pipeline) where
  -- getRcptModifiers. What the modifiers do to the sender is ignored, its error too.
  abbrev stored_states : RcptBlock → List ℕ → Ret Text × Delivery → Ret (List ℕ) × Delivery
  stored_states block states (from, d) =
      (gives states, record d { rcpt_states = d.rcpt_states ++ (block, states) ∷ [] })

  abbrev new_rcpt_states : RcptBlock → List ℕ → Action (List ℕ)
  new_rcpt_states block states d =
      stored_states block states (group_sender p.world states d.source_addr d)

  abbrev known_or_new : RcptBlock → Option (List ℕ) → Action (List ℕ)
  known_or_new block (some states) = pure states
  known_or_new block none = and_then (new_group p.world [] block.modifiers) (new_rcpt_states block)

  unfoldable pub get_rcpt_modifiers : RcptBlock → Action (List ℕ)
  unfolding new_group group_sender
  get_rcpt_modifiers block d = known_or_new block (find_states block d.rcpt_states) d

  abbrev start_target : ℕ → Option GoError → Action (Unit {0})
  start_target target (some e) d = (fails (error e), note (refused target) d)
  start_target target none d = (
    gives tt,
    note (started target) (record d {
      deliveries = d.deliveries ++ record { target = target; recipients = [] } ∷ [];
    }),
  )

  abbrev known_or_started : ℕ → Bool → Action (Unit {0})
  known_or_started target true d = (gives tt, d)
  known_or_started target false d = start_target target (p.world.start d.log target d.source_addr) d

  unfoldable pub get_delivery : ℕ → Action (Unit {0})
  get_delivery target d = known_or_started target (has_target target d.deliveries) d

  abbrev added_to : ℕ → Text → Ret (Unit {0}) × Delivery → Ret (Unit {0}) × Delivery
  added_to target original (fails e, d) = (fails e, d)
  added_to target original (gives u, d) =
      (gives u, record d { deliveries = add_recipient target original d.deliveries })

  abbrev hand_over : Text → Text → ℕ → Action (Unit {0})
  hand_over original to target d =
      added_to target original
        (of_error (p.world.add_rcpt d.log target to), note (rcpt_added target to) d)

  -- The error of a nested pipeline names its own recipient.
  abbrev to_target : Text → Text → ℕ → Action (Unit {0})
  to_target original to target =
      wrap_rcpt (p.world.is_pipeline target) to
        (and_then (get_delivery target) (λ u. hand_over original to target))

  abbrev note_original : Text → Text → Action (Unit {0})
  note_original original to d = (
    gives tt,
    if text_eq original to
        then d
        else record d { original_rcpts = set_original to original d.original_rcpts },
  )

  abbrev to_targets : Text → RcptBlock → Text → Action (Unit {0})
  to_targets original block to =
      and_then (note_original original to) (λ u. each (to_target original to) block.targets)

  -- On an error of a modifier the states are closed, though the delivery keeps them.
  abbrev or_close : List ℕ → Ret (List Text) × Delivery → Ret (List Text) × Delivery
  or_close states (fails e, d) = (fails e, close_group p.world states d)
  or_close states (gives tos, d) = (gives tos, d)

  abbrev rewrite_for : Text → List ℕ → Action (List Text)
  rewrite_for to states d = or_close states (group_rcpt p.world states (to ∷ []) d)

  abbrev not_rejected : Option GoError → RcptBlock → Action RcptBlock
  not_rejected none block = pure block
  not_rejected (some e) block = fail_with (error e)

  abbrev block_of : Route RcptBlock → Action RcptBlock
  block_of (no_route e) = fail_with (no_block e)
  block_of (routed block) = not_rejected block.reject_err block

  abbrev in_block : Text → RcptBlock → Action (RcptBlock × List Text)
  in_block to block = and_then (checking (check_rcpt p.env block.checks to)) (λ u.
      and_then (get_rcpt_modifiers block)
        (λ states. and_then (rewrite_for to states) (λ tos. pure (block, tos))))

  abbrev find_block : Text → Action RcptBlock
  find_block to d = block_of (rcpt_block_for_addr p.unicode d.source_block to) d

  abbrev prepare : Text → Action (RcptBlock × List Text)
  prepare to = wrap_rcpt false to (and_then (find_block to) (in_block to))

  abbrev deliver_to : Text → RcptBlock × List Text → Action (Unit {0})
  deliver_to original (block, tos) = each (to_targets original block) tos

  abbrev add_one : Text → Text → Action (Unit {0})
  add_one original to = and_then (prepare to) (deliver_to original)

  abbrev states_of : Option (List ℕ) → List ℕ
  states_of none = []
  states_of (some states) = states

  abbrev rewrite_global : Text → Action (List Text)
  rewrite_global to d = group_rcpt p.world (states_of d.global_state) (to ∷ []) d

  abbrev rewrite_source : Text → Action (List Text)
  rewrite_source to d = group_rcpt p.world (states_of d.source_state) (to ∷ []) d

  abbrev check_source : Text → Action (Unit {0})
  check_source to d = checking (check_rcpt p.env d.source_block.checks to) d

  abbrev rewritten : Text → Action (List Text)
  rewritten to = and_then (rewrite_global to) (rewrite_each p.world rewrite_source [])

  unfoldable pub add_rcpt : Text → Action (Unit {0})
  unfolding get_rcpt_modifiers get_delivery group_rcpt check_rcpt rcpt_block_for_addr
  add_rcpt to =
      and_then (checking (check_rcpt p.env p.global_checks to))
        (λ u. and_then (check_source to) (λ u'. and_then (rewritten to) (each (add_one to))))
