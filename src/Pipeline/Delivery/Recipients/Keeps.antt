-- ===== src/Pipeline/Delivery/Recipients/Keeps.antt =====
-- AddRcpt keeps what `Start` made: a target is started when its first recipient is added, and once.
use madmail.Prelude.{
  ℕ, Bool, true, false, Option, none, some, List, [], ◌∷◌, ◌++◌, any, ◌==◌, Text, text_eq, ◌≡◌,
  refl, sym, ap, ◌∙◌, arith, Bool-cases, inl, inr,
}
use madmail.Errors.{GoError}
use madmail.Pipeline.Checks.{check_rcpt}
use madmail.Pipeline.Routing.{RcptBlock, Route, no_route, routed}
use madmail.Pipeline.Delivery.{
  Ret, fails, gives, Pipeline, Started, Delivery, Action, and_then, checking, each, new_group,
  rewrite_each,
}
use madmail.Pipeline.Delivery.Kept.{
  targets, Distinct, Kept, Keeps, and_then-Keeps, each-Keeps, close_group-Kept, new_group-Keeps,
  group_sender-Keeps, rewrite_each-Keeps, group_rcpt-Keeps,
}
use madmail.Pipeline.Delivery.Recipients.{
  find_states, has_target, add_recipient, wrapped, wrap_rcpt, new_rcpt_states, known_or_new,
  get_rcpt_modifiers, start_target, get_delivery, added_to, hand_over, to_target, note_original,
  to_targets, or_close, rewrite_for, not_rejected, block_of, in_block, find_block, prepare,
  deliver_to, add_one, states_of, rewrite_global, rewrite_source, check_source, rewritten, add_rcpt,
}

targets-append :
    (ss : List Started) (s : Started) → targets (ss ++ s ∷ []) ≡ targets ss ++ s.target ∷ []
targets-append [] s = refl
targets-append (x ∷ ss) s = ap (λ ts. x.target ∷ ts) (targets-append ss s)

any-append :
    (u t : ℕ) (ts : List ℕ)
    → any (λ x. x == u) ts ≡ false
    → (t == u) ≡ false
    → any (λ x. x == u) (ts ++ t ∷ []) ≡ false
any-append u t [] h k = ground arith
any-append u t (x ∷ ts) h k = ground (arith, any-append u t ts)

Distinct-append :
    (ts : List ℕ) (t : ℕ) → any (λ x. x == t) ts ≡ false → Distinct ts → Distinct (ts ++ t ∷ [])
Distinct-append [] t h d = (refl, tt)
Distinct-append (x ∷ ts) t h d =
    (any-append x t ts d.0 (ground arith), Distinct-append ts t (ground arith) d.1)

has_target_lem : (t : ℕ) (ss : List Started) → has_target t ss ≡ any (λ x. x == t) (targets ss)
has_target_lem t [] = refl
has_target_lem t (s ∷ ss) = ground (arith, has_target_lem t ss)

targets-add_recipient :
    (t : ℕ) (to : Text) (ss : List Started) → targets (add_recipient t to ss) ≡ targets ss
targets-add_recipient t to [] = refl
targets-add_recipient t to (s ∷ ss) = elim (Bool-cases (s.target == t)) [
  | inl same ↦ rw same refl
  | inr other ↦ rw other (ap (λ ts. s.target ∷ ts) (targets-add_recipient t to ss))
]

wrapped-Kept :
    {A : Type 0} (plain : Bool) (to : Text) (r : Ret A × Delivery)
    → Kept r.1
    → Kept (wrapped plain to r).1
wrapped-Kept false to (fails e, d) v = v
wrapped-Kept true to (fails e, d) v = v
wrapped-Kept false to (gives a, d) v = v
wrapped-Kept true to (gives a, d) v = v

module _ (p : Pipeline) where
  wrap_rcpt-Keeps :
      {A : Type 0} (plain : Bool) (to : Text) (m : Action A)
      → Keeps m
      → Keeps (wrap_rcpt plain to m)
  wrap_rcpt-Keeps plain to m h d v = wrapped-Kept plain to (m d) (h d v)

  known_or_new-Keeps :
      (block : RcptBlock) (found : Option (List ℕ)) → Keeps (known_or_new p block found)
  known_or_new-Keeps block (some states) = λ d v. v
  known_or_new-Keeps block none =
      and_then-Keeps (new_group p.world [] block.modifiers) (new_rcpt_states p block)
        (new_group-Keeps p.world [] block.modifiers)
        (λ states d v. group_sender-Keeps p.world states d.source_addr d v)

  get_rcpt_modifiers-Keeps : (block : RcptBlock) → Keeps (get_rcpt_modifiers p block)
  unfolding get_rcpt_modifiers
  get_rcpt_modifiers-Keeps block d v =
      known_or_new-Keeps block (find_states block d.rcpt_states) d v

  start_target-Kept :
      (t : ℕ) (e : Option GoError) (d : Delivery)
      → has_target t d.deliveries ≡ false
      → Kept d
      → Kept (start_target p t e d).1
  start_target-Kept t (some e) d h v = v
  start_target-Kept t none d h v =
      let same = targets-append d.deliveries (record { target = t; recipients = [] }) in
      let new = sym (has_target_lem t d.deliveries) ∙ h in
      rw same (ap (λ ts. ts ++ t ∷ []) v.0, v.1, Distinct-append (targets d.deliveries) t new v.2)

  get_delivery-Keeps : (t : ℕ) → Keeps (get_delivery p t)
  unfolding get_delivery
  get_delivery-Keeps t d v = elim (Bool-cases (has_target t d.deliveries)) [
    | inl old ↦ rw old v
    | inr new ↦ rw new (start_target-Kept t (p.world.start d.log t d.source_addr) d new v)
  ]

  added_to-Kept :
      (t : ℕ) (original : Text) (r : Ret (Unit {0}) × Delivery)
      → Kept r.1
      → Kept (added_to p t original r).1
  added_to-Kept t original (fails e, d) v = v
  added_to-Kept t original (gives u, d) v = rw (targets-add_recipient t original d.deliveries) v

  to_target-Keeps : (original to : Text) (t : ℕ) → Keeps (to_target p original to t)
  to_target-Keeps original to t =
      wrap_rcpt-Keeps (p.world.is_pipeline t) to
        (and_then (get_delivery p t) (λ u. hand_over p original to t))
        (and_then-Keeps (get_delivery p t) (λ u. hand_over p original to t) (get_delivery-Keeps t)
          (λ u d v. added_to-Kept t original _ v))

  note_original-Keeps : (original to : Text) → Keeps (note_original p original to)
  note_original-Keeps original to d v = elim (Bool-cases (text_eq original to)) [
    | inl same ↦ rw same v
    | inr other ↦ rw other v
  ]

  to_targets-Keeps :
      (original : Text) (block : RcptBlock) (to : Text) → Keeps (to_targets p original block to)
  to_targets-Keeps original block to =
      and_then-Keeps (note_original p original to)
        (λ u. each (to_target p original to) block.targets) (note_original-Keeps original to)
        (λ u. each-Keeps (to_target p original to) (to_target-Keeps original to) block.targets)

  or_close-Kept :
      (states : List ℕ) (r : Ret (List Text) × Delivery) → Kept r.1 → Kept (or_close p states r).1
  or_close-Kept states (fails e, d) v = close_group-Kept p.world states d v
  or_close-Kept states (gives tos, d) v = v

  not_rejected-Keeps : (e : Option GoError) (block : RcptBlock) → Keeps (not_rejected p e block)
  not_rejected-Keeps none block d v = v
  not_rejected-Keeps (some e) block d v = v

  block_of-Keeps : (r : Route RcptBlock) → Keeps (block_of p r)
  block_of-Keeps (no_route e) = λ d v. v
  block_of-Keeps (routed block) = not_rejected-Keeps block.reject_err block

  in_block-Keeps : (to : Text) (block : RcptBlock) → Keeps (in_block p to block)
  in_block-Keeps to block =
      and_then-Keeps _ _ (λ d v. v)
        (λ u.
          and_then-Keeps (get_rcpt_modifiers p block) _ (get_rcpt_modifiers-Keeps block) (λ states.
            and_then-Keeps (rewrite_for p to states) _
              (λ d v. or_close-Kept states _ (group_rcpt-Keeps p.world states (to ∷ []) d v))
              (λ tos d v. v)))

  add_one-Keeps : (original to : Text) → Keeps (add_one p original to)
  add_one-Keeps original to =
      and_then-Keeps (prepare p to) (deliver_to p original)
        (wrap_rcpt-Keeps false to (and_then (find_block p to) (in_block p to)) (
          and_then-Keeps (find_block p to) (in_block p to) (λ d v. block_of-Keeps _ d v)
            (in_block-Keeps to)))
        (λ r. each-Keeps (to_targets p original r.0) (to_targets-Keeps original r.0) r.1)

  rewritten-Keeps : (to : Text) → Keeps (rewritten p to)
  rewritten-Keeps to =
      and_then-Keeps (rewrite_global p to) (rewrite_each p.world (rewrite_source p) [])
        (λ d v. group_rcpt-Keeps p.world (states_of p d.global_state) (to ∷ []) d v)
        (rewrite_each-Keeps p.world (rewrite_source p)
          (λ t d v. group_rcpt-Keeps p.world (states_of p d.source_state) (t ∷ []) d v) [])

  pub add_rcpt-Keeps : (to : Text) → Keeps (add_rcpt p to)
  unfolding add_rcpt
  add_rcpt-Keeps to =
      let add_each = λ (tos : List Text). each (add_one p to) tos in
      let add_all = λ (u : Unit {0}). and_then (rewritten p to) add_each in
      let check_more = λ (u : Unit {0}). and_then (check_source p to) add_all in
      and_then-Keeps (checking (check_rcpt p.env p.global_checks to)) check_more (λ d v. v)
        (λ u.
          and_then-Keeps (check_source p to) add_all (λ d v. v)
            (λ u'.
              and_then-Keeps (rewritten p to) add_each (rewritten-Keeps to)
                (each-Keeps (add_one p to) (add_one-Keeps to))))
