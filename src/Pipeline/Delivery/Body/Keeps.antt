-- ===== src/Pipeline/Delivery/Body/Keeps.antt =====
-- Body and BodyNonAtomic keep what was started.
use madmail.Prelude.{ℕ, String, Option, none, some, List, [], ◌∷◌, Bool-cases, inl, inr}
use madmail.Dmarc.Verifier.{VerifyData}
use madmail.Pipeline.Checks.Results.{DmarcError, Message, apply_results}
use madmail.Pipeline.Delivery.{
  Ret, fails, gives, Pipeline, Started, Delivery, and_then, each, note, body_sent,
}
use madmail.Pipeline.Delivery.Kept.{Kept, Keeps, and_then-Keeps, each-Keeps, group_body-Keeps}
use madmail.Pipeline.Delivery.Body.{
  blocks, visited, check_all, check_source, check_block, check_blocks, add_field, add_received,
  take_results, add_results, rewrite_body, rewrite_block, rewrite_bodies, send_body, send_bodies,
  checked_body, body, send_each, or_statuses, body_non_atomic,
}

module _ (p : Pipeline) where
  checked_body-Keeps : Keeps (checked_body p)
  checked_body-Keeps =
      let then_blocks = λ (u : Unit {0}). check_blocks p in
      let then_source = λ (u : Unit {0}). and_then (check_source p) then_blocks in
      and_then-Keeps (check_all p p.global_checks) then_source (λ d v. v)
        (λ u.
          and_then-Keeps (check_source p) then_blocks (λ d v. v)
            (λ u'. λ d v. each-Keeps (check_block p) (λ b d' v'. v') (blocks p d) d v))

  add_field-Keeps : (r : Ret String) → Keeps (add_field p r)
  add_field-Keeps (fails e) d v = v
  add_field-Keeps (gives field) d v = v

  add_received-Keeps : Keeps (add_received p)
  add_received-Keeps d v = elim (Bool-cases p.first_pipeline) [
    | inl first ↦ rw first (add_field-Keeps p.world.received d v)
    | inr nested ↦ rw nested v
  ]

  take_results-Keeps : (r : Option DmarcError × Message) → Keeps (take_results p r)
  take_results-Keeps (some e, m) d v = v
  take_results-Keeps (none, m) d v = v

  rewrite_body-Keeps : (states : Option (List ℕ)) → Keeps (rewrite_body p states)
  rewrite_body-Keeps none = λ d v. v
  rewrite_body-Keeps (some states) = group_body-Keeps p.world states

  rewrite_bodies-Keeps : Keeps (rewrite_bodies p)
  rewrite_bodies-Keeps d v =
      let then_blocks = λ (u : Unit {0}). each (rewrite_block p) (blocks p d) in
      let then_source = λ (u : Unit {0}). and_then (rewrite_body p d.source_state) then_blocks in
      and_then-Keeps (rewrite_body p d.global_state) then_source (rewrite_body-Keeps d.global_state)
        (λ u.
          and_then-Keeps (rewrite_body p d.source_state) then_blocks
            (rewrite_body-Keeps d.source_state)
            (λ u'. each-Keeps (rewrite_block p) (λ b. group_body-Keeps p.world b.1) (blocks p d)))
        d v

  send_bodies-Keeps : Keeps (send_bodies p)
  send_bodies-Keeps d v = each-Keeps (send_body p) (λ s d' v'. v') (visited p d) d v

  pub body-Keeps : (v : Option VerifyData) → Keeps (body p v)
  unfolding body
  body-Keeps v =
      let send = λ (u : Unit {0}). send_bodies p in
      let rewrite = λ (u : Unit {0}). and_then (rewrite_bodies p) send in
      let results = λ (u : Unit {0}). and_then (add_results p v) rewrite in
      let received = λ (u : Unit {0}). and_then (add_received p) results in
      and_then-Keeps (checked_body p) received checked_body-Keeps (λ a.
        and_then-Keeps (add_received p) results add_received-Keeps (λ b.
          and_then-Keeps (add_results p v) rewrite
            (λ d k.
              take_results-Keeps (apply_results p.libs p.hostname v d.quarantine d.runner) d k)
            (λ c.
              and_then-Keeps (rewrite_bodies p) send rewrite_bodies-Keeps
                (λ e. send_bodies-Keeps))))

  send_each-Kept : (ss : List Started) (d : Delivery) → Kept d → Kept (send_each p ss d).1
  send_each-Kept [] d v = v
  send_each-Kept (s ∷ ss) d v = send_each-Kept ss (note (body_sent s.target) d) v

  or_statuses-Kept : (r : Ret (Unit {0}) × Delivery) → Kept r.1 → Kept (or_statuses p r).1
  or_statuses-Kept (fails e, d) v = v
  or_statuses-Kept (gives u, d) v = send_each-Kept (visited p d) d v

  pub body_non_atomic-Kept : (d : Delivery) → Kept d → Kept (body_non_atomic p d).1
  unfolding body_non_atomic
  body_non_atomic-Kept d v =
      let rewrite = λ (u : Unit {0}). rewrite_bodies p in
      let source = λ (u : Unit {0}). and_then (check_source p) rewrite in
      or_statuses-Kept (and_then (check_all p p.global_checks) source d) (
        and_then-Keeps (check_all p p.global_checks) source (λ d' v'. v')
          (λ u. and_then-Keeps (check_source p) rewrite (λ d' v'. v') (λ u'. rewrite_bodies-Keeps))
          d v)
