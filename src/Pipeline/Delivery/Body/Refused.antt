-- ===== src/Pipeline/Delivery/Body/Refused.antt =====
-- Body of internal/msgpipeline/msgpipeline.go for a message that DMARC refuses.
use mathlib.Core.Bool.{false≢true}
use madmail.Prelude.{
  String, true, Option, none, some, List, [], ◌∷◌, ◌++◌, ◌≡◌, refl, sym, ap, ◌∙◌, subst, Bool-cases,
  inl, inr,
}
use madmail.Dmarc.{reject}
use madmail.Dmarc.Verifier.{VerifyData}
use madmail.Pipeline.Checks.Results.{
  DmarcError, Message, apply_results, is_reject, policy_of, is_refused, policy-apply_results,
}
use madmail.Pipeline.Delivery.{
  Ret, fails, gives, Pipeline, Delivery, Action, continue, and_then, each,
}
use madmail.Pipeline.Delivery.Body.{
  blocks, check_all, check_source, check_block, check_blocks, add_field, add_received, take_results,
  add_results, rewrite_bodies, send_bodies, checked_body, body,
}

abbrev Silent : {A : Type 0} → Action A → Type 0
Silent m = (d : Delivery) → (m d).1.log ≡ d.log

continue-log :
    {A B : Type 0} (r : Ret A × Delivery) (f : A → Action B)
    → ((a : A) → Silent (f a))
    → (continue r f).1.log ≡ r.1.log
continue-log (fails e, d) f h = refl
continue-log (gives a, d) f h = h a d

and_then-Silent :
    {A B : Type 0} (m : Action A) (f : A → Action B)
    → Silent m
    → ((a : A) → Silent (f a))
    → Silent (and_then m f)
and_then-Silent m f h k d = continue-log (m d) f k ∙ h d

each-Silent :
    {A : Type 0} (f : A → Action (Unit {0}))
    → ((a : A) → Silent (f a))
    → (xs : List A) → Silent (each f xs)
each-Silent f k [] d = refl
each-Silent f k (x ∷ xs) d =
    and_then-Silent (f x) (λ u. each f xs) (k x) (λ u. each-Silent f k xs) d

abbrev pub Fails : {A : Type 0} → Ret A → Type 0
Fails (fails e) = Unit {0}
Fails (gives a) = ⊥

module _ (p : Pipeline) where
  checked_body-Silent : Silent (checked_body p)
  checked_body-Silent =
      let then_blocks = λ (u : Unit {0}). check_blocks p in
      let then_source = λ (u : Unit {0}). and_then (check_source p) then_blocks in
      and_then-Silent (check_all p p.global_checks) then_source (λ d. refl)
        (λ u.
          and_then-Silent (check_source p) then_blocks (λ d. refl)
            (λ u' d. each-Silent (check_block p) (λ b d'. refl) (blocks p d) d))

  -- What `Body` returns for such a message.
  abbrev Stopped : Delivery → Ret (Unit {0}) × Delivery → Type 0
  Stopped d r = Fails r.0 × (r.1.log ≡ d.log)

  take_results-Stopped :
      (r : Option DmarcError × Message) (d : Delivery) (f : Unit {0} → Action (Unit {0}))
      → is_refused r.0 ≡ true
      → Stopped d (continue (take_results p r d) f)
  take_results-Stopped (some e, m) d f h = (tt, refl)
  take_results-Stopped (none, m) d f h = absurd (false≢true h)

  results-Stopped :
      (v : Option VerifyData) (d : Delivery) (f : Unit {0} → Action (Unit {0}))
      → policy_of p.libs d.runner.auth_result v ≡ reject
      → Stopped d (and_then (add_results p v) f d)
  results-Stopped v d f h =
      take_results-Stopped (apply_results p.libs p.hostname v d.quarantine d.runner) d f
        ((policy-apply_results p.libs p.hostname v d.quarantine d.runner).0 ∙ ap is_reject h)

  field-Stopped :
      (v : Option VerifyData) (field : Ret String) (d : Delivery) (f : Unit {0} → Action (Unit {0}))
      → policy_of p.libs d.runner.auth_result v ≡ reject
      → Stopped d (continue (add_field p field d) (λ u. and_then (add_results p v) f))
  field-Stopped v (fails e) d f h = (tt, refl)
  field-Stopped v (gives field) d f h =
      results-Stopped v (record d { added = d.added ++ field ∷ [] }) f h

  received-Stopped :
      (v : Option VerifyData) (d : Delivery) (f : Unit {0} → Action (Unit {0}))
      → policy_of p.libs d.runner.auth_result v ≡ reject
      → Stopped d (and_then (add_received p) (λ u. and_then (add_results p v) f) d)
  received-Stopped v d f h = elim (Bool-cases p.first_pipeline) [
    | inl first ↦ rw first (field-Stopped v p.world.received d f h)
    | inr nested ↦ rw nested (results-Stopped v d f h)
  ]

  -- Where the checks of a message pass, and the policy for their merged results is reject, `Body` fails,
  -- and neither a modifier nor a target is called: no target gets the body.
  pub reject-body :
      (v : Option VerifyData) (d d' : Delivery)
      → checked_body p d ≡ (gives tt, d')
      → policy_of p.libs d'.runner.auth_result v ≡ reject
      → Fails (body p v d).0 × ((body p v d).1.log ≡ d.log)
  unfolding body
  reject-body v d d' passed rejects =
      let send = λ (c : Unit {0}). and_then (rewrite_bodies p) (λ e. send_bodies p) in
      let received =
        λ (a : Unit {0}). and_then (add_received p) (λ b. and_then (add_results p v) send) in
      let stopped = received-Stopped v d' send rejects in
      let quiet =
        sym (ap (λ (r : Ret (Unit {0}) × Delivery). r.1.log) passed) ∙ checked_body-Silent d in
      subst (Stopped d) (ap (λ r. continue r received) (sym passed)) (stopped.0, stopped.1 ∙ quiet)
