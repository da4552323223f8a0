-- ===== src/Pipeline/Delivery.antt =====
-- internal/msgpipeline/msgpipeline.go: the state of a delivery through the pipeline, and
-- internal/modify/group.go: its modifiers. The modifiers and the targets answer from all that was called before.
-- A state object of a modifier is a number; the delivery object of a target goes by the target, since
-- a delivery has one of each.
pub mod Kept
pub mod Start
pub mod Recipients
pub mod Body
use madmail.Prelude.{
  ℕ, ◌+◌, String, Bool, true, false, Option, none, some, List, [], ◌∷◌, ◌++◌, Text, if◌then◌else◌,
}
use madmail.Errors.{GoError}
use madmail.Pipeline.Checks.{Env, Runner, new_runner}
use madmail.Pipeline.Checks.Results.{Libs, DmarcError}
use madmail.Pipeline.Routing.{Rule, SourceBlock, RcptBlock, RouteError}
use madmail.Address.Lookup.{Unicode}

pub data Failure : Type 0 where
  error : GoError → Failure
  no_block : RouteError → Failure
  dmarc_failed : DmarcError → Failure
  effective_rcpt : Text → Failure → Failure

pub data Call : Type 0 where
  created mod_closed body_rewritten : ℕ → Call
  sender_rewritten rcpt_rewritten : ℕ → Text → Call
  started refused : ℕ → Call
  rcpt_added : ℕ → Text → Call
  body_sent committed aborted : ℕ → Call

abbrev pub Log : Type 0
Log = List Call

pub data Ret (A : Type 0) : Type 0 where
  fails : Failure → Ret A
  gives : A → Ret A

pub record Started : Type 0 where
  pub target : ℕ
  pub recipients : List Text

-- The modifiers (`new_state`, then the calls of a state), the targets, and what `GenerateReceived`
-- returns. `order` and `order_blocks` are the orders in which a `range` visits the map of the targets and that
-- of the recipients' blocks.
pub record World : Type 0 where
  pub new_state : Log → ℕ → Option GoError
  pub rewrite_sender : Log → ℕ → Text → Ret Text
  pub rewrite_rcpt : Log → ℕ → Text → Ret (List Text)
  pub rewrite_body : Log → ℕ → Option GoError
  pub start : Log → ℕ → Text → Option GoError
  pub add_rcpt : Log → ℕ → Text → Option GoError
  pub body : Log → ℕ → Option GoError
  pub non_atomic : Log → ℕ → Option (List (Text × Option GoError))
  pub commit : Log → ℕ → Option GoError
  pub abort : Log → ℕ → Option GoError
  pub is_pipeline : ℕ → Bool
  pub received : Ret String
  pub order : Log → List Started → List Started
  pub order_blocks : Log → List (RcptBlock × List ℕ) → List (RcptBlock × List ℕ)

-- MsgPipeline with what it is made of.
pub record Pipeline : Type 0 where
  pub global_checks : List ℕ
  pub global_modifiers : List ℕ
  pub source_in : List (Rule SourceBlock)
  pub per_source : List (Text × SourceBlock)
  pub default_source : SourceBlock
  pub hostname : String
  pub first_pipeline : Bool
  pub world : World
  pub env : Env
  pub unicode : Unicode
  pub libs : Libs

-- msgpipelineDelivery, and the two parts of the message's metadata that it writes.
pub record Delivery : Type 0 where
  pub runner : Runner
  pub global_state : Option (List ℕ)
  pub source_state : Option (List ℕ)
  pub rcpt_states : List (RcptBlock × List ℕ)
  pub source_addr : Text
  pub source_block : SourceBlock
  pub deliveries : List Started
  pub original_rcpts : List (Text × Text)
  pub quarantine : Bool
  pub added : List String
  pub next_state : ℕ
  pub log : Log

abbrev pub new_delivery : Pipeline → Delivery
new_delivery p = record {
  runner = new_runner;
  global_state = none;
  source_state = none;
  rcpt_states = [];
  source_addr = [];
  source_block = p.default_source;
  deliveries = [];
  original_rcpts = [];
  quarantine = false;
  added = [];
  next_state = 0;
  log = [];
}

-- A piece of code that returns or fails, and changes the delivery in both cases.
abbrev pub Action : Type 0 → Type 0
Action A = Delivery → Ret A × Delivery

abbrev continue : {A B : Type 0} → Ret A × Delivery → (A → Action B) → Ret B × Delivery
continue (fails e, d) f = (fails e, d)
continue (gives a, d) f = f a d

abbrev pub and_then : {A B : Type 0} → Action A → (A → Action B) → Action B
and_then m f d = continue (m d) f

abbrev pub pure : {A : Type 0} → A → Action A
pure a d = (gives a, d)

abbrev pub fail_with : {A : Type 0} → Failure → Action A
fail_with e d = (fails e, d)

abbrev pub note : Call → Delivery → Delivery
note c d = record d { log = c ∷ d.log }

abbrev pub of_error : Option GoError → Ret (Unit {0})
of_error none = gives tt
of_error (some e) = fails (error e)

-- A call of the check runner.
abbrev pub checking : (Runner → Option GoError × Runner) → Action (Unit {0})
checking f d = let (e, r) = f d.runner in (of_error e, record d { runner = r })

abbrev pub each : {A : Type 0} → (A → Action (Unit {0})) → List A → Action (Unit {0})
each f [] = pure tt
each f (x ∷ rest) = and_then (f x) (λ u. each f rest)

module _ (w : World) where
  abbrev close_group : List ℕ → Delivery → Delivery
  close_group [] d = d
  close_group (state ∷ rest) d = close_group rest (note (mod_closed state) d)

  abbrev new_member : List ℕ → ℕ → Option GoError → Action (List ℕ)
  new_member states m (some e) d = (fails (error e), close_group states d)
  new_member states m none d = (
    gives (states ++ d.next_state ∷ []),
    note (created d.next_state) (record d { next_state = d.next_state + 1 }),
  )

  -- Group.ModStateForMsg, with the states made so far.
  unfoldable pub new_group : List ℕ → List ℕ → Action (List ℕ)
  new_group states [] d = (gives states, d)
  new_group states (m ∷ rest) d =
      and_then (new_member states m (w.new_state d.log m)) (λ made. new_group made rest) d

  abbrev rewrite_one_sender : ℕ → Text → Action Text
  rewrite_one_sender state from d =
      (w.rewrite_sender d.log state from, note (sender_rewritten state from) d)

  unfoldable pub group_sender : List ℕ → Text → Action Text
  group_sender [] from = pure from
  group_sender (state ∷ rest) from = and_then (rewrite_one_sender state from) (group_sender rest)

  abbrev rewrite_one_rcpt : ℕ → Text → Action (List Text)
  rewrite_one_rcpt state to d = (w.rewrite_rcpt d.log state to, note (rcpt_rewritten state to) d)

  -- The results for a list of recipients, one after the other.
  abbrev pub rewrite_each : (Text → Action (List Text)) → List Text → List Text → Action (List Text)
  rewrite_each f built [] = pure built
  rewrite_each f built (to ∷ rest) = and_then (f to) (λ more. rewrite_each f (built ++ more) rest)

  unfoldable pub group_rcpt : List ℕ → List Text → Action (List Text)
  group_rcpt [] tos = pure tos
  group_rcpt (state ∷ rest) tos =
      and_then (rewrite_each (rewrite_one_rcpt state) [] tos) (group_rcpt rest)

  abbrev rewrite_one_body : ℕ → Action (Unit {0})
  rewrite_one_body state d = (of_error (w.rewrite_body d.log state), note (body_rewritten state) d)

  abbrev pub group_body : List ℕ → Action (Unit {0})
  group_body = each rewrite_one_body
