-- ===== src/Queue/Attempt.antt =====
-- `tryDelivery` and `emitDSN` of internal/target/queue/queue.go: what one attempt does to a message.
pub mod Places
pub mod Counters
pub mod Reports
use madmail.Prelude.{
  ℕ, ◌+◌, String, Bool, true, false, not, ◌||◌, Option, none, some, List, [], ◌∷◌, ◌++◌, ltb, leb,
  str_eq, if◌then◌else◌,
}
use madmail.Prelude.Dict.{Dict, lookup, insert, delete}
use madmail.Errors.{GoError, StoredError, EnhancedCode, is_temporary_or_unspec, to_smtp_err}
use madmail.Queue.Delivery.{Errs, Target, Call, deliver}

-- QueueMetadata, with what it takes from the message's metadata. An absent map is an empty one.
pub record Meta : Type 0 where
  pub id : String
  pub from : String
  pub original_from : String
  pub original_rcpts : Dict String
  pub to : List String
  pub rcpt_errs : Dict StoredError
  pub tries_count : Dict ℕ
  pub first_attempt : ℕ
  pub last_attempt : ℕ

-- A missing key reads as 0.
abbrev or_zero : Option ℕ → ℕ
or_zero none = 0
or_zero (some n) = n

abbrev pub tries : Dict ℕ → String → ℕ
tries counts rcpt = or_zero (lookup rcpt counts)

-- The variables of the loop over `meta.To`. `delivered` is what the log says of the others.
pub record Split : Type 0 where
  pub tries_count : Dict ℕ
  pub rcpt_errs : Dict StoredError
  pub new_rcpts : List String
  pub failed_rcpts : List String
  pub delivered : List String
  pub smallest : ℕ

abbrev pub gives_up : ℕ → Split → String → GoError → Bool
gives_up max_tries s rcpt err =
    not (is_temporary_or_unspec err) || leb max_tries (tries s.tries_count rcpt + 1)

abbrev retry : Split → String → Split
retry s rcpt =
    let count = tries s.tries_count rcpt + 1 in
    record s {
      tries_count = insert rcpt count s.tries_count;
      new_rcpts = s.new_rcpts ++ rcpt ∷ [];
      smallest = if ltb count s.smallest then count else s.smallest;
    }

abbrev fail : Split → String → Split
fail s rcpt = record s {
  tries_count = delete rcpt s.tries_count;
  failed_rcpts = s.failed_rcpts ++ rcpt ∷ [];
}

abbrev with_error : Split → String → GoError → Split
with_error s rcpt err = record s { rcpt_errs = insert rcpt (to_smtp_err err) s.rcpt_errs }

abbrev split_answer : ℕ → Option GoError → Split → String → Split
split_answer max_tries none s rcpt = record s { delivered = s.delivered ++ rcpt ∷ [] }
split_answer max_tries (some err) s rcpt =
    if gives_up max_tries s rcpt err
    then fail (with_error s rcpt err) rcpt
    else retry (with_error s rcpt err) rcpt

-- One round of the loop.
unfoldable pub split_one : ℕ → Errs → Split → String → Split
split_one max_tries errs s rcpt = split_answer max_tries (lookup rcpt errs) s rcpt

unfoldable pub split : ℕ → Errs → Split → List String → Split
split max_tries errs s [] = s
split max_tries errs s (rcpt ∷ rest) = split max_tries errs (split_one max_tries errs s rcpt) rest

-- A line of the bounce message, dsn.RecipientInfo. The action is always `failed`.
pub record RecipientInfo : Type 0 where
  pub final_recipient : String
  pub status : EnhancedCode
  pub diagnostic_code : StoredError

abbrev original_or : Option String → String → String
original_or none rcpt = rcpt
original_or (some original) rcpt = if str_eq original "" then rcpt else original

-- The stored error is kept under the effective address; the line names the original one.
abbrev pub info : Dict String → String → StoredError → RecipientInfo
info original_rcpts rcpt err = record {
  final_recipient = original_or (lookup rcpt original_rcpts) rcpt;
  status = err.enhanced_code;
  diagnostic_code = err;
}

abbrev add_info :
    Meta → String → Option StoredError → Option (List RecipientInfo) → Option (List RecipientInfo)
add_info meta rcpt none rest = none
add_info meta rcpt (some err) none = none
add_info meta rcpt (some err) (some rest) = some (info meta.original_rcpts rcpt err ∷ rest)

-- `none` where the code reads a field of a nil error.
unfoldable pub rcpt_infos : Meta → List String → Option (List RecipientInfo)
rcpt_infos meta [] = some []
rcpt_infos meta (rcpt ∷ rest) =
    add_info meta rcpt (lookup rcpt meta.rcpt_errs) (rcpt_infos meta rest)

-- Where the bounce fails after its lines are made: dsn.GenerateDSN, or a call of the bounce pipeline.
pub data DsnError : Type 0 where
  not_generated not_started rcpt_refused body_refused commit_failed : DsnError

-- How the calls of `emitDSN` end: whether there is no random identifier for the bounce, and its first error.
pub record DsnCalls : Type 0 where
  pub has_no_id : Meta → Bool
  pub error : Meta → List RecipientInfo → Option DsnError

-- What becomes of the bounce: none is wanted, a panic, no identifier, an error, or one committed to the bounce
-- pipeline with its envelope recipient, the address in its header and its lines.
pub data Bounce : Type 0 where
  no_bounce panics no_id : Bounce
  unsent : DsnError → Bounce
  bounce : String → String → List RecipientInfo → Bounce

abbrev sent : Meta → List RecipientInfo → Option DsnError → Bounce
sent meta infos none = bounce meta.from meta.original_from infos
sent meta infos (some e) = unsent e

abbrev bounce_of : DsnCalls → Meta → Option (List RecipientInfo) → Bounce
bounce_of calls meta none = panics
bounce_of calls meta (some infos) = sent meta infos (calls.error meta infos)

-- `has_pipeline` says whether a bounce pipeline is configured.
unfoldable pub emit_dsn : Bool → DsnCalls → Meta → List String → Bounce
unfolding rcpt_infos
emit_dsn has_pipeline calls meta failed_rcpts =
    if not has_pipeline
    then no_bounce
    else if str_eq meta.original_from ""
    then no_bounce
    else if calls.has_no_id meta
    then no_id
    else bounce_of calls meta (rcpt_infos meta failed_rcpts)

pub record Config : Type 0 where
  pub max_tries : ℕ
  pub has_pipeline : Bool
  pub dsn : DsnCalls
  -- `initialRetryTime * retryTimeScale ^ (count - 1)`, as the code rounds it
  pub delay : ℕ → ℕ

-- What an attempt did: the message is removed, or its metadata is written and it is due again.
pub data Fate : Type 0 where
  removed : Fate
  requeued : Meta → ℕ → Fate

pub record Attempt : Type 0 where
  pub split : Split
  pub bounce : Bounce
  pub fate : Fate

abbrev pub begin : Meta → Split
begin meta = record {
  tries_count = meta.tries_count;
  rcpt_errs = meta.rcpt_errs;
  new_rcpts = [];
  failed_rcpts = [];
  delivered = [];
  smallest = 999999;
}

abbrev bounce_for : Config → Meta → List String → Bounce
bounce_for q meta [] = no_bounce
bounce_for q meta (rcpt ∷ rest) = emit_dsn q.has_pipeline q.dsn meta (rcpt ∷ rest)

abbrev pub fate_of : Config → Meta → ℕ → ℕ → List String → Fate
fate_of q meta now smallest [] = removed
fate_of q meta now smallest (rcpt ∷ rest) =
    requeued (record meta { to = rcpt ∷ rest; last_attempt = now }) (now + q.delay smallest)

abbrev pub conclude : Config → Meta → ℕ → Split → Attempt
conclude q meta now s =
    let meta' = record meta { tries_count = s.tries_count; rcpt_errs = s.rcpt_errs } in
    record {
      split = s;
      bounce = bounce_for q meta' s.failed_rcpts;
      fate = fate_of q meta' now s.smallest s.new_rcpts;
    }

unfoldable pub try_delivery : Config → Target → Meta → ℕ → Attempt
unfolding split
try_delivery q t meta now =
    conclude q meta now (split q.max_tries (deliver t meta.to).0 (begin meta) meta.to)
