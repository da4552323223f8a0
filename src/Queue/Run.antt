-- ===== src/Queue/Run.antt =====
-- The attempts at one message of internal/target/queue/queue.go, one after the other, each on the metadata that it
-- reads from disk. What the target answers, when, and whether the new metadata are written is a parameter
-- of each attempt: `tryDelivery` only logs an error of `updateMetadataOnDisk`, and the next attempt then
-- reads the old metadata.
pub mod Settled
use madmail.Prelude.{Bool, if◌then◌else◌, ℕ, String, Option, none, some, List, [], ◌∷◌, ◌++◌}
use madmail.Queue.Delivery.{Target}
use madmail.Queue.Attempt.{Meta, Config, Attempt, Fate, removed, requeued, try_delivery}

pub record Try : Type 0 where
  pub target : Target
  pub now : ℕ
  pub is_written : Bool

pub record History : Type 0 where
  pub delivered : List String
  pub failed : List String
  -- the message that is still in the queue
  pub left : Option Meta

abbrev after_attempt : Attempt → History → History
after_attempt a h = record h {
  delivered = a.split.delivered ++ h.delivered;
  failed = a.split.failed_rcpts ++ h.failed;
}

abbrev pub ended : Option Meta → History
ended left = record { delivered = []; failed = []; left = left }

unfoldable pub run : Config → List Try → Meta → History
run q [] meta = ended (some meta)
run q (t ∷ rest) meta =
    let a = try_delivery q t.target meta t.now in
    elim a.fate [
      | removed ↦ after_attempt a (ended none)
      | requeued meta' due ↦ after_attempt a (run q rest (if t.is_written then meta' else meta))
    ]
