-- ===== src/Queue/Session.antt =====
-- internal/target/queue/queue.go: `queueDelivery`, by which the pipeline hands a message to the queue,
-- and `dispatch`, which the time wheel calls when a message is due.
pub mod Kept
pub mod HandOver
use madmail.Prelude.{
  ℕ, ◌+◌, String, Bool, true, false, Option, none, some, List, [], ◌∷◌, ◌++◌, if◌then◌else◌,
}
use madmail.Prelude.Dict.{Dict}
use madmail.Queue.Delivery.{Target}
use madmail.Queue.Attempt.{Meta, Config, Fate, removed, requeued, Attempt, try_delivery}
use madmail.Queue.Disk.{
  Disk, Fails, Codec, store_new_message, remove_from_disk, update_metadata_on_disk, open_message,
}

-- queueSlot. A slot that is added again after an attempt has no message: it is read from disk.
pub record QueueSlot (H : Type 0) : Type 0 where
  pub id : String
  pub message : Option (Meta × H × Option String)

-- queueDelivery, the disk and what was added to the wheel with its time, newest first. `Commit` adds
-- with the zero time.
pub record Session (H : Type 0) : Type 0 where
  pub meta : Option Meta
  pub header : Option H
  pub body : Option String
  pub disk : Disk
  pub added : List (ℕ × QueueSlot H)

-- What the queue keeps of the message's metadata.
pub record MsgMeta : Type 0 where
  pub id : String
  pub original_from : String
  pub original_rcpts : Dict String

unfoldable pub start : {H : Type 0} → MsgMeta → String → ℕ → Disk → Session H
start msg mail_from now d = record {
  meta = some (record {
    id = msg.id;
    from = mail_from;
    original_from = msg.original_from;
    original_rcpts = msg.original_rcpts;
    to = [];
    rcpt_errs = [];
    tries_count = [];
    first_attempt = now;
    last_attempt = now;
  });
  header = none;
  body = none;
  disk = d;
  added = [];
}

abbrev with_rcpt : {H : Type 0} → String → Session H → Option Meta → Option (Session H)
with_rcpt rcpt s none = none
with_rcpt rcpt s (some meta) =
    some (record s { meta = some (record meta { to = meta.to ++ rcpt ∷ [] }) })

-- `none` is a panic, here as below: a call after `Commit` meets a nil pointer.
unfoldable pub add_rcpt : {H : Type 0} → String → Session H → Option (Session H)
add_rcpt rcpt s = with_rcpt rcpt s s.meta

unfoldable pub add_rcpts : {H : Type 0} → List String → Session H → Option (Session H)
unfolding add_rcpt
add_rcpts [] s = some s
add_rcpts (rcpt ∷ rest) s = elim (add_rcpt rcpt s) [ none ↦ none | some s' ↦ add_rcpts rest s' ]

abbrev stored : {H : Type 0} → H → String → Session H → Bool × Disk → Bool × Session H
stored header body s (false, d) = (false, record s { disk = d })
stored header body s (true, d) =
    (true, record s { disk = d; header = some header; body = some body })

module _ {H : Type 0} where
  -- The message of the slot. An absent header reads as an empty one, which is a parameter.
  abbrev header_or : H → Option H → H
  header_or empty none = empty
  header_or empty (some header) = header

  abbrev commit_meta : H → Session H → Option Meta → Option (Session H)
  commit_meta empty s none = none
  commit_meta empty s (some meta) = some (record s {
    added =
        (0, record { id = meta.id; message = some (meta, header_or empty s.header, s.body) })
        ∷ s.added;
    meta = none;
    body = none;
  })

  unfoldable pub commit : H → Session H → Option (Session H)
  commit empty s = commit_meta empty s s.meta

module _ {H : Type 0} (c : Codec H) (fails : Fails) where
  abbrev body_of : H → String → Session H → Option Meta → Option (Bool × Session H)
  body_of header text s none = none
  body_of header text s (some meta) =
      some (stored header text s (store_new_message c fails meta header text s.disk))

  -- `false` is an error.
  unfoldable pub send_body : H → String → Session H → Option (Bool × Session H)
  send_body header text s = body_of header text s s.meta

  abbrev abort_stored : Session H → Option Meta → Option (Session H)
  abort_stored s none = none
  abort_stored s (some meta) = some (record s { disk = remove_from_disk fails meta.id s.disk })

  abbrev abort_body : Session H → Option String → Option (Session H)
  abort_body s none = some s
  abort_body s (some body) = abort_stored s s.meta

  unfoldable pub abort : Session H → Option (Session H)
  abort s = abort_body s s.body

  -- What follows an attempt: the slots added to the wheel, with their times, and the disk. An error of
  -- the metadata update is logged.
  abbrev concluded : String → Disk → Fate → List (ℕ × QueueSlot H) × Disk
  concluded id d removed = ([], remove_from_disk fails id d)
  concluded id d (requeued meta due) =
      ((due, record { id = id; message = none }) ∷ [], (update_metadata_on_disk c fails meta d).1)

  abbrev attempt : Config → Target → ℕ → Meta → Disk → List (ℕ × QueueSlot H) × Disk
  attempt q t now meta d = concluded meta.id d (try_delivery q t meta now).fate

  abbrev attempt_opened :
      Config → Target → ℕ → Option (Meta × H × String) × Disk → List (ℕ × QueueSlot H) × Disk
  attempt_opened q t now (none, d) = ([], d)
  attempt_opened q t now (some (meta, header, body), d) = attempt q t now meta d

  abbrev attempt_slot :
      Config
      → Target
      → ℕ
      → String
      → Disk
      → Option (Meta × H × Option String)
      → List (ℕ × QueueSlot H) × Disk
  attempt_slot q t now id d none = attempt_opened q t now (open_message c fails id d)
  attempt_slot q t now id d (some (meta, header, body)) = attempt q t now meta d

  -- The delivery that the goroutine of `dispatch` makes, without a panic.
  unfoldable pub dispatch : Config → Target → ℕ → QueueSlot H → Disk → List (ℕ × QueueSlot H) × Disk
  unfolding open_message update_metadata_on_disk remove_from_disk
  dispatch q t now slot d = attempt_slot q t now slot.id d slot.message
