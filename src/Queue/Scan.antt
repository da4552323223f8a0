-- ===== src/Queue/Scan.antt =====
-- internal/target/queue/queue.go: the functions that walk the queue's directory, which are
-- `readDiskQueue` at the start of the server and the two purges. A directory holds each name once;
-- the list of the metadata files is its listing.
pub mod Complete
pub mod Purge
use madmail.Prelude.{
  ℕ, ◌+◌, String, str_eq, Bool, true, false, Option, none, some, List, [], ◌∷◌, map, any, ltb,
  if◌then◌else◌,
}
use madmail.Prelude.Dict.{Dict, lookup}
use madmail.Queue.Attempt.{Meta, Config}
use madmail.Queue.Disk.{
  Disk, Fails, Codec, lists_dir, stats_header, stats_body, read_message_meta, remove_header,
  remove_body, remove_meta, remove_from_disk,
}

-- The names of the metadata files, without the suffix.
unfoldable pub ids : Dict String → List String
ids [] = []
ids ((id, text) ∷ m) = id ∷ ids m

-- The loop over `meta.TriesCount`.
unfoldable pub smallest_tries : ℕ → Dict ℕ → ℕ
smallest_tries smallest [] = smallest
smallest_tries smallest ((rcpt, count) ∷ m) =
    smallest_tries (if ltb count smallest then count else smallest) m

-- When a message that is found on disk is tried: after its delay, but not right at the start.
unfoldable pub next_try_time : Config → ℕ → ℕ → Meta → ℕ
unfolding smallest_tries
next_try_time q post_init_delay now meta =
    let next = meta.last_attempt + q.delay (smallest_tries 999999 meta.tries_count) in
    if ltb next (now + post_init_delay) then now + post_init_delay else next

abbrev cons_slot : String → Option ℕ → List (String × ℕ) → List (String × ℕ)
cons_slot id none slots = slots
cons_slot id (some time) slots = (id, time) ∷ slots

module _ {H : Type 0} (c : Codec H) (fails : Fails) (q : Config) (post_init_delay now : ℕ) where
  abbrev found_body : String → Meta → Disk → Option String → Option ℕ × Disk
  found_body id meta d none = (none, remove_header fails id (remove_meta fails id d))
  found_body id meta d (some body) = (some (next_try_time q post_init_delay now meta), d)

  abbrev found_header : String → Meta → Disk → Option String → Option ℕ × Disk
  found_header id meta d none = (none, remove_body fails id (remove_meta fails id d))
  found_header id meta d (some header) =
      if fails stats_body id then (none, d) else found_body id meta d (lookup id d.bodies)

  abbrev found_meta : String → Disk → Option Meta → Option ℕ × Disk
  found_meta id d none = (none, d)
  found_meta id d (some meta) =
      if fails stats_header id then (none, d) else found_header id meta d (lookup id d.headers)

  -- One round of the loop: the time for which the message is added to the wheel, if it is.
  unfoldable pub load_one : String → Disk → Option ℕ × Disk
  unfolding read_message_meta
  load_one id d = found_meta id d (read_message_meta c fails id d)

  unfoldable pub load_all : List String → Disk → List (String × ℕ) × Disk
  load_all [] d = ([], d)
  load_all (id ∷ rest) d =
      let (slot, d') = load_one id d in
      let (slots, d'') = load_all rest d' in (cons_slot id slot slots, d'')

  -- `none` is an error; else the slots added to the wheel.
  unfoldable pub read_disk_queue : Disk → Option (List (String × ℕ) × Disk)
  unfolding load_all ids
  read_disk_queue d = if fails lists_dir "" then none else some (load_all (ids d.metas) d)

abbrev pub accepts : (Meta → Bool) → Option Meta → Bool
accepts test none = false
accepts test (some meta) = test meta

-- The tests of the two purges.
abbrev pub is_from : String → Meta → Bool
is_from sender meta = str_eq meta.from sender

abbrev pub is_to : String → Meta → Bool
is_to rcpt meta = any (λ to. str_eq to rcpt) meta.to

module _ {H : Type 0} (c : Codec H) (fails : Fails) where
  -- The loop of both purges, with the number of messages it removed.
  unfoldable pub purge_all : (Meta → Bool) → List String → Disk → ℕ × Disk
  unfolding read_message_meta remove_from_disk
  purge_all test [] d = (0, d)
  purge_all test (id ∷ rest) d = elim (accepts test (read_message_meta c fails id d)) [
    | true ↦ let (n, d') = purge_all test rest (remove_from_disk fails id d) in (n + 1, d')
    | false ↦ purge_all test rest d
  ]

  unfoldable pub purge : (Meta → Bool) → Disk → Option (ℕ × Disk)
  unfolding purge_all ids
  purge test d = if fails lists_dir "" then none else some (purge_all test (ids d.metas) d)

  -- `none` is an error.
  unfoldable pub purge_by_sender : String → Disk → Option (ℕ × Disk)
  unfolding purge
  purge_by_sender sender d = purge (is_from sender) d

  unfoldable pub purge_by_recipient : String → Disk → Option (ℕ × Disk)
  unfolding purge
  purge_by_recipient rcpt d = purge (is_to rcpt) d
