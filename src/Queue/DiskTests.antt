-- ===== src/Queue/DiskTests.antt =====
-- The theorems on the queue's files at concrete disks.
use madmail.Prelude.{
  ℕ, String, str_eq, Bool, true, false, Option, none, some, List, [], ◌∷◌, ◌≡◌, refl, inl, map,
  if◌then◌else◌,
}
use madmail.Prelude.Dict.{lookup, delete}
use madmail.Errors.{GoError, leaf}
use madmail.Queue.Delivery.{Target, atomic}
use madmail.Queue.Attempt.{Meta, Config, try_delivery}
use madmail.Queue.Disk.{
  Disk, syncs_body, copies_body, Fails, Codec, IsCodec, store_new_message, open_message,
  read_message_meta, update_metadata_on_disk,
}
use madmail.Queue.Disk.Stored.{IsReadable, open_message-store_new_message, files}
use madmail.Queue.Scan.{
  ids, read_disk_queue, next_try_time, smallest_tries, purge, purge_all, is_from, load_all,
  load_one,
}
use madmail.Queue.Scan.Complete.{IsListable, is_complete, ids-read_disk_queue}
use madmail.Queue.Scan.Purge.{purge_lem}
use madmail.Queue.Session.{Session, QueueSlot, MsgMeta, dispatch}
use madmail.Queue.Session.Kept.{IsStored, IsWritable, Continues, dispatch-Continues}
use madmail.Queue.Session.HandOver.{accepted, hand_over, hand_over_lem}

abbrev message : MsgMeta
message = record { id = "1"; original_from = "s@example.org"; original_rcpts = [] }

abbrev stored_meta : Meta
stored_meta = accepted message "s@example.org" 7 ("a" ∷ [])

abbrev decode : String → Option Meta
decode text = if str_eq text "m" then some stored_meta else none

abbrev codec : Codec String
codec = record {
  encode = λ meta. "m";
  decode = decode;
  write_header = λ header. header;
  read_header = λ text. some text;
  torn = "";
}

codec_reads : IsCodec codec stored_meta "h"
codec_reads = record { decode-encode = refl; read-write = refl }

abbrev never : Fails
never call id = false

abbrev sync_fails : Fails
sync_fails syncs_body id = true
sync_fails _ id = false

readable : IsReadable never "1"
readable = record { meta = refl; body = refl; header = refl }

abbrev empty : Disk
empty = record { headers = []; bodies = []; metas = []; new_metas = [] }

abbrev stored : Bool × Disk
stored = store_new_message codec never stored_meta "h" "b" empty

stores : stored.0 ≡ true
unfolding store_new_message update_metadata_on_disk
stores = refl

open_message-store_new_message_example :
    open_message codec never "1" stored.1 ≡ (some (stored_meta, "h", "b"), stored.1)
open_message-store_new_message_example =
    open_message-store_new_message codec never never stored_meta "h" "b" empty codec_reads readable
      stores

abbrev no_space : Fails
no_space copies_body id = true
no_space _ id = false

refuses : (store_new_message codec no_space stored_meta "h" "b" empty).0 ≡ false
unfolding store_new_message update_metadata_on_disk
refuses = refl

-- A complete message, and one that has no body.
abbrev two : Disk
two = record {
  headers = ("1", "h") ∷ ("2", "h") ∷ [];
  bodies = ("1", "b") ∷ [];
  metas = ("1", "m") ∷ ("2", "m") ∷ [];
  new_metas = [];
}

abbrev config : Config
config = record {
  max_tries = 2;
  has_pipeline = false;
  dsn = record { has_no_id = λ m. false; error = λ m is. none };
  delay = λ n. 900;
}

listable : IsListable never
listable = record { dir = refl; meta = λ id. refl; header = λ id. refl; body = λ id. refl }

ids-read_disk_queue_example :
    (r : List (String × ℕ) × Disk) × (read_disk_queue codec never config 60 100 two ≡ some r)
    × (map (λ slot. slot.0) r.0 ≡ "1" ∷ [])
unfolding ids lookup
ids-read_disk_queue_example =
    ids-read_disk_queue codec never config 60 100 two listable (refl, (refl, tt))

abbrev restarted : Option (List (String × ℕ) × Disk)
restarted = read_disk_queue codec never config 60 100 two

restarts :
    restarted
    ≡ some (
      ("1", 907) ∷ [],
      record {
        headers = ("1", "h") ∷ [];
        bodies = ("1", "b") ∷ [];
        metas = ("1", "m") ∷ [];
        new_metas = [];
      },
    )
unfolding read_disk_queue load_all load_one ids lookup delete next_try_time smallest_tries
restarts = refl

abbrev cleaned : Disk
cleaned = record {
  headers = ("1", "h") ∷ [];
  bodies = ("1", "b") ∷ [];
  metas = ("1", "m") ∷ [];
  new_metas = [];
}

complete_message : is_complete codec (files "1" two) ≡ true
unfolding lookup
complete_message = refl

purged : purge codec never (is_from "t@example.org") two ≡ some (0, two)
unfolding purge purge_all ids lookup read_message_meta
purged = refl

purge_lem_example :
    (r : ℕ × Disk) × (purge codec never (is_from "s@example.org") two ≡ some r)
    × (r.0 ≡ 2)
    × (files "1" r.1 ≡ (none, none, none, none))
unfolding ids lookup
purge_lem_example =
    purge_lem codec never (is_from "s@example.org") (λ call id. refl) two "1" (refl, (refl, tt))

hand_over_lem_example :
    (s : Session String) × (hand_over codec never message "s@example.org" 7
        ("a" ∷ [])
        ""
        "h"
        "b"
        empty
      ≡ some s)
    × IsStored codec stored_meta "h" "b" s.disk
    × (s.added ≡ (0, record { id = "1"; message = some (stored_meta, "h", some "b") }) ∷ [])
hand_over_lem_example =
    hand_over_lem codec never message "s@example.org" 7 ("a" ∷ []) "" "h" "b" empty stores

abbrev answer : ℕ → String → Option GoError
answer n rcpt = none

abbrev unspecified : GoError
unspecified = leaf (record { temporary = none; fields = []; plain = none })

abbrev down : Target
down = record { start = some unspecified; add_rcpt = answer; body = atomic none; commit = none }

abbrev slot : QueueSlot String
slot = record { id = "1"; message = none }

on_disk : IsStored codec stored_meta "h" "b" two
unfolding lookup
on_disk = record { meta_at = refl; body_at = refl; header_at = refl }

writable : IsWritable never "1"
writable = record { creates = refl; encodes = refl; syncs = refl; renames = refl }

dispatch-Continues_example :
    Continues codec never "h" "b" "1" two
      (try_delivery config down stored_meta 5).fate
      (dispatch codec never config down 5 slot two)
dispatch-Continues_example =
    dispatch-Continues codec never "h" "b" config down 5 stored_meta slot two codec_reads refl
      (inl refl) readable writable on_disk
