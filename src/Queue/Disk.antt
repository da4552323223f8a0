-- ===== src/Queue/Disk.antt =====
-- internal/target/queue/queue.go: the files of a message in the queue's directory and the functions
-- that write, read and remove them. For a message `id` these are `id.header`, `id.body`, `id.meta`
-- and, while the metadata is written, `id.meta.new`. Any call on a file may fail: `fails` says which.
pub mod Stored
use madmail.Prelude.{
  ◌≡◌, ℕ, ◌+◌, String, str_eq, Bool, true, false, Option, none, some, List, [], ◌∷◌, map, contains,
  ltb, if◌then◌else◌,
}
use madmail.Prelude.Dict.{Dict, lookup, insert, delete}
use madmail.Queue.Attempt.{Meta}

-- The contents of the files, by message.
pub record Disk : Type 0 where
  pub headers : Dict String
  pub bodies : Dict String
  pub metas : Dict String
  pub new_metas : Dict String

-- The calls that may fail.
pub data Io : Type 0 where
  creates_header writes_header opens_body creates_body copies_body : Io
  creates_meta encodes_meta syncs_meta renames_meta syncs_header syncs_body : Io
  removes_header removes_body removes_meta : Io
  opens_meta stats_header stats_body opens_header lists_dir : Io

abbrev pub Fails : Type 0
Fails = Io → String → Bool

-- JSON and the header format of go-message, and what a write that fails leaves in a file.
pub record Codec (H : Type 0) : Type 0 where
  pub encode : Meta → String
  pub decode : String → Option Meta
  pub write_header : H → String
  pub read_header : String → Option H
  pub torn : String

-- The metadata and the header are read back as they were written.
pub record IsCodec {H : Type 0} (c : Codec H) (meta : Meta) (header : H) : Type 0 where
  pub decode-encode : c.decode (c.encode meta) ≡ some meta
  pub read-write : c.read_header (c.write_header header) ≡ some header

abbrev put_header : String → String → Disk → Disk
put_header id text d = record d { headers = insert id text d.headers }

abbrev put_body : String → String → Disk → Disk
put_body id text d = record d { bodies = insert id text d.bodies }

abbrev put_new_meta : String → String → Disk → Disk
put_new_meta id text d = record d { new_metas = insert id text d.new_metas }

-- A failure to remove is logged.
abbrev pub remove_header : Fails → String → Disk → Disk
remove_header fails id d =
    if fails removes_header id then d else record d { headers = delete id d.headers }

abbrev pub remove_body : Fails → String → Disk → Disk
remove_body fails id d =
    if fails removes_body id then d else record d { bodies = delete id d.bodies }

abbrev pub remove_meta : Fails → String → Disk → Disk
remove_meta fails id d = if fails removes_meta id then d else record d { metas = delete id d.metas }

unfoldable pub remove_from_disk : Fails → String → Disk → Disk
remove_from_disk fails id d = remove_meta fails id (remove_body fails id (remove_header fails id d))

abbrev rename_meta : String → String → Disk → Disk
rename_meta id text d = record d {
  metas = insert id text d.metas;
  new_metas = delete id d.new_metas;
}

abbrev finish_store : Fails → String → Bool × Disk → Bool × Disk
finish_store fails id (false, d) = (false, remove_header fails id (remove_body fails id d))
finish_store fails id (true, d) =
    if fails syncs_header id
    then (false, d)
    else if fails syncs_body id
    then (false, d)
    else (true, d)

abbrev pub decode_opt : {A : Type 0} → (String → Option A) → Option String → Option A
decode_opt decode none = none
decode_opt decode (some text) = decode text

module _ {H : Type 0} (c : Codec H) (fails : Fails) where
  -- Not the variant for Windows. `false` is an error.
  unfoldable pub update_metadata_on_disk : Meta → Disk → Bool × Disk
  update_metadata_on_disk meta d =
      let written = put_new_meta meta.id (c.encode meta) d in
      if fails creates_meta meta.id
      then (false, d)
      else if fails encodes_meta meta.id
      then (false, put_new_meta meta.id c.torn d)
      else if fails syncs_meta meta.id
      then (false, written)
      else if fails renames_meta meta.id
      then (false, written)
      else (true, rename_meta meta.id (c.encode meta) written)

  abbrev store_body : Meta → String → Disk → Bool × Disk
  unfolding update_metadata_on_disk
  store_body meta body d =
      if fails opens_body meta.id
      then (false, remove_header fails meta.id d)
      else if fails creates_body meta.id
      then (false, d)
      else if fails copies_body meta.id
      then (
        false,
        remove_header fails meta.id (remove_body fails meta.id (put_body meta.id c.torn d)),
      )
      else finish_store fails meta.id (update_metadata_on_disk meta (put_body meta.id body d))

  -- `false` is an error.
  unfoldable pub store_new_message : Meta → H → String → Disk → Bool × Disk
  unfolding update_metadata_on_disk
  store_new_message meta header body d =
      if fails creates_header meta.id
      then (false, d)
      else if fails writes_header meta.id
      then (false, remove_header fails meta.id (put_header meta.id c.torn d))
      else store_body meta body (put_header meta.id (c.write_header header) d)

  unfoldable pub read_message_meta : String → Disk → Option Meta
  read_message_meta id d =
      if fails opens_meta id then none else decode_opt c.decode (lookup id d.metas)

  abbrev with_header : Meta → String → Disk → Option H → Option (Meta × H × String) × Disk
  with_header meta body d none = (none, d)
  with_header meta body d (some header) = (some (meta, header, body), d)

  abbrev open_header :
      String → Meta → String → Disk → Option String → Option (Meta × H × String) × Disk
  open_header id meta body d none = (none, remove_body fails id (remove_meta fails id d))
  open_header id meta body d (some text) = with_header meta body d (c.read_header text)

  abbrev open_body : String → Meta → Disk → Option String → Option (Meta × H × String) × Disk
  open_body id meta d none = (none, remove_meta fails id d)
  open_body id meta d (some body) =
      if fails opens_header id then (none, d) else open_header id meta body d (lookup id d.headers)

  abbrev open_meta : String → Disk → Option Meta → Option (Meta × H × String) × Disk
  open_meta id d none = (none, d)
  open_meta id d (some meta) =
      if fails stats_body id then (none, d) else open_body id meta d (lookup id d.bodies)

  -- The body is read when it is sent; it is returned here as the file holds it now.
  unfoldable pub open_message : String → Disk → Option (Meta × H × String) × Disk
  unfolding read_message_meta
  open_message id d = open_meta id d (read_message_meta id d)
