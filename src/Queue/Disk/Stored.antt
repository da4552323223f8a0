-- ===== src/Queue/Disk/Stored.antt =====
-- What is on disk after `storeNewMessage` and `removeFromDisk` of internal/target/queue/queue.go.
use madmail.Prelude.{
  String, str_eq, true, false, Option, some, ◌≡◌, refl, arith, All, List, [], ◌∷◌, ◌||◌,
}
use madmail.Prelude.Dict.{Dict, lookup, insert, delete, lookup-insert, lookup-delete, lookup_same}
use madmail.Queue.Attempt.{Meta}
use madmail.Queue.Disk.{
  Disk, Io, creates_header, writes_header, opens_body, creates_body, copies_body, creates_meta,
  encodes_meta, syncs_meta, renames_meta, syncs_header, syncs_body, opens_meta, stats_body,
  opens_header, Fails, Codec, IsCodec, update_metadata_on_disk, store_new_message, open_message,
  read_message_meta, remove_from_disk,
}

-- No call that reads the message fails.
pub record IsReadable (fails : Fails) (id : String) : Type 0 where
  pub meta : fails opens_meta id ≡ false
  pub body : fails stats_body id ≡ false
  pub header : fails opens_header id ≡ false

abbrev writing : List Io
writing =
    creates_header ∷ writes_header ∷ opens_body ∷ creates_body ∷ copies_body ∷ creates_meta
    ∷ encodes_meta ∷ syncs_meta ∷ renames_meta ∷ []

-- Of the calls that write a message, the two last, and no others, may fail, and one does.
pub record IsUnsynced (fails : Fails) (id : String) : Type 0 where
  pub others : All (λ call. fails call id ≡ false) writing
  pub fails_last : (fails syncs_header id || fails syncs_body id) ≡ true

module _ {H : Type 0} (c : Codec H) where
  -- The disk with all files of a message.
  abbrev pub with_message : Meta → H → String → Disk → Disk
  with_message meta header body d = record {
    headers = insert meta.id (c.write_header header) d.headers;
    bodies = insert meta.id body d.bodies;
    metas = insert meta.id (c.encode meta) d.metas;
    new_metas = delete meta.id (insert meta.id (c.encode meta) d.new_metas);
  }

  pub store-with_message :
      (fails : Fails) (meta : Meta) (header : H) (body : String) (d : Disk)
      → (store_new_message c fails meta header body d).0 ≡ true
      → (store_new_message c fails meta header body d).1 ≡ with_message meta header body d
  unfolding store_new_message update_metadata_on_disk
  store-with_message fails meta header body d h = ground arith

module _ {H : Type 0} (c : Codec H) where
  pub open-files :
      (fails : Fails) (d : Disk) (meta : Meta) (header : H) (body : String)
      → IsCodec c meta header
      → IsReadable fails meta.id
      → lookup meta.id d.metas ≡ some (c.encode meta)
      → lookup meta.id d.bodies ≡ some body
      → lookup meta.id d.headers ≡ some (c.write_header header)
      → open_message c fails meta.id d ≡ (some (meta, header, body), d)
  unfolding open_message read_message_meta
  open-files fails d meta header body k r hm hb hh =
      rw (r.meta, hm, k.decode-encode, r.body, hb, r.header, hh, k.read-write) refl

  open-with_message :
      (fails : Fails) (d : Disk) (meta : Meta) (header : H) (body : String)
      → IsCodec c meta header
      → IsReadable fails meta.id
      → open_message c fails meta.id (with_message c meta header body d)
        ≡ (some (meta, header, body), with_message c meta header body d)
  open-with_message fails d meta header body k r =
      open-files fails (with_message c meta header body d) meta header body k r (lookup_same _ _ _)
        (lookup_same _ _ _) (lookup_same _ _ _)

  -- A message that `storeNewMessage` stored without an error opens as it was stored, where no call
  -- that reads it fails and its encoded metadata and header can be decoded.
  pub open_message-store_new_message :
      (fails fails' : Fails) (meta : Meta) (header : H) (body : String) (d : Disk)
      → IsCodec c meta header
      → IsReadable fails' meta.id
      → (store_new_message c fails meta header body d).0 ≡ true
      → let d' = (store_new_message c fails meta header body d).1 in
        open_message c fails' meta.id d' ≡ (some (meta, header, body), d')
  unfolding store_new_message update_metadata_on_disk
  open_message-store_new_message fails fails' meta header body d k r h =
      rw (store-with_message c fails meta header body d h)
        (open-with_message fails' d meta header body k r)

  -- Where `storeNewMessage` returns an error, and neither of the last two `Sync` calls fails, the
  -- metadata files are as before: a message that the queue did not hold, it still does not.
  pub metas-store_new_message :
      (fails : Fails) (meta : Meta) (header : H) (body : String) (d : Disk)
      → (store_new_message c fails meta header body d).0 ≡ false
      → fails syncs_header meta.id ≡ false
      → fails syncs_body meta.id ≡ false
      → (store_new_message c fails meta header body d).1.metas ≡ d.metas
  unfolding store_new_message update_metadata_on_disk
  metas-store_new_message fails meta header body d h sh sb = ground arith

  unsynced-with_message :
      (fails : Fails) (meta : Meta) (header : H) (body : String) (d : Disk)
      → IsUnsynced fails meta.id
      → store_new_message c fails meta header body d ≡ (false, with_message c meta header body d)
  unfolding store_new_message update_metadata_on_disk
  unsynced-with_message fails meta header body d u =
      rw
        (
          u.others.0, u.others.1.0, u.others.1.1.0, u.others.1.1.1.0, u.others.1.1.1.1.0,
          u.others.1.1.1.1.1.0, u.others.1.1.1.1.1.1.0, u.others.1.1.1.1.1.1.1.0,
          u.others.1.1.1.1.1.1.1.1.0,
        )
        (ground (arith, u.fails_last))

  -- When, of the calls that write the files, only the `Sync` of the header or of the body fails,
  -- `storeNewMessage` returns an error, and yet the message that it refused is complete on disk: it
  -- opens as it was to be stored, where no call that reads it fails and its encoded metadata and
  -- header can be decoded.
  pub unsynced-store_new_message :
      (fails fails' : Fails) (meta : Meta) (header : H) (body : String) (d : Disk)
      → IsUnsynced fails meta.id
      → IsCodec c meta header
      → IsReadable fails' meta.id
      → let (ok, d') = store_new_message c fails meta header body d in
        (ok ≡ false) × (open_message c fails' meta.id d' ≡ (some (meta, header, body), d'))
  unsynced-store_new_message fails fails' meta header body d u k r =
      rw (unsynced-with_message fails meta header body d u)
        (refl, open-with_message fails' d meta header body k r)

-- The files of a message.
abbrev pub Files : Type 0
Files = Option String × Option String × Option String × Option String

abbrev pub files : String → Disk → Files
files id d = (lookup id d.headers, lookup id d.bodies, lookup id d.metas, lookup id d.new_metas)

module _ (fails : Fails) (id other : String) (differs : str_eq id other ≡ false) where
  pub keep-insert : (v : String) (m : Dict String) → lookup other (insert id v m) ≡ lookup other m
  keep-insert v m = rw lookup-insert (rw differs refl)

  pub keep-delete : (m : Dict String) → lookup other (delete id m) ≡ lookup other m
  keep-delete m = rw lookup-delete (rw differs refl)

  -- `removeFromDisk`, with any of its calls failing, does not touch the files of another message.
  pub files-remove_from_disk :
      (d : Disk) → files other (remove_from_disk fails id d) ≡ files other d
  unfolding remove_from_disk
  files-remove_from_disk d =
      ground (arith, keep-delete d.headers, keep-delete d.bodies, keep-delete d.metas)

-- `storeNewMessage`, with any of its calls failing, does not touch the files of another message.
pub files-store_new_message :
    {H : Type 0} (c : Codec H) (fails : Fails) (meta : Meta) (header : H) (body : String) (d : Disk)
    (other : String)
    → str_eq meta.id other ≡ false
    → files other (store_new_message c fails meta header body d).1 ≡ files other d
unfolding store_new_message update_metadata_on_disk
files-store_new_message c fails meta header body d other differs =
    let at = keep-insert fails meta.id other differs in
    let gone = keep-delete fails meta.id other differs in grind (arith, at, gone)
