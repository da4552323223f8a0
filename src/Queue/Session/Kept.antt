-- ===== src/Queue/Session/Kept.antt =====
-- A message that the queue accepted stays on disk, as it is to be sent, until it is settled.
use madmail.Prelude.{
  ◌⊎◌, inl, inr, ℕ, String, false, none, some, List, [], ◌∷◌, ◌≡◌, refl, sym, subst,
}
use madmail.Prelude.Dict.{lookup_same, lookup}
use madmail.Queue.Delivery.{Target, deliver}
use madmail.Queue.Attempt.{
  Meta, Config, Fate, removed, requeued, try_delivery, fate_of, Split, conclude, split, begin,
}
use madmail.Queue.Disk.{
  Disk, Fails, Codec, IsCodec, remove_from_disk, update_metadata_on_disk, creates_meta,
  encodes_meta, syncs_meta, renames_meta,
}
use madmail.Queue.Disk.Stored.{IsReadable, open-files}
use madmail.Queue.Session.{QueueSlot, dispatch, concluded, attempt}

-- The disk holds the message with these contents.
pub record IsStored {H : Type 0} (c : Codec H) (meta : Meta) (header : H) (body : String) (d : Disk)
    : Type 0 where
  pub meta_at : lookup meta.id d.metas ≡ some (c.encode meta)
  pub body_at : lookup meta.id d.bodies ≡ some body
  pub header_at : lookup meta.id d.headers ≡ some (c.write_header header)

-- No call that writes the metadata fails.
pub record IsWritable (fails : Fails) (id : String) : Type 0 where
  pub creates : fails creates_meta id ≡ false
  pub encodes : fails encodes_meta id ≡ false
  pub syncs : fails syncs_meta id ≡ false
  pub renames : fails renames_meta id ≡ false

abbrev HasId : String → Fate → Type 0
HasId id removed = Unit
HasId id (requeued meta due) = meta.id ≡ id

HasId-fate_of :
    (q : Config) (meta : Meta) (now smallest : ℕ) (xs : List String)
    → HasId meta.id (fate_of q meta now smallest xs)
HasId-fate_of q meta now smallest [] = tt
HasId-fate_of q meta now smallest (x ∷ xs) = refl

HasId-conclude :
    (q : Config) (meta : Meta) (now : ℕ) (s : Split) → HasId meta.id (conclude q meta now s).fate
HasId-conclude q meta now s =
    HasId-fate_of q (record meta { tries_count = s.tries_count; rcpt_errs = s.rcpt_errs }) now
      s.smallest s.new_rcpts

HasId-try_delivery :
    (q : Config) (t : Target) (meta : Meta) (now : ℕ)
    → HasId meta.id (try_delivery q t meta now).fate
unfolding try_delivery
HasId-try_delivery q t meta now =
    HasId-conclude q meta now (split q.max_tries (deliver t meta.to).0 (begin meta) meta.to)

module _ {H : Type 0} (c : Codec H) (fails : Fails) (header : H) (body : String) where
  -- After an attempt that ended so, the wheel and the disk have what the next attempt needs.
  abbrev pub Continues : String → Disk → Fate → List (ℕ × QueueSlot H) × Disk → Type 0
  Continues id d removed (slots, d') = (slots ≡ []) × (d' ≡ remove_from_disk fails id d)
  Continues id d (requeued meta due) (slots, d') =
      (slots ≡ (due, record { id = id; message = none }) ∷ []) × IsStored c meta header body d'

  IsStored-update :
      (meta meta' : Meta) (d : Disk)
      → meta'.id ≡ meta.id
      → IsWritable fails meta.id
      → IsStored c meta header body d
      → IsStored c meta' header body (update_metadata_on_disk c fails meta' d).1
  unfolding update_metadata_on_disk
  IsStored-update meta meta' d e w s =
      let w' = subst (λ i. IsWritable fails i) (sym e) w in
      let body_at = subst (λ i. lookup i d.bodies ≡ some body) (sym e) s.body_at in
      let header_at =
        subst (λ i. lookup i d.headers ≡ some (c.write_header header)) (sym e) s.header_at in
      rw (w'.creates, w'.encodes, w'.syncs, w'.renames)
        (record {
          meta_at = lookup_same meta'.id (c.encode meta') d.metas;
          body_at = body_at;
          header_at = header_at;
        })

  Continues-concluded :
      (meta : Meta) (d : Disk) (f : Fate)
      → HasId meta.id f
      → IsWritable fails meta.id
      → IsStored c meta header body d
      → Continues meta.id d f (concluded c fails meta.id d f)
  Continues-concluded meta d removed e w s = (refl, refl)
  Continues-concluded meta d (requeued meta' due) e w s = (refl, IsStored-update meta meta' d e w s)

  attempt-Continues :
      (q : Config) (t : Target) (now : ℕ) (meta : Meta) (d : Disk)
      → IsWritable fails meta.id
      → IsStored c meta header body d
      → Continues meta.id d (try_delivery q t meta now).fate (attempt c fails q t now meta d)
  attempt-Continues q t now meta d w s =
      Continues-concluded meta d (try_delivery q t meta now).fate (HasId-try_delivery q t meta now)
        w s

  -- `dispatch` of a stored message, in memory or not, whatever the target answers, ends as the
  -- attempt says: `removeFromDisk` has run on its files and nothing is added to the wheel, or one
  -- slot is added, for the time due, and the disk holds the message with the metadata after the
  -- attempt. No call that reads the message or writes its metadata may fail, and its encoded
  -- metadata and header must be readable.
  pub dispatch-Continues :
      (q : Config) (t : Target) (now : ℕ) (meta : Meta) (slot : QueueSlot H) (d : Disk)
      → IsCodec c meta header
      → slot.id ≡ meta.id
      → (slot.message ≡ none) ⊎ (slot.message ≡ some (meta, header, some body))
      → IsReadable fails meta.id
      → IsWritable fails meta.id
      → IsStored c meta header body d
      → Continues meta.id d (try_delivery q t meta now).fate (dispatch c fails q t now slot d)
  unfolding dispatch
  dispatch-Continues q t now meta slot d k e m r w s = elim m [
    | inl absent ↦
        rw (absent, e, open-files c fails d meta header body k r s.meta_at s.body_at s.header_at)
          (attempt-Continues q t now meta d w s)
    | inr held ↦ rw held (attempt-Continues q t now meta d w s)
  ]
