-- ===== src/Queue/Scan/Complete.antt =====
-- Which messages `readDiskQueue` of internal/target/queue/queue.go adds to the wheel, and what it
-- leaves on disk.
use madmail.Prelude.{
  ℕ, String, str_eq, str_eq_iff, Bool, true, false, ◌&&◌, Option, none, some, List, [], ◌∷◌, ◌≡◌,
  refl, ap, sym, subst, ◌∙◌, arith, if◌then◌else◌, filter, All, contains, Bool-cases, inl, inr, map,
}
use madmail.Queue.Attempt.{Config}
use madmail.Queue.Attempt.Counters.{IsDistinct}
use madmail.Queue.Disk.{
  Disk, Fails, Codec, lists_dir, stats_header, stats_body, opens_meta, read_message_meta,
  decode_opt,
}
use madmail.Queue.Disk.Stored.{Files, files, keep-delete}
use madmail.Queue.Scan.{ids, load_one, load_all, read_disk_queue, cons_slot}

abbrev is_some : {A : Type 0} → Option A → Bool
is_some none = false
is_some (some a) = true

-- The files hold a message: metadata that can be read, a header and a body.
abbrev pub is_complete : {H : Type 0} → Codec H → Files → Bool
is_complete c (header, body, meta, new_meta) =
    is_some (decode_opt c.decode meta) && is_some header && is_some body

-- No call that looks at the files fails; a call that removes one may.
pub record IsListable (fails : Fails) : Type 0 where
  pub dir : fails lists_dir "" ≡ false
  pub meta : (id : String) → fails opens_meta id ≡ false
  pub header : (id : String) → fails stats_header id ≡ false
  pub body : (id : String) → fails stats_body id ≡ false

pub All-same : (d : Disk) (rest : List String) → All (λ id. files id d ≡ files id d) rest
All-same d [] = tt
All-same d (x ∷ rest) = (refl, All-same d rest)

module _ {H : Type 0} (c : Codec H) (fails : Fails) (q : Config) (post now : ℕ) where
  load_one-files :
      (id other : String) (d : Disk)
      → str_eq id other ≡ false
      → files other (load_one c fails q post now id d).1 ≡ files other d
  unfolding load_one read_message_meta
  load_one-files id other d h = let gone = keep-delete fails id other h in grind (arith, gone)

  load_one_complete :
      (id : String) (d : Disk)
      → is_complete c (files id d) ≡ true
      → (load_one c fails q post now id d).1 ≡ d
  unfolding load_one read_message_meta
  load_one_complete id d h = ground arith

  load_all_complete :
      (id : String) (rest : List String) (d : Disk)
      → is_complete c (files id d) ≡ true
      → files id (load_all c fails q post now rest d).1 ≡ files id d
  unfolding load_all
  load_all_complete id [] d h = refl
  load_all_complete id (x ∷ rest) d h = elim (Bool-cases (str_eq x id)) [
    | inl same ↦
        let at = subst (λ y. is_complete c (files y d) ≡ true) (sym ((str_eq_iff x id).0 same)) h in
        rw (load_one_complete x d at) (load_all_complete id rest d h)
    | inr differs ↦
        let kept = load_one-files x id d differs in
        load_all_complete id rest (load_one c fails q post now x d).1 (ap (is_complete c) kept ∙ h)
        ∙ kept
  ]

  load_one-slot :
      (id : String) (d : Disk)
      → IsListable fails
      → is_some (load_one c fails q post now id d).0 ≡ is_complete c (files id d)
  unfolding load_one read_message_meta
  load_one-slot id d l = ground (arith, l.meta id, l.header id, l.body id)

  Same-rest :
      (id : String) (d d0 : Disk) (rest : List String)
      → contains rest id ≡ false
      → All (λ other. files other d ≡ files other d0) rest
      → All (λ other. files other (load_one c fails q post now id d).1 ≡ files other d0) rest
  Same-rest id d d0 [] h a = tt
  Same-rest id d d0 (x ∷ rest) h a = (
    load_one-files id x d (ground (arith, str_eq_iff id x, str_eq_iff x id)) ∙ a.0,
    Same-rest id d d0 rest (ground arith) a.1,
  )

  ids-cons_slot :
      (id : String) (time : Option ℕ) (slots : List (String × ℕ))
      → let rest = map (λ slot. slot.0) slots in
        map (λ slot. slot.0) (cons_slot id time slots) ≡ (if is_some time then id ∷ rest else rest)
  ids-cons_slot id none slots = refl
  ids-cons_slot id (some time) slots = refl

  load_all-filter :
      (rest : List String) (d d0 : Disk)
      → IsListable fails
      → IsDistinct rest
      → All (λ other. files other d ≡ files other d0) rest
      → map (λ slot. slot.0) (load_all c fails q post now rest d).0
        ≡ filter (λ id. is_complete c (files id d0)) rest
  unfolding load_all
  load_all-filter [] d d0 l u a = refl
  load_all-filter (x ∷ rest) d d0 l u a =
      let d' = (load_one c fails q post now x d).1 in
      let at = load_one-slot x d l ∙ ap (is_complete c) a.0 in
      let ih = load_all-filter rest d' d0 l u.1 (Same-rest x d d0 rest u.0 a.1) in
      rw (ids-cons_slot x (load_one c fails q post now x d).0, at, ih) refl

  -- In a directory that has each metadata file once, and where no call that looks at the files
  -- fails, `readDiskQueue` adds to the wheel, once and in the order of the listing, exactly the
  -- messages that are complete on disk: their metadata can be read and they have a header and a
  -- body. Failing removals of the others do not change that.
  pub ids-read_disk_queue :
      (d : Disk)
      → IsListable fails
      → IsDistinct (ids d.metas)
      → (r : List (String × ℕ) × Disk) × (read_disk_queue c fails q post now d ≡ some r)
        × (map (λ slot. slot.0) r.0 ≡ filter (λ id. is_complete c (files id d)) (ids d.metas))
  unfolding read_disk_queue
  ids-read_disk_queue d l u = (
    load_all c fails q post now (ids d.metas) d,
    rw l.dir refl,
    load_all-filter (ids d.metas) d d l u (All-same d (ids d.metas)),
  )

  -- Whatever calls on the files fail, where the directory can be listed, `readDiskQueue` does not
  -- touch the files of a complete message.
  pub files-read_disk_queue :
      (id : String) (d d' : Disk) (slots : List (String × ℕ))
      → read_disk_queue c fails q post now d ≡ some (slots, d')
      → is_complete c (files id d) ≡ true
      → files id d' ≡ files id d
  unfolding read_disk_queue
  files-read_disk_queue id d d' slots e h = ground (arith, load_all_complete id (ids d.metas) d h)
