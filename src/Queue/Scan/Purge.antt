-- ===== src/Queue/Scan/Purge.antt =====
-- What `PurgeBySender` and `PurgeByRecipient` of internal/target/queue/queue.go remove.
use madmail.Prelude.{
  ℕ, String, str_eq, str_eq_iff, Bool, true, false, none, some, List, [], ◌∷◌, ◌≡◌, refl, ap, sym,
  subst, ◌∙◌, arith, if◌then◌else◌, filter, All, contains, Bool-cases, inl, inr, length,
}
use madmail.Prelude.Dict.{Dict, lookup, lookup-delete}
use madmail.Queue.Attempt.{Meta}
use madmail.Queue.Attempt.Counters.{IsDistinct}
use madmail.Queue.Disk.{
  Disk, Io, Fails, Codec, opens_meta, removes_header, removes_body, removes_meta, lists_dir,
  read_message_meta, remove_from_disk, decode_opt,
}
use madmail.Queue.Disk.Stored.{Files, files, files-remove_from_disk}
use madmail.Queue.Scan.Complete.{All-same}
use madmail.Queue.Scan.{ids, accepts, purge_all, purge}

-- Whether the metadata among the files of a message passes the test.
abbrev pub stored_accepts : {H : Type 0} → Codec H → (Meta → Bool) → Files → Bool
stored_accepts c test (header, body, meta, new_meta) = accepts test (decode_opt c.decode meta)

module _ {H : Type 0} (c : Codec H) (fails : Fails) (test : Meta → Bool) where
  contains-ids :
      (id : String) (m : Dict String) → (if contains (ids m) id then none else lookup id m) ≡ none
  unfolding ids lookup
  contains-ids id [] = refl
  contains-ids id ((x, v) ∷ m) = ground (arith, contains-ids id m)

  listed :
      (id : String) (d : Disk)
      → stored_accepts c test (files id d) ≡ true
      → contains (ids d.metas) id ≡ true
  listed id d h = ground (arith, contains-ids id d.metas)

  read-stored :
      (id : String) (d : Disk)
      → accepts test (read_message_meta c fails id d) ≡ true
      → stored_accepts c test (files id d) ≡ true
  unfolding read_message_meta
  read-stored id d h = ground arith

  purge_all-keeps :
      (id : String) (rest : List String) (d : Disk)
      → stored_accepts c test (files id d) ≡ false
      → files id (purge_all c fails test rest d).1 ≡ files id d
  unfolding purge_all
  purge_all-keeps id [] d h = refl
  purge_all-keeps id (x ∷ rest) d h =
      elim (Bool-cases (accepts test (read_message_meta c fails x d))) [
        | inl hit ↦ elim (Bool-cases (str_eq x id)) [
          | inl same ↦
              let at =
                subst (λ y. stored_accepts c test (files y d) ≡ true) ((str_eq_iff x id).0 same)
                  (read-stored x d hit) in
              absurd (cc (at, h))
          | inr differs ↦
              let kept = files-remove_from_disk fails x id differs d in
              rw (hit, purge_all)
                (purge_all-keeps id rest (remove_from_disk fails x d)
                    (ap (stored_accepts c test) kept ∙ h)
                  ∙ kept)
        ]
        | inr miss ↦ rw (miss, purge_all) (purge_all-keeps id rest d h)
      ]

  purge_result :
      (d : Disk) (r : ℕ × Disk)
      → purge c fails test d ≡ some r
      → purge_all c fails test (ids d.metas) d ≡ r
  unfolding purge
  purge_result d r e = ground arith

  -- Whatever calls on the files fail, a purge that lists the directory does not touch the files of a
  -- message whose stored metadata does not pass its test: for `PurgeBySender` that of another
  -- sender, for `PurgeByRecipient` one without the recipient.
  pub files-purge :
      (id : String) (d d' : Disk) (n : ℕ)
      → purge c fails test d ≡ some (n, d')
      → stored_accepts c test (files id d) ≡ false
      → files id d' ≡ files id d
  files-purge id d d' n e h =
      let r = purge_result d (n, d') e in
      subst (λ (r : ℕ × Disk). files id r.1 ≡ files id d) r (purge_all-keeps id (ids d.metas) d h)

  remove-rest :
      (id : String) (d d0 : Disk) (rest : List String)
      → contains rest id ≡ false
      → All (λ other. files other d ≡ files other d0) rest
      → All (λ other. files other (remove_from_disk fails id d) ≡ files other d0) rest
  remove-rest id d d0 [] h a = tt
  remove-rest id d d0 (x ∷ rest) h a = (
    files-remove_from_disk fails id x (ground (arith, str_eq_iff id x, str_eq_iff x id)) d ∙ a.0,
    remove-rest id d d0 rest (ground arith) a.1,
  )

  module _ (works : (call : Io) (id : String) → fails call id ≡ false) where
    read-works :
        (id : String) (d : Disk)
        → accepts test (read_message_meta c fails id d) ≡ stored_accepts c test (files id d)
    unfolding read_message_meta
    read-works id d = rw (works opens_meta id) refl

    files-gone :
        (id : String) (d : Disk)
        → files id (remove_from_disk fails id d) ≡ (none, none, none, lookup id d.new_metas)
    unfolding remove_from_disk
    files-gone id d = ground (
      arith,
      works removes_header id,
      works removes_body id,
      works removes_meta id,
      lookup-delete id id d.headers,
      lookup-delete id id d.bodies,
      lookup-delete id id d.metas,
      str_eq_iff id id,
    )

    count-purge_all :
        (rest : List String) (d d0 : Disk)
        → IsDistinct rest
        → All (λ id. files id d ≡ files id d0) rest
        → (purge_all c fails test rest d).0
          ≡ length (filter (λ id. stored_accepts c test (files id d0)) rest)
    unfolding purge_all
    count-purge_all [] d d0 u a = refl
    count-purge_all (x ∷ rest) d d0 u a =
        let at = read-works x d ∙ ap (stored_accepts c test) a.0 in
        let next =
          count-purge_all rest (remove_from_disk fails x d) d0 u.1
            (remove-rest x d d0 rest u.0 a.1) in
        let same = count-purge_all rest d d0 u.1 a.1 in
        elim (Bool-cases (stored_accepts c test (files x d0))) [
          | inl hit ↦ rw (purge_all, at, hit) (omega (arith, next))
          | inr miss ↦ rw (purge_all, at, miss) same
        ]

    gone-rest :
        (id : String) (rest : List String) (d : Disk)
        → files id (purge_all c fails test rest (remove_from_disk fails id d)).1
          ≡ (none, none, none, lookup id d.new_metas)
    gone-rest id rest d =
        let gone = files-gone id d in
        purge_all-keeps id rest (remove_from_disk fails id d) (ap (stored_accepts c test) gone)
        ∙ gone

    gone-purge_all :
        (id : String) (rest : List String) (d : Disk)
        → contains rest id ≡ true
        → stored_accepts c test (files id d) ≡ true
        → files id (purge_all c fails test rest d).1 ≡ (none, none, none, lookup id d.new_metas)
    unfolding purge_all
    gone-purge_all id [] d m h = absurd (cc m)
    gone-purge_all id (x ∷ rest) d m h = elim (Bool-cases (str_eq x id)) [
      | inl same ↦
          subst
            (λ y.
              files id (purge_all c fails test (y ∷ rest) d).1
              ≡ (none, none, none, lookup id d.new_metas))
            (sym ((str_eq_iff x id).0 same))
            (rw (purge_all, read-works id d, h) (gone-rest id rest d))
      | inr differs ↦
          let kept = files-remove_from_disk fails x id differs d in
          let later =
            gone-purge_all id rest (remove_from_disk fails x d) (ground arith)
              (ap (stored_accepts c test) kept ∙ h) in
          let same = gone-purge_all id rest d (ground arith) h in
          elim (Bool-cases (accepts test (read_message_meta c fails x d))) [
            | inl hit ↦
                rw (purge_all, hit) (later ∙ ap (λ (f : Files). (none, none, none, f.3)) kept)
            | inr miss ↦ rw (purge_all, miss) same
          ]
    ]

    after_purge :
        (id : String) (d : Disk)
        → files id (purge_all c fails test (ids d.metas) d).1 ≡ (
            if stored_accepts c test (files id d)
            then (none, none, none, lookup id d.new_metas)
            else files id d)
    after_purge id d = elim (Bool-cases (stored_accepts c test (files id d))) [
      | inl yes' ↦ rw yes' (gone-purge_all id (ids d.metas) d (listed id d yes') yes')
      | inr no' ↦ rw no' (purge_all-keeps id (ids d.metas) d no')
    ]

    -- In a directory that has each metadata file once, and where no call fails, a purge removes the
    -- header, the body and the metadata of exactly the messages whose stored metadata passes its
    -- test, and returns how many these are.
    pub purge_lem :
        (d : Disk) (id : String)
        → IsDistinct (ids d.metas)
        → (r : ℕ × Disk) × (purge c fails test d ≡ some r)
          × (r.0 ≡ length (filter (λ id. stored_accepts c test (files id d)) (ids d.metas)))
          × (files id r.1 ≡ (
              if stored_accepts c test (files id d)
              then (none, none, none, lookup id d.new_metas)
              else files id d))
    unfolding purge
    purge_lem d id u = (
      purge_all c fails test (ids d.metas) d,
      rw (works lists_dir "") refl,
      count-purge_all (ids d.metas) d d u (All-same d (ids d.metas)),
      after_purge id d,
    )
