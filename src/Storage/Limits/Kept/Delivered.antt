-- ===== src/Storage/Limits/Kept/Delivered.antt =====
-- internal/storage/imapsql/delivery.go: a delivery keeps its recipients within their quotas.
use mathlib.Core.Option.{some-injective}
use madmail.Prelude.{
  String, Bool, true, false, Option, none, some, List, [], ◌∷◌, All, Text, ◌≡◌, refl, sym, ap, ◌∙◌,
  subst, if◌then◌else◌, Bool-cases, inl, inr,
}
use madmail.Prelude.Int.{ℤ, pos, ltb_ℤ}
use madmail.Prelude.Dict.{Dict, lookup}
use madmail.Quota.{Cache}
use madmail.Queue.Attempt.Counters.{IsDistinct}
use madmail.Storage.{Store, World, effective_default, on_cache}
use madmail.Storage.Delivery.{
  Back, BackAnswer, Delivery, Reply, accepted, check_quotas, body, commit, add_all, keys, note,
  special_mailbox, done, no_user, serialization, failed, filed, filter_all, filtered, store_body,
  put_in_mailbox, after_quotas, after_commit, commits,
}
use madmail.Storage.Limits.Kept.{AllRoom, Checked-check_quotas, Within-add_all}
use madmail.Storage.Limits.{Room, Within}

module _ (w : World) (b : Back) where
  -- What the rest of Body leaves as it is.
  abbrev Keeps : Delivery → Delivery → Type 0
  Keeps d d' = (d'.store ≡ d.store) × (d'.added ≡ d.added) × (d'.body_len ≡ d.body_len)

  Keeps-filed :
      (o : Option (Text × List Text)) (account : String) (d : Delivery)
      → Keeps d (filed w b o account d)
  Keeps-filed none account d = (refl, refl, refl)
  Keeps-filed (some (folder, flags)) account d = (refl, refl, refl)

  Keeps-trans : (d e f : Delivery) → Keeps d e → Keeps e f → Keeps d f
  Keeps-trans d e f h k = (k.0 ∙ h.0, k.1 ∙ h.1, k.2 ∙ h.2)

  Keeps-filter_all :
      (f : String → Text → Option (Text × List Text)) (added : Dict Text) (d : Delivery)
      → Keeps d (filter_all w b f added d)
  Keeps-filter_all f [] d = (refl, refl, refl)
  Keeps-filter_all f ((account, rcpt) ∷ added) d =
      let here = filed w b (f account rcpt) account d in
      Keeps-trans d here (filter_all w b f added here) (Keeps-filed (f account rcpt) account d)
        (Keeps-filter_all f added here)

  Keeps-filtered :
      (o : Option (String → Text → Option (Text × List Text))) (d : Delivery)
      → Keeps d (filtered w b o d)
  Keeps-filtered none d = (refl, refl, refl)
  Keeps-filtered (some f) d = elim (Bool-cases d.is_quarantined) [
    | inl junk ↦
        subst (λ x. Keeps d (if x then d else filter_all w b f d.added d)) (sym junk)
          (refl, refl, refl)
    | inr clean ↦
        subst (λ x. Keeps d (if x then d else filter_all w b f d.added d)) (sym clean)
          (Keeps-filter_all f d.added d)
  ]

  Keeps-store_body : (a : BackAnswer) (d : Delivery) → Keeps d (store_body w b a d).1
  Keeps-store_body done d = (refl, refl, refl)
  Keeps-store_body no_user d = (refl, refl, refl)
  Keeps-store_body serialization d = (refl, refl, refl)
  Keeps-store_body failed d = (refl, refl, refl)

  Keeps-put_in_mailbox : (d : Delivery) → Keeps d (put_in_mailbox w b d).1
  Keeps-put_in_mailbox d =
      let one : Bool → Reply × Delivery = λ x.
        if x
        then store_body w b b.special_mailbox (note special_mailbox d)
        else store_body w b done d in
      elim (Bool-cases d.is_quarantined) [
        | inl junk ↦
            subst (λ x. Keeps d (one x).1) (sym junk)
              (Keeps-store_body b.special_mailbox (note special_mailbox d))
        | inr clean ↦ subst (λ x. Keeps d (one x).1) (sym clean) (Keeps-store_body done d)
      ]

  -- The cache after a commit.
  abbrev pub Committed : ℤ → List String → Option Cache → Type 0
  Committed len us o = (c : Cache) × (o ≡ some c) × All (λ u. Within (lookup u c.entries)) us

  Committed-after_commit :
      (d : Delivery) (c : Cache) (a : BackAnswer)
      → d.store.cache ≡ some c
      → ltb_ℤ (pos 0) d.body_len ≡ true
      → IsDistinct (keys d.added)
      → AllRoom d.body_len c (keys d.added)
      → (after_commit w b a d).0 ≡ accepted
      → Committed d.body_len (keys d.added) (after_commit w b a d).1.store.cache
  Committed-after_commit d c done same long distinct rooms ok =
      let us = keys d.added in
      let after : Delivery = record d { store = on_cache (add_all w b d.body_len us) d.store } in
      subst (λ x. Committed d.body_len us (if x then after else d).store.cache) (sym long)
        (
          add_all w b d.body_len us c,
          ap (λ o. elim o [ none ↦ none | some c ↦ some (add_all w b d.body_len us c) ]) same,
          Within-add_all w b d.body_len us c distinct rooms,
        )
  Committed-after_commit d c no_user same long distinct rooms ok = cc
  Committed-after_commit d c serialization same long distinct rooms ok = cc
  Committed-after_commit d c failed same long distinct rooms ok = cc

  Committed-commit :
      (d e : Delivery) (c : Cache)
      → Keeps d e
      → d.store.cache ≡ some c
      → ltb_ℤ (pos 0) d.body_len ≡ true
      → IsDistinct (keys d.added)
      → AllRoom d.body_len c (keys d.added)
      → (commit w b e).0 ≡ accepted
      → Committed d.body_len (keys d.added) (commit w b e).1.store.cache
  Committed-commit d e c (store, added, len) same long distinct rooms ok =
      let us = keys d.added in
      let added' : keys e.added ≡ us = ap keys added in
      let same' : e.store.cache ≡ some c = ap (λ s. s.cache) store ∙ same in
      let long' : ltb_ℤ (pos 0) e.body_len ≡ true = ap (ltb_ℤ (pos 0)) len ∙ long in
      let rooms' : AllRoom e.body_len c (keys e.added) =
        subst (λ n. AllRoom n c (keys e.added)) (sym len)
          (subst (AllRoom d.body_len c) (sym added') rooms) in
      let done' : Committed e.body_len (keys e.added) (commit w b e).1.store.cache =
        unfold commit in
        Committed-after_commit (note commits e) c b.commit same' long'
          (subst IsDistinct (sym added') distinct) rooms' ok in
      subst (λ us. Committed d.body_len us (commit w b e).1.store.cache) added'
        (subst (λ n. Committed n (keys e.added) (commit w b e).1.store.cache) len done')

  AllRoom-same :
      (len : ℤ) (c c' : Cache) (us : List String)
      → All (λ u. lookup u c'.entries ≡ lookup u c.entries) us
      → AllRoom len c us
      → AllRoom len c' us
  AllRoom-same len c c' [] same rooms = tt
  AllRoom-same len c c' (u ∷ us) (here, later) (room, rooms) =
      (subst (Room len) (sym here) room, AllRoom-same len c c' us later rooms)

  -- When Body and then Commit of a delivery return without an error, whatever other users of the store do
  -- between the two calls to anything but the entries of the recipients in the cache, each of the recipients has an
  -- entry in the cache after Commit, and where the entry has a maximum its used bytes are at most that, also if the
  -- sum of the sizes overflows. Nothing else changes the store while either call runs; between the calls the cache stays
  -- on, and the entries of the recipients stay as Body left them. The default quota of the cache is the one in force at
  -- Body, no row of the quotas fails to be read, the body is not empty, and the map of the recipients has no key twice.
  pub within-commit :
      (d : Delivery) (c : Cache) (len : ℤ)
      → d.store.cache ≡ some c
      → c.default_quota ≡ effective_default w d.store
      → ((u : String) → w.read_fails u ≡ false)
      → ltb_ℤ (pos 0) len ≡ true
      → IsDistinct (keys d.added)
      → (body w b d len).0 ≡ accepted
      → (s : Store) (checked now : Cache) → (body w b d len).1.store.cache ≡ some checked
      → s.cache ≡ some now
      → All (λ u. lookup u now.entries ≡ lookup u checked.entries) (keys d.added)
      → (commit w b (record (body w b d len).1 { store = s })).0 ≡ accepted
      → Committed len
          (keys d.added)
          (commit w b (record (body w b d len).1 { store = s })).1.store.cache
  within-commit d c len same synced reads long distinct ok s checked now is_checked is_now kept
        committed =
      let r = check_quotas w b d.store len (keys d.added) in
      let d' = record d { store = r.1; body_len = len } in
      let is_body : body w b d len ≡ after_quotas w b d' r.0 = unfold body in refl in
      elim (Bool-cases r.0) [
        | inl over ↦
            cc (sym ok ∙ (ap (λ x. x.0) is_body ∙ ap (λ x. (after_quotas w b d' x).0) over))
        | inr fits ↦
            let k =
              Checked-check_quotas w b d.store c len (keys d.added) same synced reads distinct
                fits in
            let e = put_in_mailbox w b (filtered w b b.filter d') in
            let is_e : e ≡ body w b d len = sym (is_body ∙ ap (after_quotas w b d') fits) in
            let keeps : Keeps d' (body w b d len).1 =
              subst (λ x. Keeps d' x.1) is_e
                (Keeps-trans d' (filtered w b b.filter d') e.1 (Keeps-filtered b.filter d')
                  (Keeps-put_in_mailbox (filtered w b b.filter d'))) in
            let after : k.after ≡ checked =
              some-injective k.after checked
                (sym k.is_cache ∙ (sym (ap (λ s. s.cache) keeps.0) ∙ is_checked)) in
            let rooms =
              AllRoom-same len checked now (keys d.added) kept
                (subst (λ c. AllRoom len c (keys d.added)) after k.rooms) in
            Committed-commit (record d' { store = s }) (record (body w b d len).1 { store = s }) now
              (refl, keeps.1, keeps.2) is_now long distinct rooms committed
      ]
