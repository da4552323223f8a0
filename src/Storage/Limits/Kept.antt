-- ===== src/Storage/Limits/Kept.antt =====
-- internal/storage/imapsql/delivery.go: the loops of Body and Commit over the recipients.
pub mod Delivered
use madmail.Prelude.{
  String, str_eq, str_eq_iff, Bool, true, false, not, ◌&&◌, ◌||◌, Option, none, some, List, [], ◌∷◌,
  All, contains, Text, ◌≡◌, ◌≢◌, refl, sym, ap, ◌∙◌, subst, arith, if◌then◌else◌, Bool-cases,
  Option-cases, inl, inr,
}
use madmail.Prelude.Int.{ℤ, pos, ◌+ℤ◌, ltb_ℤ, wrap64}
use madmail.Prelude.Dict.{Dict, lookup, insert, lookup_same}
use madmail.Quota.{Cache, Entry, or_else, missing, add_used, bump}
use madmail.Queue.Attempt.Counters.{IsDistinct}
use madmail.Storage.{Store, World, Answer, of_entry, effective_default, get_quota, on_cache}
use madmail.Storage.Delivery.{
  Back, BackAnswer, Delivery, Reply, accepted, exceeds, check_quotas, body, commit, add_all, keys,
  note, special_mailbox, done, no_user, serialization, failed, quota_exceeded, filed, filter_all,
  filtered, store_body, put_in_mailbox, after_quotas, after_commit, commits,
}
use madmail.Storage.Limits.{
  HasEntry, Looked, lookup_other, Room, Within, Looked-get_quota, effective_default-same,
  Room-result, Within-bump,
}

-- Every user of the list has room.
abbrev pub AllRoom : ℤ → Cache → List String → Type 0
AllRoom len c = All (λ u. Room len (lookup u c.entries))

apart_of :
    (u v : String) (us : List String)
    → contains (u ∷ us) v ≡ false
    → (u ≢ v) × (contains us v ≡ false)
apart_of u v us h = (ground (arith, str_eq_iff u v), ground arith)

module _ (w : World) (b : Back) where
  -- What the loop over the quotas leaves when no quota is exceeded.
  pub record Checked (c : Cache) (len : ℤ) (us : List String) (r : Bool × Store) : Type 0 where
    pub after : Cache
    pub is_cache : r.1.cache ≡ some after
    pub rooms : AllRoom len after us
    pub others : (v : String) → contains us v ≡ false → lookup v after.entries ≡ lookup v c.entries

  Checked-cons :
      (s : Store) (c : Cache) (len : ℤ) (u : String) (us : List String) (r : Option Answer × Store)
      (rest : Bool × Store)
      → contains us u ≡ false
      → (l : Looked s c u r) → (if exceeds r.0 len then (true, r.1) else rest).0 ≡ false
      → (rest.0 ≡ false → Checked l.after len us rest)
      → Checked c len (u ∷ us) (if exceeds r.0 len then (true, r.1) else rest)
  Checked-cons s c len u us r rest apart l ok later = elim (Bool-cases (exceeds r.0 len)) [
    | inl over ↦ let wrong = rw over at ok in cc (wrong)
    | inr fits ↦
        let k = later (rw fits at ok) in
        let room =
          Room-result w len l.after u l.result l.has_entry
            (subst (λ x. exceeds x len ≡ false) l.is_result fits) (lookup u l.after.entries) refl in
        rw fits (record {
          after = k.after;
          is_cache = k.is_cache;
          rooms = (subst (Room len) (sym (k.others u apart)) room, k.rooms);
          others = λ v h. k.others v (apart_of u v us h).1 ∙ l.others v (apart_of u v us h).0;
        })
  ]

  pub Checked-check_quotas :
      (s : Store) (c : Cache) (len : ℤ) (us : List String)
      → s.cache ≡ some c
      → c.default_quota ≡ effective_default w s
      → ((u : String) → w.read_fails u ≡ false)
      → IsDistinct us
      → (check_quotas w b s len us).0 ≡ false
      → Checked c len us (check_quotas w b s len us)
  unfolding check_quotas
  Checked-check_quotas s c len [] same synced reads distinct ok = record {
    after = c;
    is_cache = same;
    rooms = tt;
    others = λ v h. refl;
  }
  Checked-check_quotas s c len (u ∷ us) same synced reads (apart, distinct) ok =
      let r = get_quota w s u in
      let l = Looked-get_quota w s c u same synced (reads u) in
      let synced' : l.after.default_quota ≡ effective_default w r.1 =
        l.same_default
        ∙ (synced ∙ sym (effective_default-same w s r.1 l.same_rows l.same_config)) in
      Checked-cons s c len u us r (check_quotas w b r.1 len us) apart l ok (λ rest_ok.
        Checked-check_quotas r.1 l.after len us l.is_cache synced' reads distinct rest_ok)

  lookup-add_all :
      (len : ℤ) (us : List String) (c : Cache) (v : String)
      → contains us v ≡ false
      → lookup v (add_all w b len us c).entries ≡ lookup v c.entries
  unfolding add_all
  lookup-add_all len [] c v h = refl
  lookup-add_all len (u ∷ us) c v h =
      lookup-add_all len us (add_used c u len).0 v (apart_of u v us h).1
      ∙ (unfold add_used in lookup_other u v _ c.entries (apart_of u v us h).0)

  Within-add_used :
      (len : ℤ) (c : Cache) (u : String) (o : Option Entry)
      → lookup u c.entries ≡ o
      → Room len o
      → Within (lookup u (add_used c u len).0.entries)
  Within-add_used len c u none looked room = absurd room
  Within-add_used len c u (some e) looked room =
      let entry : lookup u (add_used c u len).0.entries
          ≡ some (record e { used_bytes = bump e.used_bytes len }) =
        unfold add_used in
        lookup_same u _ c.entries
        ∙ ap
            (λ x. some (record (or_else x (missing c.default_quota)) {
              used_bytes = bump (or_else x (missing c.default_quota)).used_bytes len;
            }))
            looked in
      subst Within (sym entry)
        (unfold bump in Within-bump w e.max_bytes (wrap64 (e.used_bytes +ℤ len)) room)

  AllRoom-add_used :
      (len : ℤ) (c : Cache) (u : String) (us : List String)
      → contains us u ≡ false
      → AllRoom len c us
      → AllRoom len (add_used c u len).0 us
  AllRoom-add_used len c u [] apart rooms = tt
  AllRoom-add_used len c u (v ∷ us) apart (room, rooms) =
      let other : u ≢ v = ground (arith, str_eq_iff v u) in
      let same : lookup v (add_used c u len).0.entries ≡ lookup v c.entries =
        unfold add_used in lookup_other u v _ c.entries other in
      (subst (Room len) (sym same) room, AllRoom-add_used len c u us (ground arith) rooms)

  pub Within-add_all :
      (len : ℤ) (us : List String) (c : Cache)
      → IsDistinct us
      → AllRoom len c us
      → All (λ u. Within (lookup u (add_all w b len us c).entries)) us
  unfolding add_all
  Within-add_all len [] c distinct rooms = tt
  Within-add_all len (u ∷ us) c (apart, distinct) (room, rooms) = (
    subst Within (sym (lookup-add_all len us (add_used c u len).0 u apart))
        (Within-add_used len c u (lookup u c.entries) refl room),
    Within-add_all len us (add_used c u len).0 distinct (AllRoom-add_used len c u us apart rooms),
  )
