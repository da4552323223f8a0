-- ===== src/Storage/Limits.antt =====
-- internal/storage/imapsql: what GetQuota gives and leaves in the cache.
pub mod Kept
use mathlib.Core.Option.{some-injective}
use madmail.Prelude.{
  String, str_eq, str_eq_iff, Bool, true, false, not, ◌&&◌, Option, none, some, List, [], ◌∷◌, All,
  Text, ◌≡◌, ◌≢◌, refl, sym, ap, ◌∙◌, subst, arith, if◌then◌else◌, Bool-cases, Option-cases, inl,
  inr,
}
use madmail.Prelude.Int.{ℤ, pos, ◌+ℤ◌, ltb_ℤ, wrap64}
use madmail.Prelude.Dict.{Dict, lookup, insert, lookup_same, lookup-insert}
use madmail.Quota.{
  Cache, Entry, or_else, missing, get, get_result, set_max, update_used, add_used, bump,
}
use madmail.Queue.Attempt.Counters.{IsDistinct}
use madmail.Storage.{
  Store, World, Row, Answer, FoundRow, no_row, read_error, row, as_row, or_zero, of_entry, hit,
  cached, answer, from_row, find_row, on_cache, effective_default, default_of, get_quota,
  global_default,
}
use madmail.Storage.Delivery.{
  Back, Delivery, Reply, accepted, exceeds, check_quotas, body, commit, add_all, keys,
}

-- The cache has this answer for the user.
abbrev pub HasEntry : Cache → String → Answer → Type 0
HasEntry c u a =
    (e : Entry) × (lookup u c.entries ≡ some e) × (e.used_bytes ≡ a.used) × (e.max_bytes ≡ a.max)

-- What GetQuota gives and leaves, with a cache.
pub record Looked (s : Store) (c : Cache) (u : String) (r : Option Answer × Store) : Type 0 where
  pub result : Answer
  pub after : Cache
  pub is_result : r.0 ≡ some result
  pub is_cache : r.1.cache ≡ some after
  pub has_entry : HasEntry after u result
  pub others : (v : String) → u ≢ v → lookup v after.entries ≡ lookup v c.entries
  pub same_default : after.default_quota ≡ c.default_quota
  pub same_rows : r.1.quotas ≡ s.quotas
  pub same_config : r.1.default_quota ≡ s.default_quota

pub lookup_other :
    {V : Type 0} (k j : String) (v : V) (m : Dict V) → k ≢ j → lookup j (insert k v m) ≡ lookup j m
lookup_other k j v m apart = ground (arith, lookup-insert k j v m, str_eq_iff k j)

abbrev map_cache : (Cache → Cache) → Option Cache → Option Cache
map_cache f o = elim o [ none ↦ none | some c ↦ some (f c) ]

-- There is room for so much in an entry that is there.
abbrev pub Room : ℤ → Option Entry → Type 0
Room len none = ⊥
Room len (some e) = exceeds (some (of_entry e)) len ≡ false

-- The entry is there and within its maximum, if it has one.
abbrev pub Within : Option Entry → Type 0
Within none = ⊥
Within (some e) = (ltb_ℤ (pos 0) e.max_bytes && ltb_ℤ e.max_bytes e.used_bytes) ≡ false

module _ (w : World) where
  Looked-row :
      (s : Store) (c : Cache) (u : String) (used : ℤ) (r : Row)
      → s.cache ≡ some c
      → Looked s c u (from_row w s u used (row r))
  unfolding update_used set_max
  Looked-row s c u used r same = record {
    result = record { used = used; max = r.max_storage; is_default = false };
    after = update_used (set_max c u r.max_storage) u used;
    is_result = refl;
    is_cache = ap (map_cache (λ c. update_used (set_max c u r.max_storage) u used)) same;
    has_entry = (
      record { used_bytes = used; max_bytes = r.max_storage; is_default = false },
      lookup_same u _ (set_max c u r.max_storage).entries
          ∙ ap (λ o. some (record (or_else o (missing c.default_quota)) { used_bytes = used }))
              (lookup_same u _ c.entries),
      refl,
      refl,
    );
    others = λ v apart. lookup_other u v _ _ apart ∙ lookup_other u v _ c.entries apart;
    same_default = refl;
    same_rows = refl;
    same_config = refl;
  }

  Looked-no_row :
      (s : Store) (c : Cache) (u : String) (used : ℤ)
      → s.cache ≡ some c
      → lookup u c.entries ≡ none
      → c.default_quota ≡ effective_default w s
      → Looked s c u (from_row w s u used no_row)
  unfolding update_used
  Looked-no_row s c u used same absent synced = record {
    result = record { used = used; max = effective_default w s; is_default = true };
    after = update_used c u used;
    is_result = refl;
    is_cache = ap (map_cache (λ c. update_used c u used)) same;
    has_entry = (
      record { used_bytes = used; max_bytes = c.default_quota; is_default = true },
      lookup_same u _ c.entries
          ∙ ap (λ o. some (record (or_else o (missing c.default_quota)) { used_bytes = used }))
              absent,
      refl,
      synced,
    );
    others = λ v apart. lookup_other u v _ c.entries apart;
    same_default = refl;
    same_rows = refl;
    same_config = refl;
  }

  Looked-from_row :
      (s : Store) (c : Cache) (u : String) (used : ℤ) (o : Option Row)
      → s.cache ≡ some c
      → lookup u c.entries ≡ none
      → c.default_quota ≡ effective_default w s
      → Looked s c u (from_row w s u used (as_row o))
  Looked-from_row s c u used none same absent synced = Looked-no_row s c u used same absent synced
  Looked-from_row s c u used (some r) same absent synced = Looked-row s c u used r same

  Looked-answer :
      (s : Store) (c : Cache) (u : String) (o : Option Entry)
      → s.cache ≡ some c
      → lookup u c.entries ≡ o
      → c.default_quota ≡ effective_default w s
      → w.read_fails u ≡ false
      → Looked s c u (answer w s u (hit (get_result o c.default_quota)))
  Looked-answer s c u none same looked synced reads =
      let rows : find_row w s u ≡ as_row (lookup u s.quotas) = unfold find_row in rw reads refl in
      subst (λ x. Looked s c u (from_row w s u (or_zero (w.used u)) x)) (sym rows)
        (Looked-from_row s c u (or_zero (w.used u)) (lookup u s.quotas) same looked synced)
  Looked-answer s c u (some e) same looked synced reads = record {
    result = of_entry e;
    after = c;
    is_result = refl;
    is_cache = same;
    has_entry = (e, looked, refl, refl);
    others = λ v apart. refl;
    same_default = refl;
    same_rows = refl;
    same_config = refl;
  }

  pub Looked-get_quota :
      (s : Store) (c : Cache) (u : String)
      → s.cache ≡ some c
      → c.default_quota ≡ effective_default w s
      → w.read_fails u ≡ false
      → Looked s c u (get_quota w s u)
  Looked-get_quota s c u same synced reads =
      let hits : cached s.cache u ≡ hit (get_result (lookup u c.entries) c.default_quota) =
        ap (λ o. cached o u) same ∙ (unfold get in refl) in
      unfold get_quota in
      subst (λ x. Looked s c u (answer w s u x)) (sym hits)
        (Looked-answer s c u (lookup u c.entries) same refl synced reads)

  default_of-same :
      (s t : Store) (f : FoundRow)
      → t.default_quota ≡ s.default_quota
      → default_of w t f ≡ default_of w s f
  default_of-same s t (row r) config = refl
  default_of-same s t no_row config = config
  default_of-same s t read_error config = config

  pub effective_default-same :
      (s t : Store)
      → t.quotas ≡ s.quotas
      → t.default_quota ≡ s.default_quota
      → effective_default w t ≡ effective_default w s
  effective_default-same s t rows config =
      unfold effective_default find_row in
      default_of-same s t
        (if w.read_fails global_default
          then read_error
          else as_row (lookup global_default t.quotas))
        config
      ∙ ap
          (λ m.
            default_of w s (
              if w.read_fails global_default then read_error else as_row (lookup global_default m)))
          rows

  pub Room-result :
      (len : ℤ) (c : Cache) (u : String) (a : Answer)
      → HasEntry c u a
      → exceeds (some a) len ≡ false
      → (o : Option Entry) → lookup u c.entries ≡ o
      → Room len o
  Room-result len c u a entry room none looked = cc (sym (entry.1) ∙ looked)
  Room-result len c u a entry room (some e) looked =
      let same = some-injective entry.0 e (sym entry.1 ∙ looked) in
      let used : a.used ≡ e.used_bytes = sym entry.2 ∙ ap (λ x. x.used_bytes) same in
      let max : a.max ≡ e.max_bytes = sym entry.3 ∙ ap (λ x. x.max_bytes) same in
      rw⁻¹ (used, max) room

  pub Within-bump :
      (m z : ℤ)
      → (ltb_ℤ (pos 0) m && ltb_ℤ m z) ≡ false
      → (ltb_ℤ (pos 0) m && ltb_ℤ m (if ltb_ℤ z (pos 0) then pos 0 else z)) ≡ false
  Within-bump m z h = ground arith
