-- ===== src/Limits/Bucket.antt =====
-- internal/limits/limiters/bucket.go: a limiter for each key, made on first use. Generic over the
-- limiter. Times are those that `time.Now` returns, on the monotonic clock.
pub mod Full
use madmail.Prelude.{
  ℕ, ◌-◌, String, Bool, true, false, Option, none, some, List, [], ◌∷◌, length, ltb, if◌then◌else◌,
}
use madmail.Prelude.Int.{ℤ, pos, sub_ℕ, ltb_ℤ}
use madmail.Prelude.Dict.{Dict, lookup, insert}
use madmail.Limits.Limiter.{Limiter, Taking, took, failed, panics, Error}

pub record Bucket (S : Type 0) : Type 0 where
  pub r : S
  pub last_use : ℕ

-- `new` is none for a nil `New`; a call of it may panic.
pub record BucketSet (S : Type 0) : Type 0 where
  pub new : Option (Option S)
  pub reap_interval : ℤ
  pub max_buckets : ℕ
  pub m : Dict (Bucket S)

abbrev pub new_bucket_set : {S : Type 0} → Option (Option S) → ℤ → ℕ → BucketSet S
new_bucket_set new reap_interval max_buckets = record {
  new = new;
  reap_interval = reap_interval;
  max_buckets = max_buckets;
  m = [];
}

-- What `take` returns beside the set: a limiter, or nil. The whole is none where the code panics.
abbrev or_new : {S : Type 0} → Option (Bucket S) → Option S → Option S
or_new none made = made
or_new (some b) made = some b.r

abbrev used : {S : Type 0} → BucketSet S → String → ℕ → Option S → Option (Option S × BucketSet S)
used b key now none = none
used b key now (some r) =
    some (some r, record b { m = insert key (record { r = r; last_use = now }) b.m })

module _ {W S : Type 0} (l : Limiter W S) where
  abbrev drop_if :
      Bool → String → Bucket S → Option S → Option (Dict (Bucket S)) → Option (Dict (Bucket S))
  drop_if stale k v closed none = none
  drop_if true k v none (some rest) = none
  drop_if true k v (some s) (some rest) = some rest
  drop_if false k v closed (some rest) = some ((k, v) ∷ rest)

  -- The loop that drops stale buckets, as the code tests them: `v.lastUse.Sub(now)`.
  unfoldable pub reap : ℤ → ℕ → Dict (Bucket S) → Option (Dict (Bucket S))
  reap interval now [] = some []
  reap interval now ((k, v) ∷ m) =
      drop_if (ltb_ℤ interval (sub_ℕ v.last_use now)) k v (l.close v.r) (reap interval now m)

  abbrev use_key : BucketSet S → String → ℕ → Option S → Option (Option S × BucketSet S)
  use_key b key now made = used b key now (or_new (lookup key b.m) made)

  abbrev when_reaped :
      BucketSet S
      → String
      → ℕ
      → Option S
      → Option (Dict (Bucket S))
      → Option (Option S × BucketSet S)
  when_reaped b key now made none = none
  when_reaped b key now made (some m) =
      if ltb b.max_buckets (length m)
      then some (none, record b { m = m })
      else use_key (record b { m = m }) key now made

  -- The private `take`, with what `New` would make.
  unfoldable pub take : BucketSet S → String → ℕ → Option S → Option (Option S × BucketSet S)
  unfolding reap
  take b key now made =
      if ltb b.max_buckets (length b.m)
      then when_reaped b key now made (reap b.reap_interval now b.m)
      else use_key b key now made

  -- The bucket's own state after a call of it.
  abbrev put_back : BucketSet S → String → ℕ → S → BucketSet S
  put_back b key now r = record b { m = insert key (record { r = r; last_use = now }) b.m }

  abbrev taken : BucketSet S → String → ℕ → Taking S → Taking (BucketSet S)
  taken b key now (took r) = took (put_back b key now r)
  taken b key now (failed e r) = failed e (put_back b key now r)
  taken b key now panics = panics

  -- A method call on a nil L panics.
  abbrev call_bucket : W → String → ℕ → Option (Option S × BucketSet S) → Taking (BucketSet S)
  call_bucket w key now none = panics
  call_bucket w key now (some (none, b)) = panics
  call_bucket w key now (some (some r, b)) = taken b key now (l.take_context w r)

  abbrev take_keyed : W → String → ℕ → BucketSet S → Option (Option S) → Taking (BucketSet S)
  take_keyed w key now b none = took b
  take_keyed w key now b (some made) = call_bucket w key now (take b key now made)

  unfoldable pub take_context : W → String → ℕ → BucketSet S → Taking (BucketSet S)
  unfolding take
  take_context w key now b = take_keyed w key now b b.new

  abbrev released : BucketSet S → String → ℕ → Option S → Option (BucketSet S)
  released b key last_use none = none
  released b key last_use (some r) = some (put_back b key last_use r)

  abbrev release_bucket : BucketSet S → String → Option (Bucket S) → Option (BucketSet S)
  release_bucket b key none = some b
  release_bucket b key (some v) = released b key v.last_use (l.release v.r)

  abbrev release_keyed : BucketSet S → String → Option (Option S) → Option (BucketSet S)
  release_keyed b key none = some b
  release_keyed b key (some made) = release_bucket b key (lookup key b.m)

  unfoldable pub release : String → BucketSet S → Option (BucketSet S)
  release key b = release_keyed b key b.new
