-- ===== src/Limits/Bucket/Full.antt =====
-- The limit on the number of buckets, and what happens at it.
use madmail.Prelude.{
  ℕ, ◌+◌, ◌≤◌, ◌<◌, String, Option, none, some, [], ◌∷◌, length, ltb, ◌≡◌, inl, inr, refl, arith,
  Bool-cases,
}
use madmail.Prelude.Int.{ℤ, pos}
use madmail.Prelude.Dict.{Dict, lookup, insert, length-insert, insert-insert}
use madmail.Limits.Limiter.{Limiter, Taking, took, failed, panics}
use madmail.Limits.Bucket.{
  Bucket, BucketSet, reap, take, take_context, or_new, used, taken, call_bucket, when_reaped,
  take_keyed,
}

-- No bucket was used after `now`.
abbrev pub IsPast : {S : Type 0} → ℕ → Dict (Bucket S) → Type 0
IsPast now [] = Unit {0}
IsPast now ((k, v) ∷ m) = (v.last_use ≤ now) × IsPast now m

module _ {W S : Type 0} (l : Limiter W S) where
  -- The age of a bucket is computed with the wrong sign, so it is never above the interval.
  reap-same :
      (interval now : ℕ) (m : Dict (Bucket S)) → IsPast now m → reap l (pos interval) now m ≡ some m
  unfolding reap
  reap-same interval now [] h = refl
  reap-same interval now ((k, v) ∷ m) h = ground (arith, reap-same interval now m h.1)

  -- Once more keys than `MaxBuckets` have been used, every `TakeContext` panics, whatever the key, if
  -- the reap interval is not negative and no bucket was used in the future: the loop that drops stale
  -- buckets drops none, `take` returns nil, and the call on nil panics.
  pub full-panics :
      (w : W) (key : String) (now interval : ℕ) (made : Option S) (b : BucketSet S)
      → b.new ≡ some made
      → b.reap_interval ≡ pos interval
      → IsPast now b.m
      → b.max_buckets < length b.m
      → take_context l w key now b ≡ panics
  unfolding take_context take
  full-panics w key now interval made b hn hi hp hl = ground (arith, reap-same interval now b.m hp)

  abbrev pub Fits : ℕ → Taking (BucketSet S) → Type 0
  Fits n (took b) = length b.m ≤ n
  Fits n (failed e b) = length b.m ≤ n
  Fits n panics = Unit {0}

  reap-le :
      (interval : ℤ) (now : ℕ) (m m' : Dict (Bucket S))
      → reap l interval now m ≡ some m'
      → length m' ≤ length m
  unfolding reap
  reap-le interval now [] m' h = ground arith
  reap-le interval now ((k, v) ∷ m) m' h = grind (arith, reap-le interval now m)

  Fits-taken :
      (b : BucketSet S) (key : String) (now : ℕ) (x : S) (t : Taking S)
      → length b.m ≤ b.max_buckets
      → Fits
          (b.max_buckets + 1)
          (taken l (record b { m = insert key (record { r = x; last_use = now }) b.m }) key now t)
  Fits-taken b key now x (took r) h =
      rw (insert-insert key)
        (omega (arith, length-insert key (record { r = r; last_use = now }) b.m))
  Fits-taken b key now x (failed e r) h =
      rw (insert-insert key)
        (omega (arith, length-insert key (record { r = r; last_use = now }) b.m))
  Fits-taken b key now x panics h = tt

  Fits-used :
      (b : BucketSet S) (w : W) (key : String) (now : ℕ) (o : Option S)
      → length b.m ≤ b.max_buckets
      → Fits (b.max_buckets + 1) (call_bucket l w key now (used b key now o))
  Fits-used b w key now none h = tt
  Fits-used b w key now (some r) h = Fits-taken b key now r (l.take_context w r) h

  Fits-reaped :
      (b : BucketSet S) (w : W) (key : String) (now : ℕ) (made : Option S)
      (o : Option (Dict (Bucket S)))
      → Fits (b.max_buckets + 1) (call_bucket l w key now (when_reaped l b key now made o))
  Fits-reaped b w key now made none = tt
  Fits-reaped b w key now made (some m) = elim (Bool-cases (ltb b.max_buckets (length m))) [
    | inl full ↦ rw (full, when_reaped) tt
    | inr room ↦
        rw (room, when_reaped)
          (Fits-used (record b { m = m }) w key now (or_new (lookup key m) made) (ground arith))
  ]

  Fits-keyed :
      (b : BucketSet S) (w : W) (key : String) (now : ℕ) (new : Option (Option S))
      → length b.m ≤ b.max_buckets + 1
      → Fits (b.max_buckets + 1) (take_keyed l w key now b new)
  unfolding take
  Fits-keyed b w key now none h = h
  Fits-keyed b w key now (some made) h = elim (Bool-cases (ltb b.max_buckets (length b.m))) [
    | inl full ↦ rw (full, take) (Fits-reaped b w key now made (reap l b.reap_interval now b.m))
    | inr room ↦
        rw (room, take) (Fits-used b w key now (or_new (lookup key b.m) made) (ground arith))
  ]

  -- No call makes more buckets than one above `MaxBuckets`.
  pub length-take_context :
      (w : W) (key : String) (now : ℕ) (b : BucketSet S)
      → length b.m ≤ b.max_buckets + 1
      → Fits (b.max_buckets + 1) (take_context l w key now b)
  unfolding take_context
  length-take_context w key now b h = Fits-keyed b w key now b.new h
