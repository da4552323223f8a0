-- ===== src/Limits/Rate.antt =====
-- internal/limits/limiters/rate.go: a token bucket that a goroutine refills.
use madmail.Prelude.{
  ℕ, zero, suc, ◌+◌, ◌-◌, ◌*◌, ◌≤◌, ◌<◌, Bool, true, false, Option, none, some, List, [], ◌∷◌, ◌≡◌,
  refl, ap, arith, ltb, ◌==◌, if◌then◌else◌, Bool-cases, inl, inr,
}
use madmail.Prelude.Int.{ℤ, pos, negsuc}
use madmail.Limits.Limiter.{Limiter, Taking, took, failed, context_done, closed, IsLimiter, Undone}

pub record Rate : Type 0 where
  pub cap : ℕ
  pub tokens : ℕ
  -- `stop` is closed, and the goroutine has then closed `bucket`
  pub stopped : Bool

-- The bucket starts full; `make` panics at a negative size.
unfoldable pub new_rate : ℤ → Option Rate
new_rate (pos n) = some (record { cap = n; tokens = n; stopped = false })
new_rate (negsuc n) = none

-- The loop `fill:` of the goroutine, which stops at the first send that would block.
unfoldable pub fill_loop : ℕ → ℕ → ℕ → ℕ
fill_loop zero cap tokens = tokens
fill_loop (suc rounds) cap tokens =
    let rest = fill_loop rounds cap (tokens + 1) in if ltb tokens cap then rest else tokens

-- One tick of the timer.
unfoldable pub fill : Rate → Rate
unfolding fill_loop
fill r = if r.stopped then r else record r { tokens = fill_loop r.cap r.cap r.tokens }

-- `Take`: `none` where the receive blocks. Tokens that are left in a closed bucket are still served.
unfoldable pub take : Rate → Option (Bool × Rate)
take r =
    if r.cap == 0
    then some (true, r)
    else if ltb 0 r.tokens
    then some (true, record r { tokens = r.tokens - 1 })
    else if r.stopped
    then some (false, r)
    else none

receive : Rate → Rate
receive r = record r { tokens = r.tokens - 1 }

-- An empty bucket that is not closed is waited for: the context ends first, or the refill comes first.
unfoldable pub take_context : Bool → Rate → Taking Rate
unfolding receive fill
take_context done r =
    if r.cap == 0
    then took r
    else if done
    then failed context_done r
    else if ltb 0 r.tokens
    then took (receive r)
    else if r.stopped
    then failed closed r
    else took (receive (fill r))

unfoldable pub release : Rate → Option Rate
release r = some r

-- Closing `stop` twice panics. The goroutine is not started at burst size 0.
unfoldable pub close : Rate → Option Rate
close r = if r.stopped then none else some (record r { stopped = true })

abbrev pub rate : Limiter Bool Rate
unfolding take_context release close
rate = record { take_context = take_context; release = release; close = close }

fill_loop-full :
    (rounds cap tokens : ℕ)
    → tokens ≤ cap
    → cap ≤ tokens + rounds
    → fill_loop rounds cap tokens ≡ cap
unfolding fill_loop
fill_loop-full zero cap tokens h k = omega arith
fill_loop-full (suc rounds) cap tokens h k = ground (arith, fill_loop-full rounds cap (tokens + 1))

pub record IsBucket (r : Rate) : Type 0 where
  pub bounded : r.tokens ≤ r.cap

-- A tick of the refill timer leaves a bucket that is not closed full: the loop of at most burst size
-- sends, from any number of tokens up to the burst size, ends at exactly that number.
pub tokens-fill : (r : Rate) → IsBucket r → r.stopped ≡ false → (fill r).tokens ≡ r.cap
unfolding fill
tokens-fill r b open' = ground (arith, fill_loop-full r.cap r.cap r.tokens)

-- What happens to a bucket.
pub data Event : Type 0 where
  ticks : Event
  takes : Event
  closes : Event

abbrev or_same : Option Rate → Rate → Rate
or_same none r = r
or_same (some t) r = t

abbrev served : Option (Bool × Rate) → Rate → ℕ × Rate
served none r = (0, r)
served (some (true, t)) r = (1, t)
served (some (false, t)) r = (0, t)

-- The requests that one event lets through, and the bucket after it.
unfoldable pub step : Rate → Event → ℕ × Rate
unfolding fill take close
step r ticks = (0, fill r)
step r takes = served (take r) r
step r closes = (0, or_same (close r) r)

unfoldable pub run : Rate → List Event → ℕ × Rate
run r [] = (0, r)
run r (e ∷ es) = let (n, r') = step r e in let (m, r'') = run r' es in (n + m, r'')

abbrev pub tick_count : List Event → ℕ
tick_count [] = 0
tick_count (ticks ∷ es) = suc (tick_count es)
tick_count (takes ∷ es) = tick_count es
tick_count (closes ∷ es) = tick_count es

step-tokens :
    (cap : ℕ) (r : Rate) (e : Event)
    → 0 < cap
    → r.cap ≡ cap
    → r.tokens ≤ cap
    → ((step r e).0 + (step r e).1.tokens ≤ r.tokens + cap * tick_count (e ∷ []))
      × ((step r e).1.tokens ≤ cap)
      × ((step r e).1.cap ≡ cap)
unfolding step
step-tokens cap r ticks pos' k h = ground (arith, fill_loop-full r.cap r.cap r.tokens)
step-tokens cap r takes pos' k h = ground arith
step-tokens cap r closes pos' k h = ground arith

tick_count-cons :
    (e : Event) (es : List Event) → tick_count (e ∷ es) ≡ tick_count (e ∷ []) + tick_count es
tick_count-cons ticks es = omega arith
tick_count-cons takes es = omega arith
tick_count-cons closes es = omega arith

run-tokens :
    (cap : ℕ) (r : Rate) (es : List Event)
    → 0 < cap
    → r.cap ≡ cap
    → r.tokens ≤ cap
    → (run r es).0 + (run r es).1.tokens ≤ r.tokens + cap * tick_count es
unfolding run
run-tokens cap r [] pos' k h = omega arith
run-tokens cap r (e ∷ es) pos' k h =
    let (now, bound, size) = step-tokens cap r e pos' k h in
    omega (
      arith,
      ap (λ (t : ℕ). cap * t) (tick_count-cons e es),
      now,
      run-tokens cap (step r e).1 es pos' size bound,
    )

-- However takes, refill ticks and a close follow one another on a new limiter of burst size n > 0, it
-- lets at most n requests through, and n more for each tick.
pub run-le-burst :
    (n : ℕ) (r : Rate) (es : List Event)
    → 0 < n
    → new_rate (pos n) ≡ some r
    → (run r es).0 ≤ n * (tick_count es + 1)
unfolding new_rate
run-le-burst n r es h e = grind (arith, run-tokens n r es h)

-- Tokens are not given back: what stays is the size, and whether the limiter is closed.
abbrev pub SameSize : Rate → Rate → Type 0
SameSize r t = (t.cap ≡ r.cap) × (t.stopped ≡ r.stopped)

SameSize-refill : (r : Rate) → SameSize r (receive (fill r))
unfolding receive fill
SameSize-refill r = ground arith

waited :
    (r : Rate) (over : Bool)
    → SameSize r (receive (fill r))
    → Undone SameSize release r (if over then failed closed r else took (receive (fill r)))
unfolding release
waited r true k = (refl, refl)
waited r false k = (receive (fill r), refl, k)

pub undone : (done : Bool) (r : Rate) → Undone SameSize release r (take_context done r)
unfolding take_context release
undone done r = elim (Bool-cases (r.cap == 0)) [
  | inl unlimited ↦ rw (unlimited, take_context) (r, refl, (refl, refl))
  | inr limited ↦ elim (Bool-cases done) [
    | inl e ↦ rw (limited, e, take_context) (refl, refl)
    | inr e ↦ elim (Bool-cases (ltb 0 r.tokens)) [
      | inl some_left ↦ rw (limited, e, some_left, take_context) (receive r, refl, (refl, refl))
      | inr empty ↦ rw (limited, e, empty, take_context) (waited r r.stopped (SameSize-refill r))
    ]
  ]
]

pub rate-IsLimiter : IsLimiter rate
unfolding rate take_context
rate-IsLimiter = record { Same = SameSize; same_refl = λ s. (refl, refl); undone = undone }
