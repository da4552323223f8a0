-- ===== src/Limits/Semaphore.antt =====
-- internal/limits/limiters/concurrency.go: a buffered channel as a semaphore.
use madmail.Prelude.{
  ℕ, ◌+◌, ◌-◌, ◌≤◌, Bool, true, false, Option, none, some, List, [], ◌∷◌, ◌≡◌, refl, arith, ltb,
  ◌==◌, if◌then◌else◌, Bool-cases, inl, inr,
}
use madmail.Prelude.Int.{ℤ, pos, negsuc}
use madmail.Limits.Limiter.{Limiter, Taking, took, failed, context_done, IsLimiter, Undone}

pub record Semaphore : Type 0 where
  pub cap : ℕ
  pub taken : ℕ

-- `make` panics at a negative size.
unfoldable pub new_semaphore : ℤ → Option Semaphore
new_semaphore (pos n) = some (record { cap = n; taken = 0 })
new_semaphore (negsuc n) = none

-- `Take`: `none` where the send blocks.
unfoldable pub take : Semaphore → Option (Bool × Semaphore)
take s =
    if s.cap == 0
    then some (true, s)
    else if ltb s.taken s.cap
    then some (true, record s { taken = s.taken + 1 })
    else none

unfoldable pub take_context : Bool → Semaphore → Taking Semaphore
take_context done s =
    if s.cap == 0
    then took s
    else if done
    then failed context_done s
    else if ltb s.taken s.cap
    then took (record s { taken = s.taken + 1 })
    else failed context_done s

unfoldable pub release : Semaphore → Option Semaphore
release s =
    if s.cap == 0
    then some s
    else if s.taken == 0
    then none
    else some (record s { taken = s.taken - 1 })

unfoldable pub close : Semaphore → Option Semaphore
close s = some s

abbrev pub semaphore : Limiter Bool Semaphore
unfolding take_context release close
semaphore = record { take_context = take_context; release = release; close = close }

-- The steps of the goroutines that share a semaphore, in the order in which the channel serves them:
-- a step that cannot be taken now changes nothing.
pub data Event : Type 0 where
  takes releases : Event

abbrev or_same : Option Semaphore → Semaphore → Semaphore
or_same none s = s
or_same (some t) s = t

abbrev state_of : Option (Bool × Semaphore) → Option Semaphore
state_of none = none
state_of (some (b, s)) = some s

unfoldable pub step : Semaphore → Event → Semaphore
unfolding take release
step s takes = or_same (state_of (take s)) s
step s releases = or_same (release s) s

unfoldable pub run : Semaphore → List Event → Semaphore
run s [] = s
run s (e ∷ es) = run (step s e) es

run-bounded :
    (s : Semaphore) (es : List Event)
    → s.taken ≤ s.cap
    → ((run s es).taken ≤ s.cap) × ((run s es).cap ≡ s.cap)
unfolding run step
run-bounded s [] h = (h, refl)
run-bounded s (takes ∷ es) h = ground (arith, run-bounded (step s takes) es)
run-bounded s (releases ∷ es) h = ground (arith, run-bounded (step s releases) es)

-- Whatever the order in which takes and releases are served on a new semaphore, no more permits are
-- out than its size.
pub taken-le-cap :
    (max : ℕ) (s : Semaphore) (es : List Event)
    → new_semaphore (pos max) ≡ some s
    → (run s es).taken ≤ max
unfolding new_semaphore
taken-le-cap max s es h = ground (arith, run-bounded s es)

release_taken :
    (s : Semaphore) → (s.cap == 0) ≡ false → release (record s { taken = s.taken + 1 }) ≡ some s
unfolding release
release_taken s limited = ground arith

pub undone : (done : Bool) (s : Semaphore) → Undone ◌≡◌ release s (take_context done s)
unfolding take_context release
undone done s = elim (Bool-cases (s.cap == 0)) [
  | inl unlimited ↦ rw (unlimited, take_context) (s, rw (unlimited, release), refl)
  | inr limited ↦ elim (Bool-cases done) [
    | inl e ↦ rw (limited, e, take_context)
    | inr e ↦ elim (Bool-cases (ltb s.taken s.cap)) [
      | inl room ↦ rw (limited, e, room, take_context) (s, release_taken s limited, refl)
      | inr full ↦ rw (limited, e, full, take_context)
    ]
  ]
]

pub semaphore-IsLimiter : IsLimiter semaphore
unfolding semaphore take_context
semaphore-IsLimiter = record { Same = ◌≡◌; same_refl = λ s. refl; undone = undone }
