-- ===== src/Limits/Limiter.antt =====
-- internal/limits/limiters/limiters.go: the interface L, and what its users rely on.
use madmail.Prelude.{Option, some, ◌≡◌}

pub data Error : Type 0 where
  context_done closed : Error

-- What `TakeContext` did to the state: nil, an error, or a panic.
pub data Taking (S : Type 0) : Type 0 where
  took : S → Taking S
  failed : Error → S → Taking S
  panics : Taking S

-- `release` and `close` are `none` where the code panics. A `W` says how the waits of one
-- `take_context` end: for one `select` it is a Boolean, whether it takes the branch of the context's
-- end where that is ready or comes first.
pub record Limiter (W S : Type 0) : Type 0 where
  pub take_context : W → S → Taking S
  pub release : S → Option S
  pub close : S → Option S

-- The permits that are out, as a function of the state: a failed take leaves them, and the release
-- after a successful take puts them back and does not panic.
abbrev pub Undone : {S : Type 0} → (S → S → Type 0) → (S → Option S) → S → Taking S → Type 0
Undone {S} Same release s (took s') = (t : S) × (release s' ≡ some t) × Same s t
Undone Same release s (failed e s') = Same s s'
Undone Same release s panics = ⊥

pub record IsLimiter {W S : Type 0} (l : Limiter W S) : Type 1 where
  pub Same : S → S → Type 0
  pub same_refl : (s : S) → Same s s
  pub undone : (w : W) (s : S) → Undone Same l.release s (l.take_context w s)
