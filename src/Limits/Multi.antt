-- ===== src/Limits/Multi.antt =====
-- internal/limits/limiters/multilimit.go: several limiters taken in order, generic over the limiter.
pub mod Rollback
use madmail.Prelude.{
  ℕ, suc, ◌+◌, Bool, true, false, Option, none, some, List, [], ◌∷◌, ◌++◌, ◌≡◌, refl, arith,
  if◌then◌else◌,
}
use madmail.Limits.Limiter.{Limiter, Taking, took, failed, panics, Error, IsLimiter, Undone}

-- The context's end at the wait for each wrapped limiter.
abbrev pub Ends : Type 0
Ends = ℕ → Bool

abbrev pub later : Ends → Ends
later ends i = ends (suc i)

abbrev keep_head : {S : Type 0} → S → Option (List S) → Option (List S)
keep_head s none = none
keep_head s (some rest) = some (s ∷ rest)

abbrev then_rest : {S : Type 0} → Option S → Option (List S) → Option (List S)
then_rest none rest = none
then_rest (some s) rest = keep_head s rest

abbrev undo : {S : Type 0} → Error → List S → Option (List S) → Taking (List S)
undo e rest none = panics
undo e rest (some before) = failed e (before ++ rest)

module _ {S : Type 0} (l : Limiter Bool S) where
  -- `for _, l := range ml.Wrapped[:i] { l.Release() }`; a panic ends it.
  unfoldable pub release : List S → Option (List S)
  release [] = some []
  release (s ∷ rest) = then_rest (l.release s) (release rest)

  unfoldable pub close : List S → Option (List S)
  close [] = some []
  close (s ∷ rest) = then_rest (l.close s) (close rest)

  -- The loop of `TakeContext`: `before` is `ml.Wrapped[:i]`, already taken.
  unfoldable pub take_from : Ends → List S → List S → Taking (List S)
  take_from ends before [] = took before
  take_from ends before (s ∷ rest) = elim (l.take_context (ends 0) s) [
    | took s' ↦ take_from (later ends) (before ++ s' ∷ []) rest
    | failed e s' ↦ undo e (s' ∷ rest) (release before)
    | panics ↦ panics
  ]

  unfoldable pub take_context : Ends → List S → Taking (List S)
  take_context ends wrapped = take_from ends [] wrapped

  abbrev pub multi : Limiter Ends (List S)
  unfolding take_context release close
  multi = record { take_context = take_context; release = release; close = close }
