-- ===== src/Limits/Multi/Rollback.antt =====
-- What a MultiLimit leaves behind: all of its permits, or none.
use mathlib.Core.List.{append-nil, append_assoc}
use madmail.Prelude.{Bool, some, List, [], ◌∷◌, ◌++◌, ◌≡◌, refl}
use madmail.Limits.Limiter.{Limiter, Taking, took, failed, panics, Error, IsLimiter, Undone}
use madmail.Limits.Multi.{Ends, later, undo, release, take_from, take_context}

abbrev pub Pointwise : {S T : Type 0} → (S → T → Type 0) → List S → List T → Type 0
Pointwise R [] [] = Unit {0}
Pointwise R [] (t ∷ ts) = ⊥
Pointwise R (s ∷ ss) [] = ⊥
Pointwise R (s ∷ ss) (t ∷ ts) = R s t × Pointwise R ss ts

Pointwise-append :
    {S T : Type 0} (R : S → T → Type 0) (ss us : List S) (ts vs : List T)
    → Pointwise R ss ts
    → Pointwise R us vs
    → Pointwise R (ss ++ us) (ts ++ vs)
Pointwise-append R [] us [] vs h k = k
Pointwise-append R [] us (t ∷ ts) vs h k = absurd h
Pointwise-append R (s ∷ ss) us [] vs h k = absurd h
Pointwise-append R (s ∷ ss) us (t ∷ ts) vs h k = (h.0, Pointwise-append R ss us ts vs h.1 k)

module _ {S : Type 0} (l : Limiter Bool S) (law : IsLimiter l) where
  open law use {Same, same_refl, undone}

  same_all : (ss : List S) → Pointwise Same ss ss
  same_all [] = tt
  same_all (s ∷ ss) = (same_refl s, same_all ss)

  -- `h` is the limiter `s` with its permit out.
  abbrev Held : S → S → Type 0
  Held s h = (t : S) × (l.release h ≡ some t) × Same s t

  release-Held :
      (ss hs : List S)
      → Pointwise Held ss hs
      → (ts : List S) × (release l hs ≡ some ts) × Pointwise Same ss ts
  unfolding release
  release-Held [] [] k = ([], refl, tt)
  release-Held [] (h ∷ hs) k = absurd k
  release-Held (s ∷ ss) [] k = absurd k
  release-Held (s ∷ ss) (h ∷ hs) k =
      let (t, e, same) = k.0 in
      let (ts, es, sames) = release-Held ss hs k.1 in (t ∷ ts, rw (e, es), (same, sames))

  refused :
      (e : Error) (ss hs rest : List S) (s s' : S)
      → Pointwise Held ss hs
      → Same s s'
      → Undone (Pointwise Same) (release l) (ss ++ s ∷ rest) (undo e (s' ∷ rest) (release l hs))
  refused e ss hs rest s s' held same =
      let (ts, released, sames) = release-Held ss hs held in
      rw released (Pointwise-append Same ss (s ∷ rest) ts (s' ∷ rest) sames (same, same_all rest))

  -- One round of the loop, given the rest of it.
  round-Undone :
      (ends : Ends) (ss hs rest : List S) (s : S) (r : Taking S)
      → l.take_context (ends 0) s ≡ r
      → Undone Same l.release s r
      → Pointwise Held ss hs
      → ((ss' hs' : List S)
          → Pointwise Held ss' hs'
          → Undone (Pointwise Same) (release l) (ss' ++ rest) (take_from l (later ends) hs' rest))
      → Undone (Pointwise Same) (release l) (ss ++ s ∷ rest) (take_from l ends hs (s ∷ rest))
  unfolding take_from
  round-Undone ends ss hs rest s (took s') e u held next =
      rw (e, take_from)
        (rw append_assoc at (
          next (ss ++ s ∷ []) (hs ++ s' ∷ [])
            (Pointwise-append Held ss (s ∷ []) hs (s' ∷ []) held (u, tt))))
  round-Undone ends ss hs rest s (failed x s') e u held next =
      rw (e, take_from) (refused x ss hs rest s s' held u)
  round-Undone ends ss hs rest s panics e u held next = absurd u

  take_from-Undone :
      (rest : List S) (ends : Ends) (ss hs : List S)
      → Pointwise Held ss hs
      → Undone (Pointwise Same) (release l) (ss ++ rest) (take_from l ends hs rest)
  take_from-Undone [] ends ss hs held = unfold take_from in rw append-nil (release-Held ss hs held)
  take_from-Undone (s ∷ rest) ends ss hs held =
      round-Undone ends ss hs rest s (l.take_context (ends 0) s) refl (undone (ends 0) s) held
        (take_from-Undone rest (later ends))

  -- `TakeContext` on limiters that each undo a take takes all of them or leaves each as it was, and never
  -- panics; `Release` after a success does not panic and leaves each as it was before the take. Which states are
  -- the same is up to the limiter's laws.
  pub take_context-Undone :
      (ends : Ends) (ss : List S) → Undone (Pointwise Same) (release l) ss (take_context l ends ss)
  unfolding take_context
  take_context-Undone ends ss = take_from-Undone ss ends [] [] tt
