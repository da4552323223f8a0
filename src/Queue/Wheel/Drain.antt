-- ===== src/Queue/Wheel/Drain.antt =====
-- The wheel comes to each of its slots: internal/target/queue/timewheel.go when nothing more is added.
use mathlib.Core.List.{append-nil, append_assoc}
use madmail.Prelude.{
  ℕ, zero, suc, ◌+◌, ◌≤◌, Bool, true, false, Option, none, some, List, [], ◌∷◌, ◌++◌, ◌≡◌, refl,
  sym, ap, ◌∙◌, subst, arith, All, inl, inr, length, Option-cases, Bool-cases, ltb,
}
use madmail.Queue.Wheel.{
  Slot, Wheel, new, remove, fire, add, Event, adds, fires, closes, step, run, find_closest,
}
use madmail.Queue.Wheel.Order.{
  IsFirst, IsPresent, IsValid, running, fire-IsValid, run-IsValid, additions,
}
use madmail.Queue.Wheel.Slots.{number, number-remove}

-- The timer fires n times.
abbrev pub firings : ℕ → List Event
firings zero = []
firings (suc n) = fires ∷ firings n

-- Slots that are due one after the other, the first at the earliest at this time.
abbrev pub Increasing : ℕ → List Slot → Type 0
Increasing t [] = Unit {0}
Increasing t (s ∷ slots) = (t ≤ s.time) × Increasing s.time slots

abbrev pub NoClose : List Event → Type 0
NoClose [] = Unit {0}
NoClose (adds target ∷ es) = NoClose es
NoClose (fires ∷ es) = NoClose es
NoClose (closes ∷ es) = ⊥

All-remove :
    (t id : ℕ) (slots : List Slot)
    → All (λ (s : Slot). t ≤ s.time) slots
    → All (λ (s : Slot). t ≤ s.time) (remove id slots)
unfolding remove
All-remove t id [] h = tt
All-remove t id (s ∷ slots) h = ground (arith, All-remove t id slots h.1)

fire-some :
    (w : Wheel) (s : Slot)
    → w.stopped ≡ false
    → w.closest ≡ some s
    → ((fire w).slots ≡ remove s.id w.slots)
      × ((fire w).dispatched ≡ w.dispatched ++ s ∷ [])
      × ((fire w).stopped ≡ false)
unfolding fire
fire-some w s h e = ground arith

closest-fire : (w : Wheel) → w.stopped ≡ false → (fire w).closest ≡ find_closest none (fire w).slots
unfolding fire
closest-fire w h = ground arith

abbrev From : ℕ → Option Slot → Type 0
From t none = Unit {0}
From t (some s) = t ≤ s.time

From-closer :
    (t : ℕ) (best : Slot) (slots : List Slot)
    → t ≤ best.time
    → All (λ (s : Slot). t ≤ s.time) slots
    → From t (find_closest (some best) slots)
unfolding find_closest
From-closer t best [] h a = h
From-closer t best (s ∷ slots) h a = elim (Bool-cases (ltb s.time best.time)) [
  | inl e ↦ rw e (From-closer t s slots a.0 a.1)
  | inr e ↦ rw e (From-closer t best slots h a.1)
]

From-find_closest :
    (t : ℕ) (slots : List Slot)
    → All (λ (s : Slot). t ≤ s.time) slots
    → From t (find_closest none slots)
unfolding find_closest
From-find_closest t [] a = tt
From-find_closest t (s ∷ slots) a = From-closer t s slots a.0 a.1

empty_of : (slots : List Slot) → length slots ≡ 0 → slots ≡ []
empty_of [] l = refl
empty_of (s ∷ slots) l = absurd (omega arith)

From-fire :
    (all : List Slot) (w : Wheel) (s : Slot)
    → IsValid all w
    → w.stopped ≡ false
    → w.closest ≡ some s
    → From s.time (fire w).closest
From-fire all w s v h e =
    let first = subst (λ o. IsFirst o w.slots) e (running all w v h) in
    let slots = (fire-some w s h e).0 in
    rw (closest-fire w h, slots)
      (From-find_closest s.time (remove s.id w.slots) (All-remove s.time s.id w.slots first))

length-number : (slots : List Slot) → length slots ≡ number (λ s. true) slots
length-number [] = refl
length-number (s ∷ slots) = omega (arith, length-number slots)

length-fire :
    (all : List Slot) (w : Wheel) (s : Slot)
    → IsValid all w
    → w.stopped ≡ false
    → w.closest ≡ some s
    → length (fire w).slots + 1 ≡ length w.slots
length-fire all w s v h e =
    let present = subst (λ o. IsPresent o w.slots) e v.present in
    rw (fire-some w s h e).0 (
      omega (
        arith,
        length-number (remove s.id w.slots),
        length-number w.slots,
        number-remove (λ x. true) s w.slots v.one_each present,
      ))

empty_unless :
    (all : List Slot) (w : Wheel)
    → IsValid all w
    → w.stopped ≡ false
    → w.closest ≡ none
    → length w.slots ≡ 0
empty_unless all w v h e = ap length (subst (λ o. IsFirst o w.slots) e (running all w v h))

drain :
    (all : List Slot) (n : ℕ) (w : Wheel) (t : ℕ)
    → IsValid all w
    → w.stopped ≡ false
    → length w.slots ≡ n
    → From t w.closest
    → (more : List Slot) × ((run w (firings n)).slots ≡ [])
      × ((run w (firings n)).dispatched ≡ w.dispatched ++ more)
      × ((p : Slot → Bool) → number p more ≡ number p w.slots)
      × Increasing t more
unfolding run step
drain all zero w t v h l b = (
  [],
  empty_of w.slots l,
  sym (append-nil w.dispatched),
  λ p. ap (number p) (sym (empty_of w.slots l)),
  tt,
)
drain all (suc n) w t v h l b = elim (Option-cases w.closest) [
  | inl e ↦ absurd (omega (arith, empty_unless all w v h e))
  | inr (s, e) ↦
      let (slots, dispatched, open') = fire-some w s h e in
      let (more, done, ends, count, sorted) =
        drain all n (fire w) s.time (fire-IsValid all w v) open'
          (omega (arith, length-fire all w s v h e)) (From-fire all w s v h e) in
      let present = subst (λ o. IsPresent o w.slots) e v.present in
      (
        s ∷ more,
        done,
        ends ∙ (ap (λ xs. xs ++ more) dispatched ∙ append_assoc w.dispatched (s ∷ []) more),
        λ p.
            omega
              (arith, count p, ap (number p) slots, number-remove p s w.slots v.one_each present),
        (subst (From t) e b, sorted),
      )
]

stopped-run :
    (w : Wheel) (es : List Event) → NoClose es → w.stopped ≡ false → (run w es).stopped ≡ false
unfolding run step add fire
stopped-run w [] h k = k
stopped-run w (adds target ∷ es) h k = stopped-run (add w target) es h (ground arith)
stopped-run w (fires ∷ es) h k = stopped-run (fire w) es h (ground arith)
stopped-run w (closes ∷ es) h k = absurd h

From-zero : (o : Option Slot) → From 0 o
From-zero none = tt
From-zero (some s) = omega arith

-- After any additions and firings of the timer, every slot that waits is dispatched if the timer fires
-- as often as there are such slots: then none is left, and what was dispatched after those that were before
-- is each waiting slot as often as it waited, under any test of slots, in the order of their times.
pub run-firings :
    (es : List Event)
    → NoClose es
    → let w = run new es in
      let w' = run w (firings (length w.slots)) in
      (more : List Slot) × (w'.slots ≡ [])
      × (w'.dispatched ≡ w.dispatched ++ more)
      × ((p : Slot → Bool) → number p more ≡ number p w.slots)
      × Increasing 0 more
run-firings es h =
    let w = run new es in
    drain (additions false 0 es) (length w.slots) w 0 (run-IsValid es) (stopped-run new es h refl)
      refl (From-zero w.closest)
