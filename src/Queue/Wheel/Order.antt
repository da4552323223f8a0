-- ===== src/Queue/Wheel/Order.antt =====
-- The wheel waits for an element that no other is before, and dispatches each element once.
use mathlib.Core.List.{append-nil, append_assoc}
use madmail.Prelude.{
  ℕ, ◌+◌, ◌≤◌, Bool, true, false, Option, none, some, List, [], ◌∷◌, ◌++◌, ◌≡◌, refl, arith, ltb,
  if◌then◌else◌, All, Bool-cases, inl, inr, ◌⊎◌, sym, ap, ◌∙◌, subst,
}
use madmail.Queue.Wheel.Slots.{
  has_slot, number, number-append, number-remove, OneEach, OneEach-remove, OneEach-add, Below,
  Below-remove, Below-add,
}
use madmail.Queue.Wheel.{
  Slot, Wheel, new, affects, find_closest, rescan, add, fire, close, fire_slot, Event, adds, fires,
  closes, step, run,
}

-- No slot is due before `o`; without `o` there is none.
abbrev pub IsFirst : Option Slot → List Slot → Type 0
IsFirst none slots = slots ≡ []
IsFirst (some best) slots = All (λ (s : Slot). best.time ≤ s.time) slots

-- The awaited element is in the list.
abbrev pub IsPresent : Option Slot → List Slot → Type 0
IsPresent none slots = Unit {0}
IsPresent (some best) slots = has_slot best slots ≡ true

find_closest-some :
    (best : Slot) (slots : List Slot)
    → (found : Slot) × (find_closest (some best) slots ≡ some found)
      × (found.time ≤ best.time)
      × (has_slot found (best ∷ slots) ≡ true)
      × All (λ (s : Slot). found.time ≤ s.time) slots
unfolding find_closest
find_closest-some best [] = (best, refl, omega arith, ground arith, tt)
find_closest-some best (s ∷ slots) = elim (Bool-cases (ltb s.time best.time)) [
  | inl e ↦
      let (found, f, le, here, all) = find_closest-some s slots in
      (found, rw e f, ground arith, ground arith, (le, all))
  | inr e ↦
      let (found, f, le, here, all) = find_closest-some best slots in
      (found, rw e f, le, ground arith, (ground arith, all))
]

IsFirst-find_closest :
    (slots : List Slot)
    → IsFirst (find_closest none slots) slots × IsPresent (find_closest none slots) slots
unfolding find_closest
IsFirst-find_closest [] = (refl, tt)
IsFirst-find_closest (s ∷ slots) =
    let (found, f, le, here, all) = find_closest-some s slots in rw f ((le, all), here)

-- A wheel that is not stopped waits for a slot of its list that no other is due before, or its list is
-- empty. The slots of the list have different identities, below the next one; and each slot is as often
-- among those that were dispatched or wait as among those that were added, `all`.
pub record IsValid (all : List Slot) (w : Wheel) : Type 0 where
  pub first : (w.stopped ≡ true) ⊎ IsFirst w.closest w.slots
  pub present : IsPresent w.closest w.slots
  pub below : Below w.next_id w.slots
  pub one_each : OneEach w.slots
  pub counted : (p : Slot → Bool) → number p w.dispatched + number p w.slots ≡ number p all

rescan-IsValid :
    (all : List Slot) (w : Wheel)
    → Below w.next_id w.slots
    → OneEach w.slots
    → ((p : Slot → Bool) → number p w.dispatched + number p w.slots ≡ number p all)
    → IsValid all (rescan w)
unfolding rescan
rescan-IsValid all w below one h =
    let (first, present) = IsFirst-find_closest w.slots in
    record { first = inr first; present = present; below = below; one_each = one; counted = h }

All-snoc :
    (t : ℕ) (slots : List Slot) (s : Slot)
    → All (λ (x : Slot). t ≤ x.time) slots
    → t ≤ s.time
    → All (λ (x : Slot). t ≤ x.time) (slots ++ s ∷ [])
All-snoc t [] s h k = (k, tt)
All-snoc t (x ∷ slots) s h k = (h.0, All-snoc t slots s h.1 k)

has_slot-append :
    (s : Slot) (slots more : List Slot)
    → has_slot s slots ≡ true
    → has_slot s (slots ++ more) ≡ true
has_slot-append s [] more h = cc
has_slot-append s (x ∷ slots) more h = ground (arith, has_slot-append s slots more)

-- The element that is awaited stays the first if the new one is not before it.
kept :
    (o : Option Slot) (slots : List Slot) (s : Slot)
    → affects o s.time ≡ false
    → IsFirst o slots
    → IsPresent o slots
    → IsFirst o (slots ++ s ∷ []) × IsPresent o (slots ++ s ∷ [])
kept none slots s h f p = cc
kept (some best) slots s h f p =
    (All-snoc best.time slots s f (ground arith), has_slot-append best slots (s ∷ []) p)

if-IsValid :
    (all : List Slot) (b : Bool) (x y : Wheel)
    → (b ≡ true → IsValid all x)
    → (b ≡ false → IsValid all y)
    → IsValid all (if b then x else y)
if-IsValid all true x y f g = f refl
if-IsValid all false x y f g = g refl

pub running :
    (all : List Slot) (w : Wheel) → IsValid all w → w.stopped ≡ false → IsFirst w.closest w.slots
running all w v e = from v.first
  where
    from : (w.stopped ≡ true) ⊎ IsFirst w.closest w.slots → IsFirst w.closest w.slots
    from (inl stopped) = absurd (cc (stopped, e))
    from (inr first) = first

abbrev slot_of : Wheel → ℕ → Slot
slot_of w target = record { id = w.next_id; time = target }

abbrev with_slot : Wheel → ℕ → Wheel
with_slot w target = record w { slots = w.slots ++ slot_of w target ∷ []; next_id = w.next_id + 1 }

-- What an event adds.
abbrev addition : Wheel → Event → List Slot
addition w (adds target) = if w.stopped then [] else slot_of w target ∷ []
addition w fires = []
addition w closes = []

counted-with_slot :
    (all : List Slot) (w : Wheel) (target : ℕ)
    → IsValid all w
    → (p : Slot → Bool)
    → number p w.dispatched + number p (with_slot w target).slots
      ≡ number p (all ++ slot_of w target ∷ [])
counted-with_slot all w target v p = omega (
  arith,
  v.counted p,
  number-append p w.slots (slot_of w target ∷ []),
  number-append p all (slot_of w target ∷ []),
)

add_running :
    (all : List Slot) (w : Wheel) (target : ℕ)
    → IsValid all w
    → w.stopped ≡ false
    → IsValid
        (all ++ slot_of w target ∷ [])
        (if affects w.closest target then rescan (with_slot w target) else with_slot w target)
add_running all w target v e =
    let w' = with_slot w target in
    let all' = all ++ slot_of w target ∷ [] in
    let below = Below-add w.next_id target w.slots v.below in
    let one = OneEach-add w.next_id target w.slots v.below v.one_each in
    let counted = counted-with_slot all w target v in
    if-IsValid all' (affects w.closest target) (rescan w') w'
      (λ _. rescan-IsValid all' w' below one counted)
      λ same.
        let (first, present) =
          kept w.closest w.slots (slot_of w target) same (running all w v e) v.present in
        record {
          first = inr first;
          present = present;
          below = below;
          one_each = one;
          counted = counted;
        }

add-IsValid :
    (all : List Slot) (w : Wheel) (target : ℕ)
    → IsValid all w
    → IsValid (all ++ addition w (adds target)) (add w target)
unfolding add
add-IsValid all w target v =
    let goes : Bool → Type 0 = λ b. IsValid (all ++ (if b then [] else slot_of w target ∷ [])) (
      if b
      then w
      else if affects w.closest target
      then rescan (with_slot w target)
      else with_slot w target) in
    elim (Bool-cases w.stopped) [
      | inl stopped ↦ subst goes (sym stopped) (subst (λ xs. IsValid xs w) (sym (append-nil all)) v)
      | inr runs ↦ subst goes (sym runs) (add_running all w target v runs)
    ]

fire_some :
    (all : List Slot) (w : Wheel) (s : Slot)
    → IsValid all w
    → has_slot s w.slots ≡ true
    → IsValid all (rescan (fire_slot w (some s)))
fire_some all w s v present =
    rescan-IsValid all (fire_slot w (some s)) (Below-remove w.next_id s.id w.slots v.below)
      (OneEach-remove s.id w.slots v.one_each)
      λ p. omega (
        arith,
        v.counted p,
        number-append p w.dispatched (s ∷ []),
        number-remove p s w.slots v.one_each present,
      )

fire_rest :
    (all : List Slot) (w : Wheel) (o : Option Slot)
    → IsValid all w
    → IsPresent o w.slots
    → IsValid all (rescan (fire_slot w o))
fire_rest all w none v present = rescan-IsValid all w v.below v.one_each v.counted
fire_rest all w (some s) v present = fire_some all w s v present

pub fire-IsValid : (all : List Slot) (w : Wheel) → IsValid all w → IsValid all (fire w)
unfolding fire
fire-IsValid all w v =
    if-IsValid all w.stopped w _ (λ _. v) λ e. fire_rest all w w.closest v v.present

close-IsValid : (all : List Slot) (w : Wheel) → IsValid all w → IsValid all (close w)
unfolding close
close-IsValid all w v = record {
  first = inl refl;
  present = tt;
  below = v.below;
  one_each = v.one_each;
  counted = v.counted;
}

step-IsValid :
    (all : List Slot) (w : Wheel) (e : Event)
    → IsValid all w
    → IsValid (all ++ addition w e) (step w e)
unfolding step
step-IsValid all w (adds target) v = add-IsValid all w target v
step-IsValid all w fires v =
    subst (λ xs. IsValid xs (fire w)) (sym (append-nil all)) (fire-IsValid all w v)
step-IsValid all w closes v =
    subst (λ xs. IsValid xs (close w)) (sym (append-nil all)) (close-IsValid all w v)

-- The slots that calls of `Add` before the first stop ask for, numbered from `n`.
abbrev pub additions : Bool → ℕ → List Event → List Slot
additions stopped n [] = []
additions true n (e ∷ es) = []
additions false n (adds target ∷ es) = record { id = n; time = target } ∷ additions false (n + 1) es
additions false n (fires ∷ es) = additions false n es
additions false n (closes ∷ es) = []

additions_stopped : (n : ℕ) (es : List Event) → additions true n es ≡ []
additions_stopped n [] = refl
additions_stopped n (e ∷ es) = refl

additions_fires :
    (b : Bool) (n : ℕ) (es : List Event) → additions b n (fires ∷ es) ≡ additions b n es
additions_fires true n es = sym (additions_stopped n es)
additions_fires false n es = refl

additions_closes :
    (b : Bool) (n : ℕ) (es : List Event) → additions b n (closes ∷ es) ≡ additions true n es
additions_closes true n es = sym (additions_stopped n es)
additions_closes false n es = sym (additions_stopped n es)

add_same :
    (w : Wheel) (target : ℕ)
    → ((add w target).stopped ≡ w.stopped)
      × ((add w target).next_id ≡ (if w.stopped then w.next_id else w.next_id + 1))
unfolding add
add_same w target = ground arith

additions_adds :
    (b b' : Bool) (n n' target : ℕ) (es : List Event)
    → b' ≡ b
    → n' ≡ (if b then n else n + 1)
    → additions b n (adds target ∷ es)
      ≡ (if b then [] else record { id = n; time = target } ∷ []) ++ additions b' n' es
additions_adds true b' n n' target es eb en =
    sym (ap (λ x. additions x n' es) eb ∙ additions_stopped n' es)
additions_adds false b' n n' target es eb en =
    let slot : Slot = record { id = n; time = target } in
    sym (ap (λ x. slot ∷ additions x n' es) eb ∙ ap (λ k. slot ∷ additions false k es) en)

fire_kept :
    (w : Wheel) (o : Option Slot)
    → ((fire_slot w o).stopped ≡ w.stopped) × ((fire_slot w o).next_id ≡ w.next_id)
fire_kept w none = (refl, refl)
fire_kept w (some s) = (refl, refl)

fire_same : (w : Wheel) → ((fire w).stopped ≡ w.stopped) × ((fire w).next_id ≡ w.next_id)
unfolding fire rescan
fire_same w = ground (arith, fire_kept w w.closest)

additions-step :
    (w : Wheel) (e : Event) (es : List Event)
    → additions w.stopped w.next_id (e ∷ es)
      ≡ addition w e ++ additions (step w e).stopped (step w e).next_id es
unfolding step
additions-step w (adds target) es =
    let w' = add w target in
    additions_adds w.stopped w'.stopped w.next_id w'.next_id target es (add_same w target).0
      (add_same w target).1
additions-step w fires es =
    let (later, id) = fire_same w in rw (later, id) (additions_fires w.stopped w.next_id es)
additions-step w closes es = unfold close in additions_closes w.stopped w.next_id es

pub run_from-IsValid :
    (all : List Slot) (w : Wheel) (es : List Event)
    → IsValid all w
    → IsValid (all ++ additions w.stopped w.next_id es) (run w es)
unfolding run
run_from-IsValid all w [] v = subst (λ xs. IsValid xs w) (sym (append-nil all)) v
run_from-IsValid all w (e ∷ es) v =
    let w' = step w e in
    let rest = additions w'.stopped w'.next_id es in
    let same : (all ++ addition w e) ++ rest ≡ all ++ additions w.stopped w.next_id (e ∷ es) =
      append_assoc all (addition w e) rest ∙ ap (λ xs. all ++ xs) (sym (additions-step w e es)) in
    subst (λ xs. IsValid xs (run w' es)) same
      (run_from-IsValid (all ++ addition w e) w' es (step-IsValid all w e v))

-- After any sequence of additions, timer events and a stop, a wheel that is not stopped waits for a
-- slot of its list that no other slot is due before, or its list is empty; and each slot that was added before the
-- stop either waits or was dispatched, once: under any test, as many of the dispatched and the waiting slots
-- pass as of those that were added, and the waiting slots have different identities.
pub run-IsValid : (es : List Event) → IsValid (additions false 0 es) (run new es)
run-IsValid es = run_from-IsValid [] new es (record {
  first = inr refl;
  present = tt;
  below = tt;
  one_each = tt;
  counted = λ p. omega arith;
})
