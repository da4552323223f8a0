-- ===== src/Queue/Wheel/Slots.antt =====
-- Lists of the slots of internal/target/queue/timewheel.go: how often one is there, and its removal.
use madmail.Prelude.{
  ℕ, ◌+◌, ◌<◌, Bool, true, false, ◌&&◌, List, [], ◌∷◌, ◌++◌, ◌≡◌, refl, arith, ◌==◌, if◌then◌else◌,
  Bool-cases, inl, inr, any, All, sym, ap, ◌∙◌, subst,
}
use madmail.Queue.Wheel.{Slot, remove}

abbrev pub has_id : ℕ → List Slot → Bool
has_id id = any (λ (s : Slot). s.id == id)

-- How many slots of a list pass a test.
abbrev pub one_if : Bool → ℕ
one_if b = if b then 1 else 0

abbrev pub number : (Slot → Bool) → List Slot → ℕ
number p [] = 0
number p (s ∷ slots) = one_if (p s) + number p slots

pub number-append :
    (p : Slot → Bool) (xs ys : List Slot) → number p (xs ++ ys) ≡ number p xs + number p ys
number-append p [] ys = omega arith
number-append p (x ∷ xs) ys = omega (arith, number-append p xs ys)

abbrev pub is_slot : Slot → Slot → Bool
is_slot x s = (x.id == s.id) && (x.time == s.time)

abbrev pub has_slot : Slot → List Slot → Bool
has_slot s = any (λ (x : Slot). is_slot x s)

-- No identity twice.
abbrev pub OneEach : List Slot → Type 0
OneEach [] = Unit {0}
OneEach (s ∷ slots) = (has_id s.id slots ≡ false) × OneEach slots

slot_eq : (x s : Slot) → is_slot x s ≡ true → x ≡ s
slot_eq x s h =
    let ids : x.id ≡ s.id = ground arith in
    let times : x.time ≡ s.time = ground arith in
    ap (λ n. record { id = n; time = x.time }) ids ∙ ap (λ n. record { id = s.id; time = n }) times

has_id-has_slot :
    (s : Slot) (slots : List Slot) → has_slot s slots ≡ true → has_id s.id slots ≡ true
has_id-has_slot s [] h = cc
has_id-has_slot s (x ∷ slots) h = ground (arith, has_id-has_slot s slots)

-- `remove` takes exactly the awaited slot out.
pub number-remove :
    (p : Slot → Bool) (s : Slot) (slots : List Slot)
    → OneEach slots
    → has_slot s slots ≡ true
    → one_if (p s) + number p (remove s.id slots) ≡ number p slots
unfolding remove
number-remove p s [] one h = cc
number-remove p s (x ∷ slots) (apart, one) h = elim (Bool-cases (x.id == s.id)) [
  | inl same ↦ elim (Bool-cases (is_slot x s)) [
    | inl is ↦ rw same (ap (λ y. one_if (p y) + number p slots) (sym (slot_eq x s is)))
    | inr other ↦
        let ids : x.id ≡ s.id = ground arith in
        let there : has_slot s slots ≡ true = ground (arith, h, other) in
        cc (sym (subst (λ n. has_id n slots ≡ false) ids apart) ∙ has_id-has_slot s slots there)
  ]
  | inr other ↦
      let there : has_slot s slots ≡ true = ground (arith, h, other) in
      rw other (omega (arith, number-remove p s slots one there))
]

has_id-remove :
    (id k : ℕ) (slots : List Slot) → has_id k slots ≡ false → has_id k (remove id slots) ≡ false
unfolding remove
has_id-remove id k [] h = refl
has_id-remove id k (x ∷ slots) h = ground (arith, has_id-remove id k slots)

pub OneEach-remove : (id : ℕ) (slots : List Slot) → OneEach slots → OneEach (remove id slots)
unfolding remove
OneEach-remove id [] one = tt
OneEach-remove id (x ∷ slots) (apart, one) = elim (Bool-cases (x.id == id)) [
  | inl same ↦ rw same one
  | inr other ↦ rw other (has_id-remove id x.id slots apart, OneEach-remove id slots one)
]

-- Identities below a number.
abbrev pub Below : ℕ → List Slot → Type 0
Below n = All (λ (s : Slot). s.id < n)

pub Below-remove : (n id : ℕ) (slots : List Slot) → Below n slots → Below n (remove id slots)
unfolding remove
Below-remove n id [] h = tt
Below-remove n id (x ∷ slots) (le, h) = elim (Bool-cases (x.id == id)) [
  | inl same ↦ rw same h
  | inr other ↦ rw other (le, Below-remove n id slots h)
]

pub Below-add :
    (n time : ℕ) (slots : List Slot)
    → Below n slots
    → Below (n + 1) (slots ++ record { id = n; time = time } ∷ [])
Below-add n time [] h = (omega arith, tt)
Below-add n time (x ∷ slots) (le, h) = (omega arith, Below-add n time slots h)

has_id-snoc :
    (n time k : ℕ) (slots : List Slot)
    → k < n
    → has_id k slots ≡ false
    → has_id k (slots ++ record { id = n; time = time } ∷ []) ≡ false
has_id-snoc n time k [] le h = ground arith
has_id-snoc n time k (x ∷ slots) le h = ground (arith, has_id-snoc n time k slots le)

pub OneEach-add :
    (n time : ℕ) (slots : List Slot)
    → Below n slots
    → OneEach slots
    → OneEach (slots ++ record { id = n; time = time } ∷ [])
OneEach-add n time [] below one = (refl, tt)
OneEach-add n time (x ∷ slots) (le, below) (apart, one) =
    (has_id-snoc n time x.id slots le apart, OneEach-add n time slots below one)
