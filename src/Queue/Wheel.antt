-- ===== src/Queue/Wheel.antt =====
-- internal/target/queue/timewheel.go: the list of future deliveries and the goroutine that waits for
-- the closest. Times are ordered by a number, with Go's zero time at 0.
pub mod Slots
pub mod Order
pub mod Drain
use madmail.Prelude.{
  ℕ, ◌+◌, Bool, true, false, ◌||◌, Option, none, some, List, [], ◌∷◌, ◌++◌, ltb, leb, ◌==◌,
  if◌then◌else◌,
}

-- `id` is the identity of a list element.
pub record Slot : Type 0 where
  pub id : ℕ
  pub time : ℕ

pub record Wheel : Type 0 where
  pub slots : List Slot
  pub next_id : ℕ
  pub stopped : Bool
  -- the element whose timer runs, if any
  pub closest : Option Slot
  -- what was handed to `dispatch`, oldest first
  pub dispatched : List Slot

abbrev pub new : Wheel
new = record { slots = []; next_id = 0; stopped = false; closest = none; dispatched = [] }

abbrev closer : Option Slot → Slot → Option Slot
closer none slot = some slot
closer (some best) slot = if ltb slot.time best.time then some slot else some best

-- The loop that looks for the element closest to now.
unfoldable pub find_closest : Option Slot → List Slot → Option Slot
find_closest best [] = best
find_closest best (slot ∷ slots) = find_closest (closer best slot) slots

-- The head of the outer loop: choose the element to wait for.
unfoldable pub rescan : Wheel → Wheel
unfolding find_closest
rescan w = record w { closest = find_closest none w.slots }

abbrev affects : Option Slot → ℕ → Bool
affects none target = true
affects (some slot) target = if leb slot.time target then false else true

-- `Add`, up to the receipt of its notification by the goroutine, which rescans only if the new target
-- is before the one that it waits for.
unfoldable pub add : Wheel → ℕ → Wheel
unfolding rescan
add w target =
    if w.stopped
    then w
    else let w' = record w {
      slots = w.slots ++ record { id = w.next_id; time = target } ∷ [];
      next_id = w.next_id + 1;
    } in
      if affects w.closest target then rescan w' else w'

unfoldable pub remove : ℕ → List Slot → List Slot
remove id [] = []
remove id (slot ∷ slots) = if slot.id == id then slots else slot ∷ remove id slots

abbrev fire_slot : Wheel → Option Slot → Wheel
fire_slot w none = w
fire_slot w (some slot) = record w {
  slots = remove slot.id w.slots;
  dispatched = w.dispatched ++ slot ∷ [];
}

-- The timer fires: the element is removed and dispatched, and the loop starts over.
unfoldable pub fire : Wheel → Wheel
unfolding rescan remove
fire w = if w.stopped then w else rescan (fire_slot w w.closest)

unfoldable pub close : Wheel → Wheel
close w = record w { stopped = true; closest = none }

pub data Event : Type 0 where
  adds : ℕ → Event
  fires closes : Event

unfoldable pub step : Wheel → Event → Wheel
unfolding add fire close
step w (adds target) = add w target
step w fires = fire w
step w closes = close w

unfoldable pub run : Wheel → List Event → Wheel
run w [] = w
run w (e ∷ es) = run (step w e) es
