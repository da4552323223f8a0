-- ===== src/Pool/Accounting.antt =====
-- No connection that is returned to the pool is lost, handed out twice or closed twice.
use madmail.Prelude.{
  ℕ, ◌+◌, String, str_eq_iff, Option, none, some, List, [], ◌∷◌, ◌++◌, ◌≡◌, refl, ap, arith, ltb,
  ◌==◌, if◌then◌else◌, Bool-cases, inl, inr, length,
}
use madmail.Prelude.Dict.{Dict, lookup, insert, delete, lookup-insert, lookup-delete}
use madmail.Pool.{
  Config, Slot, Keys, Outcome, Answers, sweep, clean_up, take_conn, get, get_from, put_back,
  return_to, return_conn, all_conns, close, Event, returns, gets, cleans, step,
}

abbrev pub count : ℕ → List ℕ → ℕ
count c [] = 0
count c (x ∷ xs) = (if x == c then 1 else 0) + count c xs

count-append : (c : ℕ) (xs ys : List ℕ) → count c (xs ++ ys) ≡ count c xs + count c ys
count-append c [] ys = omega arith
count-append c (x ∷ xs) ys = omega (arith, count-append c xs ys)

abbrev pub held : Keys → List ℕ
held none = []
held (some m) = all_conns m

abbrev pub one_of : ℕ → Option ℕ → ℕ
one_of c none = 0
one_of c (some x) = if x == c then 1 else 0

sweep_lem :
    (c : ℕ) (cfg : Config) (now : ℕ) (m : Dict Slot)
    → count c (all_conns (sweep cfg now m).0) + count c (sweep cfg now m).1 ≡ count c (all_conns m)
unfolding sweep all_conns
sweep_lem c cfg now [] = refl
sweep_lem c cfg now ((key, slot) ∷ m) = ground (
  arith,
  sweep_lem c cfg now m,
  count-append c slot.conns (sweep cfg now m).1,
  count-append c slot.conns (all_conns (sweep cfg now m).0),
  count-append c slot.conns (all_conns m),
)

take_conn_lem :
    (c : ℕ) (cfg : Config) (now : ℕ) (a : Answers) (conns : List ℕ)
    → let (closed, given, left) = take_conn cfg now a conns in
      count c closed + one_of c given + count c left ≡ count c conns
unfolding take_conn
take_conn_lem c cfg now a [] = refl
take_conn_lem c cfg now a (x ∷ conns) = ground (arith, take_conn_lem c cfg now a conns)

-- Two slots of one key do not occur in a map.
abbrev pub IsMap : Dict Slot → Type 0
IsMap [] = Unit {0}
IsMap ((key, slot) ∷ m) = (lookup key m ≡ none) × IsMap m

abbrev conns_of : Option Slot → List ℕ
conns_of none = []
conns_of (some slot) = slot.conns

insert_lem :
    (c : ℕ) (key : String) (slot : Slot) (m : Dict Slot)
    → count c (all_conns (insert key slot m)) + count c (conns_of (lookup key m))
      ≡ count c (all_conns m) + count c slot.conns
unfolding insert lookup all_conns
insert_lem c key slot [] = omega (arith, count-append c slot.conns [])
insert_lem c key slot ((k, s) ∷ m) = ground (
  arith,
  insert_lem c key slot m,
  count-append c slot.conns (all_conns m),
  count-append c s.conns (all_conns m),
  count-append c s.conns (all_conns (insert key slot m)),
)

delete-none : (key : String) (m : Dict Slot) → lookup key m ≡ none → delete key m ≡ m
unfolding delete lookup
delete-none key [] h = refl
delete-none key ((k, s) ∷ m) h = ground (arith, delete-none key m)

delete_lem :
    (c : ℕ) (key : String) (m : Dict Slot)
    → IsMap m
    → count c (all_conns (delete key m)) + count c (conns_of (lookup key m)) ≡ count c (all_conns m)
unfolding delete lookup all_conns
delete_lem c key [] h = refl
delete_lem c key ((k, s) ∷ m) h = ground (
  arith,
  str_eq_iff k key,
  delete-none key m,
  delete_lem c key m,
  count-append c s.conns (all_conns m),
  count-append c s.conns (all_conns (delete key m)),
)

IsMap-insert : (key : String) (slot : Slot) (m : Dict Slot) → IsMap m → IsMap (insert key slot m)
unfolding insert lookup
IsMap-insert key slot [] h = (refl, tt)
IsMap-insert key slot ((k, s) ∷ m) h =
    ground (
      arith,
      IsMap-insert key slot m,
      lookup-insert key k slot m,
      str_eq_iff k key,
      str_eq_iff key k,
    )

IsMap-delete : (key : String) (m : Dict Slot) → IsMap m → IsMap (delete key m)
unfolding delete lookup
IsMap-delete key [] h = tt
IsMap-delete key ((k, s) ∷ m) h =
    ground (arith, IsMap-delete key m, lookup-delete key k m, str_eq_iff key k)

lookup-sweep :
    (cfg : Config) (now : ℕ) (key : String) (m : Dict Slot)
    → lookup key m ≡ none
    → lookup key (sweep cfg now m).0 ≡ none
unfolding sweep lookup
lookup-sweep cfg now key [] h = refl
lookup-sweep cfg now key ((k, s) ∷ m) h = ground (arith, lookup-sweep cfg now key m)

IsMap-sweep : (cfg : Config) (now : ℕ) (m : Dict Slot) → IsMap m → IsMap (sweep cfg now m).0
unfolding sweep
IsMap-sweep cfg now [] h = tt
IsMap-sweep cfg now ((k, s) ∷ m) h =
    ground (arith, IsMap-sweep cfg now m h.1, lookup-sweep cfg now k m)

-- The map of a pool that is open.
abbrev pub IsOpen : Keys → Type 0
IsOpen none = ⊥
IsOpen (some m) = IsMap m

abbrev incoming : ℕ → Event → ℕ
incoming c (returns now key conn) = if conn == c then 1 else 0
incoming c (gets now a key) = 0
incoming c (cleans now) = 0

abbrev Balanced : ℕ → ℕ → Dict Slot → Outcome → Type 0
Balanced c n m o =
    IsOpen o.keys
    × (count c (held o.keys) + count c o.closed + one_of c o.given ≡ count c (all_conns m) + n)

Balanced-put_back :
    (c : ℕ) (cfg : Config) (key : String) (conn : ℕ) (slot : Slot) (m : Dict Slot) (closed : List ℕ)
    → IsMap m
    → count c (conns_of (lookup key m)) ≡ count c slot.conns
    → Balanced c
        (count c closed + (if conn == c then 1 else 0))
        m
        (put_back cfg key conn slot m closed)
Balanced-put_back c cfg key conn slot m closed h e =
    let longer : Slot = record slot { conns = slot.conns ++ conn ∷ [] } in
    elim (Bool-cases (ltb (length slot.conns) cfg.max_conns_per_key)) [
      | inl room ↦ rw room (
        IsMap-insert key longer m h,
        omega (arith, insert_lem c key longer m, count-append c slot.conns (conn ∷ []), e),
      )
      | inr full ↦ rw full (
        IsMap-insert key slot m h,
        omega (arith, insert_lem c key slot m, count-append c closed (conn ∷ []), e),
      )
    ]

Balanced-get_from :
    (c : ℕ) (cfg : Config) (now : ℕ) (a : Answers) (key : String) (m : Dict Slot) (o : Option Slot)
    → IsMap m
    → lookup key m ≡ o
    → Balanced c 0 m (get_from cfg now a key m o)
Balanced-get_from c cfg now a key m none h e = (h, omega arith)
Balanced-get_from c cfg now a key m (some slot) h e =
    let left : Slot = record slot { conns = (take_conn cfg now a slot.conns).2 } in
    let same = ap (λ o. count c (conns_of o)) e in
    elim (Bool-cases (ltb (slot.last_use + cfg.max_conn_lifetime) now)) [
      | inl old ↦ rw old (IsMap-delete key m h, omega (arith, delete_lem c key m h, same))
      | inr fresh ↦ rw fresh (
        IsMap-insert key left m h,
        omega (arith, insert_lem c key left m, take_conn_lem c cfg now a slot.conns, same),
      )
    ]

Balanced-return_to :
    (c : ℕ) (cfg : Config) (now : ℕ) (key : String) (conn : ℕ) (m : Dict Slot) (o : Option Slot)
    → IsMap m
    → lookup key m ≡ o
    → Balanced c (if conn == c then 1 else 0) m (return_to cfg now key conn m o)
Balanced-return_to c cfg now key conn m (some slot) h e =
    let (open', total) =
      Balanced-put_back c cfg key conn slot m [] h (ap (λ o. count c (conns_of o)) e) in
    (open', omega (arith, total))
Balanced-return_to c cfg now key conn m none h e =
    let new : Slot = record { conns = []; last_use = now } in
    elim (Bool-cases (length m == cfg.max_keys)) [
      | inl full ↦
          let kept = (sweep cfg now m).0 in
          let gone = ap (λ o. count c (conns_of o)) (lookup-sweep cfg now key m e) in
          let (open', total) =
            Balanced-put_back c cfg key conn new kept (sweep cfg now m).1 (IsMap-sweep cfg now m h)
              gone in
          rw full (open', omega (arith, total, sweep_lem c cfg now m))
      | inr room ↦
          let (open', total) =
            Balanced-put_back c cfg key conn new m [] h (ap (λ o. count c (conns_of o)) e) in
          rw room (open', omega (arith, total))
    ]

Balanced-step :
    (c : ℕ) (cfg : Config) (m : Dict Slot) (e : Event)
    → IsMap m
    → Balanced c (incoming c e) m (step cfg (some m) e)
unfolding step get return_conn clean_up
Balanced-step c cfg m (returns now key conn) h =
    Balanced-return_to c cfg now key conn m (lookup key m) h refl
Balanced-step c cfg m (gets now a key) h = Balanced-get_from c cfg now a key m (lookup key m) h refl
Balanced-step c cfg m (cleans now) h =
    (IsMap-sweep cfg now m h, omega (arith, sweep_lem c cfg now m))

-- What happened to the connections, with the map that is left.
pub record History : Type 0 where
  pub keys : Keys
  pub closed : List ℕ
  pub given : List ℕ

abbrev given_list : Option ℕ → List ℕ
given_list none = []
given_list (some conn) = conn ∷ []

abbrev after : Outcome → History → History
after o h = record h { closed = o.closed ++ h.closed; given = given_list o.given ++ h.given }

unfoldable pub run : Config → Keys → List Event → History
run cfg keys [] = record { keys = keys; closed = []; given = [] }
run cfg keys (e ∷ es) = let o = step cfg keys e in after o (run cfg o.keys es)

-- How often the connection was returned to the pool.
abbrev pub returned : ℕ → List Event → ℕ
returned c [] = 0
returned c (e ∷ es) = incoming c e + returned c es

one_of-given_list : (c : ℕ) (o : Option ℕ) → count c (given_list o) ≡ one_of c o
one_of-given_list c none = refl
one_of-given_list c (some x) = ground arith

run_lem :
    (c : ℕ) (cfg : Config) (keys : Keys) (es : List Event)
    → IsOpen keys
    → let h = run cfg keys es in
      IsOpen h.keys
      × (count c (held h.keys) + count c h.closed + count c h.given
          ≡ count c (held keys) + returned c es)
unfolding run
run_lem c cfg none es h = absurd h
run_lem c cfg (some m) [] h = (h, omega arith)
run_lem c cfg (some m) (e ∷ es) h =
    let o = step cfg (some m) e in
    let (open', now) = Balanced-step c cfg m e h in
    let (open'', later) = run_lem c cfg o.keys es open' in
    (
      open'',
      omega (
        arith,
        now,
        later,
        count-append c o.closed (run cfg o.keys es).closed,
        count-append c (given_list o.given) (run cfg o.keys es).given,
        one_of-given_list c o.given,
      ),
    )

closed-close : (keys : Keys) → (close keys).closed ≡ held keys
unfolding close
closed-close none = refl
closed-close (some m) = refl

-- Over any returns, gets and clean-ups of a new pool, and a `Close` after them, each connection was
-- closed or handed out, in all exactly as often as it was returned; before the `Close` it may also be
-- held.
pub count-run :
    (c : ℕ) (cfg : Config) (es : List Event)
    → let h = run cfg (some []) es in
      (count c (held h.keys) + count c h.closed + count c h.given ≡ returned c es)
      × (count c (close h.keys).closed + count c h.closed + count c h.given ≡ returned c es)
unfolding all_conns
count-run c cfg es =
    let h = run cfg (some []) es in
    let total = (run_lem c cfg (some []) es tt).1 in
    (omega (arith, total), rw (closed-close h.keys) (omega (arith, total)))
