-- ===== src/Pool/Fresh.antt =====
-- Which connections `Get` returns.
use madmail.Prelude.{
  ap, str_eq_iff, if◌then◌else◌, ℕ, ◌+◌, ◌≤◌, ◌<◌, String, true, false, none, some, List, [], ◌∷◌,
  ◌++◌, ◌≡◌, refl, subst, ◌∙◌, arith, ltb, Option-cases, Bool-cases, inl, inr, length,
}
use madmail.Prelude.Dict.{Dict, lookup, insert, delete, lookup-delete, lookup_same}
use madmail.Pool.{
  Config, Slot, Answers, is_expired, take_conn, get, get_from, return_conn, Event, returns, step,
}
use madmail.Pool.Accounting.{run, count}

take_conn-fresh :
    (cfg : Config) (now : ℕ) (a : Answers) (conns : List ℕ) (conn : ℕ)
    → (take_conn cfg now a conns).1 ≡ some conn
    → (a.usable conn ≡ true) × (is_expired cfg now a conn ≡ false) × (0 < count conn conns)
unfolding take_conn
take_conn-fresh cfg now a [] conn h = cc
take_conn-fresh cfg now a (x ∷ conns) conn h = ground (arith, take_conn-fresh cfg now a conns conn)

get_from-fresh :
    (cfg : Config) (now : ℕ) (a : Answers) (key : String) (m : Dict Slot) (slot : Slot) (conn : ℕ)
    → (get_from cfg now a key m (some slot)).given ≡ some conn
    → (a.usable conn ≡ true) × (is_expired cfg now a conn ≡ false) × (0 < count conn slot.conns)
get_from-fresh cfg now a key m slot conn h =
    ground (arith, take_conn-fresh cfg now a slot.conns conn)

-- A connection that `Get` hands out of the pool was held for that key, is usable and was used within
-- the lifetime of connections.
pub get-fresh :
    (cfg : Config) (now : ℕ) (a : Answers) (key : String) (m : Dict Slot) (conn : ℕ)
    → (get cfg now a key (some m)).given ≡ some conn
    → (slot : Slot) × (lookup key m ≡ some slot)
      × (0 < count conn slot.conns)
      × (a.usable conn ≡ true)
      × (now ≤ a.last_use_at conn + cfg.max_conn_lifetime)
unfolding get
get-fresh cfg now a key m conn h = elim (Option-cases (lookup key m)) [
  | inl absent ↦ cc (subst (λ o. (get_from cfg now a key m o).given ≡ some conn) absent h)
  | inr (slot, e) ↦
      let (usable, fresh, held) =
        get_from-fresh cfg now a key m slot conn
          (subst (λ o. (get_from cfg now a key m o).given ≡ some conn) e h) in
      (slot, e, held, usable, ground arith)
]

-- Returns of connections to one key, with their times.
abbrev pub all_returns : String → List (ℕ × ℕ) → List Event
all_returns key [] = []
all_returns key ((time, conn) ∷ rest) = returns time key conn ∷ all_returns key rest

last_use-return_conn :
    (cfg : Config) (now : ℕ) (key : String) (conn : ℕ) (m : Dict Slot) (slot : Slot)
    → lookup key m ≡ some slot
    → (m' : Dict Slot) × (slot' : Slot) × ((return_conn cfg now key conn (some m)).keys ≡ some m')
      × (lookup key m' ≡ some slot')
      × (slot'.last_use ≡ slot.last_use)
unfolding return_conn
last_use-return_conn cfg now key conn m slot e =
    let longer : Slot = record slot { conns = slot.conns ++ conn ∷ [] } in
    elim (Bool-cases (ltb (length slot.conns) cfg.max_conns_per_key)) [
      | inl room ↦ (insert key longer m, longer, rw (e, room) refl, lookup_same key longer m, refl)
      | inr full ↦ (insert key slot m, slot, rw (e, full) refl, lookup_same key slot m, refl)
    ]

last_use-run :
    (cfg : Config) (key : String) (uses : List (ℕ × ℕ)) (m : Dict Slot) (slot : Slot)
    → lookup key m ≡ some slot
    → (m' : Dict Slot) × (slot' : Slot) × ((run cfg (some m) (all_returns key uses)).keys ≡ some m')
      × (lookup key m' ≡ some slot')
      × (slot'.last_use ≡ slot.last_use)
unfolding run step
last_use-run cfg key [] m slot e = (m, slot, refl, e, refl)
last_use-run cfg key ((time, conn) ∷ uses) m slot e =
    let (m', slot', open', e', same) = last_use-return_conn cfg time key conn m slot e in
    let (m'', slot'', open'', e'', same') = last_use-run cfg key uses m' slot' e' in
    (m'', slot'', rw open' open'', e'', same' ∙ same)

-- However often and however late connections were returned to a slot, a `Get` when the lifetime of a
-- connection has passed since the slot was made hands out none of those that the slot then holds: it closes all of
-- them, and the slot is gone.
pub get-all_returns :
    (cfg : Config) (now : ℕ) (a : Answers) (key : String) (uses : List (ℕ × ℕ)) (m : Dict Slot)
    (slot : Slot)
    → lookup key m ≡ some slot
    → slot.last_use + cfg.max_conn_lifetime < now
    → (m' : Dict Slot) × (slot' : Slot) × ((run cfg (some m) (all_returns key uses)).keys ≡ some m')
      × (lookup key m' ≡ some slot')
      × (get cfg now a key (run cfg (some m) (all_returns key uses)).keys
          ≡ record { keys = some (delete key m'); closed = slot'.conns; given = none })
      × (lookup key (delete key m') ≡ none)
get-all_returns cfg now a key uses m slot e old =
    let (m', slot', open', e', same) = last_use-run cfg key uses m slot e in
    let late : ltb (slot'.last_use + cfg.max_conn_lifetime) now ≡ true = ground arith in
    (
      m',
      slot',
      open',
      e',
      unfold get in
          rw open' (
            ap (get_from cfg now a key m') e'
            ∙ ap
                (λ b.
                  if b
                  then record { keys = some (delete key m'); closed = slot'.conns; given = none }
                  else record {
                    keys = some (
                        insert key (record slot' { conns = (take_conn cfg now a slot'.conns).2 })
                          m');
                    closed = (take_conn cfg now a slot'.conns).0;
                    given = (take_conn cfg now a slot'.conns).1;
                  })
                late),
      rw lookup-delete (ground (arith, str_eq_iff key key)),
    )
