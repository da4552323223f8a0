-- ===== src/Pool.antt =====
-- internal/smtpconn/pool/pool.go: the pool of idle connections, by key. A connection is a number, and
-- what it answers to `Usable` and `LastUseAt` is given with each `Get`. Times are in seconds. Each
-- operation is one step; a channel of connections is the list of those in it.
pub mod Accounting
pub mod Fresh
mod Tests
use madmail.Prelude.{
  ℕ, ◌+◌, ◌<◌, String, Bool, true, false, not, ◌||◌, Option, none, some, List, [], ◌∷◌, ◌++◌, ltb,
  ◌==◌, length, if◌then◌else◌,
}
use madmail.Prelude.Dict.{Dict, lookup, insert, delete}

-- Config, without `New`.
pub record Config : Type 0 where
  pub max_keys : ℕ
  pub max_conns_per_key : ℕ
  pub max_conn_lifetime : ℕ
  pub stale_key_lifetime : ℕ

pub record Slot : Type 0 where
  pub conns : List ℕ
  pub last_use : ℕ

-- The map of the pool, which is nil after `Close`.
abbrev pub Keys : Type 0
Keys = Option (Dict Slot)

-- What an operation leaves: the map, the connections it closed, and for `Get` the one it returns; none
-- is a call of `New`.
pub record Outcome : Type 0 where
  pub keys : Keys
  pub closed : List ℕ
  pub given : Option ℕ

abbrev unchanged : Keys → Outcome
unchanged keys = record { keys = keys; closed = []; given = none }

abbrev pub is_stale : Config → ℕ → Slot → Bool
is_stale cfg now slot = not (ltb now (slot.last_use + cfg.stale_key_lifetime))

-- The loop of `CleanUp` and of `Return`: the slots that are kept, and the connections closed.
unfoldable pub sweep : Config → ℕ → Dict Slot → Dict Slot × List ℕ
sweep cfg now [] = ([], [])
sweep cfg now ((key, slot) ∷ m) =
    let (kept, closed) = sweep cfg now m in
    if is_stale cfg now slot then (kept, slot.conns ++ closed) else ((key, slot) ∷ kept, closed)

unfoldable pub clean_up : Config → ℕ → Keys → Outcome
unfolding sweep
clean_up cfg now none = unchanged none
clean_up cfg now (some m) =
    let (kept, closed) = sweep cfg now m in
    record { keys = some kept; closed = closed; given = none }

-- What the connections answer when they are asked.
pub record Answers : Type 0 where
  pub usable : ℕ → Bool
  pub last_use_at : ℕ → ℕ

abbrev pub is_expired : Config → ℕ → Answers → ℕ → Bool
is_expired cfg now a conn = ltb (a.last_use_at conn + cfg.max_conn_lifetime) now

-- The loop of `Get`: the connections closed, the one returned and those left in the channel.
unfoldable pub take_conn : Config → ℕ → Answers → List ℕ → List ℕ × Option ℕ × List ℕ
take_conn cfg now a [] = ([], none, [])
take_conn cfg now a (conn ∷ rest) =
    let (closed, given, left) = take_conn cfg now a rest in
    if not (a.usable conn)
    then (conn ∷ closed, given, left)
    else if is_expired cfg now a conn
    then (conn ∷ closed, given, left)
    else ([], some conn, rest)

abbrev get_from : Config → ℕ → Answers → String → Dict Slot → Option Slot → Outcome
get_from cfg now a key m none = unchanged (some m)
get_from cfg now a key m (some slot) =
    let (closed, given, left) = take_conn cfg now a slot.conns in
    if ltb (slot.last_use + cfg.max_conn_lifetime) now
    then record { keys = some (delete key m); closed = slot.conns; given = none }
    else record {
      keys = some (insert key (record slot { conns = left }) m);
      closed = closed;
      given = given;
    }

unfoldable pub get : Config → ℕ → Answers → String → Keys → Outcome
unfolding take_conn
get cfg now a key none = unchanged none
get cfg now a key (some m) = get_from cfg now a key m (lookup key m)

-- The last `select` of `Return`. It sets the time of the last use in a copy of the slot, which is lost.
abbrev put_back : Config → String → ℕ → Slot → Dict Slot → List ℕ → Outcome
put_back cfg key conn slot m closed =
    if ltb (length slot.conns) cfg.max_conns_per_key
    then record {
      keys = some (insert key (record slot { conns = slot.conns ++ conn ∷ [] }) m);
      closed = closed;
      given = none;
    }
    else record { keys = some (insert key slot m); closed = closed ++ conn ∷ []; given = none }

abbrev make_room : Config → ℕ → Dict Slot → Dict Slot × List ℕ
make_room cfg now m = if length m == cfg.max_keys then sweep cfg now m else (m, [])

abbrev return_to : Config → ℕ → String → ℕ → Dict Slot → Option Slot → Outcome
return_to cfg now key conn m (some slot) = put_back cfg key conn slot m []
return_to cfg now key conn m none =
    let (kept, closed) = make_room cfg now m in
    put_back cfg key conn (record { conns = []; last_use = now }) kept closed

unfoldable pub return_conn : Config → ℕ → String → ℕ → Keys → Outcome
unfolding sweep
return_conn cfg now key conn none = unchanged none
return_conn cfg now key conn (some m) = return_to cfg now key conn m (lookup key m)

unfoldable pub all_conns : Dict Slot → List ℕ
all_conns [] = []
all_conns ((key, slot) ∷ m) = slot.conns ++ all_conns m

unfoldable pub close : Keys → Outcome
unfolding all_conns
close none = unchanged none
close (some m) = record { keys = none; closed = all_conns m; given = none }

-- The operations of the pool until it is closed.
pub data Event : Type 0 where
  returns : ℕ → String → ℕ → Event
  gets : ℕ → Answers → String → Event
  cleans : ℕ → Event

unfoldable pub step : Config → Keys → Event → Outcome
step cfg keys (returns now key conn) = return_conn cfg now key conn keys
step cfg keys (gets now a key) = get cfg now a key keys
step cfg keys (cleans now) = clean_up cfg now keys
