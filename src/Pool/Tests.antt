-- ===== src/Pool/Tests.antt =====
-- The theorems on the connection pool at concrete pools.
use madmail.Prelude.{◌+◌, ◌≤◌, ◌<◌, Bool, true, none, some, List, [], ◌∷◌, ◌≡◌, refl, arith}
use madmail.Prelude.Dict.{Dict, lookup, delete}
use madmail.Pool.{Config, Slot, Answers, get, Event, returns, gets, close}
use madmail.Pool.Accounting.{run, count, held, count-run}
use madmail.Pool.Fresh.{get-fresh, all_returns, get-all_returns}

abbrev config : Config
config = record {
  max_keys = 2;
  max_conns_per_key = 1;
  max_conn_lifetime = 60;
  stale_key_lifetime = 300;
}

abbrev usable : Answers
usable = record { usable = λ conn. true; last_use_at = λ conn. 100 }

-- The second connection finds the channel full.
abbrev events : List Event
events = returns 10 "a" 7 ∷ returns 11 "a" 8 ∷ gets 12 usable "a" ∷ []

count-run_example :
    (count 7 (held (run config (some []) events).keys)
        + count 7 (run config (some []) events).closed
        + count 7 (run config (some []) events).given
      ≡ 1)
    × (count 7 (close (run config (some []) events).keys).closed
          + count 7 (run config (some []) events).closed
          + count 7 (run config (some []) events).given
        ≡ 1)
count-run_example = count-run 7 config events

abbrev one_key : Dict Slot
one_key = ("a", record { conns = 7 ∷ []; last_use = 90 }) ∷ []

gives : (get config 120 usable "a" (some one_key)).given ≡ some 7
unfolding get lookup
gives = refl

get-fresh_example :
    (slot : Slot) × (lookup "a" one_key ≡ some slot)
    × (0 < count 7 slot.conns)
    × (◌≡◌ {A = Bool} true true)
    × (120 ≤ 160)
get-fresh_example = get-fresh config 120 usable "a" one_key 7 gives

-- The connection was returned a second ago, to a slot that is 61 seconds old.
get-all_returns_example :
    let keys = (run config (some one_key) (all_returns "a" ((150, 8) ∷ []))).keys in
    (m : Dict Slot) × (slot : Slot) × (keys ≡ some m)
    × (lookup "a" m ≡ some slot)
    × (get config 151 usable "a" keys
        ≡ record { keys = some (delete "a" m); closed = slot.conns; given = none })
    × (lookup "a" (delete "a" m) ≡ none)
unfolding lookup
get-all_returns_example =
    get-all_returns config 151 usable "a" ((150, 8) ∷ []) one_key
      (record { conns = 7 ∷ []; last_use = 90 }) refl (omega arith)
