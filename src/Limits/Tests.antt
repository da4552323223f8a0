-- ===== src/Limits/Tests.antt =====
-- The theorems on the limiters at concrete states, and runs of the code.
use madmail.Prelude.{
  List, ◌==◌, ◌+◌, ◌*◌, ◌≤◌, String, false, Option, none, some, [], ◌∷◌, ◌≡◌, refl, arith,
}
use madmail.Prelude.Int.{ℤ, pos}
use madmail.Limits.Limiter.{failed, panics, context_done, Undone}
use madmail.Limits.Semaphore.{
  Semaphore, semaphore, semaphore-IsLimiter, new_semaphore, taken-le-cap,
}
use madmail.Limits.Semaphore
use madmail.Limits.Rate.{Rate, new_rate, run-le-burst, tokens-fill, fill, IsBucket}
use madmail.Limits.Rate
use madmail.Limits.Multi.{multi, Ends}
use madmail.Limits.Multi
use madmail.Limits.Multi.Rollback.{Pointwise, take_context-Undone}
use madmail.Limits.Bucket.{Bucket, BucketSet}
use madmail.Limits.Bucket
use madmail.Limits.Bucket.Full.{full-panics}
use madmail.Limits.Group.{
  Basic, semaphore_of, Group, take_basic, release_basic, close_basic, take_msg,
}
use madmail.Limits.Group.Config.{init, ready, construct_all}
use madmail.Limits.Group.Config.Ignored.{init-destination, destination}
use madmail.Limits.Group.Permits.{global-take_msg, SameLimits}

abbrev two_slots : Semaphore
two_slots = record { cap = 2; taken = 0 }

abbrev burst_three : Rate
burst_three = record { cap = 3; tokens = 3; stopped = false }

run-le-burst_example :
    (Rate.run burst_three (Rate.takes ∷ Rate.ticks ∷ Rate.takes ∷ [])).0 ≤ 3 * (1 + 1)
unfolding new_rate
run-le-burst_example =
    run-le-burst 3 burst_three (Rate.takes ∷ Rate.ticks ∷ Rate.takes ∷ []) (omega arith) refl

-- The wait for the second one ends.
abbrev second_ends : Ends
second_ends i = i == 1

abbrev one_free_one_full : List Semaphore
one_free_one_full = two_slots ∷ record { cap = 1; taken = 1 } ∷ []

take_context-Undone_example :
    Undone
      (Pointwise (semaphore-IsLimiter.Same))
      (Multi.release semaphore)
      one_free_one_full
      (Multi.take_context semaphore second_ends one_free_one_full)
take_context-Undone_example =
    take_context-Undone semaphore semaphore-IsLimiter second_ends one_free_one_full

abbrev one_bucket : BucketSet Semaphore
one_bucket = record {
  new = some (some two_slots);
  reap_interval = pos 60;
  max_buckets = 0;
  m = ("a", record { r = two_slots; last_use = 5 }) ∷ [];
}

full-panics_example : Bucket.take_context semaphore false "a" 900 one_bucket ≡ panics
full-panics_example =
    full-panics semaphore false "a" 900 60 (some two_slots) one_bucket refl refl (omega arith, tt)
      (omega arith)

abbrev atoi : String → Option ℤ
atoi s = some (pos 5)

abbrev parse_duration : String → Option ℤ
parse_duration s = none

abbrev empty_group : Group
empty_group = record {
  global = [];
  ip = none;
  source = none;
  dest = some (record {
    new = some (some []);
    reap_interval = pos 60000000000;
    max_buckets = 20010;
    m = [];
  });
}

init_rate : init atoi parse_duration (destination ("rate" ∷ "5" ∷ []) ∷ []) ≡ ready empty_group
unfolding init construct_all
init_rate = refl

init_concurrency :
    init atoi parse_duration (destination ("concurrency" ∷ "1" ∷ []) ∷ []) ≡ ready empty_group
unfolding init construct_all
init_concurrency = refl

init-destination_example : ◌≡◌ {A = Group} empty_group empty_group
init-destination_example =
    init-destination atoi parse_duration [] [] ("rate" ∷ "5" ∷ []) ("concurrency" ∷ "1" ∷ [])
      empty_group empty_group init_rate init_concurrency

abbrev never : Ends
never i = false

abbrev full_slot : Basic
full_slot = semaphore_of (record { cap = 1; taken = 1 })

abbrev busy_group : Group
busy_group = record { global = full_slot ∷ []; ip = none; source = none; dest = none }

busy :
    take_msg never never never "127.0.0.1" "example.org" 7 busy_group
    ≡ failed context_done busy_group
unfolding take_msg Multi.take_context Multi.take_from Multi.release Multi.close take_basic
    release_basic close_basic Semaphore.take_context Rate.take_context
busy = refl

global-take_msg_example : SameLimits busy_group.global busy_group.global
global-take_msg_example =
    global-take_msg never never never "127.0.0.1" "example.org" 7 busy_group busy_group context_done
      busy
