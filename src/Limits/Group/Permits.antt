-- ===== src/Limits/Group/Permits.antt =====
-- The permits that `TakeMsg` leaves out when it fails.
use madmail.Prelude.{ℕ, Bool, String, Option, none, some, ◌≡◌, refl, arith}
use madmail.Limits.Limiter.{Taking, took, failed, panics, Error, IsLimiter, Undone}
use madmail.Limits.Semaphore.{Semaphore, semaphore, semaphore-IsLimiter}
use madmail.Limits.Semaphore
use madmail.Limits.Rate.{Rate, rate, rate-IsLimiter, SameSize}
use madmail.Limits.Rate
use madmail.Limits.Multi.{Ends, multi}
use madmail.Limits.Multi
use madmail.Limits.Multi.Rollback.{take_context-Undone, Pointwise}
use madmail.Limits.Bucket.{BucketSet}
use madmail.Limits.Bucket
use madmail.Limits.Group.{
  Basic, rate_of, semaphore_of, Limits, Group, basic, map_taking, take_basic, release_basic,
  take_source, take_ip, ip_taken, global_taken, take_msg,
}

-- A semaphore with the same permits out; a rate limiter of the same size, closed or not as before.
abbrev pub SameBasic : Basic → Basic → Type 0
SameBasic (rate_of r) (rate_of t) = SameSize r t
SameBasic (rate_of r) (semaphore_of t) = ⊥
SameBasic (semaphore_of s) (rate_of t) = ⊥
SameBasic (semaphore_of s) (semaphore_of t) = s ≡ t

SameBasic-refl : (b : Basic) → SameBasic b b
SameBasic-refl (rate_of r) = (refl, refl)
SameBasic-refl (semaphore_of s) = refl

rate-Undone :
    (r : Rate) (t : Taking Rate)
    → Undone SameSize Rate.release r t
    → Undone SameBasic release_basic (rate_of r) (map_taking rate_of t)
unfolding release_basic
rate-Undone r (took r') (t, e, same) = (rate_of t, rw e refl, same)
rate-Undone r (failed x r') h = h
rate-Undone r panics h = h

semaphore-Undone :
    (s : Semaphore) (t : Taking Semaphore)
    → Undone ◌≡◌ Semaphore.release s t
    → Undone SameBasic release_basic (semaphore_of s) (map_taking semaphore_of t)
unfolding release_basic
semaphore-Undone s (took s') (t, e, same) = (semaphore_of t, rw e refl, same)
semaphore-Undone s (failed x s') h = h
semaphore-Undone s panics h = h

basic-Undone : (done : Bool) (b : Basic) → Undone SameBasic release_basic b (take_basic done b)
unfolding take_basic
basic-Undone done (rate_of r) = rate-Undone r (Rate.take_context done r) (Rate.undone done r)
basic-Undone done (semaphore_of s) =
    semaphore-Undone s (Semaphore.take_context done s) (Semaphore.undone done s)

basic-IsLimiter : IsLimiter basic
unfolding basic take_basic
basic-IsLimiter = record { Same = SameBasic; same_refl = SameBasic-refl; undone = basic-Undone }

-- The global permits as before.
abbrev pub SameLimits : Limits → Limits → Type 0
SameLimits = Pointwise SameBasic

global-Undone :
    (v : Ends) (ls : Limits)
    → Undone SameLimits (Multi.release basic) ls (Multi.take_context basic v ls)
global-Undone v ls = unfold basic-IsLimiter in take_context-Undone basic basic-IsLimiter v ls

module _ (u w : Ends) (addr domain : String) (now : ℕ) (t : Limits) where
  source-restores :
      (g g' : Group) (e : Error) (o : Option (BucketSet Limits))
      → Multi.release basic g.global ≡ some t
      → take_source w addr domain now g o ≡ failed e g'
      → g'.global ≡ t
  source-restores g g' e none rel h = cc
  source-restores g g' e (some b) rel h = ground arith

  ip-restores :
      (g g' : Group) (e : Error) (o : Option (BucketSet Limits))
      → Multi.release basic g.global ≡ some t
      → take_ip u w addr domain now g o ≡ failed e g'
      → g'.global ≡ t
  ip-restores g g' e none rel h = source-restores g g' e g.source rel h
  ip-restores g g' e (some b) rel h = after_ip (Bucket.take_context (multi basic) u addr now b) h
    where
      after_ip :
          (r : Taking (BucketSet Limits))
          → ip_taken w addr domain now g r ≡ failed e g'
          → g'.global ≡ t
      after_ip (took b') k = source-restores (record g { ip = some b' }) g' e g.source rel k
      after_ip (failed x b') k = ground arith
      after_ip panics k = cc

global-restores :
    (u w : Ends) (addr domain : String) (now : ℕ) (g g' : Group) (e : Error) (r : Taking Limits)
    → Undone SameLimits (Multi.release basic) g.global r
    → global_taken u w addr domain now g r ≡ failed e g'
    → SameLimits g.global g'.global
global-restores u w addr domain now g g' e (took global) (t, rel, same) h =
    rw (ip-restores u w addr domain now t (record g { global = global }) g' e g.ip rel h) same
global-restores u w addr domain now g g' e (failed x global) same h = ground arith
global-restores u w addr domain now g g' e panics k h = cc

-- When `TakeMsg` returns an error, whichever of the limits refused and however the waits ended, every
-- global concurrency limit has the permits out that it had before the call, and every global rate
-- limit has its size and is closed or not as before; a token that was taken from a rate limit may be lost.
pub global-take_msg :
    (v u w : Ends) (addr domain : String) (now : ℕ) (g g' : Group) (e : Error)
    → take_msg v u w addr domain now g ≡ failed e g'
    → SameLimits g.global g'.global
unfolding take_msg
global-take_msg v u w addr domain now g g' e h =
    global-restores u w addr domain now g g' e (Multi.take_context basic v g.global)
      (global-Undone v g.global) h
