-- ===== src/Limits/Group.antt =====
-- internal/limits/limits.go: the limits of one endpoint, by their configuration, and the permits that
-- a message takes. `strconv.Atoi` and `time.ParseDuration` are parameters.
pub mod Config
pub mod Permits
use madmail.Prelude.{ℕ, Bool, true, false, String, Option, none, some, List, [], ◌∷◌}
use madmail.Limits.Limiter.{Limiter, Taking, took, failed, panics, Error}
use madmail.Limits.Semaphore.{Semaphore, semaphore}
use madmail.Limits.Semaphore
use madmail.Limits.Rate.{Rate}
use madmail.Limits.Rate
use madmail.Limits.Multi.{Ends, multi}
use madmail.Limits.Multi
use madmail.Limits.Bucket.{BucketSet}
use madmail.Limits.Bucket

-- The two implementations of L that a configuration can name.
pub data Basic : Type 0 where
  rate_of : Rate → Basic
  semaphore_of : Semaphore → Basic

abbrev map_taking : {S T : Type 0} → (S → T) → Taking S → Taking T
map_taking f (took s) = took (f s)
map_taking f (failed e s) = failed e (f s)
map_taking f panics = panics

abbrev map_option : {S T : Type 0} → (S → T) → Option S → Option T
map_option f none = none
map_option f (some s) = some (f s)

unfoldable pub take_basic : Bool → Basic → Taking Basic
take_basic done (rate_of r) = map_taking rate_of (Rate.take_context done r)
take_basic done (semaphore_of s) = map_taking semaphore_of (Semaphore.take_context done s)

unfoldable pub release_basic : Basic → Option Basic
release_basic (rate_of r) = map_option rate_of (Rate.release r)
release_basic (semaphore_of s) = map_option semaphore_of (Semaphore.release s)

unfoldable pub close_basic : Basic → Option Basic
close_basic (rate_of r) = map_option rate_of (Rate.close r)
close_basic (semaphore_of s) = map_option semaphore_of (Semaphore.close s)

abbrev pub basic : Limiter Bool Basic
unfolding take_basic release_basic close_basic
basic = record { take_context = take_basic; release = release_basic; close = close_basic }

-- A MultiLimit of these.
abbrev pub Limits : Type 0
Limits = List Basic

pub record Group : Type 0 where
  pub global : Limits
  pub ip : Option (BucketSet Limits)
  pub source : Option (BucketSet Limits)
  pub dest : Option (BucketSet Limits)

-- The error returns of `TakeMsg`, each after its releases. A `Release` on a nil BucketSet panics.
abbrev release_global : Error → Group → Option Limits → Taking Group
release_global e g none = panics
release_global e g (some global) = failed e (record g { global = global })

abbrev release_ip : String → Option (BucketSet Limits) → Option (BucketSet Limits)
release_ip addr none = none
release_ip addr (some b) = Bucket.release (multi basic) addr b

abbrev release_both : Error → Group → Option Limits → Option (BucketSet Limits) → Taking Group
release_both e g none ip = panics
release_both e g (some global) none = panics
release_both e g (some global) (some ip) = failed e (record g { global = global; ip = some ip })

abbrev source_taken : String → Group → Taking (BucketSet Limits) → Taking Group
source_taken addr g (took b) = took (record g { source = some b })
source_taken addr g (failed e b) =
    release_both e (record g { source = some b }) (Multi.release basic g.global)
      (release_ip addr g.ip)
source_taken addr g panics = panics

abbrev take_source : Ends → String → String → ℕ → Group → Option (BucketSet Limits) → Taking Group
take_source w addr domain now g none = took g
take_source w addr domain now g (some b) =
    source_taken addr g (Bucket.take_context (multi basic) w domain now b)

abbrev ip_taken : Ends → String → String → ℕ → Group → Taking (BucketSet Limits) → Taking Group
ip_taken w addr domain now g (took b) =
    take_source w addr domain now (record g { ip = some b }) g.source
ip_taken w addr domain now g (failed e b) =
    release_global e (record g { ip = some b }) (Multi.release basic g.global)
ip_taken w addr domain now g panics = panics

abbrev take_ip :
    Ends → Ends → String → String → ℕ → Group → Option (BucketSet Limits) → Taking Group
take_ip u w addr domain now g none = take_source w addr domain now g g.source
take_ip u w addr domain now g (some b) =
    ip_taken w addr domain now g (Bucket.take_context (multi basic) u addr now b)

abbrev global_taken : Ends → Ends → String → String → ℕ → Group → Taking Limits → Taking Group
global_taken u w addr domain now g (took global) =
    take_ip u w addr domain now (record g { global = global }) g.ip
global_taken u w addr domain now g (failed e global) = failed e (record g { global = global })
global_taken u w addr domain now g panics = panics

-- How the waits end: for the global limits, for those of the address, for those of the domain.
unfoldable pub take_msg : Ends → Ends → Ends → String → String → ℕ → Group → Taking Group
take_msg v u w addr domain now g =
    global_taken u w addr domain now g (Multi.take_context basic v g.global)

abbrev dest_taken : Group → Taking (BucketSet Limits) → Taking Group
dest_taken g (took b) = took (record g { dest = some b })
dest_taken g (failed e b) = failed e (record g { dest = some b })
dest_taken g panics = panics

abbrev take_dest_of : Ends → String → ℕ → Group → Option (BucketSet Limits) → Taking Group
take_dest_of w domain now g none = took g
take_dest_of w domain now g (some b) =
    dest_taken g (Bucket.take_context (multi basic) w domain now b)

unfoldable pub take_dest : Ends → String → ℕ → Group → Taking Group
take_dest w domain now g = take_dest_of w domain now g g.dest

abbrev release_if_set : String → Option (BucketSet Limits) → Option (Option (BucketSet Limits))
release_if_set key none = some none
release_if_set key (some b) = map_option some (Bucket.release (multi basic) key b)

abbrev released_all :
    Group
    → Option Limits
    → Option (Option (BucketSet Limits))
    → Option (Option (BucketSet Limits))
    → Option Group
released_all g none ip source = none
released_all g (some global) none source = none
released_all g (some global) (some ip) none = none
released_all g (some global) (some ip) (some source) =
    some (record g { global = global; ip = ip; source = source })

unfoldable pub release_msg : String → String → Group → Option Group
release_msg addr domain g =
    released_all g (Multi.release basic g.global) (release_if_set addr g.ip)
      (release_if_set domain g.source)

unfoldable pub release_dest : String → Group → Option Group
release_dest domain g = map_option (λ d. record g { dest = d }) (release_if_set domain g.dest)
