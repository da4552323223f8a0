-- ===== src/Limits/Group/Config.antt =====
-- `Init` of internal/limits/limits.go: the limits that a configuration block sets up.
pub mod Ignored
use madmail.Prelude.{
  ℕ, Bool, true, false, String, Option, none, some, List, [], ◌∷◌, ◌++◌, ◌≡◌, refl, arith, str_eq,
  if◌then◌else◌,
}
use madmail.Prelude.Int.{ℤ, pos}
use madmail.Limits.Semaphore.{new_semaphore}
use madmail.Limits.Rate.{new_rate}
use madmail.Limits.Bucket.{BucketSet, new_bucket_set}
use madmail.Limits.Group.{Basic, rate_of, semaphore_of, Limits, Group, map_option}

-- A child of the block: its name and its arguments.
pub record Node : Type 0 where
  pub name : String
  pub args : List String

-- The constructors that the configuration makes. The refill interval does not matter to the permits.
pub data Ctor : Type 0 where
  rate_ctor : ℤ → ℤ → Ctor
  concurrency_ctor : ℤ → Ctor

-- Running a constructor; `none` is a panic of `make`.
unfoldable pub construct : Ctor → Option Basic
construct (rate_ctor burst period) = map_option rate_of (new_rate burst)
construct (concurrency_ctor max) = map_option semaphore_of (new_semaphore max)

abbrev cons_option : Option Basic → Option Limits → Option Limits
cons_option none rest = none
cons_option (some b) none = none
cons_option (some b) (some rest) = some (b ∷ rest)

unfoldable pub construct_all : List Ctor → Option Limits
construct_all [] = some []
construct_all (c ∷ cs) = cons_option (construct c) (construct_all cs)

abbrev second : ℤ
second = pos 1000000000

abbrev minute : ℤ
minute = pos 60000000000

-- The four lists that `Init` collects.
pub record Collected : Type 0 where
  pub global : Limits
  pub ip : List Ctor
  pub source : List Ctor
  pub dest : List Ctor

pub data Init (A : Type 0) : Type 0 where
  ready : A → Init A
  config_error : Init A
  panics : Init A

abbrev add_global : Collected → Option Basic → Init Collected
add_global c none = panics
add_global c (some b) = ready (record c { global = c.global ++ b ∷ [] })

unfoldable pub add_scope : Collected → String → Ctor → Init Collected
add_scope c scope ctor =
    if str_eq scope "all"
    then add_global c (construct ctor)
    else if str_eq scope "ip"
    then ready (record c { ip = c.ip ++ ctor ∷ [] })
    else if str_eq scope "source"
    then ready (record c { source = c.source ++ ctor ∷ [] })
    else if str_eq scope "destination"
    then ready (record c { dest = c.dest ++ ctor ∷ [] })
    else config_error

infixl 5 ◌>>=◌
abbrev ◌>>=◌ : {A B : Type 0} → Init A → (A → Init B) → Init B
ready a >>= f = f a
config_error >>= f = config_error
panics >>= f = panics

abbrev parsed : {A : Type 0} → Option A → Init A
parsed none = config_error
parsed (some a) = ready a

abbrev bucket_set : List Ctor → List Ctor → Option (BucketSet Limits)
bucket_set [] ctors = none
bucket_set (c ∷ cs) ctors = some (new_bucket_set (some (construct_all ctors)) minute 20010)

-- The constructors of `destination` are `sourceL`, as the code has it.
abbrev assemble : Collected → Group
assemble c = record {
  global = c.global;
  ip = bucket_set c.ip c.ip;
  source = bucket_set c.source c.source;
  dest = bucket_set c.dest c.source;
}

abbrev nothing : Collected
nothing = record { global = []; ip = []; source = []; dest = [] }

module _ (atoi : String → Option ℤ) (parse_duration : String → Option ℤ) where
  unfoldable pub rate_args : List String → Init Ctor
  rate_args (burst ∷ []) = do b ← parsed (atoi burst); ready (rate_ctor b second)
  rate_args (burst ∷ period ∷ []) = do
    p ← parsed (parse_duration period)
    b ← parsed (atoi burst)
    ready (rate_ctor b p)
  rate_args _ = config_error

  unfoldable pub concurrency_args : List String → Init Ctor
  concurrency_args (max ∷ []) = do m ← parsed (atoi max); ready (concurrency_ctor m)
  concurrency_args _ = config_error

  unfoldable pub ctor_of : List String → Init Ctor
  unfolding rate_args concurrency_args
  ctor_of [] = config_error
  ctor_of (kind ∷ args) =
      if str_eq kind "rate"
      then rate_args args
      else if str_eq kind "concurrency"
      then concurrency_args args
      else config_error

  -- The loop over the children.
  unfoldable pub collect : Collected → List Node → Init Collected
  unfolding ctor_of add_scope
  collect c [] = ready c
  collect c (node ∷ nodes) = do
    ctor ← ctor_of node.args
    c' ← add_scope c node.name ctor
    collect c' nodes

  unfoldable pub init : List Node → Init Group
  unfolding collect
  init nodes = do c ← collect nothing nodes; ready (assemble c)
