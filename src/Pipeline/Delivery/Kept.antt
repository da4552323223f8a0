-- ===== src/Pipeline/Delivery/Kept.antt =====
-- What every piece of a delivery keeps, from `Start` until `Commit` or `Abort`: the targets that were
-- started are those of the deliveries, in order and each once, and none has ended.
use madmail.Prelude.{ℕ, false, Option, none, some, List, [], ◌∷◌, ◌++◌, any, ◌==◌, Text, ◌≡◌}
use madmail.Errors.{GoError}
use madmail.Pipeline.Checks.{Runner}
use madmail.Pipeline.Delivery.{
  Call, started, committed, aborted, Log, Ret, fails, gives, World, Started, Delivery, Action,
  continue, and_then, checking, each, close_group, new_member, new_group, rewrite_one_sender,
  group_sender, rewrite_one_rcpt, rewrite_each, group_rcpt, rewrite_one_body, group_body,
}

abbrev pub starts : Call → Option ℕ
starts (started target) = some target
starts _ = none

abbrev pub ends : Call → Option ℕ
ends (committed target) = some target
ends (aborted target) = some target
ends _ = none

abbrev pub pushed : Option ℕ → List ℕ → List ℕ
pushed none ts = ts
pushed (some t) ts = ts ++ t ∷ []

-- The targets of such calls, in the order of the calls.
abbrev pub collect : (Call → Option ℕ) → Log → List ℕ
collect f [] = []
collect f (c ∷ log) = pushed (f c) (collect f log)

abbrev pub targets : List Started → List ℕ
targets [] = []
targets (s ∷ rest) = s.target ∷ targets rest

abbrev pub Distinct : List ℕ → Type 0
Distinct [] = Unit {0}
Distinct (t ∷ ts) = (any (λ u. u == t) ts ≡ false) × Distinct ts

abbrev pub Kept : Delivery → Type 0
Kept d =
    (collect starts d.log ≡ targets d.deliveries)
    × (collect ends d.log ≡ [])
    × Distinct (targets d.deliveries)

abbrev pub Keeps : {A : Type 0} → Action A → Type 0
Keeps m = (d : Delivery) → Kept d → Kept (m d).1

continue-Kept :
    {A B : Type 0} (r : Ret A × Delivery) (f : A → Action B)
    → Kept r.1
    → ((a : A) → Keeps (f a))
    → Kept (continue r f).1
continue-Kept (fails e, d) f h k = h
continue-Kept (gives a, d) f h k = k a d h

pub and_then-Keeps :
    {A B : Type 0} (m : Action A) (f : A → Action B)
    → Keeps m
    → ((a : A) → Keeps (f a))
    → Keeps (and_then m f)
and_then-Keeps m f h k d v = continue-Kept (m d) f (h d v) k

pub each-Keeps :
    {A : Type 0} (f : A → Action (Unit {0}))
    → ((a : A) → Keeps (f a))
    → (xs : List A) → Keeps (each f xs)
each-Keeps f k [] = λ d v. v
each-Keeps f k (x ∷ xs) = and_then-Keeps (f x) (λ u. each f xs) (k x) (λ u. each-Keeps f k xs)

pub checking-Keeps : (f : Runner → Option GoError × Runner) → Keeps (checking f)
checking-Keeps f d v = v

module _ (w : World) where
  pub close_group-Kept : (states : List ℕ) (d : Delivery) → Kept d → Kept (close_group w states d)
  close_group-Kept [] d v = v
  close_group-Kept (state ∷ rest) d v = close_group-Kept rest _ v

  new_member-Keeps :
      (states : List ℕ) (m : ℕ) (e : Option GoError) → Keeps (new_member w states m e)
  new_member-Keeps states m (some e) = close_group-Kept states
  new_member-Keeps states m none = λ d v. v

  pub new_group-Keeps : (states mods : List ℕ) → Keeps (new_group w states mods)
  unfolding new_group
  new_group-Keeps states [] = λ d v. v
  new_group-Keeps states (m ∷ mods) = λ d v.
      continue-Kept (new_member w states m (w.new_state d.log m) d) (λ made. new_group w made mods)
        (new_member-Keeps states m (w.new_state d.log m) d v) (λ made. new_group-Keeps made mods)

  pub group_sender-Keeps : (states : List ℕ) (from : Text) → Keeps (group_sender w states from)
  unfolding group_sender
  group_sender-Keeps [] from = λ d v. v
  group_sender-Keeps (state ∷ rest) from =
      and_then-Keeps (rewrite_one_sender w state from) (group_sender w rest) (λ d v. v)
        (group_sender-Keeps rest)

  pub rewrite_each-Keeps :
      (f : Text → Action (List Text))
      → ((to : Text) → Keeps (f to))
      → (built tos : List Text) → Keeps (rewrite_each w f built tos)
  rewrite_each-Keeps f k built [] = λ d v. v
  rewrite_each-Keeps f k built (to ∷ tos) =
      and_then-Keeps (f to) (λ more. rewrite_each w f (built ++ more) tos) (k to)
        (λ more. rewrite_each-Keeps f k (built ++ more) tos)

  pub group_rcpt-Keeps : (states : List ℕ) (tos : List Text) → Keeps (group_rcpt w states tos)
  unfolding group_rcpt
  group_rcpt-Keeps [] tos = λ d v. v
  group_rcpt-Keeps (state ∷ rest) tos =
      and_then-Keeps (rewrite_each w (rewrite_one_rcpt w state) [] tos) (group_rcpt w rest)
        (rewrite_each-Keeps (rewrite_one_rcpt w state) (λ to d v. v) [] tos) (group_rcpt-Keeps rest)

  pub group_body-Keeps : (states : List ℕ) → Keeps (group_body w states)
  group_body-Keeps = each-Keeps (rewrite_one_body w) (λ state d v. v)
