-- ===== src/Queue/Attempt/Counters.antt =====
-- The tries counters over the loop of `tryDelivery`.
use mathlib.Core.List.{append_assoc}
use madmail.Prelude.{
  ℕ, suc, ◌+◌, ◌≤◌, String, false, ◌||◌, Option, none, some, List, [], ◌∷◌, ◌++◌, ◌≡◌, refl, arith,
  str_eq_iff, contains, All, Bool-cases, inl, inr,
}
use madmail.Prelude.Dict.{Dict, lookup, insert, delete, lookup-insert, lookup-delete}
use madmail.Errors.{GoError, StoredError}
use madmail.Queue.Delivery.{Errs}
use madmail.Queue.Attempt.{Split, tries, gives_up, split_one, split, split_answer, fail, retry}

-- No recipient twice.
abbrev pub IsDistinct : List String → Type 0
IsDistinct [] = Unit {0}
IsDistinct (x ∷ xs) = (contains xs x ≡ false) × IsDistinct xs

abbrev pub AtLeast : ℕ → Dict ℕ → List String → Type 0
AtLeast n counts = All (λ r. n ≤ tries counts r)

AtLeast-insert :
    (n v : ℕ) (x : String) (counts : Dict ℕ) (xs : List String)
    → contains xs x ≡ false
    → AtLeast n counts xs
    → AtLeast n (insert x v counts) xs
AtLeast-insert n v x counts [] c h = tt
AtLeast-insert n v x counts (y ∷ ys) c h = (
  rw (lookup-insert x y) (ground (arith, str_eq_iff x y, str_eq_iff y x)),
  AtLeast-insert n v x counts ys (ground arith) h.1,
)

AtLeast-delete :
    (n : ℕ) (x : String) (counts : Dict ℕ) (xs : List String)
    → contains xs x ≡ false
    → AtLeast n counts xs
    → AtLeast n (delete x counts) xs
AtLeast-delete n x counts [] c h = tt
AtLeast-delete n x counts (y ∷ ys) c h = (
  rw (lookup-delete x y) (ground (arith, str_eq_iff x y, str_eq_iff y x)),
  AtLeast-delete n x counts ys (ground arith) h.1,
)

AtLeast-append :
    (n : ℕ) (counts : Dict ℕ) (xs ys : List String)
    → AtLeast n counts xs
    → AtLeast n counts ys
    → AtLeast n counts (xs ++ ys)
AtLeast-append n counts [] ys h k = k
AtLeast-append n counts (x ∷ xs) ys h k = (h.0, AtLeast-append n counts xs ys h.1 k)

contains-append :
    (xs ys : List String) (r : String) → contains (xs ++ ys) r ≡ (contains xs r || contains ys r)
contains-append [] ys r = refl
contains-append (x ∷ xs) ys r = ground (arith, contains-append xs ys r)

-- The middle of a list without duplicates is in neither part, and can be left out.
IsDistinct-middle :
    (xs ys : List String) (x : String)
    → IsDistinct (xs ++ x ∷ ys)
    → (contains xs x ≡ false) × (contains ys x ≡ false) × IsDistinct (xs ++ ys)
IsDistinct-middle [] ys x d = (refl, d.0, d.1)
IsDistinct-middle (y ∷ xs) ys x d =
    let (a, b, c) = IsDistinct-middle xs ys x d.1 in
    (
      ground (arith, contains-append xs (x ∷ ys) y, str_eq_iff x y, str_eq_iff y x),
      b,
      (ground (arith, contains-append xs (x ∷ ys) y, contains-append xs ys y), c),
    )

-- Between two rounds: the recipients to retry have one try more than those that are still to be seen
-- are known to have, and no recipient is in both.
pub record Loop (n : ℕ) (s : Split) (rest : List String) : Type 0 where
  pub retried : AtLeast (suc n) s.tries_count s.new_rcpts
  pub waiting : AtLeast n s.tries_count rest
  pub distinct : IsDistinct (s.new_rcpts ++ rest)

module _ (n max_tries : ℕ) (errs : Errs) where
  retry-Loop :
      (s : Split) (x : String) (rest : List String) (m : Dict StoredError)
      → Loop n s (x ∷ rest)
      → Loop n (retry (record s { rcpt_errs = m }) x) rest
  retry-Loop s x rest m h =
      let (a, b, c) = IsDistinct-middle s.new_rcpts rest x h.distinct in
      let v = tries s.tries_count x + 1 in
      record {
        retried =
            AtLeast-append (suc n) (insert x v s.tries_count) s.new_rcpts (x ∷ [])
              (AtLeast-insert (suc n) v x s.tries_count s.new_rcpts a h.retried)
              (rw lookup-insert (ground (arith, str_eq_iff x x)), tt);
        waiting = AtLeast-insert n v x s.tries_count rest b h.waiting.1;
        distinct = rw append_assoc h.distinct;
      }

  fail-Loop :
      (s : Split) (x : String) (rest : List String) (m : Dict StoredError)
      → Loop n s (x ∷ rest)
      → Loop n (fail (record s { rcpt_errs = m }) x) rest
  fail-Loop s x rest m h =
      let (a, b, c) = IsDistinct-middle s.new_rcpts rest x h.distinct in
      record {
        retried = AtLeast-delete (suc n) x s.tries_count s.new_rcpts a h.retried;
        waiting = AtLeast-delete n x s.tries_count rest b h.waiting.1;
        distinct = c;
      }

  answer-Loop :
      (o : Option GoError) (s : Split) (x : String) (rest : List String)
      → Loop n s (x ∷ rest)
      → Loop n (split_answer max_tries o s x) rest
  answer-Loop none s x rest h = record {
    retried = h.retried;
    waiting = h.waiting.1;
    distinct = (IsDistinct-middle s.new_rcpts rest x h.distinct).2;
  }
  answer-Loop (some err) s x rest h = elim (Bool-cases (gives_up max_tries s x err)) [
    | inl e ↦ rw (e, split_answer) (fail-Loop s x rest _ h)
    | inr e ↦ rw (e, split_answer) (retry-Loop s x rest _ h)
  ]

  pub split-Loop :
      (s : Split) (to : List String) → Loop n s to → Loop n (split max_tries errs s to) []
  unfolding split split_one
  split-Loop s [] h = h
  split-Loop s (x ∷ to) h =
      split-Loop (split_one max_tries errs s x) to (answer-Loop (lookup x errs) s x to h)

  -- From `max_tries - 1` tries on, nobody is retried.
  pub split-new_rcpts :
      (s : Split) (to : List String)
      → max_tries ≤ suc n
      → Loop n s to
      → s.new_rcpts ≡ []
      → (split max_tries errs s to).new_rcpts ≡ []
  unfolding split split_one
  split-new_rcpts s [] h l e = e
  split-new_rcpts s (x ∷ to) h l e =
      split-new_rcpts (split_one max_tries errs s x) to h (answer-Loop (lookup x errs) s x to l)
        (ground (arith, l.waiting.0))
