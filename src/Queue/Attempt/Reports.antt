-- ===== src/Queue/Attempt/Reports.antt =====
-- The bounce message of an attempt.
use madmail.Prelude.{
  ℕ, String, true, false, Option, none, some, List, [], ◌∷◌, ◌++◌, ◌≡◌, ◌≢◌, refl, arith, str_eq,
  str_eq_iff, All, Bool-cases, inl, inr,
}
use madmail.Prelude.Dict.{Dict, lookup, insert, lookup-insert}
use madmail.Errors.{GoError, StoredError, to_smtp_err}
use madmail.Queue.Delivery.{Errs, Target, deliver}
use madmail.Queue.Attempt.{
  Meta, Split, gives_up, split_one, split, split_answer, RecipientInfo, info, rcpt_infos, bounce,
  emit_dsn, bounce_for, Config, begin, try_delivery,
}

-- The error that is stored for `r` is the one of this attempt.
abbrev Stored : Errs → Dict StoredError → String → Type 0
Stored errs m r =
    (err : GoError) × (lookup r errs ≡ some err) × (lookup r m ≡ some (to_smtp_err err))

module _ (errs : Errs) where
  Stored-insert :
      (m : Dict StoredError) (x : String) (err : GoError) (xs : List String)
      → lookup x errs ≡ some err
      → All (Stored errs m) xs
      → All (Stored errs (insert x (to_smtp_err err) m)) xs
  Stored-insert m x err [] e h = tt
  Stored-insert m x err (r ∷ xs) e ((err', e', s), h) =
      ((err', e', rw lookup-insert (ground (arith, str_eq_iff x r))), Stored-insert m x err xs e h)

  Stored-append :
      (m : Dict StoredError) (xs : List String) (x : String)
      → All (Stored errs m) xs
      → Stored errs m x
      → All (Stored errs m) (xs ++ x ∷ [])
  Stored-append m [] x h s = (s, tt)
  Stored-append m (y ∷ xs) x h s = (h.0, Stored-append m xs x h.1 s)

  answer-Stored :
      (max_tries : ℕ) (s : Split) (x : String) (o : Option GoError)
      → lookup x errs ≡ o
      → All (Stored errs s.rcpt_errs) s.failed_rcpts
      → All
          (Stored errs (split_answer max_tries o s x).rcpt_errs)
          (split_answer max_tries o s x).failed_rcpts
  answer-Stored max_tries s x none e h = h
  answer-Stored max_tries s x (some err) e h =
      let kept = Stored-insert s.rcpt_errs x err s.failed_rcpts e h in
      elim (Bool-cases (gives_up max_tries s x err)) [
        | inl b ↦
            rw (b, split_answer)
              (Stored-append _ s.failed_rcpts x kept
                (err, e, rw lookup-insert (ground (arith, str_eq_iff x x))))
        | inr b ↦ rw (b, split_answer) kept
      ]

  split-Stored :
      (max_tries : ℕ) (s : Split) (to : List String)
      → All (Stored errs s.rcpt_errs) s.failed_rcpts
      → All
          (Stored errs (split max_tries errs s to).rcpt_errs)
          (split max_tries errs s to).failed_rcpts
  unfolding split split_one
  split-Stored max_tries s [] h = h
  split-Stored max_tries s (x ∷ to) h =
      split-Stored max_tries (split_one max_tries errs s x) to
        (answer-Stored max_tries s x (lookup x errs) refl h)

-- A line for each failed recipient, in order, with the error of this attempt.
abbrev pub Reports : Errs → Dict String → List String → List RecipientInfo → Type 0
Reports errs originals [] [] = Unit {0}
Reports errs originals [] (i ∷ is) = ⊥
Reports errs originals (r ∷ rs) [] = ⊥
Reports errs originals (r ∷ rs) (i ∷ is) =
    ((err : GoError) × (lookup r errs ≡ some err) × (i ≡ info originals r (to_smtp_err err)))
    × Reports errs originals rs is

Reports-rcpt_infos :
    (errs : Errs) (meta : Meta) (rs : List String)
    → All (Stored errs meta.rcpt_errs) rs
    → (is : List RecipientInfo) × (rcpt_infos meta rs ≡ some is)
      × Reports errs meta.original_rcpts rs is
unfolding rcpt_infos
Reports-rcpt_infos errs meta [] h = ([], refl, tt)
Reports-rcpt_infos errs meta (r ∷ rs) ((err, e, s), h) =
    let (is, f, g) = Reports-rcpt_infos errs meta rs h in
    (info meta.original_rcpts r (to_smtp_err err) ∷ is, rw (s, f), ((err, e, refl), g))

bounce_for-bounce :
    (q : Config) (meta : Meta) (rs : List String) (is : List RecipientInfo)
    → q.has_pipeline ≡ true
    → str_eq meta.original_from "" ≡ false
    → q.dsn.has_no_id meta ≡ false
    → q.dsn.error meta is ≡ none
    → rs ≢ []
    → rcpt_infos meta rs ≡ some is
    → bounce_for q meta rs ≡ bounce meta.from meta.original_from is
unfolding emit_dsn
bounce_for-bounce q meta [] is p f n c ne e = absurd (ne refl)
bounce_for-bounce q meta (r ∷ rs) is p f n c ne e = rw (p, f, n, e, c) refl

-- With a bounce pipeline and a sender to tell, an attempt that gives up on some recipients sends one
-- bounce to the sender, and never panics on the way: it has a line for each of these recipients, in
-- order, with the error that this attempt ended in for it. This holds where the random identifier and the bounce
-- message are made, and the calls of the bounce pipeline end, without an error.
pub bounce-try_delivery :
    (q : Config) (t : Target) (meta : Meta) (now : ℕ)
    → q.has_pipeline ≡ true
    → str_eq meta.original_from "" ≡ false
    → ((m : Meta) → q.dsn.has_no_id m ≡ false)
    → ((m : Meta) (is : List RecipientInfo) → q.dsn.error m is ≡ none)
    → (try_delivery q t meta now).split.failed_rcpts ≢ []
    → (is : List RecipientInfo) × ((try_delivery q t meta now).bounce
        ≡ bounce meta.from meta.original_from is)
      × Reports
          (deliver t meta.to).0
          meta.original_rcpts
          (try_delivery q t meta now).split.failed_rcpts
          is
unfolding try_delivery
bounce-try_delivery q t meta now p f ids calls ne =
    let errs = (deliver t meta.to).0 in
    let s = split q.max_tries errs (begin meta) meta.to in
    let meta' = record meta { tries_count = s.tries_count; rcpt_errs = s.rcpt_errs } in
    let (is, e, reports) =
      Reports-rcpt_infos errs meta' s.failed_rcpts
        (split-Stored errs q.max_tries (begin meta) meta.to tt) in
    (is, bounce_for-bounce q meta' s.failed_rcpts is p f (ids meta') (calls meta' is) ne e, reports)
