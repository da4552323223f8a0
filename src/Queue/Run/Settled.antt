-- ===== src/Queue/Run/Settled.antt =====
-- Every recipient of a message is settled, once, within the configured number of attempts.
use mathlib.Core.List.{append-nil}
use madmail.Prelude.{
  Bool, true, false, if◌then◌else◌, All, sym, ℕ, suc, ◌+◌, ◌≤◌, String, Option, none, some, List,
  [], ◌∷◌, ◌≡◌, refl, arith, subst, ap,
}
use madmail.Prelude.Dict.{Dict}
use madmail.Queue.Delivery.{Target, deliver}
use madmail.Queue.Attempt.{
  Meta, Config, Attempt, Fate, removed, requeued, begin, fate_of, split, try_delivery,
}
use madmail.Queue.Attempt.Places.{count, count-append, places-split}
use madmail.Queue.Attempt.Counters.{IsDistinct, AtLeast, Loop, split-Loop, split-new_rcpts}
use madmail.Queue.Run.{Try, History, run, after_attempt, ended}

-- The recipients of a message that may still be queued.
abbrev pub waiting : Option Meta → List String
waiting none = []
waiting (some meta) = meta.to

abbrev waiting_after : Fate → List String
waiting_after removed = []
waiting_after (requeued meta due) = meta.to

abbrev pub total : String → History → ℕ
total r h = count r h.delivered + count r h.failed + count r (waiting h.left)

to-fate_of :
    (q : Config) (meta : Meta) (now smallest : ℕ) (new : List String)
    → waiting_after (fate_of q meta now smallest new) ≡ new
to-fate_of q meta now smallest [] = refl
to-fate_of q meta now smallest (x ∷ new) = refl

-- One attempt: the delivered, the failed and the waiting recipients are those that were tried.
count-try_delivery :
    (q : Config) (t : Target) (meta : Meta) (now : ℕ) (r : String)
    → let a = try_delivery q t meta now in
      count r a.split.delivered + count r a.split.failed_rcpts + count r (waiting_after a.fate)
      ≡ count r meta.to
unfolding try_delivery
count-try_delivery q t meta now r =
    rw to-fate_of
      (omega (arith, places-split q.max_tries (deliver t meta.to).0 (begin meta) meta.to r))

-- The metadata that the next attempt reads.
abbrev next_meta : Bool → Meta → Meta → Meta
next_meta written old new = if written then new else old

-- What follows an attempt.
abbrev rest_of : Config → List Try → Bool → Meta → Fate → History
rest_of q rest written old removed = ended none
rest_of q rest written old (requeued meta due) = run q rest (next_meta written old meta)

run-cons :
    (q : Config) (t : Try) (rest : List Try) (meta : Meta)
    → run q (t ∷ rest) meta
      ≡ after_attempt
          (try_delivery q t.target meta t.now)
          (rest_of q rest t.is_written meta (try_delivery q t.target meta t.now).fate)
unfolding run
run-cons q t rest meta = ground arith

total-after_attempt :
    (a : Attempt) (h : History) (r : String)
    → total r (after_attempt a h)
      ≡ count r a.split.delivered + count r a.split.failed_rcpts + total r h
total-after_attempt a h r = omega (
  arith,
  count-append r a.split.delivered h.delivered,
  count-append r a.split.failed_rcpts h.failed,
)

-- The new metadata of every attempt are written.
abbrev pub AllWritten : List Try → Type 0
AllWritten = All (λ (t : Try). t.is_written ≡ true)

total-rest_of :
    (q : Config) (rest : List Try) (r : String) (old : Meta)
    → ((meta : Meta) → total r (run q rest meta) ≡ count r meta.to)
    → (f : Fate) → total r (rest_of q rest true old f) ≡ count r (waiting_after f)
total-rest_of q rest r old ih removed = omega arith
total-rest_of q rest r old ih (requeued meta due) = ih meta

-- However the target answers, over any number of attempts whose metadata are written, each recipient is
-- delivered, given up on or still waiting, in all as often as the message lists it: none is lost and none is
-- settled twice.
pub total-run :
    (q : Config) (r : String) (attempts : List Try) (meta : Meta)
    → AllWritten attempts
    → total r (run q attempts meta) ≡ count r meta.to
total-run q r [] meta written = unfold run in omega arith
total-run q r (t ∷ rest) meta (here, written) =
    let a = try_delivery q t.target meta t.now in
    let later : total r (rest_of q rest t.is_written meta a.fate) ≡ count r (waiting_after a.fate) =
      subst (λ b. total r (rest_of q rest b meta a.fate) ≡ count r (waiting_after a.fate))
        (sym here) (total-rest_of q rest r meta (λ m. total-run q r rest m written) a.fate) in
    rw run-cons
      (rw total-after_attempt (omega (arith, count-try_delivery q t.target meta t.now r, later)))

-- Each attempt settles no more of a recipient than it tried, so that none is lost whatever is written.
least-rest_of :
    (q : Config) (rest : List Try) (r : String) (written : Bool) (old : Meta)
    → ((meta : Meta) → count r meta.to ≤ total r (run q rest meta))
    → (f : Fate) → count r (waiting_after f) ≤ count r old.to
    → count r (waiting_after f) ≤ total r (rest_of q rest written old f)
least-rest_of q rest r written old ih removed h = omega arith
least-rest_of q rest r true old ih (requeued meta due) h = ih meta
least-rest_of q rest r false old ih (requeued meta due) h = omega (arith, h, ih old)

least-run :
    (q : Config) (r : String) (attempts : List Try) (meta : Meta)
    → count r meta.to ≤ total r (run q attempts meta)
least-run q r [] meta = unfold run in omega arith
least-run q r (t ∷ rest) meta =
    let a = try_delivery q t.target meta t.now in
    let tried = count-try_delivery q t.target meta t.now r in
    let fewer : count r (waiting_after a.fate) ≤ count r meta.to = omega (arith, tried) in
    rw run-cons (
      rw total-after_attempt (
        omega (
          arith,
          tried,
          least-rest_of q rest r t.is_written meta (least-run q r rest) a.fate fewer,
        )))

-- The state of a message before the attempt number n + 1.
record Tried (n : ℕ) (meta : Meta) : Type 0 where
  counted : AtLeast n meta.tries_count meta.to
  distinct : IsDistinct meta.to

abbrev FateTried : ℕ → Fate → Type 0
FateTried n removed = Unit {0}
FateTried n (requeued meta due) = Tried n meta

FateTried-fate_of :
    (q : Config) (meta : Meta) (now smallest n : ℕ) (new : List String)
    → AtLeast n meta.tries_count new
    → IsDistinct new
    → FateTried n (fate_of q meta now smallest new)
FateTried-fate_of q meta now smallest n [] c d = tt
FateTried-fate_of q meta now smallest n (x ∷ new) c d = record { counted = c; distinct = d }

start-Loop : (n : ℕ) (meta : Meta) → Tried n meta → Loop n (begin meta) meta.to
start-Loop n meta h = record { retried = tt; waiting = h.counted; distinct = h.distinct }

FateTried-try_delivery :
    (q : Config) (t : Target) (meta : Meta) (now n : ℕ)
    → Tried n meta
    → FateTried (suc n) (try_delivery q t meta now).fate
unfolding try_delivery
FateTried-try_delivery q t meta now n h =
    let errs = (deliver t meta.to).0 in
    let s = split q.max_tries errs (begin meta) meta.to in
    let l = split-Loop n q.max_tries errs (begin meta) meta.to (start-Loop n meta h) in
    FateTried-fate_of q (record meta { tries_count = s.tries_count; rcpt_errs = s.rcpt_errs }) now
      s.smallest (suc n) s.new_rcpts l.retried
      (subst IsDistinct (append-nil s.new_rcpts) l.distinct)

last-try_delivery :
    (q : Config) (t : Target) (meta : Meta) (now n : ℕ)
    → q.max_tries ≤ suc n
    → Tried n meta
    → (try_delivery q t meta now).fate ≡ removed
unfolding try_delivery
last-try_delivery q t meta now n m h = rw (
    split-new_rcpts n q.max_tries (deliver t meta.to).0 (begin meta) meta.to m (start-Loop n meta h)
      refl)

-- The attempts whose metadata are written.
abbrev pub writes : List Try → ℕ
writes [] = 0
writes (t ∷ rest) = (if t.is_written then 1 else 0) + writes rest

left-rest_of :
    (q : Config) (rest : List Try) (n : ℕ) (written : Bool) (old : Meta)
    → Tried n old
    → ((meta : Meta) → Tried (if written then suc n else n) meta → (run q rest meta).left ≡ none)
    → (f : Fate) → FateTried (suc n) f
    → (rest_of q rest written old f).left ≡ none
left-rest_of q rest n written old o ih removed h = refl
left-rest_of q rest n true old o ih (requeued meta due) h = ih meta h
left-rest_of q rest n false old o ih (requeued meta due) h = ih old o

left-last :
    (q : Config) (t : Try) (rest : List Try) (n : ℕ) (meta : Meta)
    → q.max_tries ≤ suc n
    → Tried n meta
    → (run q (t ∷ rest) meta).left ≡ none
left-last q t rest n meta m h =
    rw run-cons (rw (last-try_delivery q t.target meta t.now n m h) refl)

left-run :
    (q : Config) (t : Try) (rest : List Try) (n : ℕ) (meta : Meta)
    → q.max_tries ≤ n + writes (t ∷ rest)
    → Tried n meta
    → (run q (t ∷ rest) meta).left ≡ none
left-run q t [] n meta m h = left-last q t [] n meta (ground arith) h
left-run q t (u ∷ rest) n meta m h = rw run-cons (
    left-rest_of q (u ∷ rest) n t.is_written meta h
      (λ meta'. left-run q u rest (if t.is_written then suc n else n) meta' (ground arith))
      (try_delivery q t.target meta t.now).fate (FateTried-try_delivery q t.target meta t.now n h))

AtLeast-zero : (counts : Dict ℕ) (xs : List String) → AtLeast 0 counts xs
AtLeast-zero counts [] = tt
AtLeast-zero counts (x ∷ xs) = (omega arith, AtLeast-zero counts xs)

-- Whatever the target answers, a message with distinct recipients leaves the queue within as many attempts as it takes
-- for the new metadata to be written `max_tries` times, and within one attempt if `max_tries` is 0: then nobody
-- waits, and each recipient was delivered or given up on at least as often as the message lists it, so that none is
-- lost, also where some attempts fail to write the metadata.
pub run-settles :
    (q : Config) (t : Try) (rest : List Try) (meta : Meta) (r : String)
    → IsDistinct meta.to
    → q.max_tries ≤ writes (t ∷ rest)
    → let h = run q (t ∷ rest) meta in
      (h.left ≡ none) × (count r meta.to ≤ count r h.delivered + count r h.failed)
run-settles q t rest meta r d m =
    let gone =
      left-run q t rest 0 meta (omega arith)
        (record { counted = AtLeast-zero meta.tries_count meta.to; distinct = d }) in
    (
      gone,
      omega (
        arith,
        least-run q r (t ∷ rest) meta,
        ap (λ (o : Option Meta). count r (waiting o)) gone,
      ),
    )
