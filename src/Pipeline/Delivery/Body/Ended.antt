-- ===== src/Pipeline/Delivery/Body/Ended.antt =====
-- How a delivery through the pipeline ends for its targets: Commit and Abort of
-- internal/msgpipeline/msgpipeline.go, after any requests.
use mathlib.Core.List.Perm
use mathlib.Core.List.{Perm}
use madmail.Prelude.{ℕ, Option, List, [], ◌∷◌, ◌++◌, Text, ◌≡◌}
use madmail.Dmarc.Verifier.{VerifyData}
use madmail.Pipeline.Delivery.{Log, Ret, fails, gives, Pipeline, Started, Delivery}
use madmail.Pipeline.Delivery.Kept.{starts, ends, collect, targets, Kept}
use madmail.Pipeline.Delivery.Recipients.{add_rcpt}
use madmail.Pipeline.Delivery.Body.{body, body_non_atomic}

-- What an endpoint requests of a delivery before it ends it.
pub data Request : Type 0 where
  adds : Text → Request
  sends : Option VerifyData → Request
  sends_each : Request

abbrev perform : Pipeline → Request → Delivery → Delivery
perform p (adds to) d = (add_rcpt p to d).1
perform p (sends v) d = (body p v d).1
perform p sends_each d = (body_non_atomic p d).1

unfoldable pub perform_all : Pipeline → List Request → Delivery → Delivery
perform_all p [] d = d
perform_all p (r ∷ rs) d = perform_all p rs (perform p r d)

-- With the result of `Commit`, the targets that were committed and those that were started.
abbrev pub CommitEnds : Ret (Unit {0}) → List ℕ → List ℕ → Type 0
CommitEnds (gives u) done all = Perm done all
CommitEnds (fails e) done all = (left : List ℕ) × Perm (done ++ left) all

-- The first of them were committed, in the order given.
abbrev CommitsFirst : Ret (Unit {0}) → List ℕ → List ℕ → Type 0
CommitsFirst (gives u) done all = done ≡ all
CommitsFirst (fails e) done all = (left : List ℕ) × (done ++ left ≡ all)

-- How a `range` visits the map of the targets: each once, in any order.
abbrev pub VisitsAll : Pipeline → Type 0
VisitsAll p = (log : Log) (ss : List Started) → Perm (p.world.order log ss) ss

module _ (p : Pipeline) where
  abbrev Commits : List Started → Delivery → Ret (Unit {0}) × Delivery → Type 0
  Commits ss d r =
      CommitsFirst r.0 (collect ends r.1.log) (collect ends d.log ++ targets ss)
      × (collect starts r.1.log ≡ collect starts d.log)
