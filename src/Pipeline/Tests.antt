-- ===== src/Pipeline/Tests.antt =====
-- The theorems on the message pipeline at concrete pipelines.
use mathlib.Core.List.Perm
use mathlib.Core.List.{Perm}
use madmail.Prelude.{
  ◌++◌, ℕ, ◌+◌, ◌≤◌, leb, Bool, true, false, ◌&&◌, Option, none, some, List, [], ◌∷◌, map, ◌≡◌,
  refl, Text, codes, text_eq, String, if◌then◌else◌,
}
use madmail.Errors.{GoError, leaf}
use madmail.Dmarc.{
  AuthResult, dkim, spf, fail, pass, relaxed, strict, unset_policy, reject, is_aligned,
}
use madmail.Dmarc.Verifier.{VerifyData, FetchError}
use madmail.Address.{split}
use madmail.Address.Lookup.{Unicode, for_lookup, equal}
use madmail.Pipeline.Checks.{
  Env, Event, check_conn_sender, check_rcpt, check_states, check_body, Kind, body, CheckResult,
  Runner, new_runner, Request, conn_sender_of, rcpt_of, run_and_merge, handle_all,
}
use madmail.Pipeline.Checks.Once.{rcpt_calls, rcpt_calls-handle_all}
use madmail.Pipeline.Checks.Verdict.{verdict-run_and_merge}
use madmail.Pipeline.Checks.Results.{
  Libs, policy-apply_results, apply_results, is_refused, with_dmarc,
}
use madmail.Pipeline.Routing.{
  RcptBlock, SourceBlock, block-equal, src_block_for_addr, rcpt_block_for_addr, routed,
}
use madmail.Pipeline.Delivery.{Pipeline, World, Delivery, new_delivery, gives}
use madmail.Pipeline.Delivery.Body
use madmail.Pipeline.Delivery.Body.Ended
use madmail.Pipeline.Delivery.Recipients.{add_rcpt}
use madmail.Pipeline.Delivery.Kept.{collect, starts}
use madmail.Pipeline.Delivery.Start.{start_delivery}
use madmail.Pipeline.Delivery.Body.{commit, abort, checked_body}
use madmail.Pipeline.Delivery.Body.Ended.{perform_all, adds, sends}
use madmail.Pipeline.Delivery.Body.Refused.{Fails, reject-body}

abbrev no_start : List Event → ℕ → Option GoError
no_start log check = none

abbrev passing : CheckResult
passing = record {
  reason = none;
  reject = false;
  quarantine = false;
  auth_result = [];
  header = [];
}

abbrev some_error : GoError
some_error = leaf (record { temporary = none; fields = []; plain = none })

abbrev quarantining : CheckResult
quarantining = record passing { reason = some some_error; quarantine = true }

-- The state 1 asks for quarantine, the others pass.
abbrev answer : List Event → Kind → ℕ → Option CheckResult
answer log kind state = if leb 1 state then some quarantining else some passing

abbrev backwards : List ℕ → List ℕ
backwards [] = []
backwards (o ∷ states) = backwards states ++ o ∷ []

abbrev env : Env
env = record { order = λ log kind states. backwards states; start = no_start; answer = answer }

abbrev alice : Text
alice = codes "alice@b.com"

abbrev requests : List Request
requests = conn_sender_of (5 ∷ []) alice ∷ rcpt_of (5 ∷ []) alice ∷ rcpt_of (5 ∷ 6 ∷ []) alice ∷ []

rcpt_calls-handle_all_example :
    (rcpt_calls 0 alice (handle_all env requests new_runner).log ≡ 1)
    × (rcpt_calls 0 alice (handle_all env requests new_runner).log ≤ 1)
unfolding handle_all check_conn_sender check_rcpt
rcpt_calls-handle_all_example = rcpt_calls-handle_all env requests 0 alice

verdict-run_and_merge_example :
    ((run_and_merge env body (0 ∷ 1 ∷ []) new_runner).0 ≡ none)
    × ((run_and_merge env body (0 ∷ 1 ∷ []) new_runner).1.quarantine ≡ true)
verdict-run_and_merge_example = verdict-run_and_merge env body (0 ∷ 1 ∷ []) new_runner

-- Every domain is its own organisation, below the suffix "com".
abbrev suffix : Text → Text
suffix name = codes "com"

abbrev itself : Text → Option Text
itself name = some name

abbrev no_text : FetchError → Text
no_text e = []

abbrev format : String → List AuthResult → String
format host results = "results"

abbrev libs : Libs
libs = record {
  names = record { equal_fold = text_eq; public_suffix = suffix; etld_plus_one = itself };
  error_text = no_text;
  format_results = format;
  fields = λ header. header;
  draw = 5;
}

abbrev failing : List AuthResult
failing =
    dkim (record { value = fail; domain = codes "b.com" })
    ∷ spf (record { value = pass; from = codes "c.com"; helo = [] })
    ∷ []

abbrev rejecting : VerifyData
rejecting = record {
  policy_domain = codes "a.com";
  from_domain = codes "a.com";
  record_found = some (record {
    dkim_alignment = relaxed;
    spf_alignment = strict;
    percent = none;
    policy = reject;
    subdomain_policy = unset_policy;
  });
  record_err = none;
}

abbrev checked : Runner
checked = record new_runner { auth_result = failing }

policy-apply_results_example :
    let (e, m) = apply_results libs "mx" (some rejecting) false checked in
    (is_refused e ≡ true)
    × (m.quarantine ≡ false)
    × (m.added ≡ [])
    × (m.auth_result ≡ with_dmarc libs failing (some rejecting))
unfolding is_aligned
policy-apply_results_example = policy-apply_results libs "mx" (some rejecting) false checked

abbrev lower : ℕ → ℕ
lower c = if leb 65 c && leb c 90 then c + 32 else c

abbrev to_lower : Text → Text
to_lower = map lower

abbrev never : Text → Bool
never t = false

abbrev unicode : Unicode
unicode = record { nfc = λ t. t; to_lower = to_lower; to_unicode = itself; is_ip = never }

abbrev a_block : RcptBlock
a_block = record { id = 0; checks = []; modifiers = []; reject_err = none; targets = 7 ∷ 8 ∷ [] }

abbrev source : SourceBlock
source = record {
  checks = [];
  modifiers = [];
  reject_err = none;
  rcpt_in = [];
  per_rcpt = [];
  default_rcpt = a_block;
}

abbrev a_source : SourceBlock
a_source = record source { checks = 5 ∷ [] }

abbrev sources : List (Text × SourceBlock)
sources = (codes "b.com", a_source) ∷ []

abbrev upper_alice : Text
upper_alice = codes "Alice@B.com"

are_equal : equal unicode upper_alice alice ≡ true
unfolding equal split
are_equal = refl

upper_normalized : (for_lookup unicode upper_alice).error ≡ none
unfolding for_lookup split
upper_normalized = refl

normalized : (for_lookup unicode alice).error ≡ none
unfolding for_lookup split
normalized = refl

block-equal_example :
    (src_block_for_addr unicode [] sources source upper_alice
      ≡ src_block_for_addr unicode [] sources source alice)
    × (rcpt_block_for_addr unicode source upper_alice ≡ rcpt_block_for_addr unicode source alice)
block-equal_example =
    block-equal unicode [] sources source upper_alice alice are_equal upper_normalized normalized

by_domain : src_block_for_addr unicode [] sources source upper_alice ≡ routed a_source
unfolding src_block_for_addr for_lookup split
by_domain = refl

-- The target 8 cannot be committed.
abbrev world : World
world = record {
  new_state = λ log m. none;
  rewrite_sender = λ log m from. gives from;
  rewrite_rcpt = λ log m to. gives (to ∷ []);
  rewrite_body = λ log m. none;
  start = λ log t from. none;
  add_rcpt = λ log t to. none;
  body = λ log t. none;
  non_atomic = λ log t. none;
  commit = λ log t. if leb 8 t then some some_error else none;
  abort = λ log t. none;
  is_pipeline = λ t. false;
  received = gives "received";
  order = λ log ss. ss;
  order_blocks = λ log blocks. blocks;
}

abbrev pipeline : Pipeline
pipeline = record {
  global_checks = [];
  global_modifiers = [];
  source_in = [];
  per_source = sources;
  default_source = source;
  hostname = "mx";
  first_pipeline = true;
  world = world;
  env = env;
  unicode = unicode;
  libs = libs;
}

abbrev two_rcpts : List Ended.Request
two_rcpts = adds alice ∷ adds upper_alice ∷ sends none ∷ []

abbrev at_end : Delivery
at_end = perform_all pipeline two_rcpts (start_delivery pipeline alice).1

started_both : collect starts at_end.log ≡ 7 ∷ 8 ∷ []
unfolding perform_all start_delivery add_rcpt Body.body check_rcpt check_states for_lookup split
    check_conn_sender
started_both = refl

abbrev with_failing : Delivery
with_failing = record (new_delivery pipeline) { runner = checked }

reject-body_example :
    Fails (Body.body pipeline (some rejecting) with_failing).0
    × ((Body.body pipeline (some rejecting) with_failing).1.log ≡ [])
unfolding is_aligned check_body
reject-body_example = reject-body pipeline (some rejecting) with_failing with_failing refl refl
