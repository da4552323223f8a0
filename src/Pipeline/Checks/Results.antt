-- ===== src/Pipeline/Checks/Results.antt =====
-- internal/msgpipeline/check_runner.go, applyResults: what the results of the checks and of DMARC do to
-- the message. The text of the Authentication-Results field and the order in which a header lists
-- its fields are those of other packages, and parameters.
use madmail.Prelude.{
  ℕ, String, Bool, true, false, ◌||◌, Option, none, some, List, [], ◌∷◌, ◌++◌, ◌≡◌, refl, subst,
  if◌then◌else◌, arith, Text,
}
use madmail.Errors.{EnhancedCode}
use madmail.Dmarc.{
  AuthResult, dmarc, EvalResult, Names, Policy, unset_policy, policy_none, quarantine, reject,
  is_temp_error,
}
use madmail.Dmarc.Verifier.{FetchError, VerifyData, apply}
use madmail.Dmarc.Verifier.Protected.{policy_for, policy-apply}
use madmail.Pipeline.Checks.{Runner}

-- The SMTPError of a rejection by DMARC; its further fields are taken from the result.
pub record DmarcError : Type 0 where
  pub code : ℕ
  pub enhanced_code : EnhancedCode
  pub result : EvalResult

-- What `applyResults` changes: the mark of the message, the fields added to its header, in the order
-- of the calls, and the merged results.
pub record Message : Type 0 where
  pub quarantine : Bool
  pub added : List String
  pub auth_result : List AuthResult

-- The Go packages that are called, and the number that `Apply` draws.
pub record Libs : Type 0 where
  pub names : Names
  pub error_text : FetchError → Text
  pub format_results : String → List AuthResult → String
  pub fields : List String → List String
  pub draw : ℕ

abbrev enhanced : ℕ → EnhancedCode
enhanced class = record { class = class; subject = 7; detail = 1 }

abbrev dmarc_error : EvalResult → DmarcError
dmarc_error res =
    if is_temp_error res.authres.value
    then record { code = 450; enhanced_code = enhanced 4; result = res }
    else record { code = 550; enhanced_code = enhanced 5; result = res }

module _ (libs : Libs) (hostname : String) where
  abbrev pub results_field : List AuthResult → List String
  results_field [] = []
  results_field (r ∷ rest) = libs.format_results hostname (r ∷ rest) ∷ []

  abbrev add_results : Message → Message
  add_results m = record m { added = m.added ++ results_field m.auth_result }

  abbrev add_fields : List String → Message → Message
  add_fields header m = record m { added = m.added ++ libs.fields header }

  abbrev after_policy : List String → Message → EvalResult → Policy → Option DmarcError × Message
  after_policy header m res reject = (some (dmarc_error res), m)
  after_policy header m res quarantine =
      (none, add_fields header (add_results (record m { quarantine = true })))
  after_policy header m res policy = (none, add_fields header (add_results m))

  -- `didDMARCFetch` gives the data of the fetch; the mark is the message's before.
  unfoldable pub apply_results : Option VerifyData → Bool → Runner → Option DmarcError × Message
  unfolding apply
  apply_results none mark s = (
    none,
    add_fields s.header (
        add_results
          (record { quarantine = mark || s.quarantine; added = []; auth_result = s.auth_result })),
  )
  apply_results (some v) mark s =
      let (res, policy) = apply libs.names libs.error_text libs.draw v s.auth_result in
      after_policy s.header
        (record {
          quarantine = mark || s.quarantine;
          added = [];
          auth_result = s.auth_result ++ dmarc res.authres ∷ [];
        })
        res policy

abbrev pub is_reject : Policy → Bool
is_reject reject = true
is_reject policy = false

abbrev pub is_quarantine : Policy → Bool
is_quarantine quarantine = true
is_quarantine policy = false

abbrev pub is_refused : Option DmarcError → Bool
is_refused none = false
is_refused (some e) = true

-- Without DMARC no policy is asked of a message.
abbrev pub policy_of : Libs → List AuthResult → Option VerifyData → Policy
policy_of libs results none = policy_none
policy_of libs results (some v) =
    policy_for libs.names libs.error_text libs.draw v results v.record_err v.record_found

or_false : (b : Bool) → b ≡ b || false
or_false b = ground arith

or_true : (b : Bool) → true ≡ b || true
or_true b = ground arith

-- What a policy does to a message: the refusal, the mark, and the fields added.
abbrev pub Follows :
    Libs → String → List String → Message → Policy → Option DmarcError × Message → Type 0
Follows libs host header m p (e, m') =
    (is_refused e ≡ is_reject p)
    × (m'.quarantine ≡ m.quarantine || is_quarantine p)
    × (m'.added ≡ (
        if is_reject p
        then []
        else (m.added ++ results_field libs host m.auth_result) ++ libs.fields header))
    × (m'.auth_result ≡ m.auth_result)

after_policy-Follows :
    (libs : Libs) (host : String) (header : List String) (m : Message) (res : EvalResult)
    (p : Policy)
    → m.added ≡ []
    → Follows libs host header m p (after_policy libs host header m res p)
after_policy-Follows libs host header m res reject h = (refl, or_false _, h, refl)
after_policy-Follows libs host header m res quarantine h = (refl, or_true _, refl, refl)
after_policy-Follows libs host header m res unset_policy h = (refl, or_false _, refl, refl)
after_policy-Follows libs host header m res policy_none h = (refl, or_false _, refl, refl)

abbrev pub with_dmarc : Libs → List AuthResult → Option VerifyData → List AuthResult
with_dmarc libs results none = results
with_dmarc libs results (some v) =
    results ++ dmarc (apply libs.names libs.error_text libs.draw v results).0.authres ∷ []

abbrev pub merged : Libs → Option VerifyData → Bool → Runner → Message
merged libs v mark s = record {
  quarantine = mark || s.quarantine;
  added = [];
  auth_result = with_dmarc libs s.auth_result v;
}

-- Without DMARC, or with it and the data of its fetch, the table of policies decides of the message
-- with the merged results of its checks: it is refused exactly if the policy is reject, it is marked
-- for quarantine if it was, or a check or the policy asks for it, and only if it is not refused
-- its header gets the Authentication-Results field, unless there are no results, and then the
-- fields of the checks. The results are those of the checks and then that of DMARC.
pub policy-apply_results :
    (libs : Libs) (host : String) (v : Option VerifyData) (mark : Bool) (s : Runner)
    → Follows libs host s.header
        (merged libs v mark s)
        (policy_of libs s.auth_result v)
        (apply_results libs host v mark s)
unfolding apply_results
policy-apply_results libs host none mark s = (refl, or_false _, refl, refl)
policy-apply_results libs host (some v) mark s =
    let (res, p) = apply libs.names libs.error_text libs.draw v s.auth_result in
    subst
      (λ p'.
        Follows libs host s.header (merged libs (some v) mark s) p'
          (apply_results libs host (some v) mark s))
      (policy-apply libs.names libs.error_text libs.draw v s.auth_result)
      (after_policy-Follows libs host s.header (merged libs (some v) mark s) res p refl)
