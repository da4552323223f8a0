-- ===== src/Dmarc/Tests.antt =====
-- The theorems on DMARC at concrete results.
use madmail.Prelude.{Option, none, some, List, [], ◌∷◌, ◌≡◌, refl, Text, codes, text_eq, arith}
use madmail.Dmarc.{
  pass, fail, AuthResult, dkim, spf, strict, relaxed, unset_policy, policy_none, reject, Record,
  Names, evaluate_alignment, scan_one, is_aligned,
}
use madmail.Dmarc.Verdict.{verdict-evaluate_alignment}
use madmail.Dmarc.Verifier.{
  VerifyData, FetchError, apply, extract_from_domain, no_domain, multiple_fields,
}
use madmail.Dmarc.Verifier.Percent.{count_below, is_reject, count-apply}
use madmail.Dmarc.Verifier.Protected.{policy-apply}

-- Every domain is its own organisation, below the suffix "com".
abbrev itself : Text → Option Text
itself name = some name

abbrev suffix : Text → Text
suffix name = codes "com"

abbrev names : Names
names = record { equal_fold = text_eq; public_suffix = suffix; etld_plus_one = itself }

abbrev rec : Record
rec = record {
  dkim_alignment = relaxed;
  spf_alignment = strict;
  percent = some 0;
  policy = reject;
  subdomain_policy = unset_policy;
}

abbrev failing : List AuthResult
failing =
    dkim (record { value = fail; domain = codes "b.com" })
    ∷ spf (record { value = pass; from = codes "c.com"; helo = [] })
    ∷ []

abbrev forwarded : List AuthResult
forwarded =
    dkim (record { value = pass; domain = codes "a.com" })
    ∷ spf (record { value = fail; from = codes "c.com"; helo = [] })
    ∷ []

verdict-evaluate_alignment_example :
    (evaluate_alignment names (codes "a.com") rec forwarded).authres.value ≡ pass
unfolding is_aligned
verdict-evaluate_alignment_example = verdict-evaluate_alignment names (codes "a.com") rec forwarded

abbrev data_for : VerifyData
data_for = record {
  policy_domain = codes "a.com";
  from_domain = codes "a.com";
  record_found = some rec;
  record_err = none;
}

abbrev error_text : FetchError → Text
error_text e = []

fails_alignment : (evaluate_alignment names (codes "a.com") rec failing).authres.value ≡ fail
unfolding evaluate_alignment scan_one is_aligned
fails_alignment = refl

-- With pct=0 the policy is enforced for one of the 100 numbers.
count-apply_example :
    count_below 100 (λ draw. is_reject (apply names error_text draw data_for failing).1) ≡ 1
count-apply_example =
    count-apply names error_text data_for rec 0 failing (omega arith) refl refl refl refl
      fails_alignment

policy-apply_example : (apply names error_text 5 data_for forwarded).1 ≡ policy_none
unfolding is_aligned
policy-apply_example = policy-apply names error_text 5 data_for forwarded

abbrev one_address : Text → Option (List Text)
one_address field = some (field ∷ [])

two_from_fields :
    extract_from_domain one_address (codes "x@a.com" ∷ codes "y@b.com" ∷ [])
    ≡ no_domain multiple_fields
unfolding extract_from_domain
two_from_fields = refl
