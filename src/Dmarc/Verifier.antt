-- ===== src/Dmarc/Verifier.antt =====
-- internal/dmarc/evaluate.go: `FetchRecord` and `ExtractFromDomain`; internal/dmarc/verifier.go:
-- `Verifier`, whose channel holds at most one value.
pub mod Percent
pub mod Protected
use madmail.Prelude.{
  ℕ, Bool, true, false, not, ◌&&◌, ◌||◌, Option, none, some, List, [], ◌∷◌, ◌++◌, ltb, filter, Text,
  codes, has_prefix, if◌then◌else◌,
}
use madmail.Address
use madmail.Address.{Result, failed, ok, split}
use madmail.Dmarc.{
  Value, unset, no_result, pass, temp_error, perm_error, is_pass, is_no_result, AuthResult, Policy,
  unset_policy, policy_none, reject, Record, DmarcResult, EvalResult, Names, no_dkim, no_spf,
  evaluate_alignment,
}

-- What the code asks of an error of a lookup: whether it is a net.DNSError, and what that says.
pub record LookupError : Type 0 where
  pub is_dns : Bool
  pub is_not_found : Bool
  pub is_temporary : Bool

pub data Answer : Type 0 where
  answers : List Text → Answer
  fails : LookupError → List Text → Answer

-- The resolver, `dns.FQDN`, the error of an unknown suffix and the parser of records.
pub record Resolver : Type 0 where
  pub lookup_txt : Text → Answer
  pub fqdn : Text → Text
  pub unknown_suffix : LookupError
  pub parse : Text → Option Record × Option LookupError

pub record Fetched : Type 0 where
  pub policy_domain : Text
  pub record_found : Option Record
  pub err : Option LookupError

abbrev no_record : Fetched
no_record = record { policy_domain = []; record_found = none; err = none }

abbrev lookup_failed : LookupError → Fetched
lookup_failed e = record { policy_domain = []; record_found = none; err = some e }

-- The texts to go on with, or the error to return.
pub data Texts : Type 0 where
  stop : LookupError → Texts
  go_on : List Text → Texts

abbrev texts_of : Answer → Texts
texts_of (answers txts) = go_on txts
texts_of (fails e txts) = if e.is_dns && e.is_not_found then go_on txts else stop e

module _ (r : Resolver) (names : Names) where
  abbrev lookup_dmarc : Text → Texts
  lookup_dmarc domain = texts_of (r.lookup_txt (r.fqdn (codes "_dmarc." ++ domain)))

  -- More than one record is none.
  abbrev single : Text → List Text → Fetched
  single domain [] = no_record
  single domain (txt ∷ []) =
      let (rec, e) = r.parse txt in record { policy_domain = domain; record_found = rec; err = e }
  single domain (txt ∷ other ∷ rest) = no_record

  abbrev parse_policy : Text → List Text → Fetched
  parse_policy domain txts = single domain (filter (λ t. has_prefix t (codes "v=DMARC1")) txts)

  abbrev second_texts : Text → Texts → Fetched
  second_texts org (stop e) = lookup_failed e
  second_texts org (go_on []) = no_record
  second_texts org (go_on (txt ∷ txts)) = parse_policy org (txt ∷ txts)

  abbrev fetch_org : Option Text → Fetched
  fetch_org none = lookup_failed r.unknown_suffix
  fetch_org (some org) = second_texts org (lookup_dmarc org)

  abbrev first_texts : Text → Texts → Fetched
  first_texts from (stop e) = lookup_failed e
  first_texts from (go_on []) = fetch_org (names.etld_plus_one from)
  first_texts from (go_on (txt ∷ txts)) = parse_policy from (txt ∷ txts)

  unfoldable pub fetch_record : Text → Fetched
  fetch_record from = first_texts from (lookup_dmarc from)

pub data FromError : Type 0 where
  multiple_fields missing_field malformed_field multiple_addresses missing_address : FromError
  malformed_address : Address.Error → FromError

pub data FromDomain : Type 0 where
  no_domain : FromError → FromDomain
  domain : Text → FromDomain

-- The loop over the From fields; `none` is a second one.
abbrev first_from : Text → List Text → Option Text
first_from first [] = some first
first_from [] (field ∷ fields) = first_from field fields
first_from (c ∷ first) (field ∷ fields) = none

abbrev domain_part : Result (Text × Text) → FromDomain
domain_part (failed e) = no_domain (malformed_address e)
domain_part (ok (mailbox, part)) = domain part

abbrev single_address : Option (List Text) → FromDomain
single_address none = no_domain malformed_field
single_address (some []) = no_domain missing_address
single_address (some (address ∷ [])) = domain_part (split address)
single_address (some (address ∷ other ∷ rest)) = no_domain multiple_addresses

abbrev from_field : (Text → Option (List Text)) → Option Text → FromDomain
from_field parse_list none = no_domain multiple_fields
from_field parse_list (some []) = no_domain missing_field
from_field parse_list (some (c ∷ field)) = single_address (parse_list (c ∷ field))

-- The argument is net/mail's parser of address lists; the list holds the From fields of the header.
unfoldable pub extract_from_domain : (Text → Option (List Text)) → List Text → FromDomain
extract_from_domain parse_list fields = from_field parse_list (first_from [] fields)

-- An error of `FetchRecord`: of the header, of the lookup, or a panic in it.
pub data FetchError : Type 0 where
  header_error : FromError → FetchError
  lookup_error : LookupError → FetchError
  panicked : FetchError

pub record VerifyData : Type 0 where
  pub policy_domain : Text
  pub from_domain : Text
  pub record_found : Option Record
  pub record_err : Option FetchError

abbrev as_lookup_error : Option LookupError → Option FetchError
as_lookup_error none = none
as_lookup_error (some e) = some (lookup_error e)

abbrev looked_up : Text → Fetched → VerifyData
looked_up from f = record {
  policy_domain = f.policy_domain;
  from_domain = from;
  record_found = f.record_found;
  record_err = as_lookup_error f.err;
}

-- What `Verifier.FetchRecord` puts into the channel.
abbrev fetched : Resolver → Names → FromDomain → VerifyData
fetched r names (no_domain e) = record {
  policy_domain = [];
  from_domain = [];
  record_found = none;
  record_err = some (header_error e);
}
fetched r names (domain from) = looked_up from (fetch_record r names from)

unfoldable pub verifier_fetch :
    Resolver → Names → (Text → Option (List Text)) → List Text → VerifyData
unfolding fetch_record extract_from_domain
verifier_fetch r names parse_list fields = fetched r names (extract_from_domain parse_list fields)

abbrev pub is_temporary : FetchError → Bool
is_temporary (lookup_error e) = e.is_dns && e.is_temporary
is_temporary _ = false

abbrev without_checks : DmarcResult → EvalResult
without_checks res = record {
  authres = res;
  spf_result = no_spf;
  spf_aligned = false;
  dkim_result = no_dkim;
  dkim_aligned = false;
}

abbrev pub has_policy : Policy → Bool
has_policy unset_policy = false
has_policy _ = true

module _ (names : Names) (error_text : FetchError → Text) where
  abbrev pub effective_policy : VerifyData → Record → Policy
  effective_policy v rec =
      if not (names.equal_fold v.policy_domain v.from_domain) && has_policy rec.subdomain_policy
      then rec.subdomain_policy
      else rec.policy

  -- `draw` is `rand.Int31n(100)`, and a percentage fits an int32.
  abbrev pub spared : ℕ → Option ℕ → Bool
  spared draw none = false
  spared draw (some percent) = ltb percent draw

  abbrev enforce : ℕ → VerifyData → Record → EvalResult → EvalResult × Policy
  enforce draw v rec res =
      if is_pass res.authres.value || is_no_result res.authres.value
      then (res, policy_none)
      else if spared draw rec.percent
      then (res, policy_none)
      else (res, effective_policy v rec)

  abbrev apply_error : Text → FetchError → EvalResult × Policy
  apply_error from e =
      let reason = codes "Policy lookup failed: " ++ error_text e in
      if is_temporary e
      then (without_checks (record { value = temp_error; reason = reason; from = from }), reject)
      else (
        without_checks (record { value = perm_error; reason = reason; from = from }),
        policy_none,
      )

  abbrev apply_record : ℕ → VerifyData → List AuthResult → Option Record → EvalResult × Policy
  apply_record draw v results none = (
    without_checks (record { value = no_result; reason = []; from = v.from_domain }),
    policy_none,
  )
  apply_record draw v results (some rec) =
      enforce draw v rec (evaluate_alignment names v.from_domain rec results)

  abbrev apply_data : ℕ → VerifyData → List AuthResult → Option FetchError → EvalResult × Policy
  apply_data draw v results (some e) = apply_error v.from_domain e
  apply_data draw v results none = apply_record draw v results v.record_found

  -- `Verifier.Apply`, with what it receives from the channel.
  unfoldable pub apply : ℕ → VerifyData → List AuthResult → EvalResult × Policy
  apply draw v results = apply_data draw v results v.record_err
