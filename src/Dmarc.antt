-- ===== src/Dmarc.antt =====
-- internal/dmarc: evaluate.go and verifier.go. The public suffix list, case folding, the parsers of
-- records and of address lists, and the DNS are parameters. A text is the list of its code points.
pub mod Verdict
pub mod Verifier
mod Tests
use madmail.Prelude.{
  ℕ, ◌+◌, Bool, true, false, not, ◌&&◌, ◌||◌, Option, none, some, List, [], ◌∷◌, ◌++◌, ltb, filter,
  Text, codes, has_prefix, if◌then◌else◌,
}
use madmail.Address.{Result, failed, ok, split}

-- authres.ResultValue; `unset` is the empty text.
pub data Value : Type 0 where
  unset no_result pass fail temp_error perm_error : Value
  other : Text → Value

abbrev pub is_unset : Value → Bool
is_unset unset = true
is_unset _ = false

abbrev pub is_pass : Value → Bool
is_pass pass = true
is_pass _ = false

abbrev pub is_temp_error : Value → Bool
is_temp_error temp_error = true
is_temp_error _ = false

abbrev pub is_no_result : Value → Bool
is_no_result no_result = true
is_no_result _ = false

pub record DkimResult : Type 0 where
  pub value : Value
  pub domain : Text

pub record SpfResult : Type 0 where
  pub value : Value
  pub from : Text
  pub helo : Text

pub record DmarcResult : Type 0 where
  pub value : Value
  pub reason : Text
  pub from : Text

-- authres.Result, by its dynamic type.
pub data AuthResult : Type 0 where
  dkim : DkimResult → AuthResult
  spf : SpfResult → AuthResult
  dmarc : DmarcResult → AuthResult
  other_result : AuthResult

pub data Alignment : Type 0 where
  strict relaxed : Alignment

-- `unset_policy` is the empty text.
pub data Policy : Type 0 where
  unset_policy policy_none quarantine reject : Policy

-- dmarc.Record, as far as it is read.
pub record Record : Type 0 where
  pub dkim_alignment : Alignment
  pub spf_alignment : Alignment
  pub percent : Option ℕ
  pub policy : Policy
  pub subdomain_policy : Policy

pub record EvalResult : Type 0 where
  pub authres : DmarcResult
  pub spf_result : SpfResult
  pub spf_aligned : Bool
  pub dkim_result : DkimResult
  pub dkim_aligned : Bool

-- What the code takes from other packages: `strings.EqualFold` and the public suffix list.
pub record Names : Type 0 where
  pub equal_fold : Text → Text → Bool
  pub public_suffix : Text → Text
  pub etld_plus_one : Text → Option Text

abbrev pub no_dkim : DkimResult
no_dkim = record { value = unset; domain = [] }

abbrev pub no_spf : SpfResult
no_spf = record { value = unset; from = []; helo = [] }

-- The variables of the loop of `EvaluateAlignment`.
pub record Scan : Type 0 where
  pub spf_aligned : Bool
  pub spf_result : SpfResult
  pub dkim_aligned : Bool
  pub dkim_result : DkimResult
  pub dkim_present : Bool
  pub dkim_temp_fail : Bool

abbrev pub begin : Scan
begin = record {
  spf_aligned = false;
  spf_result = no_spf;
  dkim_aligned = false;
  dkim_result = no_dkim;
  dkim_present = false;
  dkim_temp_fail = false;
}

module _ (names : Names) where
  abbrev same_org : Option Text → Option Text → Bool
  same_org none auth = false
  same_org (some from) none = false
  same_org (some from) (some auth) = names.equal_fold from auth

  unfoldable pub is_aligned : Text → Text → Alignment → Bool
  is_aligned from auth strict = names.equal_fold from auth
  is_aligned from auth relaxed =
      if names.equal_fold from (names.public_suffix from)
      then names.equal_fold from auth
      else same_org (names.etld_plus_one from) (names.etld_plus_one auth)

  abbrev scan_aligned_dkim : DkimResult → Scan → Bool → Scan
  scan_aligned_dkim res s false = s
  scan_aligned_dkim res s true = record s {
    dkim_result = res;
    dkim_aligned = s.dkim_aligned || is_pass res.value;
    dkim_temp_fail = s.dkim_temp_fail || is_temp_error res.value;
  }

  abbrev pub spf_identity : SpfResult → Text
  spf_identity res = elim res.from [ [] ↦ res.helo | ◌∷◌ c rest ↦ c ∷ rest ]

  abbrev scan_dkim : Text → Record → Scan → DkimResult → Scan
  scan_dkim from rec s res =
      scan_aligned_dkim res
        (record s {
          dkim_present = true;
          dkim_result = if is_unset s.dkim_result.value then res else s.dkim_result;
        })
        (is_aligned from res.domain rec.dkim_alignment)

  abbrev scan_spf : Text → Record → Scan → SpfResult → Scan
  scan_spf from rec s res = record s {
    spf_result = res;
    spf_aligned =
        s.spf_aligned
        || (is_aligned from (spf_identity res) rec.spf_alignment && is_pass res.value);
  }

  -- One round of the loop.
  unfoldable pub scan_one : Text → Record → Scan → AuthResult → Scan
  scan_one from rec s (dkim res) = scan_dkim from rec s res
  scan_one from rec s (spf res) = scan_spf from rec s res
  scan_one from rec s (dmarc res) = s
  scan_one from rec s other_result = s

  unfoldable pub scan : Text → Record → Scan → List AuthResult → Scan
  scan from rec s [] = s
  scan from rec s (res ∷ results) = scan from rec (scan_one from rec s res) results

  abbrev finish : Text → Scan → DmarcResult
  finish from s =
      if not s.dkim_present || is_unset s.spf_result.value
      then record {
        value = no_result;
        reason = codes "Not enough information (required checks are disabled)";
        from = from;
      }
      else if s.dkim_temp_fail && not s.dkim_aligned && not s.spf_aligned
      then record {
        value = temp_error;
        reason = codes "DKIM authentication temp error";
        from = from;
      }
      else if not s.dkim_aligned && is_temp_error s.spf_result.value
      then record {
        value = temp_error;
        reason = codes "SPF authentication temp error";
        from = from;
      }
      else if s.dkim_aligned || s.spf_aligned
      then record { value = pass; reason = []; from = from }
      else record { value = fail; reason = codes "No aligned identifiers"; from = from }

  unfoldable pub evaluate_alignment : Text → Record → List AuthResult → EvalResult
  unfolding scan
  evaluate_alignment from rec results =
      let s = scan from rec begin results in
      record {
        authres = finish from s;
        spf_result = s.spf_result;
        spf_aligned = s.spf_aligned;
        dkim_result = s.dkim_result;
        dkim_aligned = s.dkim_aligned;
      }
