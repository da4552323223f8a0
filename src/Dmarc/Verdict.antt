-- ===== src/Dmarc/Verdict.antt =====
-- What the loop of `EvaluateAlignment` computes, without the loop.
use madmail.Prelude.{
  Bool, true, false, not, ◌&&◌, ◌||◌, List, [], ◌∷◌, ◌≡◌, refl, arith, any, Text, if◌then◌else◌,
}
use madmail.Dmarc.{
  Value, unset, no_result, pass, fail, temp_error, is_unset, is_pass, is_temp_error, AuthResult,
  dkim, spf, dmarc, other_result, Record, Names, Scan, begin, scan_one, scan, is_aligned,
  spf_identity, evaluate_alignment,
}

-- The value of the last SPF result.
abbrev pub last_spf : List AuthResult → Value → Value
last_spf [] v = v
last_spf (spf res ∷ results) v = last_spf results res.value
last_spf (dkim res ∷ results) v = last_spf results v
last_spf (dmarc res ∷ results) v = last_spf results v
last_spf (other_result ∷ results) v = last_spf results v

abbrev pub is_dkim : AuthResult → Bool
is_dkim (dkim res) = true
is_dkim _ = false

module _ (names : Names) (from : Text) (rec : Record) where
  -- A DKIM signature, of a domain aligned with that of the From field, whose value passes the test.
  abbrev pub dkim_with : (Value → Bool) → AuthResult → Bool
  dkim_with test (dkim res) = is_aligned names from res.domain rec.dkim_alignment && test res.value
  dkim_with test _ = false

  abbrev pub spf_with : (Value → Bool) → AuthResult → Bool
  spf_with test (spf res) =
      is_aligned names from (spf_identity names res) rec.spf_alignment && test res.value
  spf_with test _ = false

  -- The verdict, as a table.
  abbrev pub verdict : List AuthResult → Value
  verdict results =
      let last = last_spf results unset in
      if not (any is_dkim results) || is_unset last
      then no_result
      else if any (dkim_with is_pass) results
      then pass
      else if is_temp_error last
      then temp_error
      else if any (spf_with is_pass) results
      then pass
      else if any (dkim_with is_temp_error) results
      then temp_error
      else fail

  present-scan :
      (s : Scan) (results : List AuthResult)
      → (scan names from rec s results).dkim_present ≡ s.dkim_present || any is_dkim results
  unfolding scan scan_one
  present-scan s [] = ground arith
  present-scan s (dkim res ∷ results) =
      ground (arith, present-scan (scan_one names from rec s (dkim res)) results)
  present-scan s (spf res ∷ results) =
      ground (arith, present-scan (scan_one names from rec s (spf res)) results)
  present-scan s (dmarc res ∷ results) = ground (arith, present-scan s results)
  present-scan s (other_result ∷ results) = ground (arith, present-scan s results)

  dkim_aligned-scan :
      (s : Scan) (results : List AuthResult)
      → (scan names from rec s results).dkim_aligned
        ≡ s.dkim_aligned || any (dkim_with is_pass) results
  unfolding scan scan_one
  dkim_aligned-scan s [] = ground arith
  dkim_aligned-scan s (dkim res ∷ results) =
      ground (arith, dkim_aligned-scan (scan_one names from rec s (dkim res)) results)
  dkim_aligned-scan s (spf res ∷ results) =
      ground (arith, dkim_aligned-scan (scan_one names from rec s (spf res)) results)
  dkim_aligned-scan s (dmarc res ∷ results) = ground (arith, dkim_aligned-scan s results)
  dkim_aligned-scan s (other_result ∷ results) = ground (arith, dkim_aligned-scan s results)

  temp_fail-scan :
      (s : Scan) (results : List AuthResult)
      → (scan names from rec s results).dkim_temp_fail
        ≡ s.dkim_temp_fail || any (dkim_with is_temp_error) results
  unfolding scan scan_one
  temp_fail-scan s [] = ground arith
  temp_fail-scan s (dkim res ∷ results) =
      ground (arith, temp_fail-scan (scan_one names from rec s (dkim res)) results)
  temp_fail-scan s (spf res ∷ results) =
      ground (arith, temp_fail-scan (scan_one names from rec s (spf res)) results)
  temp_fail-scan s (dmarc res ∷ results) = ground (arith, temp_fail-scan s results)
  temp_fail-scan s (other_result ∷ results) = ground (arith, temp_fail-scan s results)

  spf_aligned-scan :
      (s : Scan) (results : List AuthResult)
      → (scan names from rec s results).spf_aligned
        ≡ s.spf_aligned || any (spf_with is_pass) results
  unfolding scan scan_one
  spf_aligned-scan s [] = ground arith
  spf_aligned-scan s (dkim res ∷ results) =
      ground (arith, spf_aligned-scan (scan_one names from rec s (dkim res)) results)
  spf_aligned-scan s (spf res ∷ results) =
      ground (arith, spf_aligned-scan (scan_one names from rec s (spf res)) results)
  spf_aligned-scan s (dmarc res ∷ results) = ground (arith, spf_aligned-scan s results)
  spf_aligned-scan s (other_result ∷ results) = ground (arith, spf_aligned-scan s results)

  spf_result-scan :
      (s : Scan) (results : List AuthResult)
      → (scan names from rec s results).spf_result.value ≡ last_spf results s.spf_result.value
  unfolding scan scan_one
  spf_result-scan s [] = refl
  spf_result-scan s (dkim res ∷ results) =
      ground (arith, spf_result-scan (scan_one names from rec s (dkim res)) results)
  spf_result-scan s (spf res ∷ results) =
      spf_result-scan (scan_one names from rec s (spf res)) results
  spf_result-scan s (dmarc res ∷ results) = spf_result-scan s results
  spf_result-scan s (other_result ∷ results) = spf_result-scan s results

  -- `EvaluateAlignment` agrees with the table, on every list of results: no verdict without a DKIM
  -- and an SPF result; else an aligned DKIM pass decides, then a temporary failure of the last SPF
  -- result, then an aligned SPF pass, then a temporary failure of an aligned signature; else it fails.
  pub verdict-evaluate_alignment :
      (results : List AuthResult)
      → (evaluate_alignment names from rec results).authres.value ≡ verdict results
  unfolding evaluate_alignment
  verdict-evaluate_alignment results =
      rw
        (
          present-scan begin results,
          dkim_aligned-scan begin results,
          temp_fail-scan begin results,
          spf_aligned-scan begin results,
          spf_result-scan begin results,
        )
        (ground arith)
