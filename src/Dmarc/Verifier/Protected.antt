-- ===== src/Dmarc/Verifier/Protected.antt =====
-- Which messages `Apply` leaves alone, and which it does not.
use madmail.Prelude.{ℕ, ◌||◌, Option, none, some, List, ◌≡◌, refl, arith, Text, if◌then◌else◌}
use madmail.Dmarc.{is_pass, is_no_result, AuthResult, Policy, policy_none, reject, Record, Names}
use madmail.Dmarc.Verdict.{verdict, verdict-evaluate_alignment}
use madmail.Dmarc.Verifier.{
  VerifyData, FetchError, apply, apply_data, effective_policy, spared, is_temporary,
}

module _ (names : Names) (error_text : FetchError → Text) where
  -- The policy that follows from the data of the fetch, the number drawn and the table of verdicts.
  abbrev pub policy_for :
      ℕ → VerifyData → List AuthResult → Option FetchError → Option Record → Policy
  policy_for draw v results (some e) rec = if is_temporary e then reject else policy_none
  policy_for draw v results none none = policy_none
  policy_for draw v results none (some rec) =
      let value = verdict names v.from_domain rec results in
      if is_pass value || is_no_result value || spared names error_text draw rec.percent
      then policy_none
      else effective_policy names error_text v rec

  policy_for-eq :
      (draw : ℕ) (v : VerifyData) (results : List AuthResult) (e : Option FetchError)
      (rec : Option Record)
      → v.record_found ≡ rec
      → (apply_data names error_text draw v results e).1 ≡ policy_for draw v results e rec
  policy_for-eq draw v results (some e) rec h = ground arith
  policy_for-eq draw v results none none h = rw h refl
  policy_for-eq draw v results none (some rec) h =
      rw (h, ← verdict-evaluate_alignment names v.from_domain rec results) (ground arith)

  -- `Apply` returns the policy that the table says: a temporary error of the lookup rejects, any other
  -- error or no record leaves the message alone; with a record, a message that passes, or for which no
  -- verdict is possible, is left alone, a number drawn above the percentage spares it, and else it gets
  -- the policy of the domain or of its subdomains.
  pub policy-apply :
      (draw : ℕ) (v : VerifyData) (results : List AuthResult)
      → (apply names error_text draw v results).1
        ≡ policy_for draw v results v.record_err v.record_found
  unfolding apply
  policy-apply draw v results = policy_for-eq draw v results v.record_err v.record_found refl
