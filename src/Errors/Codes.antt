-- ===== src/Errors/Codes.antt =====
-- What the SMTP codes of an error come out as.
use madmail.Prelude.{
  ◌/◌, String, Bool, true, false, Option, none, some, ◌≡◌, refl, arith, ◌==◌, ◌∙◌, str_eq,
  if◌then◌else◌, Option-cases, inl, inr,
}
use madmail.Prelude.Dict.{Dict, lookup, insert, lookup-insert}
use madmail.Errors.{
  EnhancedCode, Value, int_value, ext_code_value, text_value, GoError, temporary_layer, field,
  SmtpError, add_text, add_reason, smtp_fields, smtp_temporary, smtp_error, on_top, top,
  smtp_ench_code, to_smtp_err,
}

-- `SMTPEnchCode` returns the class 5, of permanent failures, for every error, also a temporary one.
pub class-smtp_ench_code :
    (e : GoError) (code : EnhancedCode)
    → smtp_ench_code e code ≡ record { class = 5; subject = code.subject; detail = code.detail }
unfolding smtp_ench_code
class-smtp_ench_code e code = ground arith

lookup-add_text :
    (empty : Bool) (key k : String) (m : Dict Value) (t : String)
    → str_eq key k ≡ false
    → lookup k (add_text empty key m t) ≡ lookup k m
lookup-add_text true key k m t h = refl
lookup-add_text false key k m t h = rw (lookup-insert key k, h)

module _ (is_empty : String → Bool) (error_text : GoError → String) (se : SmtpError) where
  lookup-add_reason :
      (k : String) (m : Dict Value) (o : Option GoError)
      → str_eq "reason" k ≡ false
      → lookup k (add_reason is_empty error_text se m o) ≡ lookup k m
  lookup-add_reason k m none h = lookup-add_text (is_empty se.reason) "reason" k m se.reason h
  lookup-add_reason k m (some e) h = rw (lookup-insert "reason" k, h)

  abbrev codes : Dict Value
  codes = insert "smtp_msg" (text_value se.message) (
      insert "smtp_enchcode" (ext_code_value se.enhanced_code)
        (insert "smtp_code" (int_value se.code) se.misc))

  -- The names and the reason leave the three fields that `toSMTPErr` reads.
  lookup-smtp_fields :
      (k : String)
      → str_eq "check" k ≡ false
      → str_eq "target" k ≡ false
      → str_eq "reason" k ≡ false
      → lookup k (smtp_fields is_empty error_text se) ≡ lookup k codes
  unfolding smtp_fields
  lookup-smtp_fields k c t r =
      lookup-add_reason k _ se.err r
      ∙ lookup-add_text (is_empty se.target_name) "target" k _ se.target_name t
      ∙ lookup-add_text (is_empty se.check_name) "check" k codes se.check_name c

  field-smtp_error :
      (k : String) (v : Value)
      → lookup k codes ≡ some v
      → str_eq "check" k ≡ false
      → str_eq "target" k ≡ false
      → str_eq "reason" k ≡ false
      → field (smtp_error is_empty error_text se) k ≡ some v
  unfolding smtp_error field
  field-smtp_error k v h c t r = elim (Option-cases se.err) [
    | inl e ↦ rw (e, on_top, top, lookup-smtp_fields k c t r) h
    | inr (x, e) ↦ rw (e, on_top, top, lookup-smtp_fields k c t r) (rw h refl)
  ]

  temporary-smtp_error :
      temporary_layer (smtp_error is_empty error_text se)
      ≡ some (smtp_temporary is_empty error_text se)
  unfolding smtp_error temporary_layer
  temporary-smtp_error = elim (Option-cases se.err) [
    | inl e ↦ rw (e, on_top)
    | inr (x, e) ↦ rw (e, on_top)
  ]

  plain-smtp_error : (top (smtp_error is_empty error_text se)).plain ≡ none
  unfolding smtp_error
  plain-smtp_error = elim (Option-cases se.err) [
    | inl e ↦ rw (e, on_top)
    | inr (x, e) ↦ rw (e, on_top)
  ]

  smtp_code-field : field (smtp_error is_empty error_text se) "smtp_code" ≡ some (int_value se.code)
  smtp_code-field =
      field-smtp_error "smtp_code" (int_value se.code) (simp lookup-insert) refl refl refl

  smtp_enchcode-field :
      field (smtp_error is_empty error_text se) "smtp_enchcode"
      ≡ some (ext_code_value se.enhanced_code)
  smtp_enchcode-field =
      field-smtp_error "smtp_enchcode" (ext_code_value se.enhanced_code) (simp lookup-insert) refl
        refl refl

  smtp_msg-field :
      field (smtp_error is_empty error_text se) "smtp_msg" ≡ some (text_value se.message)
  smtp_msg-field =
      field-smtp_error "smtp_msg" (text_value se.message) (simp lookup-insert) refl refl refl

  -- An SMTPError is stored with its code and its message, but without its enhanced code: that becomes
  -- 4.0.0 or 5.0.0, by whether the error is temporary.
  pub to_smtp_err-smtp_error : to_smtp_err (smtp_error is_empty error_text se) ≡ record {
    code = se.code;
    enhanced_code = record { class = if se.code / 100 == 4 then 4 else 5; subject = 0; detail = 0 };
    message = se.message;
  }
  unfolding to_smtp_err smtp_temporary
  to_smtp_err-smtp_error =
      rw
        (
          smtp_code-field, smtp_enchcode-field, smtp_msg-field, temporary-smtp_error,
          plain-smtp_error,
        )
        refl
