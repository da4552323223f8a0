-- ===== src/Errors.antt =====
-- framework/exterrors: error values as chains of layers, by `Unwrap`, and toSMTPErr of
-- internal/target/queue/queue.go, which turns any of them into the SMTP error that is stored.
pub mod Codes
mod Tests
use madmail.Prelude.{
  ℕ, ◌/◌, String, Bool, true, false, Option, none, some, List, [], ◌∷◌, ◌++◌, ◌==◌, if◌then◌else◌,
}
use madmail.Prelude.Dict.{Dict, lookup, insert}

pub record EnhancedCode : Type 0 where
  pub class : ℕ
  pub subject : ℕ
  pub detail : ℕ

-- A value of a field map. The two types of enhanced codes, of go-smtp and of exterrors, are distinct
-- to a type assertion.
pub data Value : Type 0 where
  int_value : ℕ → Value
  smtp_code_value : EnhancedCode → Value
  ext_code_value : EnhancedCode → Value
  text_value : String → Value
  other_value : Value

-- go-smtp's SMTPError, which is also what the queue stores.
pub record StoredError : Type 0 where
  pub code : ℕ
  pub enhanced_code : EnhancedCode
  pub message : String

-- One error value: the answer of its method `Temporary`, if it has one, that of `Fields`, and its
-- contents if it is a go-smtp SMTPError.
pub record Layer : Type 0 where
  pub temporary : Option Bool
  pub fields : Dict Value
  pub plain : Option StoredError

-- An error and the one that its `Unwrap` returns, if any.
pub data GoError : Type 0 where
  leaf : Layer → GoError
  wrap : Layer → GoError → GoError

-- `errors.As` with the interface of `Temporary`: the outermost layer that has the method.
unfoldable pub temporary_layer : GoError → Option Bool
temporary_layer (leaf l) = l.temporary
temporary_layer (wrap l e) = elim l.temporary [ none ↦ temporary_layer e | some t ↦ some t ]

abbrev or_value : Option Bool → Bool → Bool
or_value none b = b
or_value (some t) b = t

unfoldable pub is_temporary_or_unspec : GoError → Bool
unfolding temporary_layer
is_temporary_or_unspec e = or_value (temporary_layer e) true

unfoldable pub is_temporary : GoError → Bool
unfolding temporary_layer
is_temporary e = or_value (temporary_layer e) false

unfoldable pub with_temporary : GoError → Bool → GoError
with_temporary e temporary =
    wrap (record { temporary = some temporary; fields = []; plain = none }) e

unfoldable pub with_fields : GoError → Dict Value → GoError
with_fields e fields = wrap (record { temporary = none; fields = fields; plain = none }) e

abbrev keep_outer : Option Value → Option Value → Option Value
keep_outer none inner = inner
keep_outer (some v) inner = some v

-- One entry of the map that `Fields` collects: outer layers come first.
unfoldable pub field : GoError → String → Option Value
field (leaf l) k = lookup k l.fields
field (wrap l e) k = keep_outer (lookup k l.fields) (field e k)

-- exterrors.SMTPError. Its names and its reason only add text fields.
pub record SmtpError : Type 0 where
  pub code : ℕ
  pub enhanced_code : EnhancedCode
  pub message : String
  pub check_name : String
  pub target_name : String
  pub reason : String
  pub err : Option GoError
  pub misc : Dict Value

abbrev add_text : Bool → String → Dict Value → String → Dict Value
add_text empty key m s = if empty then m else insert key (text_value s) m

module _ (is_empty : String → Bool) (error_text : GoError → String) where
  abbrev add_reason : SmtpError → Dict Value → Option GoError → Dict Value
  add_reason se m none = add_text (is_empty se.reason) "reason" m se.reason
  add_reason se m (some e) =
      insert "reason" (text_value (if is_empty se.reason then error_text e else se.reason)) m

  unfoldable pub smtp_fields : SmtpError → Dict Value
  smtp_fields se =
      let m = insert "smtp_msg" (text_value se.message) (
        insert "smtp_enchcode" (ext_code_value se.enhanced_code)
          (insert "smtp_code" (int_value se.code) se.misc)) in
      let m' = add_text (is_empty se.check_name) "check" m se.check_name in
      let m'' = add_text (is_empty se.target_name) "target" m' se.target_name in
      add_reason se m'' se.err

  abbrev on_top : Layer → Option GoError → GoError
  on_top l none = leaf l
  on_top l (some e) = wrap l e

  unfoldable pub smtp_temporary : SmtpError → Bool
  smtp_temporary se = se.code / 100 == 4

  -- An SMTPError as an error value.
  unfoldable pub smtp_error : SmtpError → GoError
  unfolding smtp_fields smtp_temporary
  smtp_error se =
      on_top
        (record { temporary = some (smtp_temporary se); fields = smtp_fields se; plain = none })
        se.err

unfoldable pub smtp_code : GoError → ℕ → ℕ → ℕ
unfolding is_temporary
smtp_code e temporary_code permanent_code =
    if is_temporary e then temporary_code else permanent_code

unfoldable pub smtp_ench_code : GoError → EnhancedCode → EnhancedCode
unfolding is_temporary
smtp_ench_code e code =
    let code' = if is_temporary e then record code { class = 4 } else code in
    record code' { class = 5 }

abbrev top : GoError → Layer
top (leaf l) = l
top (wrap l e) = l

-- The three type assertions, and the last override.
abbrev int_or : Option Value → ℕ → ℕ
int_or (some (int_value n)) d = n
int_or _ d = d

abbrev smtp_code_or : Option Value → EnhancedCode → EnhancedCode
smtp_code_or (some (smtp_code_value c)) d = c
smtp_code_or _ d = d

abbrev text_or : Option Value → String → String
text_or (some (text_value s)) d = s
text_or _ d = d

abbrev plain_or : Option StoredError → StoredError → StoredError
plain_or none res = res
plain_or (some s) res = s

unfoldable pub to_smtp_err : GoError → StoredError
unfolding is_temporary_or_unspec
to_smtp_err e =
    let temporary = is_temporary_or_unspec e in
    plain_or (top e).plain (record {
      code = int_or (field e "smtp_code") (if temporary then 451 else 554);
      enhanced_code =
          smtp_code_or (field e "smtp_enchcode")
            (record { class = if temporary then 4 else 5; subject = 0; detail = 0 });
      message = text_or (field e "smtp_msg") "Internal server error";
    })
