-- ===== src/Errors/Tests.antt =====
-- The theorems on errors at concrete values.
use madmail.Prelude.{str_eq, String, Bool, none, some, [], ◌≡◌}
use madmail.Errors.{GoError, leaf, SmtpError, smtp_error, to_smtp_err}
use madmail.Errors.Codes.{to_smtp_err-smtp_error}

abbrev cause : GoError
cause = leaf (record { temporary = none; fields = []; plain = none })

abbrev greylisted : SmtpError
greylisted = record {
  code = 451;
  enhanced_code = record { class = 4; subject = 7; detail = 1 };
  message = "Greylisted";
  check_name = "";
  target_name = "remote";
  reason = "";
  err = some cause;
  misc = [];
}

abbrev is_empty : String → Bool
is_empty s = str_eq s ""

abbrev error_text : GoError → String
error_text e = "cause"

to_smtp_err-smtp_error_example : to_smtp_err (smtp_error is_empty error_text greylisted) ≡ record {
  code = 451;
  enhanced_code = record { class = 4; subject = 0; detail = 0 };
  message = "Greylisted";
}
to_smtp_err-smtp_error_example = to_smtp_err-smtp_error is_empty error_text greylisted
