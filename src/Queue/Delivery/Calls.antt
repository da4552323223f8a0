-- ===== src/Queue/Delivery/Calls.antt =====
-- Which recipients `deliver` reports as delivered, and how it ends the delivery object.
use madmail.Prelude.{
  ◌&&◌, any, String, Bool, false, ◌||◌, none, List, [], ◌∷◌, ◌≡◌, str_eq, contains,
}
use madmail.Prelude.Dict.{lookup}
use madmail.Queue.Delivery.{
  Errs, BodyAnswer, atomic, non_atomic, Target, Call, sends_body, commits, has_error,
}

-- The attempt has an error for `r`.
abbrev has_failed : Errs → String → Bool
has_failed errs r = has_error (lookup r errs)

-- `r` was accepted or has an error.
abbrev is_seen : String → Errs × List String → Bool
is_seen r (errs, accepted) = has_failed errs r || contains accepted r

-- The body is refused for all, or by a status for this recipient.
abbrev pub is_refused : BodyAnswer → String → Bool
is_refused (atomic err) r = has_error err
is_refused (non_atomic statuses) r = any (λ (x, err). str_eq x r && has_error err) statuses

abbrev pub Committed : Target → String → List Call → Type 0
Committed t r calls =
    (calls ≡ sends_body ∷ commits ∷ [])
    × (t.start ≡ none)
    × (is_refused t.body r ≡ false)
    × (t.commit ≡ none)
