-- ===== src/Queue/Session/HandOver.antt =====
-- What the queue holds after the pipeline handed a message over: `Start`, `AddRcpt`, `Body` and `Commit`
-- of internal/target/queue/queue.go.
use madmail.Prelude.Dict.{lookup_same}
use madmail.Prelude.{
  ℕ, String, Bool, true, false, Option, none, some, List, [], ◌∷◌, ◌++◌, ◌≡◌, refl, ap, sym, ◌∙◌,
}
use mathlib.Core.List.{append-nil, append_assoc}
use madmail.Queue.Attempt.{Meta}
use madmail.Queue.Disk.{Disk, Fails, Codec, store_new_message}
use madmail.Queue.Disk.Stored.{store-with_message, with_message}
use madmail.Queue.Session.{Session, MsgMeta, start, add_rcpt, add_rcpts, send_body, commit, stored}
use madmail.Queue.Session.Kept.{IsStored}

-- The metadata of a message that was handed over with these recipients.
abbrev pub accepted : MsgMeta → String → ℕ → List String → Meta
accepted msg mail_from now rcpts = record {
  id = msg.id;
  from = mail_from;
  original_from = msg.original_from;
  original_rcpts = msg.original_rcpts;
  to = rcpts;
  rcpt_errs = [];
  tries_count = [];
  first_attempt = now;
  last_attempt = now;
}

add_rcpts-with_to :
    {H : Type 0} (rcpts before : List String) (meta : Meta) (s : Session H)
    → add_rcpts rcpts (record s { meta = some (record meta { to = before }) })
      ≡ some (record s { meta = some (record meta { to = before ++ rcpts }) })
unfolding add_rcpts add_rcpt
add_rcpts-with_to [] before meta s =
    ap (λ xs. some (record s { meta = some (record meta { to = xs }) })) (sym (append-nil before))
add_rcpts-with_to (x ∷ rcpts) before meta s =
    add_rcpts-with_to rcpts (before ++ x ∷ []) meta s
    ∙ ap (λ xs. some (record s { meta = some (record meta { to = xs }) }))
        (append_assoc before (x ∷ []) rcpts)

pair-eq : {A B : Type 0} (p : A × B) (a : A) (b : B) → p.0 ≡ a → p.1 ≡ b → p ≡ (a, b)
pair-eq p a b h k = cc (h, k)

module _ {H : Type 0} (c : Codec H) (fails : Fails) where
  -- What the session is after `Body` or `Commit`, where neither panics and `Body` has no error.
  abbrev if_stored : Option (Bool × Session H) → Option (Session H)
  if_stored none = none
  if_stored (some (false, s)) = none
  if_stored (some (true, s)) = some s

  abbrev then_commit : H → Option (Session H) → Option (Session H)
  then_commit empty none = none
  then_commit empty (some s) = commit empty s

  abbrev then_body : H → String → Option (Session H) → Option (Session H)
  then_body header text none = none
  then_body header text (some s) = if_stored (send_body c fails header text s)

  -- `Start`, `AddRcpt` for each recipient, `Body` and `Commit`.
  abbrev pub hand_over :
      MsgMeta → String → ℕ → List String → H → H → String → Disk → Option (Session H)
  hand_over msg mail_from now rcpts empty header text d =
      then_commit empty (then_body header text (add_rcpts rcpts (start msg mail_from now d)))

  -- A message that is handed over, by `Start`, `AddRcpt` for each recipient, `Body` and `Commit`, and
  -- that `Body` stores without an error, is on disk with all its recipients, header and body, and the
  -- wheel has one slot for it, due at once.
  pub hand_over_lem :
      (msg : MsgMeta) (mail_from : String) (now : ℕ) (rcpts : List String) (empty header : H)
      (text : String) (d : Disk)
      → (store_new_message c fails (accepted msg mail_from now rcpts) header text d).0 ≡ true
      → let meta = accepted msg mail_from now rcpts in
        (s : Session H) × (hand_over msg mail_from now rcpts empty header text d ≡ some s)
        × IsStored c meta header text s.disk
        × (s.added ≡ (0, record { id = msg.id; message = some (meta, header, some text) }) ∷ [])
  unfolding commit send_body start
  hand_over_lem msg mail_from now rcpts empty header text d h =
      let meta = accepted msg mail_from now rcpts in
      let d' = with_message c meta header text d in
      let stored' =
        pair-eq (store_new_message c fails meta header text d) true d' h
          (store-with_message c fails meta header text d h) in
      let first : Session H = start msg mail_from now d in
      let all = add_rcpts-with_to rcpts [] (accepted msg mail_from now []) first in
      (
        record {
          meta = none;
          header = some header;
          body = none;
          disk = d';
          added = (0, record { id = msg.id; message = some (meta, header, some text) }) ∷ [];
        },
        ap (λ o. then_commit empty (then_body header text o)) all
            ∙ ap
                (λ (p : Bool × Disk).
                  then_commit empty
                    (if_stored (some (stored header text (record first { meta = some meta }) p))))
                stored',
        record {
          meta_at = lookup_same meta.id (c.encode meta) d.metas;
          body_at = lookup_same meta.id text d.bodies;
          header_at = lookup_same meta.id (c.write_header header) d.headers;
        },
        refl,
      )
