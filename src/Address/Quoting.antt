-- ===== src/Address/Quoting.antt =====
-- QuoteMbox and UnquoteMbox of framework/address/split.go.
use mathlib.Core.List.{append-nil, append_assoc}
use madmail.Prelude.{
  Text, true, false, [], ◌∷◌, ◌++◌, any, ◌≡◌, ◌≢◌, refl, ap, sym, ◌∙◌, arith, Bool-cases, inl, inr,
}
use madmail.Address.{
  ok, finish, classify, writes, unquote_from, unquote_mbox, is_special, needs_escape, escape,
  quote_mbox, quote_mark,
}

unquote_from-plain :
    (built m : Text)
    → any is_special m ≡ false
    → unquote_from false false false built m ≡ finish (built ++ m)
unfolding unquote_from
unquote_from-plain built [] h = ap finish (sym (append-nil built))
unquote_from-plain built (ch ∷ m) h =
    let ih = unquote_from-plain (built ++ ch ∷ []) m (ground arith) in
    let step : classify false false false ch ≡ writes = ground arith in
    rw (unquote_from, step) (ih ∙ ap finish (append_assoc built (ch ∷ []) m))

unquote_from-escape :
    (built m : Text)
    → unquote_from true false false built (escape m ++ quote_mark ∷ []) ≡ finish (built ++ m)
unfolding unquote_from escape
unquote_from-escape built [] = ap finish (sym (append-nil built))
unquote_from-escape built (ch ∷ m) =
    let ih =
      unquote_from-escape (built ++ ch ∷ []) m ∙ ap finish (append_assoc built (ch ∷ []) m) in
    elim (Bool-cases (needs_escape ch)) [
      | inl special ↦
          let step : classify true true false ch ≡ writes = ground arith in
          rw (special, unquote_from, step) ih
      | inr plain ↦
          let step : classify true false false ch ≡ writes = ground arith in
          rw (plain, unquote_from, step) ih
    ]

finish-nonempty : (m : Text) → m ≢ [] → finish m ≡ ok m
finish-nonempty [] h = absurd (h refl)
finish-nonempty (ch ∷ m) h = refl

-- `UnquoteMbox` undoes `QuoteMbox`: for every local part that is not empty, it returns it, without an
-- error.
pub unquote_mbox-quote_mbox : (m : Text) → m ≢ [] → unquote_mbox (quote_mbox m) ≡ ok m
unfolding unquote_mbox quote_mbox
unquote_mbox-quote_mbox m h = elim (Bool-cases (any is_special m)) [
  | inl special ↦ rw special (unquote_from-escape [] m ∙ finish-nonempty m h)
  | inr plain ↦ rw plain (unquote_from-plain [] m plain ∙ finish-nonempty m h)
]
