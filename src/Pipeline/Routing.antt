-- ===== src/Pipeline/Routing.antt =====
-- internal/msgpipeline/msgpipeline.go: which block of the configuration handles a sender or a recipient.
use madmail.Prelude.{
  ℕ, Bool, true, false, Option, none, some, List, [], ◌∷◌, Text, text_eq, if◌then◌else◌, ◌≡◌, ap,
}
use madmail.Errors.{GoError}
use madmail.Address.{Error, Result, failed, ok, split}
use madmail.Address.Lookup.{Unicode, LookupError, for_lookup, equal, text-for_lookup}

-- A table gives no answer if its lookup failed, which is logged.
pub record Rule (B : Type 0) : Type 0 where
  pub matches : Text → Option Bool
  pub block : B

pub record RcptBlock : Type 0 where
  pub id : ℕ
  pub checks : List ℕ
  pub modifiers : List ℕ
  pub reject_err : Option GoError
  pub targets : List ℕ

pub record SourceBlock : Type 0 where
  pub checks : List ℕ
  pub modifiers : List ℕ
  pub reject_err : Option GoError
  pub rcpt_in : List (Rule RcptBlock)
  pub per_rcpt : List (Text × RcptBlock)
  pub default_rcpt : RcptBlock

-- The SMTPError of each place, with its cause: 501 5.1.7 and 553 5.1.2, and 501 5.1.3.
pub data RouteError : Type 0 where
  unable_to_normalize : LookupError → RouteError
  invalid_address : Error → RouteError

pub data Route (B : Type 0) : Type 0 where
  no_route : RouteError → Route B
  routed : B → Route B

abbrev first_rule : {B : Type 0} → Text → List (Rule B) → Option B
first_rule key [] = none
first_rule key (r ∷ rest) =
    let later = first_rule key rest in
    elim (r.matches key) [ none ↦ later | some hit ↦ if hit then some r.block else later ]

abbrev find : {B : Type 0} → Text → List (Text × B) → Option B
find key [] = none
find key ((k, b) ∷ rest) = let later = find key rest in if text_eq k key then some b else later

abbrev or_else : {B : Type 0} → Option B → Route B → Route B
or_else none r = r
or_else (some b) r = routed b

abbrev or_default : {B : Type 0} → Option B → B → Route B
or_default none b = routed b
or_default (some b) d = routed b

-- An error of `Split` does not matter for the null sender.
abbrev by_domain : {B : Type 0} → Bool → List (Text × B) → B → Result (Text × Text) → Route B
by_domain null blocks default (failed e) =
    if null then or_default (find [] blocks) default else no_route (invalid_address e)
by_domain null blocks default (ok (mbox, domain)) = or_default (find domain blocks) default

abbrev by_key : {B : Type 0} → Bool → List (Rule B) → List (Text × B) → B → Text → Route B
by_key null rules blocks default key =
    or_else (first_rule key rules)
      (or_else (find key blocks) (by_domain null blocks default (split key)))

abbrev by_looked : {B : Type 0} → Option LookupError → Route B → Route B
by_looked none r = r
by_looked (some e) r = no_route (unable_to_normalize e)

abbrev is_null : Text → Bool
is_null [] = true
is_null (c ∷ rest) = false

module _ (u : Unicode) where
  unfoldable pub src_block_for_addr :
      List (Rule SourceBlock) → List (Text × SourceBlock) → SourceBlock → Text → Route SourceBlock
  src_block_for_addr rules blocks default from =
      let looked = for_lookup u from in
      by_looked looked.error (by_key (is_null looked.text) rules blocks default looked.text)

  unfoldable pub rcpt_block_for_addr : SourceBlock → Text → Route RcptBlock
  rcpt_block_for_addr source to =
      let looked = for_lookup u to in
      by_looked looked.error
        (by_key false source.rcpt_in source.per_rcpt source.default_rcpt looked.text)

  -- Two senders, or two recipients of one sender, that are equal as addresses and can be normalized,
  -- are handled by one block, whatever the rules and their tables are.
  pub block-equal :
      (rules : List (Rule SourceBlock)) (blocks : List (Text × SourceBlock)) (source : SourceBlock)
      (a b : Text)
      → equal u a b ≡ true
      → (for_lookup u a).error ≡ none
      → (for_lookup u b).error ≡ none
      → (src_block_for_addr rules blocks source a ≡ src_block_for_addr rules blocks source b)
        × (rcpt_block_for_addr source a ≡ rcpt_block_for_addr source b)
  unfolding src_block_for_addr rcpt_block_for_addr
  block-equal rules blocks source a b h x y =
      let key = text-for_lookup u a b h in
      (
        rw (x, y) (ap (λ k. by_key (is_null k) rules blocks source k) key),
        rw (x, y) (ap (by_key false source.rcpt_in source.per_rcpt source.default_rcpt) key),
      )
