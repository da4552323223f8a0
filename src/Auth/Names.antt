-- ===== src/Auth/Names.antt =====
-- User names of internal/auth/auth.go: what ValidateLoginDomain accepts, and that a normalized name stays
-- as it is.
pub mod Normal
use mathlib.Core.List.{append_assoc}
use madmail.Prelude.{
  ℕ, Bool, true, false, not, ◌&&◌, ◌||◌, Option, none, some, List, [], ◌∷◌, ◌++◌, any, ◌==◌, Text,
  ◌≡◌, ◌≢◌, ==_iff, ◌↔◌, refl, sym, ap, ◌∙◌, subst, arith, if◌then◌else◌, Bool-cases, inl, inr,
}
use madmail.Auth.{
  Libs, push, split_on, is_bracket, trim_left, cons_unless, trim_right, trim, at_sign, percent, has,
  is_empty, wrap_ip, normalize_parts, normalize_username, validate_parts, validate_login_domain,
}

abbrev pub join : ℕ → List Text → Text
join sep [] = []
join sep (part ∷ []) = part
join sep (part ∷ more ∷ parts) = part ++ sep ∷ join sep (more ∷ parts)

abbrev pub NoneHas : ℕ → List Text → Type 0
NoneHas sep [] = Unit {0}
NoneHas sep (part ∷ parts) = (has sep part ≡ false) × NoneHas sep parts

join-push : (sep c : ℕ) (parts : List Text) → join sep (push c parts) ≡ c ∷ join sep parts
join-push sep c [] = refl
join-push sep c (part ∷ []) = refl
join-push sep c (part ∷ more ∷ parts) = refl

NoneHas-push :
    (sep c : ℕ) (parts : List Text)
    → (c == sep) ≡ false
    → NoneHas sep parts
    → NoneHas sep (push c parts)
NoneHas-push sep c [] h n = ground arith
NoneHas-push sep c (part ∷ parts) h n = (ground arith, n.1)

split_here :
    (sep c : ℕ) (s : Text) (parts : List Text)
    → (c == sep) ≡ true
    → join sep parts ≡ s
    → parts ≢ []
    → join sep ([] ∷ parts) ≡ c ∷ s
split_here sep c s [] h e n = absurd (n refl)
split_here sep c s (part ∷ parts) h e n =
    let same : sep ≡ c = sym ((==_iff c sep).0 h) in rw (same, e) refl

push-nonempty : (c : ℕ) (parts : List Text) → push c parts ≢ []
push-nonempty c [] = λ e. cc
push-nonempty c (part ∷ parts) = λ e. cc

-- The parts of a text do not have the separator, and joined they are the text.
pub split_on_lem :
    (sep : ℕ) (s : Text)
    → (join sep (split_on sep s) ≡ s) × NoneHas sep (split_on sep s) × (split_on sep s ≢ [])
unfolding split_on
split_on_lem sep [] = (refl, (refl, tt), λ e. cc)
split_on_lem sep (c ∷ s) =
    let (joined, none_has, nonempty) = split_on_lem sep s in
    elim (Bool-cases (c == sep)) [
      | inl here ↦
          rw here
            (split_here sep c s (split_on sep s) here joined nonempty, (refl, none_has), λ e. cc)
      | inr later ↦ rw later (
        join-push sep c (split_on sep s) ∙ ap (λ t. c ∷ t) joined,
        NoneHas-push sep c (split_on sep s) later none_has,
        push-nonempty c (split_on sep s),
      )
    ]

pub split_on-none : (sep : ℕ) (s : Text) → has sep s ≡ false → split_on sep s ≡ s ∷ []
unfolding split_on
split_on-none sep [] h = refl
split_on-none sep (c ∷ s) h = rw (split_on-none sep s (ground arith)) (ground arith)

pub split_on-append :
    (sep : ℕ) (a b : Text) → has sep a ≡ false → split_on sep (a ++ sep ∷ b) ≡ a ∷ split_on sep b
unfolding split_on
split_on-append sep [] b h = ground arith
split_on-append sep (c ∷ a) b h = rw (split_on-append sep a b (ground arith)) (ground arith)

pub has-append : (c : ℕ) (a b : Text) → has c (a ++ b) ≡ has c a || has c b
has-append c [] b = refl
has-append c (d ∷ a) b = ground (arith, has-append c a b)

-- A local part that is not empty and a domain, with no at-sign and no percent sign.
pub record IsLogin (username localpart domain : Text) : Type 0 where
  pub joined : username ≡ localpart ++ at_sign ∷ domain
  pub nonempty : localpart ≢ []
  pub one_at_sign : (has at_sign localpart || has at_sign domain) ≡ false
  pub unencoded : (has percent localpart || has percent domain) ≡ false

module _ (libs : Libs) where
  validate_parts-none :
      (expected : Text) (parts : List Text)
      → validate_parts libs expected parts ≡ none
      → (localpart : Text) × (domain : Text) × (parts ≡ localpart ∷ domain ∷ [])
        × (localpart ≢ [])
        × (libs.equal_fold (wrap_ip libs domain) expected ≡ true)
  validate_parts-none expected [] h = cc
  validate_parts-none expected (a ∷ []) h = cc
  validate_parts-none expected (a ∷ b ∷ c ∷ parts) h = cc
  validate_parts-none expected ([] ∷ b ∷ []) h = cc
  validate_parts-none expected ((c ∷ a) ∷ b ∷ []) h = (c ∷ a, b, refl, λ e. cc, ground arith)

  accepts-IsLogin :
      (username expected : Text)
      → is_empty expected ≡ false
      → validate_login_domain libs username expected ≡ none
      → (localpart : Text) × (domain : Text) × IsLogin username localpart domain
        × (libs.equal_fold (wrap_ip libs domain) expected ≡ true)
  unfolding validate_login_domain
  accepts-IsLogin username expected e h =
      let clean : has percent username ≡ false = ground arith in
      let passed : validate_parts libs expected (split_on at_sign username) ≡ none =
        rw (e, clean) at h in
      let (a, b, parts, nonempty, same) =
        validate_parts-none expected (split_on at_sign username) passed in
      let (joined, none_has, some_parts) = split_on_lem at_sign username in
      let name = sym joined ∙ ap (join at_sign) parts in
      let no_at = subst (NoneHas at_sign) parts none_has in
      let no_percent =
        sym (has-append percent a (at_sign ∷ b)) ∙ (sym (ap (has percent) name) ∙ clean) in
      (
        a,
        b,
        record {
          joined = name;
          nonempty = nonempty;
          one_at_sign = ground arith;
          unencoded = no_percent;
        },
        same,
      )

  login_accepted :
      (username expected localpart domain : Text)
      → is_empty expected ≡ false
      → IsLogin username localpart domain
      → libs.equal_fold (wrap_ip libs domain) expected ≡ true
      → validate_login_domain libs username expected ≡ none
  unfolding validate_login_domain
  login_accepted username expected [] domain e l same = absurd (l.nonempty refl)
  login_accepted username expected (c ∷ a) domain e l same =
      let clean : has percent username ≡ false =
        rw l.joined (has-append percent (c ∷ a) (at_sign ∷ domain) ∙ l.unencoded) in
      let no_at : has at_sign (c ∷ a) ≡ false = ground (arith, l.one_at_sign) in
      let no_at' : has at_sign domain ≡ false = ground (arith, l.one_at_sign) in
      let parts : split_on at_sign username ≡ (c ∷ a) ∷ domain ∷ [] = rw l.joined (
        split_on-append at_sign (c ∷ a) domain no_at
        ∙ ap (λ ps. (c ∷ a) ∷ ps) (split_on-none at_sign domain no_at')) in
      rw (e, clean, parts, same) refl

  -- With a domain to check against, ValidateLoginDomain accepts a name exactly if it is a local part that
  -- is not empty, an at-sign and a domain, with no other at-sign and no percent sign, and this domain, in
  -- brackets if it is an IP address, is the expected one up to case.
  pub validate_login_domain_iff :
      (username expected : Text)
      → is_empty expected ≡ false
      → (validate_login_domain libs username expected ≡ none) ↔ (
          (localpart : Text) × (domain : Text) × IsLogin username localpart domain
          × (libs.equal_fold (wrap_ip libs domain) expected ≡ true))
  validate_login_domain_iff username expected e =
      (accepts-IsLogin username expected e, λ w. login_accepted username expected w.0 w.1 e w.2 w.3)
