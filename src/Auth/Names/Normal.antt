-- ===== src/Auth/Names/Normal.antt =====
-- Normalized user names of internal/auth/auth.go stay as they are.
use madmail.Prelude.{
  ℕ, true, false, ◌||◌, List, [], ◌∷◌, ◌++◌, ◌==◌, Text, ◌≡◌, refl, sym, ap, ◌∙◌, subst, arith,
  Bool-cases, inl, inr,
}
use madmail.Auth.{
  Libs, split_on, is_bracket, trim_left, cons_unless, trim_right, trim, at_sign, has, wrap_ip,
  normalize_parts, normalize_username,
}
use madmail.Auth.Names.{split_on_lem, split_on-none, split_on-append, has-append, join, NoneHas}

-- The text is empty or does not start with a bracket.
abbrev Unopened : Text → Type 0
Unopened [] = Unit {0}
Unopened (c ∷ s) = is_bracket c ≡ false

trim_left-Unopened : (s : Text) → Unopened (trim_left s)
unfolding trim_left
trim_left-Unopened [] = tt
trim_left-Unopened (c ∷ s) = elim (Bool-cases (is_bracket c)) [
  | inl bracket ↦ rw bracket (trim_left-Unopened s)
  | inr other ↦ rw other other
]

cons_unless-Unopened : (c : ℕ) (s : Text) → is_bracket c ≡ false → Unopened (cons_unless c s)
cons_unless-Unopened c [] h = rw h h
cons_unless-Unopened c (d ∷ s) h = h

trim_right-Unopened : (s : Text) → Unopened s → Unopened (trim_right s)
unfolding trim_right
trim_right-Unopened [] h = tt
trim_right-Unopened (c ∷ s) h = cons_unless-Unopened c (trim_right s) h

trim_right-cons_unless :
    (c : ℕ) (s : Text) → trim_right s ≡ s → trim_right (cons_unless c s) ≡ cons_unless c s
unfolding trim_right
trim_right-cons_unless c [] h = elim (Bool-cases (is_bracket c)) [
  | inl bracket ↦ rw bracket refl
  | inr other ↦ rw other (rw other refl)
]
trim_right-cons_unless c (d ∷ s) h = ap (cons_unless c) h

trim_right_idem : (s : Text) → trim_right (trim_right s) ≡ trim_right s
unfolding trim_right
trim_right_idem [] = refl
trim_right_idem (c ∷ s) = trim_right-cons_unless c (trim_right s) (trim_right_idem s)

trim_right-append : (s : Text) → trim_right (s ++ 93 ∷ []) ≡ trim_right s
unfolding trim_right
trim_right-append [] = refl
trim_right-append (c ∷ s) = ap (cons_unless c) (trim_right-append s)

trim-wrapped : (t : Text) → Unopened t → trim_right t ≡ t → trim (91 ∷ (t ++ 93 ∷ [])) ≡ t
unfolding trim_left
trim-wrapped [] h e = unfold trim_right in refl
trim-wrapped (c ∷ s) h e = rw h (trim_right-append (c ∷ s) ∙ e)

trim-trim : (d : Text) → trim (91 ∷ (trim d ++ 93 ∷ [])) ≡ trim d
trim-trim d =
    trim-wrapped (trim d) (trim_right-Unopened (trim_left d) (trim_left-Unopened d))
      (trim_right_idem (trim_left d))

has-trim_left : (s : Text) → has at_sign (trim_left s) ≡ has at_sign s
unfolding trim_left
has-trim_left [] = refl
has-trim_left (c ∷ s) = ground (arith, has-trim_left s)

has-cons_unless :
    (c : ℕ) (s : Text) → has at_sign (cons_unless c s) ≡ (c == at_sign) || has at_sign s
has-cons_unless c [] = ground arith
has-cons_unless c (d ∷ s) = refl

has-trim_right : (s : Text) → has at_sign (trim_right s) ≡ has at_sign s
unfolding trim_right
has-trim_right [] = refl
has-trim_right (c ∷ s) =
    has-cons_unless c (trim_right s) ∙ ap (λ b. (c == at_sign) || b) (has-trim_right s)

module _ (libs : Libs) where
  wrap_ip_idem : (d : Text) → wrap_ip libs (wrap_ip libs d) ≡ wrap_ip libs d
  unfolding wrap_ip
  wrap_ip_idem d = elim (Bool-cases (libs.is_ip (trim d))) [
    | inl ip ↦ rw ip (rw (trim-trim d) (rw ip refl))
    | inr name ↦ rw name (rw name refl)
  ]

  has-wrap_ip : (d : Text) → has at_sign (wrap_ip libs d) ≡ has at_sign d
  unfolding wrap_ip
  has-wrap_ip d =
      let same = has-trim_right (trim_left d) ∙ has-trim_left d in
      elim (Bool-cases (libs.is_ip (trim d))) [
        | inl ip ↦ rw ip (ground (arith, has-append at_sign (trim d) (93 ∷ []), same))
        | inr name ↦ rw name refl
      ]

  wrap_ip_kept :
      (u : Text)
      → ((t : Text) → libs.is_ip t ≡ true → has at_sign t ≡ false)
      → has at_sign u ≡ true
      → wrap_ip libs u ≡ u
  unfolding wrap_ip
  wrap_ip_kept u law h =
      let same = has-trim_right (trim_left u) ∙ has-trim_left u in
      elim (Bool-cases (libs.is_ip (trim u))) [
        | inl ip ↦ cc (law (trim u) ip, same, h)
        | inr name ↦ rw name refl
      ]

  normalize_parts_kept :
      (u : Text) (parts : List Text)
      → ((t : Text) → libs.is_ip t ≡ true → has at_sign t ≡ false)
      → split_on at_sign u ≡ parts
      → normalize_username libs (normalize_parts libs u parts) ≡ normalize_parts libs u parts
  unfolding normalize_username
  normalize_parts_kept u [] law e = absurd ((split_on_lem at_sign u).2 e)
  normalize_parts_kept u (a ∷ []) law e =
      let (joined, none_has, some_parts) = split_on_lem at_sign u in
      let whole : a ≡ u = sym (ap (join at_sign) e) ∙ joined in
      let clean : has at_sign u ≡ false =
        subst (λ t. has at_sign t ≡ false) whole (subst (NoneHas at_sign) e none_has).0 in
      rw (split_on-none at_sign (wrap_ip libs u) (has-wrap_ip u ∙ clean)) (wrap_ip_idem u)
  normalize_parts_kept u (a ∷ b ∷ []) law e =
      let clean = subst (NoneHas at_sign) e (split_on_lem at_sign u).1 in
      let parts : split_on at_sign (a ++ at_sign ∷ wrap_ip libs b) ≡ a ∷ wrap_ip libs b ∷ [] =
        split_on-append at_sign a (wrap_ip libs b) clean.0
        ∙ ap (λ ps. a ∷ ps) (split_on-none at_sign (wrap_ip libs b) (has-wrap_ip b ∙ clean.1.0)) in
      rw (parts, wrap_ip_idem b) refl
  normalize_parts_kept u (a ∷ b ∷ c ∷ parts) law e = elim (Bool-cases (has at_sign u)) [
    | inl has_at ↦
        let kept = wrap_ip_kept u law has_at in rw kept (ap (normalize_parts libs u) e ∙ kept)
    | inr clean ↦ cc (split_on-none at_sign u clean, e)
  ]

  -- NormalizeUsername does not change a name that it returned, where no text with an at-sign is parsed as an
  -- IP address.
  pub normalize_username_idem :
      (u : Text)
      → ((t : Text) → libs.is_ip t ≡ true → has at_sign t ≡ false)
      → normalize_username libs (normalize_username libs u) ≡ normalize_username libs u
  normalize_username_idem u law =
      unfold normalize_username in normalize_parts_kept u (split_on at_sign u) law refl
