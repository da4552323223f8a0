-- ===== src/Auth/PassTable/Login/Flags.antt =====
-- internal/auth/pass_table/table.go: the switches read back what was set.
use madmail.Prelude.{
  String, str_eq, Bool, true, false, Option, none, some, ◌≡◌, refl, sym, ap, ◌∙◌, subst,
  if◌then◌else◌,
}
use madmail.Auth.PassTable.Table.{Auth, Env, Error, found, get_setting, set_setting}
use madmail.Auth.PassTable.Login.{
  Flag, registration_open, turn, logging_disabled, jit_registration, flag_key, flag_text, flag_or,
  is_registration_open, set_registration_open, is_turn_enabled, set_turn_enabled,
  is_logging_disabled, set_logging_disabled, is_jit_registration_enabled,
  set_jit_registration_enabled, Logger, is_mutable_in, silenced,
}
use madmail.Auth.PassTable.Login.Settings.{Works, get_setting-set_setting, auto_create-set_setting}

same_result :
    {A : Type 0} (b : Bool) (x y : Logger) (r : A)
    → (if◌then◌else◌ {A = Logger × A} b (x, r) (y, r)).1 ≡ r
same_result true x y r = refl
same_result false x y r = refl

module _ (env : Env) where
  abbrev pub is_enabled : Auth → Flag → Option Bool
  is_enabled a registration_open = is_registration_open env a
  is_enabled a turn = is_turn_enabled env a
  is_enabled a logging_disabled = is_logging_disabled env a
  is_enabled a jit_registration = is_jit_registration_enabled env a

  abbrev pub set_enabled : Logger → Auth → Flag → Bool → Option Error × Auth
  set_enabled log a registration_open on = set_registration_open env a on
  set_enabled log a turn on = set_turn_enabled env a on
  set_enabled log a logging_disabled on = (set_logging_disabled env log a on).1
  set_enabled log a jit_registration on = set_jit_registration_enabled env a on

  -- What a switch reads after one is set: itself, and registration on login follows the registration as long
  -- as it has no setting of its own.
  abbrev pub reads_after : Auth → Flag → Bool → Flag → Option Bool
  reads_after a registration_open on registration_open = some on
  reads_after a registration_open on jit_registration =
      flag_or (some on) (get_setting env a (flag_key jit_registration))
  reads_after a turn on turn = some on
  reads_after a logging_disabled on logging_disabled = some on
  reads_after a jit_registration on jit_registration = some on
  reads_after a f on g = is_enabled a g

  flag_or-text : (d : Option Bool) (on : Bool) → flag_or d (found (flag_text on)) ≡ some on
  flag_or-text d true = refl
  flag_or-text d false = refl

  set_enabled-set_setting :
      (log : Logger) (a : Auth) (f : Flag) (on : Bool)
      → set_enabled log a f on ≡ set_setting env a (flag_key f) (flag_text on)
  set_enabled-set_setting log a registration_open on = unfold set_registration_open in refl
  set_enabled-set_setting log a turn on = unfold set_turn_enabled in refl
  set_enabled-set_setting log a jit_registration on = unfold set_jit_registration_enabled in refl
  set_enabled-set_setting log a logging_disabled on =
      unfold set_logging_disabled in
      same_result (is_mutable_in env a a.settings_table) (silenced env log on) log
        (set_setting env a (flag_key logging_disabled) (flag_text on))

  reads_registration :
      (a b : Auth) (f : Flag) (on : Bool)
      → b.auto_create ≡ a.auto_create
      → ((j : String)
          → get_setting env b j
            ≡ (if str_eq (flag_key f) j then found (flag_text on) else get_setting env a j))
      → is_registration_open env b ≡ reads_after a f on registration_open
  reads_registration a b registration_open on same reads =
      unfold is_registration_open in
      ap (flag_or (some b.auto_create)) (reads (flag_key registration_open))
      ∙ flag_or-text (some b.auto_create) on
  reads_registration a b turn on same reads =
      unfold is_registration_open in
      ap (λ x. flag_or (some x) (get_setting env b (flag_key registration_open))) same
      ∙ ap (flag_or (some a.auto_create)) (reads (flag_key registration_open))
  reads_registration a b logging_disabled on same reads =
      unfold is_registration_open in
      ap (λ x. flag_or (some x) (get_setting env b (flag_key registration_open))) same
      ∙ ap (flag_or (some a.auto_create)) (reads (flag_key registration_open))
  reads_registration a b jit_registration on same reads =
      unfold is_registration_open in
      ap (λ x. flag_or (some x) (get_setting env b (flag_key registration_open))) same
      ∙ ap (flag_or (some a.auto_create)) (reads (flag_key registration_open))

  reads_after-set_setting :
      (a b : Auth) (f g : Flag) (on : Bool)
      → b.auto_create ≡ a.auto_create
      → ((j : String)
          → get_setting env b j
            ≡ (if str_eq (flag_key f) j then found (flag_text on) else get_setting env a j))
      → is_enabled b g ≡ reads_after a f on g
  reads_after-set_setting a b registration_open registration_open on same reads =
      reads_registration a b registration_open on same reads
  reads_after-set_setting a b registration_open turn on same reads =
      unfold is_turn_enabled in ap (flag_or (some true)) (reads (flag_key turn))
  reads_after-set_setting a b registration_open logging_disabled on same reads =
      unfold is_logging_disabled in ap (flag_or (some false)) (reads (flag_key logging_disabled))
  reads_after-set_setting a b registration_open jit_registration on same reads =
      unfold is_jit_registration_enabled in
      ap (λ d. flag_or d (get_setting env b (flag_key jit_registration)))
        (reads_registration a b registration_open on same reads)
      ∙ ap (flag_or (reads_after a registration_open on registration_open))
          (reads (flag_key jit_registration))
  reads_after-set_setting a b turn registration_open on same reads =
      reads_registration a b turn on same reads
  reads_after-set_setting a b turn turn on same reads =
      unfold is_turn_enabled in
      ap (flag_or (some true)) (reads (flag_key turn)) ∙ flag_or-text (some true) on
  reads_after-set_setting a b turn logging_disabled on same reads =
      unfold is_logging_disabled in ap (flag_or (some false)) (reads (flag_key logging_disabled))
  reads_after-set_setting a b turn jit_registration on same reads =
      unfold is_jit_registration_enabled in
      ap (λ d. flag_or d (get_setting env b (flag_key jit_registration)))
        (reads_registration a b turn on same reads)
      ∙ ap (flag_or (reads_after a turn on registration_open)) (reads (flag_key jit_registration))
  reads_after-set_setting a b logging_disabled registration_open on same reads =
      reads_registration a b logging_disabled on same reads
  reads_after-set_setting a b logging_disabled turn on same reads =
      unfold is_turn_enabled in ap (flag_or (some true)) (reads (flag_key turn))
  reads_after-set_setting a b logging_disabled logging_disabled on same reads =
      unfold is_logging_disabled in
      ap (flag_or (some false)) (reads (flag_key logging_disabled)) ∙ flag_or-text (some false) on
  reads_after-set_setting a b logging_disabled jit_registration on same reads =
      unfold is_jit_registration_enabled in
      ap (λ d. flag_or d (get_setting env b (flag_key jit_registration)))
        (reads_registration a b logging_disabled on same reads)
      ∙ ap (flag_or (reads_after a logging_disabled on registration_open))
          (reads (flag_key jit_registration))
  reads_after-set_setting a b jit_registration registration_open on same reads =
      reads_registration a b jit_registration on same reads
  reads_after-set_setting a b jit_registration turn on same reads =
      unfold is_turn_enabled in ap (flag_or (some true)) (reads (flag_key turn))
  reads_after-set_setting a b jit_registration logging_disabled on same reads =
      unfold is_logging_disabled in ap (flag_or (some false)) (reads (flag_key logging_disabled))
  reads_after-set_setting a b jit_registration jit_registration on same reads =
      unfold is_jit_registration_enabled in
      ap (flag_or (is_registration_open env b)) (reads (flag_key jit_registration))
      ∙ flag_or-text (is_registration_open env b) on

  -- After a switch is set without an error it reads what was set, and every other switch reads what it read
  -- before; but registration on login, while it has no setting of its own, reads what the registration is set
  -- to. No lookup fails.
  pub is_enabled-set_enabled :
      (log : Logger) (a : Auth) (f g : Flag) (on : Bool)
      → Works env.users
      → Works env.settings
      → (set_enabled log a f on).0 ≡ none
      → is_enabled (set_enabled log a f on).1 g ≡ reads_after a f on g
  is_enabled-set_enabled log a f g on users settings ok =
      let r = set_setting env a (flag_key f) (flag_text on) in
      let same = set_enabled-set_setting log a f on in
      subst (λ x. is_enabled x.1 g ≡ reads_after a f on g) (sym same)
        (reads_after-set_setting a r.1 f g on
          (auto_create-set_setting env a (flag_key f) (flag_text on))
          (λ j.
            get_setting-set_setting env a (flag_key f) j (flag_text on) users settings
              (ap (λ x. x.0) (sym same) ∙ ok)))
