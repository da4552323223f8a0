-- ===== src/Auth/PassTable/Login/Settings.antt =====
-- internal/auth/pass_table/table.go: GetSetting reads back what SetSetting wrote.
use madmail.Prelude.{
  String, str_eq, Bool, true, false, Option, none, some, Text, ◌≡◌, refl, sym, ap, ◌∙◌, subst,
  if◌then◌else◌, Bool-cases, inl, inr,
}
use madmail.Prelude.Dict.{lookup, lookup-insert}
use madmail.Auth.PassTable.Table.{
  Table, Auth, Env, Faults, found, as_found, look_up, set_key, setting, set_in, on_settings,
  not_mutable, get_setting, set_setting,
}
use madmail.Auth.PassTable.Login.Accepted.{allowed}

found_or :
    (b : Bool) (v : Text) (o : Option Text)
    → as_found (if b then some v else o) ≡ (if b then found v else as_found o)
found_or true v o = refl
found_or false v o = refl

abbrev pub Works : Faults → Type 0
Works f = (k : String) → f.lookup_fails k ≡ false

look_up-set_key :
    (f : Faults) (t : Table) (k j : String) (v : Text)
    → Works f
    → (set_key f t k v).0 ≡ none
    → look_up f (set_key f t k v).1 j ≡ (if str_eq k j then found v else look_up f t j)
unfolding look_up
look_up-set_key f t k j v works ok = elim (Bool-cases (f.set_fails k)) [
  | inl fails ↦ let wrong = rw fails at ok in cc (wrong)
  | inr writes ↦
      rw (writes, works j)
        (ap as_found (lookup-insert k j v t.entries) ∙ found_or (str_eq k j) v (lookup j t.entries))
]

module _ (env : Env) where
  on_settings_table :
      (a : Auth) (k j : String) (v : Text) (t : Option Table)
      → Works env.users
      → Works env.settings
      → a.settings_table ≡ t
      → (set_in env a k v t).0 ≡ none
      → setting env (set_in env a k v t).1 j (set_in env a k v t).1.settings_table
        ≡ (if str_eq k j then found v else setting env a j t)
  on_settings_table a k j v none users settings same ok =
      let r = on_settings a none (set_key env.users a.table k v) in
      let done = allowed a.table.is_mutable not_mutable a r ok in
      subst
        (λ x.
          setting env x.1 j x.1.settings_table
          ≡ (if str_eq k j then found v else setting env a j none))
        (sym done)
        (ap (setting env r.1 j) same
          ∙ look_up-set_key env.users a.table k j v users (ap (λ x. x.0) (sym done) ∙ ok))
  on_settings_table a k j v (some t) users settings same ok =
      let r = on_settings a (some t) (set_key env.settings t k v) in
      let done = allowed t.is_mutable not_mutable a r ok in
      subst
        (λ x.
          setting env x.1 j x.1.settings_table
          ≡ (if str_eq k j then found v else setting env a j (some t)))
        (sym done) (look_up-set_key env.settings t k j v settings (ap (λ x. x.0) (sym done) ∙ ok))

  auto_create-set_in :
      (a : Auth) (k : String) (v : Text) (t : Option Table)
      → (set_in env a k v t).1.auto_create ≡ a.auto_create
  auto_create-set_in a k v none = elim (Bool-cases a.table.is_mutable) [
    | inl open_table ↦
        ap
          (λ b.
            (if b
              then on_settings a none (set_key env.users a.table k v)
              else (some not_mutable, a)).1.auto_create)
          open_table
    | inr fixed ↦
        ap
          (λ b.
            (if b
              then on_settings a none (set_key env.users a.table k v)
              else (some not_mutable, a)).1.auto_create)
          fixed
  ]
  auto_create-set_in a k v (some t) = elim (Bool-cases t.is_mutable) [
    | inl open_table ↦
        ap
          (λ b.
            (if b
              then on_settings a (some t) (set_key env.settings t k v)
              else (some not_mutable, a)).1.auto_create)
          open_table
    | inr fixed ↦
        ap
          (λ b.
            (if b
              then on_settings a (some t) (set_key env.settings t k v)
              else (some not_mutable, a)).1.auto_create)
          fixed
  ]

  -- SetSetting without an error, then GetSetting: the key that was set has the new value and every other key
  -- has the one it had, wherever the settings are kept; no lookup fails.
  pub get_setting-set_setting :
      (a : Auth) (k j : String) (v : Text)
      → Works env.users
      → Works env.settings
      → (set_setting env a k v).0 ≡ none
      → get_setting env (set_setting env a k v).1 j
        ≡ (if str_eq k j then found v else get_setting env a j)
  get_setting-set_setting a k j v users settings ok =
      unfold set_setting get_setting in
      on_settings_table a k j v a.settings_table users settings refl ok

  pub auto_create-set_setting :
      (a : Auth) (k : String) (v : Text) → (set_setting env a k v).1.auto_create ≡ a.auto_create
  auto_create-set_setting a k v = unfold set_setting in auto_create-set_in a k v a.settings_table
