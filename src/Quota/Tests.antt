-- ===== src/Quota/Tests.antt =====
-- The quota theorems at concrete caches, and runs of the code.
use madmail.Prelude.{true, false, List, [], ◌∷◌, ◌≡◌, refl}
use madmail.Prelude.Int.{ℤ, pos, wrap64}
use madmail.Prelude.Dict.{Dict, lookup, insert, map_values}
use madmail.Quota.{
  Call, sets_max, resets_max, sets_default, adds_used, new, load, get, add_used, bump, seed_used,
  apply_quotas, step, run, set_max, set_default_quota,
}
use madmail.Quota.Defaults.{run-IsConsistent}
use madmail.Quota.Limits.{step-limit}

abbrev calls : List Call
calls = sets_default (pos 100) ∷ adds_used "ann" (pos 30) ∷ sets_max "bob" (pos 7) ∷ []

abbrev usage : Dict ℤ
usage = ("ann", pos 30) ∷ ("bob", pos 40) ∷ []

abbrev quotas : Dict ℤ
quotas = ("bob", pos 500) ∷ ("eve", pos 0) ∷ []

get_eve :
    get (load usage quotas (pos 100)) "eve"
    ≡ (record { used_bytes = pos 0; max_bytes = pos 100; is_default = true }, false)
unfolding get load lookup map_values apply_quotas seed_used insert
get_eve = refl

step-limit_example : (get (step (run new calls) (resets_max "bob")) "bob").0.max_bytes ≡ pos 100
unfolding run step set_max set_default_quota get lookup insert map_values add_used bump wrap64
step-limit_example =
    step-limit (run new calls) (resets_max "bob") "bob" (run-IsConsistent calls) refl
