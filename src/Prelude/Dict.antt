-- ===== src/Prelude/Dict.antt =====
-- Go maps with text keys, as association lists: `m[k]`, `m[k] = v`, `delete(m, k)` and the
-- loop over all values.
use Prim.Native.String.{String}
use mathlib.Core.Path.{◌≡◌, refl}
use mathlib.Core.Option.{Option, none, some}
use mathlib.Core.List.{List, [], ◌∷◌}
use native.Mathlib.Omega.{arith}
use text.Mathlib.Text.{◌==◌ as str_eq}
use text.Mathlib.TextEquality.{eq_iff as str_eq_iff}
use Prim.Native.Nat.{◌+◌, ◌≤◌}
use madmail.Prelude.Lists.{length}
use madmail.Prelude.Tests.{if◌then◌else◌}

abbrev pub Dict {ℓ} : Type ℓ → Type ℓ
Dict V = List (String × V)

module _ {ℓ} {V : Type ℓ} where
  unfoldable pub lookup : String → Dict V → Option V
  lookup k [] = none
  lookup k ((j, v) ∷ m) = if str_eq j k then some v else lookup k m

  unfoldable pub insert : String → V → Dict V → Dict V
  insert k v [] = (k, v) ∷ []
  insert k v ((j, w) ∷ m) = if str_eq j k then (k, v) ∷ m else (j, w) ∷ insert k v m

  unfoldable pub delete : String → Dict V → Dict V
  delete k [] = []
  delete k ((j, v) ∷ m) = let rest = delete k m in if str_eq j k then rest else (j, v) ∷ rest

  abbrev pub update {κ} : {W : Type κ} → (V → W) → Option V → Option W
  update f none = none
  update f (some v) = some (f v)

  unfoldable pub map_values {κ} : {W : Type κ} → (V → W) → Dict V → Dict W
  map_values f [] = []
  map_values f ((j, v) ∷ m) = (j, f v) ∷ map_values f m

  pub lookup-insert :
      (k j : String) (v : V) (m : Dict V)
      → lookup j (insert k v m) ≡ (if str_eq k j then some v else lookup j m)
  unfolding lookup insert
  lookup-insert k j v [] = refl
  lookup-insert k j v ((i, w) ∷ m) =
      ground (arith, str_eq_iff k j, str_eq_iff i k, str_eq_iff i j, lookup-insert k j v m)

  pub lookup_same : (k : String) (v : V) (m : Dict V) → lookup k (insert k v m) ≡ some v
  lookup_same k v m = rw lookup-insert (ground (arith, str_eq_iff k k))

  pub lookup-delete :
      (k j : String) (m : Dict V)
      → lookup j (delete k m) ≡ (if str_eq k j then none else lookup j m)
  unfolding lookup delete
  lookup-delete k j [] = ground arith
  lookup-delete k j ((i, v) ∷ m) =
      ground (arith, lookup-delete k j m, str_eq_iff i k, str_eq_iff i j, str_eq_iff k j)

module _ {ℓ} {V : Type ℓ} where
  pub length-insert : (k : String) (v : V) (m : Dict V) → length (insert k v m) ≤ length m + 1
  unfolding insert
  length-insert k v [] = omega arith
  length-insert k v ((j, w) ∷ m) = ground (arith, length-insert k v m)

  pub insert-insert : (k : String) (v w : V) (m : Dict V) → insert k v (insert k w m) ≡ insert k v m
  unfolding insert
  insert-insert k v w [] = ground (arith, str_eq_iff k k)
  insert-insert k v w ((j, x) ∷ m) =
      ground (arith, str_eq_iff k k, str_eq_iff j k, insert-insert k v w m)

module _ {ℓ κ} {V : Type ℓ} {W : Type κ} where
  pub lookup-map_values :
      (f : V → W) (j : String) (m : Dict V) → lookup j (map_values f m) ≡ update f (lookup j m)
  unfolding lookup map_values
  lookup-map_values f j [] = refl
  lookup-map_values f j ((i, v) ∷ m) = ground (arith, lookup-map_values f j m)

pub ruleset dict_laws = (lookup-insert, lookup-delete, lookup-map_values)
