-- ===== src/Prelude/Dict.antt =====
-- Go maps with text keys, as association lists. The order of the list is one of the orders in
-- which Go may range over the map; `NodupKeys` says that a key is listed once.
use Prim.Native.String.{String}
use mathlib.Core.Path.{◌≡◌, refl}
use mathlib.Core.Option.{Option, none, some}
use mathlib.Core.List.{List, [], ◌∷◌}
use native.Mathlib.Omega.{arith}
use text.Mathlib.Text.{◌==◌}
use text.Mathlib.TextEquality.{eq_iff}
use authentik_operator.Prelude.Tests.{if◌then◌else◌}

abbrev pub Dict {ℓ} : Type ℓ → Type ℓ
Dict V = List (String × V)

module _ {ℓ} {V : Type ℓ} where
  -- `v, ok := m[k]`
  unfoldable pub lookup : String → Dict V → Option V
  lookup k [] = none
  lookup k ((j, v) ∷ m) = if k == j then some v else lookup k m

  -- `m[k] = v`
  unfoldable pub insert : String → V → Dict V → Dict V
  insert k v [] = (k, v) ∷ []
  insert k v ((j, w) ∷ m) = if k == j then (k, v) ∷ m else (j, w) ∷ insert k v m

  -- `delete(m, k)`
  unfoldable pub erase : String → Dict V → Dict V
  erase k [] = []
  erase k ((j, w) ∷ m) = let rest = erase k m in if k == j then rest else (j, w) ∷ rest

  -- `maps.Copy(dst, src)`: every entry of `src` is written to `dst`
  unfoldable pub copy : Dict V → Dict V → Dict V
  copy dst [] = dst
  copy dst ((k, v) ∷ src) = copy (insert k v dst) src

  abbrev pub NodupKeys : Dict V → Type ℓ
  NodupKeys [] = Unit
  NodupKeys ((k, _) ∷ m) = (lookup k m ≡ none) × NodupKeys m

  pub lookup-insert :
      (j k : String) (v : V) (m : Dict V)
      → lookup j (insert k v m) ≡ (if j == k then some v else lookup j m)
  unfolding lookup insert
  lookup-insert j k v [] = refl
  lookup-insert j k v ((i, w) ∷ m) =
      ground (arith, eq_iff j k, eq_iff k i, eq_iff j i, lookup-insert j k v m)

  pub lookup-erase :
      (j k : String) (m : Dict V) → lookup j (erase k m) ≡ (if j == k then none else lookup j m)
  unfolding lookup erase
  lookup-erase j k [] = ground arith
  lookup-erase j k ((i, w) ∷ m) =
      ground (arith, eq_iff j k, eq_iff k i, eq_iff j i, lookup-erase j k m)

  -- `src` wins where it has the key
  pub lookup-copy :
      (j : String) (dst src : Dict V)
      → NodupKeys src
      → lookup j (copy dst src) ≡ elim (lookup j src) [ some v ↦ some v | none ↦ lookup j dst ]
  unfolding lookup copy
  lookup-copy j dst [] _ = refl
  lookup-copy j dst ((k, v) ∷ src) (fresh, u) =
      ground (arith, eq_iff j k, lookup-copy j (insert k v dst) src u, lookup-insert j k v dst)

  pub insert-NodupKeys : (k : String) (v : V) (m : Dict V) → NodupKeys m → NodupKeys (insert k v m)
  unfolding lookup insert
  insert-NodupKeys k v [] _ = (refl, tt)
  insert-NodupKeys k v ((j, w) ∷ m) (fresh, u) =
      ground (arith, eq_iff k j, eq_iff j k, insert-NodupKeys k v m u, lookup-insert j k v m)

pub ruleset dict_laws = (lookup-insert, lookup-erase)
