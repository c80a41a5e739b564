-- ===== src/Prelude/Assoc.antt =====
-- A JavaScript Map with number keys, as an association list in insertion order.
use Prim.Native.Nat.{ℕ}
use mathlib.Core.Path.{◌≡◌, refl}
use mathlib.Core.List.{List, [], ◌∷◌}
use mathlib.Core.Option.{Option, none, some}
use native.Mathlib.Omega.{arith}
use windows_10_js.Prelude.Tests.{◌==◌, if◌then◌else◌}

module _ {ℓ} {V : Type ℓ} where
  -- `Map.get`
  unfoldable pub lookup : ℕ → List (ℕ × V) → Option V
  lookup key [] = none
  lookup key (entry ∷ others) = if entry.0 == key then some entry.1 else lookup key others

  -- `Map.set`: a key that is there keeps its place.
  unfoldable pub insert : ℕ → V → List (ℕ × V) → List (ℕ × V)
  insert key value [] = (key, value) ∷ []
  insert key value (entry ∷ others) =
      let later = insert key value others in
      if entry.0 == key then (key, value) ∷ others else entry ∷ later

  -- `Map.delete`. Every entry of the key goes, so that no shadowed one comes back.
  unfoldable pub erase : ℕ → List (ℕ × V) → List (ℕ × V)
  erase key [] = []
  erase key (entry ∷ others) =
      let rest = erase key others in if entry.0 == key then rest else entry ∷ rest

  pub lookup-insert :
      (key : ℕ) (value : V) (others : List (ℕ × V)) (asked : ℕ)
      → lookup asked (insert key value others)
        ≡ (if key == asked then some value else lookup asked others)
  unfolding lookup insert
  lookup-insert key value [] asked = refl
  lookup-insert key value (entry ∷ others) asked =
      ground (arith, lookup-insert key value others asked)

  pub lookup-erase :
      (key : ℕ) (others : List (ℕ × V)) (asked : ℕ)
      → lookup asked (erase key others) ≡ (if key == asked then none else lookup asked others)
  unfolding lookup erase
  lookup-erase key [] asked = ground arith
  lookup-erase key (entry ∷ others) asked = ground (arith, lookup-erase key others asked)
