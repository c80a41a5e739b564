-- ===== src/Prelude/TextMap.antt =====
-- A JavaScript Map with text keys, as an association list in insertion order. A text is the list of
-- its UTF-16 code units.
use Prim.Native.Nat.{ℕ}
use mathlib.Core.Path.{◌≡◌, refl, sym, ap, ◌∙◌}
use mathlib.Core.Logic.{inl, inr}
use mathlib.Core.Bool.{Bool, true, false, ◌&&◌}
use mathlib.Core.List.{List, [], ◌∷◌}
use mathlib.Core.Option.{Option, none, some}
use native.Mathlib.Omega.{arith}
use windows_10_js.Prelude.Tests.{◌==◌, if◌then◌else◌, Bool-cases}

abbrev pub Text : Type 0
Text = List ℕ

unfoldable pub same : Text → Text → Bool
same [] [] = true
same [] (d ∷ b) = false
same (c ∷ a) [] = false
same (c ∷ a) (d ∷ b) = (c == d) && same a b

pub same_refl : (a : Text) → same a a ≡ true
unfolding same
same_refl [] = refl
same_refl (c ∷ a) = ground (arith, same_refl a)

pub same-eq : (a b : Text) → same a b ≡ true → a ≡ b
unfolding same
same-eq [] [] h = refl
same-eq [] (d ∷ b) h = absurd (grind arith)
same-eq (c ∷ a) [] h = absurd (grind arith)
same-eq (c ∷ a) (d ∷ b) h = elim (Bool-cases (same a b)) [
  | inl hit ↦
      let head : c ≡ d = ground arith in ap (λ x. x ∷ a) head ∙ ap (λ x. d ∷ x) (same-eq a b hit)
  | inr miss ↦ absurd (ground arith)
]

pub same_comm : (a b : Text) → same a b ≡ same b a
unfolding same
same_comm [] [] = refl
same_comm [] (d ∷ b) = refl
same_comm (c ∷ a) [] = refl
same_comm (c ∷ a) (d ∷ b) = let rest = same_comm a b in ground (arith, rest)

module _ {ℓ} {V : Type ℓ} where
  -- `Map.get`
  unfoldable pub get : Text → List (Text × V) → Option V
  unfolding same
  get key [] = none
  get key (entry ∷ others) =
      let later = get key others in if same entry.0 key then some entry.1 else later

  -- `Map.set`: a key that is there keeps its place.
  unfoldable pub put : Text → V → List (Text × V) → List (Text × V)
  unfolding same
  put key value [] = (key, value) ∷ []
  put key value (entry ∷ others) =
      let later = put key value others in
      if same entry.0 key then (key, value) ∷ others else entry ∷ later

  -- `Map.delete`. Every entry of the key goes, so that no shadowed one comes back.
  unfoldable pub remove : Text → List (Text × V) → List (Text × V)
  unfolding same
  remove key [] = []
  remove key (entry ∷ others) =
      let rest = remove key others in if same entry.0 key then rest else entry ∷ rest

  pub get-put :
      (key : Text) (value : V) (others : List (Text × V)) (asked : Text)
      → get asked (put key value others) ≡ (if same key asked then some value else get asked others)
  unfolding get put
  get-put key value [] asked = refl
  get-put key value (entry ∷ others) asked = elim (Bool-cases (same entry.0 key)) [
    | inl hit ↦
        rw (hit, same-eq entry.0 key hit)
          (elim (Bool-cases (same key asked)) [
            | inl found ↦ rw found refl
            | inr other ↦ rw other refl
          ])
    | inr miss ↦ elim (Bool-cases (same key asked)) [
      | inl found ↦
          let unlike : same entry.0 asked ≡ false =
            sym (ap (same entry.0) (same-eq key asked found)) ∙ miss in
          rw (miss, unlike, get-put key value others asked, found) refl
      | inr other ↦ rw (miss, get-put key value others asked, other) refl
    ]
  ]

  pub get-remove :
      (key : Text) (others : List (Text × V)) (asked : Text)
      → get asked (remove key others) ≡ (if same key asked then none else get asked others)
  unfolding get remove
  get-remove key [] asked = elim (Bool-cases (same key asked)) [
    | inl found ↦ rw found refl
    | inr other ↦ rw other refl
  ]
  get-remove key (entry ∷ others) asked = elim (Bool-cases (same entry.0 key)) [
    | inl hit ↦
        rw (hit, same-eq entry.0 key hit, get-remove key others asked)
          (elim (Bool-cases (same key asked)) [
            | inl found ↦ rw found refl
            | inr other ↦ rw other refl
          ])
    | inr miss ↦ elim (Bool-cases (same key asked)) [
      | inl found ↦
          let unlike : same entry.0 asked ≡ false =
            sym (ap (same entry.0) (same-eq key asked found)) ∙ miss in
          rw (miss, unlike, get-remove key others asked, found) refl
      | inr other ↦ rw (miss, get-remove key others asked, other) refl
    ]
  ]
