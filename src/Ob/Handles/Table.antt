-- ===== src/Ob/Handles/Table.antt =====
-- system32/ntos/ob/object-manager.js: how often the table of handles names an object.
use windows_10_js.Prelude.{
  ℕ, ◌+◌, ◌≤◌, ◌≡◌, refl, sym, ap, ◌∙◌, inl, inr, true, false, none, some, List, [], ◌∷◌, ◌==◌,
  if◌then◌else◌, Bool-cases, subst, arith,
}
use windows_10_js.Prelude.Assoc.{lookup, insert, erase, lookup-insert, lookup-erase}

-- How many handles stand for an object.
unfoldable pub handles_of : ℕ → List (ℕ × ℕ) → ℕ
handles_of id [] = 0
handles_of id (entry ∷ others) = (if entry.1 == id then 1 else 0) + handles_of id others

-- No handle stands twice.
unfoldable pub IsDistinct : List (ℕ × ℕ) → Type 0
IsDistinct [] = Unit
IsDistinct (entry ∷ others) = (lookup entry.0 others ≡ none) × IsDistinct others

lookup_hit :
    (handle : ℕ) (entry : ℕ × ℕ) (others : List (ℕ × ℕ))
    → (entry.0 == handle) ≡ true
    → lookup handle (entry ∷ others) ≡ some entry.1
unfolding lookup
lookup_hit handle entry others hit = rw hit refl

lookup_miss :
    (handle : ℕ) (entry : ℕ × ℕ) (others : List (ℕ × ℕ))
    → (entry.0 == handle) ≡ false
    → lookup handle (entry ∷ others) ≡ lookup handle others
unfolding lookup
lookup_miss handle entry others miss = rw miss refl

pub lookup_nothing : (handle : ℕ) → lookup {V = ℕ} handle [] ≡ none
unfolding lookup
lookup_nothing handle = refl

some≢none : (id : ℕ) → some id ≡ none → ⊥
some≢none id same = grind (arith, same)

pub handles_of-insert :
    (handle id : ℕ) (table : List (ℕ × ℕ)) (asked : ℕ)
    → lookup handle table ≡ none
    → handles_of asked (insert handle id table)
      ≡ (if id == asked then 1 else 0) + handles_of asked table
unfolding handles_of insert
handles_of-insert handle id [] asked free = refl
handles_of-insert handle id (entry ∷ others) asked free = elim (Bool-cases (entry.0 == handle)) [
  | inl hit ↦ absurd (some≢none entry.1 (sym (lookup_hit handle entry others hit) ∙ free))
  | inr miss ↦
      let free' = sym (lookup_miss handle entry others miss) ∙ free in
      let below = handles_of-insert handle id others asked free' in rw (miss, below) (omega arith)
]

pub insert-IsDistinct :
    (handle id : ℕ) (table : List (ℕ × ℕ))
    → lookup handle table ≡ none
    → IsDistinct table
    → IsDistinct (insert handle id table)
unfolding IsDistinct insert
insert-IsDistinct handle id [] free distinct = (free, distinct)
insert-IsDistinct handle id (entry ∷ others) free distinct = elim (Bool-cases (entry.0 == handle)) [
  | inl hit ↦ absurd (some≢none entry.1 (sym (lookup_hit handle entry others hit) ∙ free))
  | inr miss ↦
      let free' = sym (lookup_miss handle entry others miss) ∙ free in
      let other : (handle == entry.0) ≡ false = ground arith in
      rw miss (
        lookup-insert handle id others entry.0 ∙ rw other distinct.0,
        insert-IsDistinct handle id others free' distinct.1,
      )
]

pub erase_free :
    (handle : ℕ) (table : List (ℕ × ℕ)) → lookup handle table ≡ none → erase handle table ≡ table
unfolding erase
erase_free handle [] free = refl
erase_free handle (entry ∷ others) free = elim (Bool-cases (entry.0 == handle)) [
  | inl hit ↦ absurd (some≢none entry.1 (sym (lookup_hit handle entry others hit) ∙ free))
  | inr miss ↦
      let free' = sym (lookup_miss handle entry others miss) ∙ free in
      rw miss (ap (λ rest. entry ∷ rest) (erase_free handle others free'))
]

pub handles_of-erase :
    (handle id : ℕ) (table : List (ℕ × ℕ)) (asked : ℕ)
    → IsDistinct table
    → lookup handle table ≡ some id
    → (if id == asked then 1 else 0) + handles_of asked (erase handle table)
      ≡ handles_of asked table
unfolding handles_of IsDistinct erase
handles_of-erase handle id [] asked distinct there =
    absurd (some≢none id (sym there ∙ lookup_nothing handle))
handles_of-erase handle id (entry ∷ others) asked distinct there =
    elim (Bool-cases (entry.0 == handle)) [
      | inl hit ↦
          let at : entry.1 ≡ id = grind (arith, there, lookup_hit handle entry others hit) in
          let key : entry.0 ≡ handle = ground arith in
          let free = subst (λ h. lookup h others ≡ none) key distinct.0 in
          rw (hit, erase_free handle others free, at) refl
      | inr miss ↦
          let there' = sym (lookup_miss handle entry others miss) ∙ there in
          let below = handles_of-erase handle id others asked distinct.1 there' in
          rw miss (omega (arith, below))
    ]

pub erase-IsDistinct :
    (handle : ℕ) (table : List (ℕ × ℕ)) → IsDistinct table → IsDistinct (erase handle table)
unfolding IsDistinct erase
erase-IsDistinct handle [] distinct = distinct
erase-IsDistinct handle (entry ∷ others) distinct =
    let rest = erase-IsDistinct handle others distinct.1 in
    elim (Bool-cases (entry.0 == handle)) [
      | inl hit ↦ rw hit rest
      | inr miss ↦
          let other : (handle == entry.0) ≡ false = ground arith in
          rw miss (lookup-erase handle others entry.0 ∙ rw other distinct.0, rest)
    ]

-- An object that a handle stands for is counted.
pub handles_of_entry :
    (handle id : ℕ) (table : List (ℕ × ℕ)) → lookup handle table ≡ some id → 1 ≤ handles_of id table
unfolding handles_of
handles_of_entry handle id [] there = absurd (some≢none id (sym there ∙ lookup_nothing handle))
handles_of_entry handle id (entry ∷ others) there = elim (Bool-cases (entry.0 == handle)) [
  | inl hit ↦
      let at : entry.1 ≡ id = grind (arith, there, lookup_hit handle entry others hit) in
      ground (arith, at)
  | inr miss ↦
      let below =
        handles_of_entry handle id others (sym (lookup_miss handle entry others miss) ∙ there) in
      omega (arith, below)
]
