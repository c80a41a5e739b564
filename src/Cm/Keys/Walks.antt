-- ===== src/Cm/Keys/Walks.antt =====
-- What is found in a tree of keys after it was changed.
use windows_10_js.Prelude.{
  ◌≡◌, refl, sym, ap, ◌∙◌, true, Option, none, some, List, [], ◌∷◌, inl, inr, if◌then◌else◌,
  Bool-cases, Option-cases,
}
use windows_10_js.Prelude.TextMap.{Text, same, same-eq, get, put, get-put}
use windows_10_js.Cm.Keys.{
  Value, Key, node, listed, unlisted, children_of, values_of, with_children, new_key_node, ◌>>=◌,
  or_else, walk, create, change,
}

listed-unlisted : (entries : List (Text × Key)) → listed (unlisted entries) ≡ entries
unfolding listed unlisted
listed-unlisted [] = refl
listed-unlisted (entry ∷ entries) = ap (λ others. entry ∷ others) (listed-unlisted entries)

pub children_of-with_children :
    (entries : List (Text × Key)) (key : Key) → children_of (with_children entries key) ≡ entries
unfolding children_of with_children
children_of-with_children entries (node name children values) = listed-unlisted entries

pub values_of-with_children :
    (entries : List (Text × Key)) (key : Key)
    → values_of (with_children entries key) ≡ values_of key
unfolding values_of with_children
values_of-with_children entries (node name children values) = refl

-- What the rest of a path leads to, or `old` where there is no rest.
abbrev pub resume : Option Value → (List Text → Option Value) → Option (List Text) → Option Value
resume old from none = old
resume old from (some rest) = from rest

module _ (lower : Text → Text) where
  -- What follows the parts `ps` in `qs`, if `qs` begins with them up to case.
  unfoldable pub after : (ps qs : List Text) → Option (List Text)
  after [] qs = some qs
  after (p ∷ ps) [] = none
  after (p ∷ ps) (q ∷ qs) =
      let rest = after ps qs in if same (lower p) (lower q) then rest else none

  -- The value that `name`, in lower case, has in the key at the path `qs`.
  unfoldable pub value_at : (qs : List Text) (name : Text) → Key → Option Value
  value_at qs name key = walk lower qs key >>= λ found. get name (values_of found)

  pub value_at-child :
      (q : Text) (qs : List Text) (name : Text) (key : Key) (below : Option Key)
      → get (lower q) (children_of key) ≡ below
      → value_at (q ∷ qs) name key ≡ (below >>= λ found. value_at qs name found)
  unfolding value_at walk
  value_at-child q qs name key none h = rw h refl
  value_at-child q qs name key (some found) h = rw h refl

  -- A key with the child `below` put at the part `p`.
  value_at-put :
      (p : Text) (below key : Key) (q : Text) (qs : List Text) (name : Text)
      → value_at (q ∷ qs) name (with_children (put (lower p) below (children_of key)) key)
        ≡ (if same (lower p) (lower q) then value_at qs name below else value_at (q ∷ qs) name key)
  value_at-put p below key q qs name =
      let entries = put (lower p) below (children_of key) in
      let found =
        ap (get (lower q)) (children_of-with_children entries key)
        ∙ get-put (lower p) below (children_of key) (lower q) in
      elim (Bool-cases (same (lower p) (lower q))) [
        | inl hit ↦
            let here : get (lower q) (children_of (with_children entries key)) ≡ some below =
              found ∙ rw hit refl in
            rw hit (value_at-child q qs name (with_children entries key) (some below) here)
        | inr miss ↦
            let there : get (lower q) (children_of (with_children entries key))
                ≡ get (lower q) (children_of key) =
              found ∙ rw miss refl in
            rw miss (
              value_at-child q qs name (with_children entries key) (get (lower q) (children_of key))
                there
              ∙ sym (value_at-child q qs name key (get (lower q) (children_of key)) refl))
      ]

  pub value_at-here :
      (entries : List (Text × Key)) (key : Key) (name : Text)
      → value_at [] name (with_children entries key) ≡ value_at [] name key
  unfolding value_at walk
  value_at-here entries key name = ap (get name) (values_of-with_children entries key)

  -- The first step of a walk that succeeds.
  pub walk-step :
      (p : Text) (ps : List Text) (key place : Key)
      → walk lower (p ∷ ps) key ≡ some place
      → (below : Key) × (get (lower p) (children_of key) ≡ some below)
        × (walk lower ps below ≡ some place)
  unfolding walk
  walk-step p ps key place h = elim (Option-cases (get (lower p) (children_of key))) [
    | inl nothing ↦ let stuck : none ≡ some place = rw nothing at h in absurd cc
    | inr (below, found) ↦ (below, found, rw found at h)
  ]

  change-step :
      (p : Text) (ps : List Text) (f : Key → Key) (key below : Key)
      → get (lower p) (children_of key) ≡ some below
      → change lower (p ∷ ps) f key
        ≡ with_children (put (lower p) (change lower ps f below) (children_of key)) key
  unfolding change
  change-step p ps f key below h = rw (h, change) refl

  -- After a change of the key that `ps` leads to, another path leads where it led, or, through that
  -- key, on from the changed one.
  pub value_at-change :
      (ps : List Text) (f : Key → Key) (key place : Key) (qs : List Text) (name : Text)
      → walk lower ps key ≡ some place
      → value_at qs name (change lower ps f key)
        ≡ resume (value_at qs name key) (λ rest. value_at rest name (f place)) (after ps qs)
  unfolding after
  value_at-change [] f key place qs name h =
      let at : key ≡ place = unfold walk in cc in
      unfold change in ap (λ k. value_at qs name (f k)) at
  value_at-change (p ∷ ps) f key place [] name h =
      let (below, found, further) = walk-step p ps key place h in
      ap (value_at [] name) (change-step p ps f key below found)
      ∙ value_at-here (put (lower p) (change lower ps f below) (children_of key)) key name
  value_at-change (p ∷ ps) f key place (q ∷ qs) name h =
      let (below, found, further) = walk-step p ps key place h in
      let step =
        ap (value_at (q ∷ qs) name) (change-step p ps f key below found)
        ∙ value_at-put p (change lower ps f below) key q qs name in
      elim (Bool-cases (same (lower p) (lower q))) [
        | inl hit ↦
            let there : get (lower q) (children_of key) ≡ some below =
              ap (λ part. get part (children_of key)) (sym (same-eq (lower p) (lower q) hit))
              ∙ found in
            let old = value_at-child q qs name key (some below) there in
            step
            ∙ rw hit (
                value_at-change ps f below place qs name further
                ∙ ap (λ o. resume o (λ rest. value_at rest name (f place)) (after ps qs)) (sym old))
        | inr miss ↦ step ∙ rw miss refl
      ]

  value_at-new :
      (part : Text) (qs : List Text) (name : Text) → value_at qs name (new_key_node part) ≡ none
  unfolding value_at walk new_key_node children_of values_of get listed
  value_at-new part [] name = refl
  value_at-new part (q ∷ qs) name = refl

  -- Keys that are made have no values, and take none away.
  pub value_at-create :
      (ps : List Text) (key : Key) (qs : List Text) (name : Text)
      → value_at qs name (create lower ps key) ≡ value_at qs name key
  unfolding create
  value_at-create [] key qs name = refl
  value_at-create (p ∷ ps) key [] name =
      value_at-here
        (put (lower p)
          (create lower ps (or_else (new_key_node p) (get (lower p) (children_of key))))
          (children_of key))
        key name
  value_at-create (p ∷ ps) key (q ∷ qs) name =
      let below = or_else (new_key_node p) (get (lower p) (children_of key)) in
      value_at-put p (create lower ps below) key q qs name
      ∙ elim (Bool-cases (same (lower p) (lower q))) [
        | inl hit ↦ rw hit (value_at-create ps below qs name ∙ passed hit)
        | inr miss ↦ rw miss refl
      ]
    where
      passed :
          same (lower p) (lower q) ≡ true
          → value_at qs name (or_else (new_key_node p) (get (lower p) (children_of key)))
            ≡ value_at (q ∷ qs) name key
      passed hit =
          let part = same-eq (lower p) (lower q) hit in
          elim (Option-cases (get (lower p) (children_of key))) [
            | inl nothing ↦ rw nothing (
                value_at-new p qs name
                ∙ sym (
                    value_at-child q qs name key none
                      (ap (λ l. get l (children_of key)) (sym part) ∙ nothing)))
            | inr (found, there) ↦ rw there (
                sym (
                  value_at-child q qs name key (some found)
                    (ap (λ l. get l (children_of key)) (sym part) ∙ there)))
          ]
