-- ===== src/Cm/Registry/Changes.antt =====
-- Paths below a key that is changed, and the changes that the operations make.
use windows_10_js.Prelude.{
  ◌≡◌, refl, sym, ap, ◌∙◌, Bool, false, Option, none, some, List, [], ◌∷◌, ◌++◌, inl, inr,
  if◌then◌else◌, Bool-cases, Option-cases,
}
use windows_10_js.Prelude.TextMap.{Text, same, same-eq, get, put, remove, get-put, get-remove}
use windows_10_js.Cm.Keys.{
  Value, Key, node, children_of, values_of, with_children, with_values, ◌>>=◌, is_some, walk,
}
use windows_10_js.Cm.Keys.Walks.{
  children_of-with_children, after, value_at, value_at-child, value_at-here, walk-step,
}
use windows_10_js.Cm.Registry.{put_value, drop_value, drop_child}

module _ (lower : Text → Text) where
  -- A path that goes on below a key.
  pub value_at-after :
      (ps qs rest : List Text) (name : Text) (key place : Key)
      → walk lower ps key ≡ some place
      → after lower ps qs ≡ some rest
      → value_at lower qs name key ≡ value_at lower rest name place
  unfolding after walk
  value_at-after [] qs rest name key place h a =
      let here : key ≡ place = cc in
      let same_rest : qs ≡ rest = cc in
      ap (value_at lower qs name) here ∙ ap (λ path. value_at lower path name place) same_rest
  value_at-after (p ∷ ps) [] rest name key place h a = absurd cc
  value_at-after (p ∷ ps) (q ∷ qs) rest name key place h a =
      let (below, found, further) = walk-step lower p ps key place h in
      elim (Bool-cases (same (lower p) (lower q))) [
        | inl hit ↦
            let there : get (lower q) (children_of key) ≡ some below =
              ap (λ part. get part (children_of key)) (sym (same-eq (lower p) (lower q) hit))
              ∙ found in
            let onward : after lower ps qs ≡ some rest = rw hit at a in
            value_at-child lower q qs name key (some below) there
            ∙ value_at-after ps qs rest name below place further onward
        | inr miss ↦ let stuck : none ≡ some rest = rw miss at a in absurd cc
      ]

  -- Whether the names agree up to case where the path ends at the key.
  abbrev pub is_named : Text → Text → Option (List Text) → Bool
  is_named name asked (some []) = same (lower name) asked
  is_named name asked other = false

  children_of-with_values :
      (values : List (Text × Value)) (key : Key)
      → children_of (with_values values key) ≡ children_of key
  unfolding children_of with_values
  children_of-with_values values (node name children _) = refl

  values_of-with_values :
      (values : List (Text × Value)) (key : Key) → values_of (with_values values key) ≡ values
  unfolding values_of with_values
  values_of-with_values values (node name children _) = refl

  value_at-with_values :
      (values : List (Text × Value)) (key : Key) (q : Text) (qs : List Text) (name : Text)
      → value_at lower (q ∷ qs) name (with_values values key) ≡ value_at lower (q ∷ qs) name key
  value_at-with_values values key q qs name =
      value_at-child lower q qs name (with_values values key) (get (lower q) (children_of key))
        (ap (get (lower q)) (children_of-with_values values key))
      ∙ sym (value_at-child lower q qs name key (get (lower q) (children_of key)) refl)

  -- After a value was put, the values below the key.
  pub value_at-put_value :
      (value : Value) (rest : List Text) (asked : Text) (key : Key)
      → value_at lower rest asked (put_value lower value key) ≡ (
          if is_named value.name asked (some rest)
          then some value
          else value_at lower rest asked key)
  unfolding put_value value_at walk
  value_at-put_value value [] asked key =
      ap (get asked) (values_of-with_values (put (lower value.name) value (values_of key)) key)
      ∙ get-put (lower value.name) value (values_of key) asked
  value_at-put_value value (q ∷ qs) asked key =
      value_at-with_values (put (lower value.name) value (values_of key)) key q qs asked

  -- After a value was deleted, the values below the key.
  pub value_at-drop_value :
      (name : Text) (rest : List Text) (asked : Text) (key : Key)
      → value_at lower rest asked (drop_value lower name key)
        ≡ (if is_named name asked (some rest) then none else value_at lower rest asked key)
  unfolding drop_value value_at walk
  value_at-drop_value name [] asked key =
      ap (get asked) (values_of-with_values (remove (lower name) (values_of key)) key)
      ∙ get-remove (lower name) (values_of key) asked
  value_at-drop_value name (q ∷ qs) asked key =
      value_at-with_values (remove (lower name) (values_of key)) key q qs asked

  -- After a child was deleted, the values below its parent.
  pub value_at-drop_child :
      (name : Text) (rest : List Text) (asked : Text) (key : Key)
      → value_at lower rest asked (drop_child lower name key)
        ≡ (if is_some (after lower (name ∷ []) rest) then none else value_at lower rest asked key)
  unfolding drop_child after
  value_at-drop_child name [] asked key =
      value_at-here lower (remove (lower name) (children_of key)) key asked
  value_at-drop_child name (q ∷ qs) asked key =
      let entries = remove (lower name) (children_of key) in
      let found =
        ap (get (lower q)) (children_of-with_children entries key)
        ∙ get-remove (lower name) (children_of key) (lower q) in
      elim (Bool-cases (same (lower name) (lower q))) [
        | inl hit ↦
            rw hit (
              value_at-child lower q qs asked (with_children entries key) none
                (found ∙ rw hit refl))
        | inr miss ↦ rw miss (
            value_at-child lower q qs asked (with_children entries key)
              (get (lower q) (children_of key)) (found ∙ rw miss refl)
            ∙ sym (value_at-child lower q qs asked key (get (lower q) (children_of key)) refl))
      ]

  -- A path in two parts.
  pub walk-append :
      (ps qs : List Text) (key : Key)
      → walk lower (ps ++ qs) key ≡ (walk lower ps key >>= λ place. walk lower qs place)
  unfolding walk
  walk-append [] qs key = refl
  walk-append (p ∷ ps) qs key = elim (Option-cases (get (lower p) (children_of key))) [
    | inl nothing ↦ rw nothing refl
    | inr (below, found) ↦ rw found (walk-append ps qs below)
  ]

  pub after-append :
      (ps qs asked : List Text)
      → after lower (ps ++ qs) asked ≡ (after lower ps asked >>= λ rest. after lower qs rest)
  unfolding after
  after-append [] qs asked = refl
  after-append (p ∷ ps) qs [] = refl
  after-append (p ∷ ps) qs (q ∷ asked) =
      let rest = after-append ps qs asked in
      elim (Bool-cases (same (lower p) (lower q))) [
        | inl hit ↦ rw hit rest
        | inr miss ↦ rw miss refl
      ]
