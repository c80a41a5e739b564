-- ===== src/Cm/Registry/Operations.antt =====
-- What the operations on the registry change, as read by path.
use windows_10_js.Prelude.{
  ℕ, ◌≡◌, refl, sym, ap, ◌∙◌, true, ◌||◌, Option, none, some, List, [], ◌∷◌, ◌++◌, inl, inr, subst,
  if◌then◌else◌, Option-cases,
}
use windows_10_js.Prelude.TextMap.{Text, get}
use windows_10_js.Cm.Keys.{Value, Key, children_of, values_of, split, ◌>>=◌, is_some, walk, change}
use windows_10_js.Cm.Keys.Walks.{after, value_at, value_at-change, value_at-create, resume}
use windows_10_js.Cm.Keys.Presence.{has_key, has_key-create}
use windows_10_js.Cm.Registry.{
  Registry, read_value_by_path, open_or_create, new_handle, get_path, set_value, delete_value,
  delete_key, put_value, drop_value, drop_child, parent_and_name,
}
use windows_10_js.Cm.Registry.Changes.{
  value_at-after, is_named, value_at-put_value, value_at-drop_value, value_at-drop_child,
  walk-append, after-append,
}

module _ (lower : Text → Text) where
  -- Making a key, with the keys that lead to it, keeps every value, and the keys that are there
  -- afterwards are the old ones and those on its path.
  pub open_or_create-kept :
      (path other asked : Text) (r : Registry)
      → (read_value_by_path lower other asked (open_or_create lower path r).1
          ≡ read_value_by_path lower other asked r)
        × (has_key lower (split other) (open_or_create lower path r).1.hive_root ≡ (
            has_key lower (split other) r.hive_root
            || is_some (after lower (split other) (split path))))
  unfolding read_value_by_path open_or_create new_handle value_at
  open_or_create-kept path other asked r = (
    value_at-create lower (split path) r.hive_root (split other) (lower asked),
    has_key-create lower (split path) r.hive_root (split other),
  )

  -- Through a handle of a key that is there, setting a value answers true, and afterwards this value
  -- is read, by the same path and name up to case, and every other value is as before.
  pub set_value-read :
      (handle : ℕ) (value : Value) (path other asked : Text) (key : Key) (r : Registry)
      → get_path lower handle r ≡ some path
      → walk lower (split path) r.hive_root ≡ some key
      → ((set_value lower handle value r).0 ≡ true)
        × (read_value_by_path lower other asked (set_value lower handle value r).1 ≡ (
            if is_named lower value.name (lower asked) (after lower (split path) (split other))
            then some value
            else read_value_by_path lower other asked r))
  unfolding read_value_by_path value_at set_value
  set_value-read handle value path other asked key r at there =
      let parts = split path in
      let result : set_value lower handle value r ≡ (
        true,
        record r { hive_root = change lower parts (put_value lower value) r.hive_root },
      ) =
        rw (set_value, at, there) refl in
      rw result (
        refl,
        value_at-change lower parts (put_value lower value) r.hive_root key (split other)
              (lower asked) there
            ∙ on (after lower parts (split other)) refl,
      )
    where
      on :
          (rest : Option (List Text))
          → after lower (split path) (split other) ≡ rest
          → resume
              (value_at lower (split other) (lower asked) r.hive_root)
              (λ qs. value_at lower qs (lower asked) (put_value lower value key))
              rest
            ≡ (if is_named lower value.name (lower asked) rest
                then some value
                else value_at lower (split other) (lower asked) r.hive_root)
      on none e = refl
      on (some qs) e =
          value_at-put_value lower value qs (lower asked) key
          ∙ ap
              (λ old. if is_named lower value.name (lower asked) (some qs) then some value else old)
              (sym (
                value_at-after lower (split path) (split other) qs (lower asked) r.hive_root key
                  there e))

  -- Through a handle of a key that is there, deleting a value answers whether it was there, and
  -- afterwards it is not, and every other value is as before.
  pub delete_value-read :
      (handle : ℕ) (name path other asked : Text) (key : Key) (r : Registry)
      → get_path lower handle r ≡ some path
      → walk lower (split path) r.hive_root ≡ some key
      → ((delete_value lower handle name r).0 ≡ is_some (read_value_by_path lower path name r))
        × (read_value_by_path lower other asked (delete_value lower handle name r).1 ≡ (
            if is_named lower name (lower asked) (after lower (split path) (split other))
            then none
            else read_value_by_path lower other asked r))
  unfolding read_value_by_path value_at delete_value
  delete_value-read handle name path other asked key r at there =
      let parts = split path in
      let result : delete_value lower handle name r ≡ (
        is_some (get (lower name) (values_of key)),
        record r { hive_root = change lower parts (drop_value lower name) r.hive_root },
      ) =
        rw (delete_value, at, there) refl in
      rw result (
        rw there refl,
        value_at-change lower parts (drop_value lower name) r.hive_root key (split other)
              (lower asked) there
            ∙ on (after lower parts (split other)) refl,
      )
    where
      on :
          (rest : Option (List Text))
          → after lower (split path) (split other) ≡ rest
          → resume
              (value_at lower (split other) (lower asked) r.hive_root)
              (λ qs. value_at lower qs (lower asked) (drop_value lower name key))
              rest
            ≡ (if is_named lower name (lower asked) rest
                then none
                else value_at lower (split other) (lower asked) r.hive_root)
      on none e = refl
      on (some qs) e =
          value_at-drop_value lower name qs (lower asked) key
          ∙ ap (λ old. if is_named lower name (lower asked) (some qs) then none else old)
              (sym (
                value_at-after lower (split path) (split other) qs (lower asked) r.hive_root key
                  there e))

  parent_and_name-split :
      (part : Text) (parts : List Text)
      → (front : List Text) × (name : Text) × (parent_and_name lower (part ∷ parts)
          ≡ some (front, name))
        × (part ∷ parts ≡ front ++ name ∷ [])
  unfolding parent_and_name
  parent_and_name-split part [] = ([], part, refl, refl)
  parent_and_name-split part (next ∷ parts) =
      let (front, name, found, whole) = parent_and_name-split next parts in
      (part ∷ front, name, rw found refl, ap (λ rest. part ∷ rest) whole)

  -- The path of a key that is there leads through its parent.
  through_parent :
      (front : List Text) (name : Text) (root key : Key)
      → walk lower (front ++ name ∷ []) root ≡ some key
      → (parent : Key) × (walk lower front root ≡ some parent)
        × (get (lower name) (children_of parent) ≡ some key)
  unfolding walk
  through_parent front name root key h =
      let both = sym (walk-append lower front (name ∷ []) root) ∙ h in
      elim (Option-cases (walk lower front root)) [
        | inl nothing ↦ let stuck : none ≡ some key = rw nothing at both in absurd cc
        | inr (parent, found) ↦
            let below = (let next = rw found at both in next) in
            elim (Option-cases (get (lower name) (children_of parent))) [
              | inl nothing ↦ let stuck : none ≡ some key = rw nothing at below in absurd cc
              | inr (child, there) ↦
                  let it : some child ≡ some key = rw there at below in (parent, found, there ∙ it)
            ]
      ]

  dropped :
      (front : List Text) (name : Text) (root parent : Key) (qs : List Text) (asked : Text)
      → walk lower front root ≡ some parent
      → value_at lower qs asked (change lower front (drop_child lower name) root) ≡ (
          if is_some (after lower (front ++ name ∷ []) qs)
          then none
          else value_at lower qs asked root)
  dropped front name root parent qs asked there =
      value_at-change lower front (drop_child lower name) root parent qs asked there
      ∙ rw (after-append lower front (name ∷ []) qs) (on (after lower front qs) refl)
    where
      on :
          (rest : Option (List Text))
          → after lower front qs ≡ rest
          → resume
              (value_at lower qs asked root)
              (λ below. value_at lower below asked (drop_child lower name parent))
              rest
            ≡ (if is_some (rest >>= λ below. after lower (name ∷ []) below)
                then none
                else value_at lower qs asked root)
      on none e = refl
      on (some below) e =
          value_at-drop_child lower name below asked parent
          ∙ ap (λ old. if is_some (after lower (name ∷ []) below) then none else old)
              (sym (value_at-after lower front qs below asked root parent there e))

  -- What a deletion of the key at the parts `ps` answers and leaves.
  abbrev Deleted : (handle : ℕ) (other asked : Text) (r : Registry) (ps : List Text) → Type 0
  Deleted handle other asked r ps =
      ((delete_key lower handle r).0 ≡ true)
      × (read_value_by_path lower other asked (delete_key lower handle r).1 ≡ (
          if is_some (after lower ps (split other))
          then none
          else read_value_by_path lower other asked r))

  -- Through a handle of a key that is there and is not the root, deleting the key answers true, and
  -- afterwards no value is read by its path or one that goes on from it, up to case, and every other
  -- value is as before.
  pub delete_key-read :
      (handle : ℕ) (path other asked part : Text) (parts : List Text) (key : Key) (r : Registry)
      → get_path lower handle r ≡ some path
      → split path ≡ part ∷ parts
      → walk lower (split path) r.hive_root ≡ some key
      → ((delete_key lower handle r).0 ≡ true)
        × (read_value_by_path lower other asked (delete_key lower handle r).1 ≡ (
            if is_some (after lower (split path) (split other))
            then none
            else read_value_by_path lower other asked r))
  unfolding delete_key read_value_by_path value_at
  delete_key-read handle path other asked part parts key r at shape there =
      let (front, name, found, whole) = parent_and_name-split part parts in
      let (parent, to_parent, child) =
        through_parent front name r.hive_root key
          (ap (λ ps. walk lower ps r.hive_root) (sym (shape ∙ whole)) ∙ there) in
      let result : delete_key lower handle r ≡ (
        true,
        record r { hive_root = change lower front (drop_child lower name) r.hive_root },
      ) =
        rw (delete_key, at, shape, found, to_parent, child) refl in
      subst (λ ps. Deleted handle other asked r ps) (sym (shape ∙ whole))
        (rw result
          (refl, dropped front name r.hive_root parent (split other) (lower asked) to_parent))
