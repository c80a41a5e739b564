-- ===== src/Ob/Requests/Tables.antt =====
-- system32/ntos/ob/object-manager.js: what changes the tree leaves the table of handles alone.
use windows_10_js.Prelude.{ℕ, ◌≡◌, refl, inl, inr, Option, none, some, List, [], ◌∷◌, Option-cases}
use windows_10_js.Prelude.TextMap.{Text, get}
use windows_10_js.Cm.Keys.{backslash}
use windows_10_js.Ob.Namespace.{
  ObjectManager, Payload, join, symbolic_link_type, new_directory, lookup, text,
}
use windows_10_js.Ob.Objects.{
  add_node, set_children, add_child, mount_at, create_directories, create_in, create_object,
  symlink_in, unlink_in, unlink_parts, unsnoc,
}

module _ (lower : Text → Text) where
  pub create_directories-table :
      (parts : List Text) (id : ℕ) (s : ObjectManager)
      → (create_directories lower parts id s).1.handle_table ≡ s.handle_table
  unfolding create_directories add_child add_node set_children
  create_directories-table [] id s = refl
  create_directories-table (part ∷ parts) id s = elim (Option-cases (s.nodes id).children) [
    | inl childless ↦ rw (childless, create_directories) refl
    | inr (children, those) ↦ elim (Option-cases (get (lower part) children)) [
      | inr (next, there) ↦
          rw (those, there, create_directories) (create_directories-table parts next s)
      | inl unknown ↦
          rw (those, unknown, create_directories)
            (create_directories-table parts s.next_node
              (add_child id children (lower part) (new_directory part) s))
    ]
  ]

  pub create_in-table :
      (at : Option ℕ) (name type : Text) (payload : Payload) (s : ObjectManager)
      → (create_in lower at name type payload s).1.handle_table ≡ s.handle_table
  unfolding create_in add_child add_node set_children
  create_in-table none name type payload s = refl
  create_in-table (some parent) name type payload s =
      elim (Option-cases (s.nodes parent).children) [
        | inl childless ↦ rw (childless, create_in) refl
        | inr (children, those) ↦ elim (Option-cases (get (lower name) children)) [
          | inr (other, there) ↦ rw (those, there, create_in) refl
          | inl unknown ↦ rw (those, unknown, create_in) refl
        ]
      ]

  unlink_in-table :
      (at : Option ℕ) (name : Text) (s : ObjectManager)
      → (unlink_in lower at name s).1.handle_table ≡ s.handle_table
  unfolding unlink_in set_children
  unlink_in-table none name s = refl
  unlink_in-table (some parent) name s = elim (Option-cases (s.nodes parent).children) [
    | inl childless ↦ rw (childless, unlink_in) refl
    | inr (children, those) ↦ rw (those, unlink_in) refl
  ]

pub mount_at-table :
    (system : ℕ) (at : Option ℕ) (s : ObjectManager)
    → (mount_at system at s).handle_table ≡ s.handle_table
unfolding mount_at
mount_at-table system none s = refl
mount_at-table system (some id) s = refl

module _ (lower : Text → Text) (shown : ℕ → Text) where
  pub symlink_in-table :
      (parts : List Text) (target : Text) (s : ObjectManager)
      → (symlink_in lower shown parts target s).1.handle_table ≡ s.handle_table
  unfolding symlink_in create_object
  symlink_in-table [] target s = refl
  symlink_in-table (part ∷ parts) target s =
      let ends = unsnoc part parts in
      create_in-table lower (lookup lower shown (backslash ∷ join backslash ends.0) s) ends.1
        symbolic_link_type (text target) s

  pub unlink_parts-table :
      (parts : List Text) (s : ObjectManager)
      → (unlink_parts lower shown parts s).1.handle_table ≡ s.handle_table
  unfolding unlink_parts
  unlink_parts-table [] s = refl
  unlink_parts-table (part ∷ parts) s =
      let ends = unsnoc part parts in
      unlink_in-table lower (lookup lower shown (backslash ∷ join backslash ends.0) s) ends.1 s
