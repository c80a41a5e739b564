-- ===== src/Ob/Objects.antt =====
-- system32/ntos/ob/object-manager.js: the calls that change the tree.
use windows_10_js.Prelude.{ℕ, suc, Bool, false, Option, none, some, List, [], ◌∷◌}
use windows_10_js.Prelude.TextMap.{Text, get, put, remove}
use windows_10_js.Cm.Keys.{backslash, is_some}
use windows_10_js.Ob.Namespace.{
  Payload, text, Node, ObjectManager, root, symbolic_link_type, new_directory, split, join, change,
  lookup,
}

-- A new object, and its number.
unfoldable pub add_node : Node → ObjectManager → ObjectManager
unfolding change
add_node n s = record s { nodes = change s.next_node (λ _. n) s.nodes; next_node = suc s.next_node }

unfoldable pub set_children : ℕ → List (Text × ℕ) → ObjectManager → ObjectManager
unfolding change
set_children id children s = record s {
  nodes = change id (λ n. record n { children = some children }) s.nodes;
}

-- A new object under a key of a directory with these children.
unfoldable pub add_child : ℕ → List (Text × ℕ) → Text → Node → ObjectManager → ObjectManager
unfolding put
add_child id children key n s = set_children id (put key s.next_node children) (add_node n s)

-- What `createObject` returns or throws.
pub data Created : Type 0 where
  created : ℕ → Created
  no_directory already_there no_name : Created

-- The object of `createObject`.
abbrev pub new_object : (name type : Text) → Payload → Node
new_object name type payload = record {
  name = name;
  type = type;
  children = none;
  mount = none;
  data_of = payload;
  refs = 0;
}

-- The parts without the last, and the last.
unfoldable pub unsnoc : Text → List Text → List Text × Text
unsnoc part [] = ([], part)
unsnoc part (other ∷ parts) = let rest = unsnoc other parts in (part ∷ rest.0, rest.1)

unfoldable pub mount_at : (system : ℕ) → Option ℕ → ObjectManager → ObjectManager
unfolding change
mount_at system none s = s
mount_at system (some id) s = record s {
  nodes = change id (λ n. record n { mount = some system }) s.nodes;
}

module _ (lower : Text → Text) where
  -- `none` is the exception on an object without children.
  unfoldable pub create_directories : List Text → ℕ → ObjectManager → Option ℕ × ObjectManager
  unfolding get
  create_directories [] id s = (some id, s)
  create_directories (part ∷ parts) id s = elim (s.nodes id).children [
    | none ↦ (none, s)
    | some children ↦ elim (get (lower part) children) [
      | some next ↦ create_directories parts next s
      | none ↦
          create_directories parts s.next_node
            (add_child id children (lower part) (new_directory part) s)
    ]
  ]

  unfoldable pub create_directory : Text → ObjectManager → Option ℕ × ObjectManager
  unfolding split
  create_directory path s = create_directories (split path) root s

  -- `system` is the file system that is mounted.
  unfoldable pub mount : Text → (system : ℕ) → ObjectManager → Option ℕ × ObjectManager
  mount path system s =
      let made = create_directory path s in (made.0, mount_at system made.0 made.1)

  unfoldable pub create_in :
      Option ℕ → (name type : Text) → Payload → ObjectManager → Created × ObjectManager
  unfolding get
  create_in none name type payload s = (no_directory, s)
  create_in (some parent) name type payload s = elim (s.nodes parent).children [
    | none ↦ (no_directory, s)
    | some children ↦ elim (get (lower name) children) [
      | some other ↦ (already_there, s)
      | none ↦ (
        created s.next_node,
        add_child parent children (lower name) (new_object name type payload) s,
      )
    ]
  ]

  unfoldable pub unlink_in : Option ℕ → Text → ObjectManager → Bool × ObjectManager
  unfolding get remove
  unlink_in none name s = (false, s)
  unlink_in (some parent) name s = elim (s.nodes parent).children [
    | none ↦ (false, s)
    | some children ↦
        (is_some (get (lower name) children), set_children parent (remove (lower name) children) s)
  ]

module _ (lower : Text → Text) (shown : ℕ → Text) where
  unfoldable pub create_object :
      (parent_path name type : Text) → Payload → ObjectManager → Created × ObjectManager
  create_object parent_path name type payload s =
      create_in lower (lookup lower shown parent_path s) name type payload s

  unfoldable pub symlink_in : List Text → Text → ObjectManager → Created × ObjectManager
  unfolding join
  symlink_in [] target s = (no_name, s)
  symlink_in (part ∷ parts) target s =
      let ends = unsnoc part parts in
      create_object (backslash ∷ join backslash ends.0) ends.1 symbolic_link_type (text target) s

  unfoldable pub create_symlink : Text → Text → ObjectManager → Created × ObjectManager
  unfolding split
  create_symlink path target s = symlink_in (split path) target s

  unfoldable pub unlink_parts : List Text → ObjectManager → Bool × ObjectManager
  unfolding join
  unlink_parts [] s = (false, s)
  unlink_parts (part ∷ parts) s =
      let ends = unsnoc part parts in
      unlink_in lower (lookup lower shown (backslash ∷ join backslash ends.0) s) ends.1 s

  unfoldable pub unlink : Text → ObjectManager → Bool × ObjectManager
  unfolding split
  unlink path s = unlink_parts (split path) s
