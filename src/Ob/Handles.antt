-- ===== src/Ob/Handles.antt =====
-- system32/ntos/ob/object-manager.js: handles. A mounted file system is known by a number, and
-- `systems` is what it holds during an operation.
pub mod Table
use windows_10_js.Prelude.{
  ℕ, suc, ◌-◌, ◌+◌, Bool, true, false, Option, none, some, List, [], ◌∷◌, if◌then◌else◌,
}
use windows_10_js.Prelude.Assoc.{insert, erase}
use windows_10_js.Prelude.Assoc
use windows_10_js.Prelude.TextMap.{Text, same}
use windows_10_js.Cm.Keys.{or_else}
use windows_10_js.Ob.Objects.{add_node}
use windows_10_js.Ob.Namespace.{
  Node, ObjectManager, text, resolve, lookup, change, slash, file_type,
}

-- The operations of a file system that `open` calls.
pub record FileSystem : Type 0 where
  pub has_file : Text → Bool
  pub list : List Text

-- `f.slice(1)`
unfoldable pub without_first : Text → Text
without_first [] = []
without_first (c ∷ f) = f

-- `if (!hit)`: the empty text counts as no file.
unfoldable pub some_file : Text → Option Text
some_file [] = none
some_file (c ∷ f) = some (c ∷ f)

unfoldable pub new_file : (fspath : Text) (system : ℕ) → Node
unfolding without_first
new_file fspath system = record {
  name = without_first fspath;
  type = file_type;
  children = none;
  mount = some system;
  data_of = text fspath;
  refs = 0;
}

-- `node.refs++` and the entry of the table.
unfoldable pub new_handle : ℕ → ObjectManager → ℕ × ObjectManager
unfolding change insert
new_handle id s = (
  s.next_handle,
  record s {
    nodes = change id (λ n. record n { refs = suc n.refs }) s.nodes;
    next_handle = suc s.next_handle;
    handle_table = insert s.next_handle id s.handle_table;
  },
)

unfoldable pub get_object : ℕ → ObjectManager → Option ℕ
unfolding Assoc.lookup
get_object handle s = Assoc.lookup handle s.handle_table

unfoldable pub close_object : (handle : ℕ) → Option ℕ → ObjectManager → Bool × ObjectManager
unfolding change erase
close_object handle none s = (false, s)
close_object handle (some id) s = (
  true,
  record s {
    nodes = change id (λ n. record n { refs = n.refs - 1 }) s.nodes;
    handle_table = erase handle s.handle_table;
  },
)

unfoldable pub close : ℕ → ObjectManager → Bool × ObjectManager
close handle s = close_object handle (get_object handle s) s

module _ (lower : Text → Text) where
  -- `list().find(f => f.slice(1).toLowerCase() === want)`
  unfoldable pub find_file : (want : Text) → List Text → Option Text
  unfolding without_first some_file same
  find_file want [] = none
  find_file want (f ∷ files) =
      let later = find_file want files in
      if same (lower (without_first f)) want then some_file f else later

  unfoldable pub file_path : (rest : Text) → FileSystem → Option Text
  unfolding find_file
  file_path rest system =
      if system.has_file (slash ∷ rest)
      then some (slash ∷ rest)
      else find_file (lower rest) system.list

-- `open` for a path in a mounted file system.
unfoldable pub open_file : Option Text → (system : ℕ) → ObjectManager → ℕ × ObjectManager
open_file none system s = (0, s)
open_file (some fspath) system s = new_handle s.next_node (add_node (new_file fspath system) s)

module _ (lower : Text → Text) (shown : ℕ → Text) (systems : ℕ → FileSystem) where
  unfoldable pub open_node : Option ℕ → (rest : Text) → ObjectManager → ℕ × ObjectManager
  open_node none rest s = (0, s)
  open_node (some id) rest s = elim (s.nodes id).mount [
    | none ↦ new_handle id s
    | some system ↦ open_file (file_path lower rest (systems system)) system s
  ]

  -- A node with a mount is found with a text as `rest`.
  unfoldable pub open_path : Text → ObjectManager → ℕ × ObjectManager
  open_path path s =
      let found = resolve lower shown s.nodes path in open_node found.node (or_else [] found.rest) s

-- `-1`, where the path leads nowhere, is `none`.
unfoldable pub refs : (lower : Text → Text) (shown : ℕ → Text) → Text → ObjectManager → Option ℕ
refs lower shown path s = elim (lookup lower shown path s) as (λ _. Option ℕ) [
  | none ↦ none
  | some id ↦ some (s.nodes id).refs
]
