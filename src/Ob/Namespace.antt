-- ===== src/Ob/Namespace.antt =====
-- system32/ntos/ob/object-manager.js: the tree of named objects. An object is a node in a store and
-- a reference to it the node's number; number 0 is the root. `lower` is
-- String.prototype.toLowerCase, `shown` how an object reads as a text.
use windows_10_js.Prelude.{
  ℕ, zero, suc, true, false, Option, none, some, List, [], ◌∷◌, ◌++◌, ◌==◌, if◌then◌else◌,
}
use windows_10_js.Prelude.TextMap.{Text, same, get}
use windows_10_js.Cm.Keys.{pieces, nonempty, backslash}

pub data Payload : Type 0 where
  nothing : Payload
  text : Text → Payload
  value : ℕ → Payload

pub record Node : Type 0 where
  pub name : Text
  pub type : Text
  pub children : Option (List (Text × ℕ))
  pub mount : Option ℕ
  pub data_of : Payload
  pub refs : ℕ

pub record ObjectManager : Type 0 where
  pub nodes : ℕ → Node
  pub next_node : ℕ
  pub next_handle : ℕ
  pub handle_table : List (ℕ × ℕ)

-- `{ node, rest }`
pub record Found : Type 0 where
  pub node : Option ℕ
  pub rest : Option Text

abbrev pub missing : Found
missing = record { node = none; rest = none }

abbrev pub root : ℕ
root = 0

abbrev pub slash : ℕ
slash = b'/'

abbrev pub directory_type : Text
directory_type = b'D' ∷ b'i' ∷ b'r' ∷ b'e' ∷ b'c' ∷ b't' ∷ b'o' ∷ b'r' ∷ b'y' ∷ []

abbrev pub symbolic_link_type : Text
symbolic_link_type =
    b'S' ∷ b'y' ∷ b'm' ∷ b'b' ∷ b'o' ∷ b'l' ∷ b'i' ∷ b'c' ∷ b'L' ∷ b'i' ∷ b'n' ∷ b'k' ∷ []

abbrev pub file_type : Text
file_type = b'F' ∷ b'i' ∷ b'l' ∷ b'e' ∷ []

abbrev pub new_directory : Text → Node
new_directory name = record {
  name = name;
  type = directory_type;
  children = some [];
  mount = none;
  data_of = nothing;
  refs = 0;
}

abbrev pub initial : ObjectManager
initial = record {
  nodes = λ _. new_directory [];
  next_node = 1;
  next_handle = 1;
  handle_table = [];
}

unfoldable pub split : Text → List Text
unfolding pieces nonempty
split path = nonempty ((pieces path).0 ∷ (pieces path).1)

-- `Array.prototype.join`
unfoldable pub join : ℕ → List Text → Text
join separator [] = []
join separator (part ∷ []) = part
join separator (part ∷ other ∷ parts) = part ++ separator ∷ join separator (other ∷ parts)

-- `rest ? '\\' + rest : ''`
unfoldable pub behind : Text → Text
behind [] = []
behind (c ∷ rest) = backslash ∷ c ∷ rest

-- The nodes in which one is changed in place.
unfoldable pub change : ℕ → (Node → Node) → (ℕ → Node) → ℕ → Node
change id f nodes asked = if id == asked then f (nodes asked) else nodes asked

module _ (shown : ℕ → Text) where
  -- `next.data`, added to a text.
  unfoldable pub target_of : Payload → Text
  target_of nothing = b'n' ∷ b'u' ∷ b'l' ∷ b'l' ∷ []
  target_of (text t) = t
  target_of (value v) = shown v

module _ (lower : Text → Text) (shown : ℕ → Text) where
  -- The loop of `resolve`; `follow` is its call of itself.
  unfoldable pub walk :
      (follow : Text → Found) (nodes : ℕ → Node) (id : ℕ) (parts : List Text) → Found
  unfolding join behind target_of get same
  walk follow nodes id [] = elim (nodes id).mount [
    | none ↦ record { node = some id; rest = none }
    | some system ↦ record { node = some id; rest = some [] }
  ]
  walk follow nodes id (part ∷ parts) = elim (nodes id).mount [
    | some system ↦ record { node = some id; rest = some (join slash (part ∷ parts)) }
    | none ↦ elim (nodes id).children [
      | none ↦ missing
      | some children ↦ elim (get (lower part) children) [
        | none ↦ missing
        | some next ↦ elim (same (nodes next).type symbolic_link_type) [
          | true ↦ follow (target_of shown (nodes next).data_of ++ behind (join backslash parts))
          | false ↦ walk follow nodes next parts
        ]
      ]
    ]
  ]

  -- `links` is `9 - depth`.
  unfoldable pub resolve_within : (links : ℕ) (nodes : ℕ → Node) (path : Text) → Found
  unfolding walk split
  resolve_within zero nodes path = missing
  resolve_within (suc links) nodes path = walk (resolve_within links nodes) nodes root (split path)

  abbrev pub resolve : (nodes : ℕ → Node) (path : Text) → Found
  resolve = resolve_within 9

  abbrev pub lookup : Text → ObjectManager → Option ℕ
  lookup path s = (resolve s.nodes path).node
