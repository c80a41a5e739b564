-- ===== src/Cm/Keys.antt =====
-- The tree of keys of system32/ntos/cm/registry.js. `lower` is String.prototype.toLowerCase.
pub mod Walks
pub mod Presence
use windows_10_js.Prelude.{
  ℕ, Bool, true, false, Option, none, some, List, [], ◌∷◌, ◌==◌, if◌then◌else◌,
}
use windows_10_js.Prelude.TextMap.{Text, get, put}

pub record Value : Type 0 where
  pub name : Text
  pub type : ℕ
  pub bytes : List ℕ

-- A key with its name, its children and its values, both by their names in lower case.
mutual
  pub data Key : Type 0 where
    node : Text → Children → List (Text × Value) → Key

  pub data Children : Type 0 where
    no_more : Children
    child : Text → Key → Children → Children

-- The Map of the children as a list, and back.
unfoldable pub listed : Children → List (Text × Key)
listed no_more = []
listed (child name key others) = (name, key) ∷ listed others

unfoldable pub unlisted : List (Text × Key) → Children
unlisted [] = no_more
unlisted (entry ∷ others) = child entry.0 entry.1 (unlisted others)

unfoldable pub name_of : Key → Text
name_of (node name children values) = name

unfoldable pub children_of : Key → List (Text × Key)
unfolding listed
children_of (node name children values) = listed children

unfoldable pub values_of : Key → List (Text × Value)
values_of (node name children values) = values

unfoldable pub with_children : List (Text × Key) → Key → Key
unfolding unlisted
with_children children (node name _ values) = node name (unlisted children) values

unfoldable pub with_values : List (Text × Value) → Key → Key
with_values values (node name children _) = node name children values

unfoldable pub new_key_node : Text → Key
new_key_node name = node name no_more []

abbrev pub backslash : ℕ
backslash = 0x5C

-- `path.split('\\')`: the piece in front of the first backslash, and the others.
unfoldable pub pieces : Text → Text × List Text
pieces [] = ([], [])
pieces (c ∷ path) =
    let rest = pieces path in if c == backslash then ([], rest.0 ∷ rest.1) else (c ∷ rest.0, rest.1)

-- `filter(s => s.length > 0)`
unfoldable pub nonempty : List Text → List Text
nonempty [] = []
nonempty ([] ∷ parts) = nonempty parts
nonempty ((c ∷ part) ∷ parts) = (c ∷ part) ∷ nonempty parts

unfoldable pub split : Text → List Text
unfolding pieces nonempty
split path = nonempty ((pieces path).0 ∷ (pieces path).1)

infixl 5 ◌>>=◌
abbrev pub ◌>>=◌ {ℓ ℓ'} : {A : Type ℓ} {B : Type ℓ'} → Option A → (A → Option B) → Option B
none >>= f = none
some a >>= f = f a

abbrev pub is_some : {A : Type 0} → Option A → Bool
is_some none = false
is_some (some a) = true

abbrev pub or_else : {A : Type 0} → A → Option A → A
or_else a none = a
or_else a (some b) = b

module _ (lower : Text → Text) where
  -- The loop of `walk`, without `create`.
  unfoldable pub walk : List Text → Key → Option Key
  unfolding children_of get
  walk [] key = some key
  walk (part ∷ parts) key = get (lower part) (children_of key) >>= walk parts

  -- What `walk` with `create` makes of the tree.
  unfoldable pub create : List Text → Key → Key
  unfolding children_of with_children new_key_node get put
  create [] key = key
  create (part ∷ parts) key =
      let below = or_else (new_key_node part) (get (lower part) (children_of key)) in
      with_children (put (lower part) (create parts below) (children_of key)) key

  -- The tree in which a key that `walk` finds is changed in place.
  unfoldable pub change : List Text → (Key → Key) → Key → Key
  unfolding children_of with_children get put
  change [] f key = f key
  change (part ∷ parts) f key = elim (get (lower part) (children_of key)) [
    | none ↦ key
    | some below ↦ with_children (put (lower part) (change parts f below) (children_of key)) key
  ]
