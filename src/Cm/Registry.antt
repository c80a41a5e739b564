-- ===== src/Cm/Registry.antt =====
-- system32/ntos/cm/registry.js: the operations on the hive, and the handles. A handle stands for a
-- path, which each operation walks again. `lower` is String.prototype.toLowerCase.
pub mod Changes
pub mod Operations
use windows_10_js.Prelude.{ℕ, ◌+◌, Bool, true, false, Option, none, some, List, [], ◌∷◌, map}
use windows_10_js.Prelude.Assoc.{lookup, insert, erase}
use windows_10_js.Prelude.TextMap.{Text, get, put, remove}
use windows_10_js.Cm.Keys.{
  Value, Key, node, no_more, name_of, children_of, values_of, with_children, with_values, split,
  ◌>>=◌, is_some, walk, create, change,
}

-- `handle` counts up from 0x100; a handle is bound to the path it was opened with.
pub record Registry : Type 0 where
  pub hive_root : Key
  pub next_handle : ℕ
  pub handle_table : List (ℕ × Text)

abbrev pub initial : Registry
initial = record { hive_root = node [] no_more []; next_handle = 0x100; handle_table = [] }

module _ (lower : Text → Text) where
  unfoldable pub list_keys : Text → Registry → List Text
  unfolding split walk name_of children_of
  list_keys path r = elim (walk lower (split path) r.hive_root) [
    | none ↦ []
    | some key ↦ map (λ entry. name_of entry.1) (children_of key)
  ]

  unfoldable pub read_value_by_path : (path value_name : Text) → Registry → Option Value
  unfolding split walk values_of get
  read_value_by_path path value_name r = do
    key ← walk lower (split path) r.hive_root
    get (lower value_name) (values_of key)

  unfoldable pub new_handle : Text → Registry → ℕ × Registry
  new_handle path r = (
    r.next_handle,
    record r {
      next_handle = r.next_handle + 1;
      handle_table = insert r.next_handle path r.handle_table;
    },
  )

  unfoldable pub open_or_create : Text → Registry → ℕ × Registry
  unfolding split create new_handle insert
  open_or_create path r =
      new_handle path (record r { hive_root = create lower (split path) r.hive_root })

  unfoldable pub open_key : Text → Registry → ℕ × Registry
  unfolding split walk new_handle insert
  open_key path r = elim (walk lower (split path) r.hive_root) [
    | none ↦ (0, r)
    | some key ↦ new_handle path r
  ]

  unfoldable pub get_path : ℕ → Registry → Option Text
  unfolding lookup
  get_path handle r = elim (lookup handle r.handle_table) [
    | some (c ∷ path) ↦ some (c ∷ path)
    | _ ↦ none
  ]

  unfoldable pub get_node : ℕ → Registry → Option Key
  unfolding get_path split walk
  get_node handle r = do path ← get_path handle r; walk lower (split path) r.hive_root

  unfoldable pub close_handle : ℕ → Registry → Bool × Registry
  unfolding lookup erase
  close_handle handle r = (
    is_some (lookup handle r.handle_table),
    record r { handle_table = erase handle r.handle_table },
  )

  -- All parts but the last, and the last.
  unfoldable pub parent_and_name : List Text → Option (List Text × Text)
  parent_and_name [] = none
  parent_and_name (part ∷ []) = some ([], part)
  parent_and_name (part ∷ next ∷ parts) = do
    rest ← parent_and_name (next ∷ parts)
    some (part ∷ rest.0, rest.1)

  unfoldable pub drop_child : Text → Key → Key
  unfolding children_of with_children remove
  drop_child name key = with_children (remove (lower name) (children_of key)) key

  -- The path of the parent, joined by backslashes and split again, has the parts it had.
  unfoldable pub delete_key : ℕ → Registry → Bool × Registry
  unfolding get_path split parent_and_name walk children_of get change drop_child
  delete_key handle r =
      let found : Option ((List Text × Text) × Bool) = (do
        path ← get_path handle r
        place ← parent_and_name (split path)
        parent ← walk lower place.0 r.hive_root
        some (place, is_some (get (lower place.1) (children_of parent)))) in
      elim found [
        | none ↦ (false, r)
        | some (place, was_there) ↦ (
          was_there,
          record r { hive_root = change lower place.0 (drop_child place.1) r.hive_root },
        )
      ]

  unfoldable pub put_value : Value → Key → Key
  unfolding values_of with_values put
  put_value value key = with_values (put (lower value.name) value (values_of key)) key

  unfoldable pub set_value : (handle : ℕ) (value : Value) → Registry → Bool × Registry
  unfolding get_path split walk change put_value
  set_value handle value r =
      let found = (do
        path ← get_path handle r
        key ← walk lower (split path) r.hive_root
        some (split path)) in
      elim found [
        | none ↦ (false, r)
        | some parts ↦
            (true, record r { hive_root = change lower parts (put_value value) r.hive_root })
      ]

  unfoldable pub get_value : (handle : ℕ) (value_name : Text) → Registry → Option Value
  unfolding get_node values_of get
  get_value handle value_name r = do key ← get_node handle r; get (lower value_name) (values_of key)

  unfoldable pub drop_value : Text → Key → Key
  unfolding values_of with_values remove
  drop_value value_name key = with_values (remove (lower value_name) (values_of key)) key

  unfoldable pub delete_value : (handle : ℕ) (value_name : Text) → Registry → Bool × Registry
  unfolding get_path split walk values_of get change drop_value
  delete_value handle value_name r =
      let found : Option (List Text × Bool) = (do
        path ← get_path handle r
        key ← walk lower (split path) r.hive_root
        some (split path, is_some (get (lower value_name) (values_of key)))) in
      elim found [
        | none ↦ (false, r)
        | some (parts, was_there) ↦ (
          was_there,
          record r { hive_root = change lower parts (drop_value value_name) r.hive_root },
        )
      ]
