-- ===== src/Tests/CmTests.antt =====
-- The registry on a small tree.
use windows_10_js.Prelude.{
  ◌+◌, ◌≡◌, refl, ◌&&◌, ◌||◌, true, none, some, [], ◌∷◌, map, leb, if◌then◌else◌,
}
use windows_10_js.Prelude.TextMap.{Text, same, get, put}
use windows_10_js.Cm.Keys.{
  Key, Value, is_some, split, pieces, nonempty, walk, create, children_of, listed, with_children,
  unlisted, new_key_node,
}
use windows_10_js.Cm.Keys.Walks.{after}
use windows_10_js.Cm.Keys.Presence.{has_key}
use windows_10_js.Cm.Registry.{
  Registry, initial, read_value_by_path, open_or_create, new_handle, set_value, delete_key,
  get_path,
}
use windows_10_js.Cm.Registry.Changes.{is_named}
use windows_10_js.Cm.Registry.Operations.{open_or_create-kept, set_value-read, delete_key-read}

abbrev ascii_lower : Text → Text
ascii_lower = map (λ c. if leb 0x41 c && leb c 0x5A then c + 0x20 else c)

-- \A\b, and \a\B
abbrev first_path : Text
first_path = b'\\' ∷ b'A' ∷ b'\\' ∷ b'b' ∷ []

abbrev second_path : Text
second_path = b'\\' ∷ b'a' ∷ b'\\' ∷ b'B' ∷ []

abbrev opened : Registry
opened = (open_or_create ascii_lower first_path initial).1

abbrev five : Value
five = record { name = b'N' ∷ []; type = 4; bytes = 5 ∷ 0 ∷ 0 ∷ 0 ∷ [] }

abbrev leaf : Key
leaf = new_key_node (b'b' ∷ [])

opened_path : get_path ascii_lower 0x100 opened ≡ some first_path
unfolding get_path open_or_create new_handle
opened_path = refl

opened_leaf : walk ascii_lower (split first_path) opened.hive_root ≡ some leaf
unfolding walk split pieces nonempty open_or_create new_handle create get put children_of listed
    with_children unlisted new_key_node same
opened_leaf = refl

two_parts : split first_path ≡ (b'A' ∷ []) ∷ (b'b' ∷ []) ∷ []
unfolding split pieces nonempty
two_parts = refl

open_or_create-kept_example :
    (read_value_by_path ascii_lower second_path
        (b'n' ∷ [])
        (open_or_create ascii_lower first_path initial).1
      ≡ read_value_by_path ascii_lower second_path (b'n' ∷ []) initial)
    × (has_key ascii_lower
          (split second_path)
          (open_or_create ascii_lower first_path initial).1.hive_root
        ≡ (has_key ascii_lower (split second_path) initial.hive_root
            || is_some (after ascii_lower (split second_path) (split first_path))))
open_or_create-kept_example =
    open_or_create-kept ascii_lower first_path second_path (b'n' ∷ []) initial

set_value-read_example :
    ((set_value ascii_lower 0x100 five opened).0 ≡ true)
    × (read_value_by_path ascii_lower second_path
          (b'n' ∷ [])
          (set_value ascii_lower 0x100 five opened).1
        ≡ (if is_named ascii_lower
              (b'N' ∷ [])
              (b'n' ∷ [])
              (after ascii_lower (split first_path) (split second_path))
            then some five
            else read_value_by_path ascii_lower second_path (b'n' ∷ []) opened))
set_value-read_example =
    set_value-read ascii_lower 0x100 five first_path second_path (b'n' ∷ []) leaf opened opened_path
      opened_leaf

delete_key-read_example :
    ((delete_key ascii_lower 0x100 opened).0 ≡ true)
    × (read_value_by_path ascii_lower second_path
          (b'n' ∷ [])
          (delete_key ascii_lower 0x100 opened).1
        ≡ (if is_some (after ascii_lower (split first_path) (split second_path))
            then none
            else read_value_by_path ascii_lower second_path (b'n' ∷ []) opened))
delete_key-read_example =
    delete_key-read ascii_lower 0x100 first_path second_path (b'n' ∷ []) (b'A' ∷ [])
      ((b'b' ∷ []) ∷ []) leaf opened opened_path two_parts opened_leaf
