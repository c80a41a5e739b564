-- ===== src/Tests/ObTests.antt =====
-- The object manager on a small tree.
use windows_10_js.Prelude.{
  List, false, ℕ, ◌+◌, ◌≤◌, ◌≡◌, refl, ◌&&◌, none, some, [], ◌∷◌, ◌++◌, map, leb, if◌then◌else◌,
}
use windows_10_js.Prelude.TextMap.{Text, same, get, put}
use windows_10_js.Prelude.Assoc.{insert}
use windows_10_js.Prelude.Assoc
use windows_10_js.Cm.Keys.{pieces, nonempty, backslash}
use windows_10_js.Ob.Namespace.{
  ObjectManager, nothing, initial, split, join, behind, walk, resolve_within, lookup, change,
  target_of, symbolic_link_type,
}
use windows_10_js.Ob.Objects.{
  created, create_object, create_in, create_directory, create_directories, add_child, add_node,
  set_children, create_symlink, symlink_in, unsnoc,
}
use windows_10_js.Ob.Handles.{FileSystem, get_object, new_handle, open_path, open_node}
use windows_10_js.Ob.Requests.{
  Request, directory_at, object_at, symlink_at, opened_at, closed, unlinked_at, perform,
  perform_all,
}
use windows_10_js.Ob.Requests.Counts.{IsCounted}
use windows_10_js.Ob.Requests.Operations.{requests-IsCounted}
use windows_10_js.Ob.Requests.Kept.{get_object-perform_all, closes, is_close_of}
use windows_10_js.Ob.Creation.{create_object-lookup}

abbrev ascii_lower : Text → Text
ascii_lower = map (λ c. if leb 0x41 c && leb c 0x5A then c + 0x20 else c)

abbrev no_text : ℕ → Text
no_text v = []

abbrev no_files : ℕ → FileSystem
no_files system = record { has_file = λ f. false; list = [] }

-- \D, and \L, which is a link to it, and the console.
abbrev directory_path : Text
directory_path = b'\\' ∷ b'D' ∷ []

abbrev link_path : Text
link_path = b'\\' ∷ b'L' ∷ []

abbrev device_type : Text
device_type = b'D' ∷ b'e' ∷ b'v' ∷ []

abbrev console_path : Text
console_path = b'\\' ∷ b'd' ∷ b'\\' ∷ b'C' ∷ []

abbrev tree_requests : List Request
tree_requests = directory_at directory_path ∷ symlink_at link_path directory_path ∷ []

abbrev open_requests : List Request
open_requests =
    directory_at directory_path
    ∷ object_at directory_path (b'c' ∷ []) device_type nothing
    ∷ opened_at console_path no_files
    ∷ []

abbrev tree : ObjectManager
tree = perform_all ascii_lower no_text tree_requests initial

abbrev opened : ObjectManager
opened = perform_all ascii_lower no_text open_requests initial

requests-IsCounted_example : IsCounted opened
requests-IsCounted_example = requests-IsCounted ascii_lower no_text open_requests

opened_object : get_object 1 opened ≡ some 2
unfolding get_object perform_all perform create_directory create_directories split pieces nonempty
    get put same add_child add_node set_children change create_object create_in create_symlink
    symlink_in unsnoc join behind target_of resolve_within walk open_path open_node new_handle
    insert Assoc.lookup
opened_object = refl

later_unclosed : closes 1 (unlinked_at console_path ∷ closed 2 ∷ []) ≡ false
unfolding closes is_close_of
later_unclosed = refl

get_object-perform_all_example :
    (get_object 1
        (perform_all ascii_lower no_text (unlinked_at console_path ∷ closed 2 ∷ []) opened)
      ≡ some 2)
    × (1
        ≤ ((perform_all ascii_lower no_text (unlinked_at console_path ∷ closed 2 ∷ []) opened).nodes
            2).refs)
get_object-perform_all_example =
    get_object-perform_all ascii_lower no_text 1 2 (unlinked_at console_path ∷ closed 2 ∷ []) opened
      (requests-IsCounted ascii_lower no_text open_requests) later_unclosed opened_object

-- \L\C
abbrev made : ObjectManager
made = (create_object ascii_lower no_text link_path (b'C' ∷ []) device_type nothing tree).1

link_found : lookup ascii_lower no_text link_path tree ≡ some 1
unfolding perform_all perform create_directory create_directories split pieces nonempty get put same
    add_child add_node set_children change create_object create_in create_symlink symlink_in unsnoc
    join behind target_of resolve_within walk
link_found = refl

link_free : (tree.nodes 1).mount ≡ none
unfolding perform_all perform create_directory create_directories split pieces nonempty get put same
    add_child add_node set_children change create_object create_in create_symlink symlink_in unsnoc
    join behind target_of resolve_within walk
link_free = refl

console_created :
    (create_object ascii_lower no_text link_path (b'C' ∷ []) device_type nothing tree).0 ≡ created 3
unfolding perform_all perform create_directory create_directories split pieces nonempty get put same
    add_child add_node set_children change create_object create_in create_symlink symlink_in unsnoc
    join behind target_of resolve_within walk
console_created = refl

plain_type : same device_type symbolic_link_type ≡ false
unfolding same
plain_type = refl

whole_name : split (b'C' ∷ []) ≡ (b'C' ∷ []) ∷ []
unfolding split pieces nonempty
whole_name = refl

create_object-lookup_example :
    lookup ascii_lower no_text (link_path ++ backslash ∷ b'C' ∷ []) made ≡ some 3
create_object-lookup_example =
    create_object-lookup ascii_lower no_text link_path b'C' [] device_type nothing tree 1 3
      (requests-IsCounted ascii_lower no_text tree_requests) whole_name plain_type link_found
      link_free console_created
