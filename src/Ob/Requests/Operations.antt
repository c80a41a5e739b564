-- ===== src/Ob/Requests/Operations.antt =====
-- system32/ntos/ob/object-manager.js: every call keeps the objects' references equal to their
-- handles.
use mathlib.Core.Option.{some-injective}
use windows_10_js.Prelude.{
  ℕ, suc, ◌≡◌, refl, sym, subst, ◌∙◌, inl, inr, Option, none, some, List, [], ◌∷◌, Bool-cases,
  Option-cases, arith,
}
use windows_10_js.Prelude.TextMap.{Text, get, put, remove, get-put, get-remove, same}
use windows_10_js.Cm.Keys.{backslash, or_else}
use windows_10_js.Ob.Namespace.{
  Node, ObjectManager, Payload, initial, root, resolve, split, join, symbolic_link_type,
  new_directory, lookup, text,
}
use windows_10_js.Ob.Objects.{
  add_node, add_child, create_directories, create_directory, create_in, create_object, mount,
  symlink_in, create_symlink, unlink_in, unlink_parts, unlink, unsnoc, new_object,
}
use windows_10_js.Ob.Handles.{
  FileSystem, close, get_object, open_file, open_node, open_path, file_path, new_file,
}
use windows_10_js.Ob.Handles.Table.{handles_of, IsDistinct, lookup_nothing}
use windows_10_js.Ob.Requests.{
  Request, directory_at, object_at, symlink_at, mounted_at, opened_at, closed, unlinked_at, perform,
  perform_all,
}
use windows_10_js.Ob.Requests.Walks.{IsInside, resolve_within-IsInside}
use windows_10_js.Ob.Requests.Counts.{
  IsBelow, IsCounted, add_node-IsCounted, set_children-IsCounted, mount_at-IsCounted,
  new_handle-IsCounted, close_object-IsCounted,
}

childless-IsBelow : (next_node : ℕ) (n : Node) → n.children ≡ none → IsBelow next_node n
unfolding IsBelow
childless-IsBelow next_node n childless children key next those there =
    grind (arith, childless, those)

get_nothing : (key : Text) → get {V = ℕ} key [] ≡ none
unfolding get
get_nothing key = refl

empty-IsBelow : (next_node : ℕ) (n : Node) → n.children ≡ some [] → IsBelow next_node n
unfolding IsBelow
empty-IsBelow next_node n empty children key next those there =
    let at = some-injective children [] (sym those ∙ empty) in
    let found = subst (λ cs. get key cs ≡ some next) at there in
    grind (arith, found, get_nothing key)

add_child-IsCounted :
    (id : ℕ) (children : List (Text × ℕ)) (key : Text) (n : Node) (s : ObjectManager)
    → n.refs ≡ 0
    → IsBelow (suc s.next_node) n
    → (s.nodes id).children ≡ some children
    → IsCounted s
    → IsCounted (add_child id children key n s)
unfolding add_child IsBelow add_node
add_child-IsCounted id children key n s unused below those c =
    set_children-IsCounted id (put key s.next_node children) (add_node n s)
      (λ asked next there. elim (Bool-cases (same key asked)) [
        | inl hit ↦
            let put_here = get-put key s.next_node children asked in
            let new : s.next_node ≡ next =
              some-injective s.next_node next (sym (put_here ∙ rw hit refl) ∙ there) in
            omega (arith, new)
        | inr miss ↦
            let put_here = get-put key s.next_node children asked in
            let old = sym (put_here ∙ rw miss refl) ∙ there in
            let small = c.closed id children asked next those old in omega (arith, small)
      ])
      (add_node-IsCounted n s unused below c)

module _ (lower : Text → Text) where
  create_directories-IsCounted :
      (parts : List Text) (id : ℕ) (s : ObjectManager)
      → IsCounted s
      → IsCounted (create_directories lower parts id s).1
  unfolding create_directories
  create_directories-IsCounted [] id s c = c
  create_directories-IsCounted (part ∷ parts) id s c = elim (Option-cases (s.nodes id).children) [
    | inl childless ↦ rw (childless, create_directories) c
    | inr (children, those) ↦ elim (Option-cases (get (lower part) children)) [
      | inr (next, there) ↦
          rw (those, there, create_directories) (create_directories-IsCounted parts next s c)
      | inl unknown ↦
          rw (those, unknown, create_directories)
            (create_directories-IsCounted parts s.next_node
              (add_child id children (lower part) (new_directory part) s)
              (add_child-IsCounted id children (lower part) (new_directory part) s refl
                (empty-IsBelow (suc s.next_node) (new_directory part) refl) those c))
    ]
  ]

  create_in-IsCounted :
      (at : Option ℕ) (name type : Text) (payload : Payload) (s : ObjectManager)
      → IsCounted s
      → IsCounted (create_in lower at name type payload s).1
  unfolding create_in
  create_in-IsCounted none name type payload s c = c
  create_in-IsCounted (some parent) name type payload s c =
      elim (Option-cases (s.nodes parent).children) [
        | inl childless ↦ rw (childless, create_in) c
        | inr (children, those) ↦ elim (Option-cases (get (lower name) children)) [
          | inr (other, there) ↦ rw (those, there, create_in) c
          | inl unknown ↦
              let object = new_object name type payload in
              rw (those, unknown, create_in)
                (add_child-IsCounted parent children (lower name) object s refl
                  (childless-IsBelow (suc s.next_node) object refl) those c)
        ]
      ]

  unlink_in-IsCounted :
      (at : Option ℕ) (name : Text) (s : ObjectManager)
      → IsCounted s
      → IsCounted (unlink_in lower at name s).1
  unfolding unlink_in IsBelow
  unlink_in-IsCounted none name s c = c
  unlink_in-IsCounted (some parent) name s c = elim (Option-cases (s.nodes parent).children) [
    | inl childless ↦ rw (childless, unlink_in) c
    | inr (children, those) ↦
        rw (those, unlink_in)
          (set_children-IsCounted parent (remove (lower name) children) s
            (λ asked next there. elim (Bool-cases (same (lower name) asked)) [
              | inl hit ↦ absurd (grind (arith, get-remove (lower name) children asked, hit, there))
              | inr miss ↦
                  let left = sym (get-remove (lower name) children asked ∙ rw miss refl) in
                  c.closed parent children asked next those (left ∙ there)
            ])
            c)
  ]

open_file-IsCounted :
    (fspath : Option Text) (system : ℕ) (s : ObjectManager)
    → IsCounted s
    → IsCounted (open_file fspath system s).1
unfolding open_file add_node new_file
open_file-IsCounted none system s c = c
open_file-IsCounted (some fspath) system s c =
    new_handle-IsCounted s.next_node (add_node (new_file fspath system) s) (omega arith) (
      add_node-IsCounted (new_file fspath system) s refl
        (childless-IsBelow (suc s.next_node) (new_file fspath system) refl) c)

module _ (lower : Text → Text) (shown : ℕ → Text) (systems : ℕ → FileSystem) where
  open_node-IsCounted :
      (at : Option ℕ) (rest : Text) (s : ObjectManager)
      → IsInside s.next_node at
      → IsCounted s
      → IsCounted (open_node lower shown systems at rest s).1
  unfolding open_node IsInside
  open_node-IsCounted none rest s inside c = c
  open_node-IsCounted (some id) rest s inside c = elim (Option-cases (s.nodes id).mount) [
    | inl free ↦ rw (free, open_node) (new_handle-IsCounted id s (inside id refl) c)
    | inr (system, held) ↦
        rw (held, open_node)
          (open_file-IsCounted (file_path lower rest (systems system)) system s c)
  ]

module _ (lower : Text → Text) (shown : ℕ → Text) where
  symlink_in-IsCounted :
      (parts : List Text) (target : Text) (s : ObjectManager)
      → IsCounted s
      → IsCounted (symlink_in lower shown parts target s).1
  unfolding symlink_in create_object
  symlink_in-IsCounted [] target s c = c
  symlink_in-IsCounted (part ∷ parts) target s c =
      let ends = unsnoc part parts in
      create_in-IsCounted lower (lookup lower shown (backslash ∷ join backslash ends.0) s) ends.1
        symbolic_link_type (text target) s c

  unlink_parts-IsCounted :
      (parts : List Text) (s : ObjectManager)
      → IsCounted s
      → IsCounted (unlink_parts lower shown parts s).1
  unfolding unlink_parts
  unlink_parts-IsCounted [] s c = c
  unlink_parts-IsCounted (part ∷ parts) s c =
      let ends = unsnoc part parts in
      unlink_in-IsCounted lower (lookup lower shown (backslash ∷ join backslash ends.0) s) ends.1 s
        c

  pub perform-IsCounted :
      (request : Request) (s : ObjectManager)
      → IsCounted s
      → IsCounted (perform lower shown request s)
  unfolding perform create_directory create_object mount create_symlink unlink open_path close
      get_object
  perform-IsCounted (directory_at path) s c =
      create_directories-IsCounted lower (split path) root s c
  perform-IsCounted (object_at parent_path name type payload) s c =
      create_in-IsCounted lower (lookup lower shown parent_path s) name type payload s c
  perform-IsCounted (symlink_at path target) s c = symlink_in-IsCounted (split path) target s c
  perform-IsCounted (mounted_at path system) s c =
      let made = create_directory lower path s in
      mount_at-IsCounted system made.0 made.1
        (create_directories-IsCounted lower (split path) root s c)
  perform-IsCounted (opened_at path systems) s c =
      let found = resolve lower shown s.nodes path in
      open_node-IsCounted lower shown systems found.node (or_else [] found.rest) s
        (resolve_within-IsInside lower shown 9 s path c) c
  perform-IsCounted (closed handle) s c =
      close_object-IsCounted handle (get_object handle s) s refl c
  perform-IsCounted (unlinked_at path) s c = unlink_parts-IsCounted (split path) s c

  perform_all-IsCounted :
      (requests : List Request) (s : ObjectManager)
      → IsCounted s
      → IsCounted (perform_all lower shown requests s)
  unfolding perform_all
  perform_all-IsCounted [] s c = c
  perform_all-IsCounted (request ∷ requests) s c =
      perform_all-IsCounted requests (perform lower shown request s) (perform-IsCounted request s c)

  -- Whatever functions are called in whatever order from the empty namespace on, the reference
  -- count of every object is the number of open handles to it, no handle is in the table twice and
  -- the next handle is not in it, and the children of every object are objects of the store.
  pub requests-IsCounted :
      (requests : List Request) → IsCounted (perform_all lower shown requests initial)
  unfolding IsBelow handles_of IsDistinct
  requests-IsCounted requests = perform_all-IsCounted requests initial (record {
    rooted = omega arith;
    closed = λ id. empty-IsBelow 1 (new_directory []) refl;
    counted = λ id. refl;
    stored = λ id above. refl;
    distinct = _;
    fresh = λ handle above. lookup_nothing handle;
  })
