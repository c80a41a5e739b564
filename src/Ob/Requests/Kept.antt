-- ===== src/Ob/Requests/Kept.antt =====
-- system32/ntos/ob/object-manager.js: an open handle keeps its object.
use windows_10_js.Prelude.{
  ℕ, ◌≤◌, ◌≡◌, sym, ap, subst, ◌∙◌, inl, inr, Bool, false, ◌||◌, Option, none, some, List, [], ◌∷◌,
  ◌==◌, Bool-cases, Option-cases, arith,
}
use windows_10_js.Prelude.TextMap.{Text}
use windows_10_js.Prelude.Assoc.{lookup-insert, lookup-erase}
use windows_10_js.Prelude.Assoc
use windows_10_js.Cm.Keys.{or_else}
use windows_10_js.Ob.Namespace.{ObjectManager, root, resolve, split, lookup}
use windows_10_js.Ob.Objects.{
  add_node, mount_at, create_directory, create_object, mount, create_symlink, unlink,
}
use windows_10_js.Ob.Handles.{
  FileSystem, new_handle, close_object, close, get_object, open_file, open_node, open_path,
  file_path, new_file,
}
use windows_10_js.Ob.Handles.Table.{handles_of_entry}
use windows_10_js.Ob.Requests.Tables.{
  create_directories-table, create_in-table, mount_at-table, symlink_in-table, unlink_parts-table,
}
use windows_10_js.Ob.Requests.{
  Request, directory_at, object_at, symlink_at, mounted_at, opened_at, closed, unlinked_at, perform,
  perform_all,
}
use windows_10_js.Ob.Requests.Counts.{IsCounted}
use windows_10_js.Ob.Requests.Operations.{perform-IsCounted}

unfoldable pub is_close_of : ℕ → Request → Bool
is_close_of handle (closed other) = other == handle
is_close_of handle request = false

unfoldable pub closes : ℕ → List Request → Bool
unfolding is_close_of
closes handle [] = false
closes handle (request ∷ requests) = is_close_of handle request || closes handle requests

there_in_table :
    (handle id : ℕ) (s : ObjectManager)
    → get_object handle s ≡ some id
    → Assoc.lookup handle s.handle_table ≡ some id
unfolding get_object
there_in_table handle id s there = there

module _ (handle id : ℕ) where
  new_handle-kept :
      (other : ℕ) (s : ObjectManager)
      → ((h : ℕ) → s.next_handle ≤ h → Assoc.lookup h s.handle_table ≡ none)
      → get_object handle s ≡ some id
      → get_object handle (new_handle other s).1 ≡ some id
  unfolding new_handle get_object
  new_handle-kept other s fresh there = elim (Bool-cases (s.next_handle == handle)) [
    | inl hit ↦ absurd (grind (arith, fresh handle (ground arith), there))
    | inr miss ↦ lookup-insert s.next_handle other s.handle_table handle ∙ rw miss there
  ]

  close_object-kept :
      (other : ℕ) (at : Option ℕ) (s : ObjectManager)
      → (other == handle) ≡ false
      → get_object handle s ≡ some id
      → get_object handle (close_object other at s).1 ≡ some id
  unfolding close_object get_object
  close_object-kept other none s unlike there = there
  close_object-kept other (some object) s unlike there =
      lookup-erase other s.handle_table handle ∙ rw unlike there

  -- An operation that leaves the table alone.
  kept_by_table :
      (s s' : ObjectManager)
      → s'.handle_table ≡ s.handle_table
      → get_object handle s ≡ some id
      → get_object handle s' ≡ some id
  unfolding get_object
  kept_by_table s s' same there = ap (Assoc.lookup handle) same ∙ there

  open_file-kept :
      (fspath : Option Text) (system : ℕ) (s : ObjectManager)
      → ((h : ℕ) → s.next_handle ≤ h → Assoc.lookup h s.handle_table ≡ none)
      → get_object handle s ≡ some id
      → get_object handle (open_file fspath system s).1 ≡ some id
  unfolding open_file add_node get_object
  open_file-kept none system s fresh there = there
  open_file-kept (some fspath) system s fresh there =
      new_handle-kept s.next_node (add_node (new_file fspath system) s) fresh there

  open_node-kept :
      (lower : Text → Text) (shown : ℕ → Text) (systems : ℕ → FileSystem) (at : Option ℕ)
      (rest : Text) (s : ObjectManager)
      → ((h : ℕ) → s.next_handle ≤ h → Assoc.lookup h s.handle_table ≡ none)
      → get_object handle s ≡ some id
      → get_object handle (open_node lower shown systems at rest s).1 ≡ some id
  unfolding open_node
  open_node-kept lower shown systems none rest s fresh there = there
  open_node-kept lower shown systems (some object) rest s fresh there =
      elim (Option-cases (s.nodes object).mount) [
        | inl free ↦ rw (free, open_node) (new_handle-kept object s fresh there)
        | inr (system, held) ↦
            rw (held, open_node)
              (open_file-kept (file_path lower rest (systems system)) system s fresh there)
      ]

module _ (lower : Text → Text) (shown : ℕ → Text) where
  perform-kept :
      (handle id : ℕ) (request : Request) (s : ObjectManager)
      → ((h : ℕ) → s.next_handle ≤ h → Assoc.lookup h s.handle_table ≡ none)
      → is_close_of handle request ≡ false
      → get_object handle s ≡ some id
      → get_object handle (perform lower shown request s) ≡ some id
  unfolding perform create_directory create_object mount create_symlink unlink open_path close
      is_close_of
  perform-kept handle id (directory_at path) s fresh unclosed there =
      kept_by_table handle id s (create_directory lower path s).1
        (create_directories-table lower (split path) root s) there
  perform-kept handle id (object_at parent_path name type payload) s fresh unclosed there =
      kept_by_table handle id s (create_object lower shown parent_path name type payload s).1
        (create_in-table lower (lookup lower shown parent_path s) name type payload s) there
  perform-kept handle id (symlink_at path target) s fresh unclosed there =
      kept_by_table handle id s (create_symlink lower shown path target s).1
        (symlink_in-table lower shown (split path) target s) there
  perform-kept handle id (mounted_at path system) s fresh unclosed there =
      let made = create_directory lower path s in
      kept_by_table handle id s (mount_at system made.0 made.1)
        (mount_at-table system made.0 made.1 ∙ create_directories-table lower (split path) root s)
        there
  perform-kept handle id (opened_at path systems) s fresh unclosed there =
      let found = resolve lower shown s.nodes path in
      open_node-kept handle id lower shown systems found.node (or_else [] found.rest) s fresh there
  perform-kept handle id (closed other) s fresh unclosed there =
      close_object-kept handle id other (get_object other s) s unclosed there
  perform-kept handle id (unlinked_at path) s fresh unclosed there =
      kept_by_table handle id s (unlink lower shown path s).1
        (unlink_parts-table lower shown (split path) s) there

  -- As long as it is not closed, a handle keeps the object that it was given for, and the object
  -- keeps at least one reference, whatever else is created, mounted, opened, closed or unlinked
  -- meanwhile, the object's own name included.
  pub get_object-perform_all :
      (handle id : ℕ) (requests : List Request) (s : ObjectManager)
      → IsCounted s
      → closes handle requests ≡ false
      → get_object handle s ≡ some id
      → (get_object handle (perform_all lower shown requests s) ≡ some id)
        × (1 ≤ ((perform_all lower shown requests s).nodes id).refs)
  unfolding perform_all closes
  get_object-perform_all handle id [] s c unclosed there = (
    there,
    subst (λ count. 1 ≤ count) (sym (c.counted id))
        (handles_of_entry handle id s.handle_table (there_in_table handle id s there)),
  )
  get_object-perform_all handle id (request ∷ requests) s c unclosed there =
      let not_this : is_close_of handle request ≡ false = ground (arith, unclosed) in
      let not_later : closes handle requests ≡ false = ground (arith, unclosed) in
      get_object-perform_all handle id requests (perform lower shown request s)
        (perform-IsCounted lower shown request s c) not_later
        (perform-kept handle id request s c.fresh not_this there)
