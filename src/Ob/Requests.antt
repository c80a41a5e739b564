-- ===== src/Ob/Requests.antt =====
-- Sequences of calls of system32/ntos/ob/object-manager.js.
pub mod Counts
pub mod Walks
pub mod Operations
pub mod Tables
pub mod Kept
use windows_10_js.Prelude.{ℕ, List, [], ◌∷◌}
use windows_10_js.Prelude.TextMap.{Text}
use windows_10_js.Ob.Namespace.{ObjectManager, Payload}
use windows_10_js.Ob.Objects.{create_directory, create_object, create_symlink, mount, unlink}
use windows_10_js.Ob.Handles.{FileSystem, open_path, close}

-- A call of an exported function that changes the state.
pub data Request : Type 0 where
  directory_at : Text → Request
  object_at : (parent_path name type : Text) → Payload → Request
  symlink_at : (path target : Text) → Request
  mounted_at : Text → (system : ℕ) → Request
  opened_at : Text → (systems : ℕ → FileSystem) → Request
  closed : ℕ → Request
  unlinked_at : Text → Request

module _ (lower : Text → Text) (shown : ℕ → Text) where
  unfoldable pub perform : Request → ObjectManager → ObjectManager
  perform (directory_at path) s = (create_directory lower path s).1
  perform (object_at parent_path name type payload) s =
      (create_object lower shown parent_path name type payload s).1
  perform (symlink_at path target) s = (create_symlink lower shown path target s).1
  perform (mounted_at path system) s = (mount lower path system s).1
  perform (opened_at path systems) s = (open_path lower shown systems path s).1
  perform (closed handle) s = (close handle s).1
  perform (unlinked_at path) s = (unlink lower shown path s).1

  unfoldable pub perform_all : List Request → ObjectManager → ObjectManager
  unfolding perform
  perform_all [] s = s
  perform_all (request ∷ requests) s = perform_all requests (perform request s)
