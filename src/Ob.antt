-- ===== src/Ob.antt =====
-- The object manager: system32/ntos/ob/object-manager.js.
pub mod Namespace
pub mod Objects
pub mod Paths
pub mod Handles
pub mod Requests
pub mod Walks
pub mod Creation
