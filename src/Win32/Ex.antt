-- ===== src/Win32/Ex.antt =====
-- system32/win32/ntoskrnl/ex.js: exports of the executive to native drivers.
pub mod Rundown
pub mod Slist
