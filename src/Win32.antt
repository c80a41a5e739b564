-- ===== src/Win32.antt =====
-- system32/win32: what the native drivers see of the kernel.
pub mod GuestHeap
pub mod GuestStrings
pub mod Rtl
pub mod Ex
