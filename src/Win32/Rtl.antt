-- ===== src/Win32/Rtl.antt =====
-- system32/win32/ntoskrnl/rtl.js: the exports Rtl*, Interlocked* and those of the C runtime.
pub mod BlockCopy
pub mod Interlocked
pub mod TimeFields
pub mod Version
pub mod Bitmap
pub mod CText
pub mod Numbers
pub mod Unicode
pub mod Format
