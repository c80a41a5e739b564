-- ===== src/Drivers.antt =====
-- The drivers written in JavaScript (system32/drivers).
pub mod Vga
pub mod Keyboard
