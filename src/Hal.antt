-- ===== src/Hal.antt =====
-- The hardware primitives that the JavaScript calls through `os.*`.
pub mod Memory
