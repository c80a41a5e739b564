-- ===== src/Nano.antt =====
-- The nano kernel: system32/nano.
pub mod MessageChannels
