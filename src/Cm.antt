-- ===== src/Cm.antt =====
-- The configuration manager: system32/ntos/cm.
pub mod Keys
pub mod Registry
