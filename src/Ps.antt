-- ===== src/Ps.antt =====
-- Processes and threads: system32/ntos/ps.
pub mod Process
pub mod Scheduler
