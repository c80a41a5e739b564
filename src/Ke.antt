-- ===== src/Ke.antt =====
-- The kernel core (system32/ntos/ke): interrupt levels, deferred calls, dispatcher objects.
pub mod Machine
pub mod Irql
pub mod Dpc
pub mod Timer
pub mod Dispatcher
pub mod FastMutex
