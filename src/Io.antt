-- ===== src/Io.antt =====
-- The I/O manager's queues (system32/ntos/io).
pub mod WorkItems
pub mod Controller
pub mod StartIo
