-- ===== src/Fs.antt =====
-- File systems: system32/ntos/fs.
pub mod MemoryFileSystem
