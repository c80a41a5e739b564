-- ===== src/Mm.antt =====
-- The memory manager (system32/ntos/mm).
pub mod MemoryMap
pub mod Pfn
pub mod VirtualMemory
