-- ===== src/Mm/MemoryMap.antt =====
-- system32/ntos/mm/memory-map.js: the constants that the modelled modules use.
use Prim.Native.Nat.{ℕ}

abbrev pub page_size : ℕ
page_size = 0x1000

abbrev pub pfn_base : ℕ
pfn_base = 0x600_0000

abbrev pub pfn_top : ℕ
pfn_top = 0x1000_0000

abbrev pub va_alloc_base : ℕ
va_alloc_base = 0x1000_0000

abbrev pub va_alloc_top : ℕ
va_alloc_top = 0x2000_0000
