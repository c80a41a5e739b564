-- ===== src/Tests/LookasideTests.antt =====
-- Lookaside lists at concrete inputs.
use windows_10_js.Prelude.{◌≡◌, refl, true, [], ◌∷◌, some, arith}
use windows_10_js.Hal.Memory.{Memory, read32, write16, write32}
use windows_10_js.Win32.GuestHeap.{Heap}
use windows_10_js.Ex.Lookaside.{allocate, free}
use windows_10_js.Ex.Lookaside.Stack.{IsCache, Chain, free-allocate}
use windows_10_js.Tests.Sample.{zeros}

-- A list of depth 4 at 0x1000 that has one block cached.
abbrev one_cached : Heap
one_cached = record {
  memory = write32 (write16 zeros 0x1010 4) 0x1028 0x3000;
  arena_base = 0x10_0000;
  heap_ready = true;
}

free-allocate_example :
    (m : Memory) × (allocate 0x10_0000 0 0x1000
        (record one_cached { memory = free 0x1000 0x2000 one_cached.memory })
      ≡ some (0x2000, record one_cached { memory = m }))
    × IsCache m 0x1000 (0x3000 ∷ [])
unfolding IsCache Chain read32 write32
free-allocate_example =
    free-allocate 0x10_0000 0 0x1000 0x2000 (0x3000 ∷ []) one_cached
      (refl, (omega arith), omega arith, refl) (omega arith) (omega arith) (omega arith)
      (omega arith, tt) (omega arith)
