-- ===== src/Tests/Win32Tests.antt =====
-- The allocator of guest memory on small inputs.
use windows_10_js.Prelude.{◌≡◌, refl, false, [], ◌∷◌, some, arith}
use windows_10_js.Win32.GuestHeap.{Heap}
use windows_10_js.Win32.GuestHeap.Sequence.{alloc_all, side_by_side, room, alloc_all-side_by_side}
use windows_10_js.Win32.GuestHeap.OddSizes.{alloc_all-exhausted}
use windows_10_js.Tests.Sample.{zeros}

abbrev fresh : Heap
fresh = record { memory = zeros; arena_base = 0; heap_ready = false }

-- Two events and a page: the second block is not aligned to 16 bytes.
alloc_all-side_by_side_example :
    alloc_all 0x10_0000 3 (0x18 ∷ 0x18 ∷ 0x1000 ∷ []) fresh
    ≡ some (side_by_side 0x10_0000 (0x18 ∷ 0x18 ∷ 0x1000 ∷ []))
unfolding room
alloc_all-side_by_side_example =
    alloc_all-side_by_side 0x10_0000 3 0 (0x18 ∷ 0x18 ∷ 0x1000 ∷ []) zeros (omega arith)
      (omega arith) (refl, (refl, (refl, tt))) (omega arith) (omega arith)

second_block : side_by_side 0x10_0000 (0x18 ∷ 0x18 ∷ []) ≡ 0x10_0010 ∷ 0x10_0038 ∷ []
unfolding side_by_side
second_block = refl

alloc_all-exhausted_example :
    alloc_all 0x10_0000 3 (5 ∷ 0x18 ∷ []) fresh ≡ some (0x10_0010 ∷ 0 ∷ [])
alloc_all-exhausted_example =
    alloc_all-exhausted 0x10_0000 0 0 5 0x18 zeros (omega arith) (omega arith) refl (omega arith)
      (omega arith)
