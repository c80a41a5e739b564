-- ===== src/Tests/MmTests.antt =====
-- The memory manager at concrete inputs.
use windows_10_js.Prelude.{◌≡◌, ◌≢◌, ◌⊎◌, arith}
use windows_10_js.Mm.Pfn.{init, alloc_page, free_count, take_first}
use windows_10_js.Mm.Pfn.Frames.{IsGiven, init-length, alloc_page-IsGiven}

alloc_page-IsGiven_example :
    ((free_count init ≡ 0) × (alloc_page init ≡ (0, init)))
    ⊎ IsGiven init (alloc_page init).0 (alloc_page init).1
alloc_page-IsGiven_example = alloc_page-IsGiven init init-length

first_frame : (alloc_page init).0 ≢ 0
unfolding alloc_page init take_first
first_frame = omega arith
