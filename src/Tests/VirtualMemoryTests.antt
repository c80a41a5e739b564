-- ===== src/Tests/VirtualMemoryTests.antt =====
-- Virtual ranges over frames that are numbered from 1 and page tables that are not looked at.
use windows_10_js.Prelude.{ℕ, suc, ◌≡◌, refl, true, List, [], ◌∷◌}
use windows_10_js.Mm.VirtualMemory.{
  Pages, initial, place, take_exact, map_pages, alloc_at, alloc, free, free_pages, release_page,
}
use windows_10_js.Mm.VirtualMemory.Histories.{
  Call, allocates, gives_back, pick, IsLaidOut, free_picked, perform, perform_all,
}
use windows_10_js.Mm.VirtualMemory.Layout.{calls-IsLaidOut}

abbrev counted_frames : Pages ℕ
counted_frames = record {
  alloc_page = λ w. (suc w, suc w);
  free_page = λ pa w. w;
  map_page = λ va pa flags w. (true, w);
  unmap_page = λ va w. w;
  translate = λ va w. 0x1000;
}

abbrev some_calls : List Call
some_calls = allocates 0x1800 ∷ allocates 1 ∷ gives_back 1 ∷ allocates 0x2000 ∷ []

calls-IsLaidOut_example :
    IsLaidOut
      (perform_all counted_frames some_calls [] (initial 0)).0
      (perform_all counted_frames some_calls [] (initial 0)).1.free_ranges
      (perform_all counted_frames some_calls [] (initial 0)).1.next_free_va
calls-IsLaidOut_example = calls-IsLaidOut counted_frames some_calls 0

-- The range of two pages is used again.
reused_ranges :
    (perform_all counted_frames some_calls [] (initial 0)).0
    ≡ (0x1000_0000, 2) ∷ (0x1000_2000, 1) ∷ []
unfolding perform_all perform alloc alloc_at place take_exact map_pages pick free_picked free
    free_pages release_page
reused_ranges = refl
