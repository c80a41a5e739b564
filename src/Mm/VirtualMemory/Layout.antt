-- ===== src/Mm/VirtualMemory/Layout.antt =====
-- system32/ntos/mm/virtual-memory.js: the ranges that are given out do not overlap.
use windows_10_js.Prelude.{
  ℕ, ◌*◌, ◌≡◌, sym, subst, inl, inr, false, Option, some, List, [], ◌∷◌, ◌++◌, ◌==◌, if◌then◌else◌,
  Bool-cases, Option-cases, arith,
}
use windows_10_js.Mm.MemoryMap.{page_size}
use windows_10_js.Mm.VirtualMemory.{
  Pages, VirtualMemory, initial, place, map_pages, alloc_at, alloc, free, pages_of,
}
use windows_10_js.Mm.VirtualMemory.Ranges.{
  AreAcross-append, AreAcross-one, AreApart-append, AreInside-append,
}
use windows_10_js.Mm.VirtualMemory.Histories.{
  Call, allocates, gives_back, pick, IsLaidOut, pick-IsPicked, free_picked, perform, perform_all,
  place-IsLaidOut,
}

forget-IsLaidOut :
    (r : ℕ × ℕ) (out ranges : List (ℕ × ℕ)) (next : ℕ)
    → IsLaidOut (r ∷ out) ranges next
    → IsLaidOut out ranges next
forget-IsLaidOut r out ranges next l = record {
  low = l.low;
  high = l.high;
  out_inside = l.out_inside.2;
  free_inside = l.free_inside;
  out_apart = l.out_apart.1;
  free_apart = l.free_apart;
  across = l.across.1;
}

module _ {W : Type 0} (o : Pages W) where
  alloc_at-IsLaidOut :
      (pages : ℕ) (out : List (ℕ × ℕ)) (s : VirtualMemory W) (placed : ℕ × VirtualMemory W)
      → IsLaidOut ((placed.0, pages) ∷ out) placed.1.free_ranges placed.1.next_free_va
      → IsLaidOut
          (if (alloc_at o pages (some placed) s).0 == 0
            then out
            else ((alloc_at o pages (some placed) s).0, pages) ∷ out)
          (alloc_at o pages (some placed) s).1.free_ranges
          (alloc_at o pages (some placed) s).1.next_free_va
  unfolding alloc_at
  alloc_at-IsLaidOut pages out s placed l =
      let low = l.out_inside.0 in
      let somewhere : (placed.0 == 0) ≡ false = ground (arith, low) in
      elim (Bool-cases (map_pages o placed.0 0 pages placed.1.world).0) [
        | inl mapped ↦ rw (mapped, somewhere) l
        | inr refused ↦
            rw refused
              (forget-IsLaidOut (placed.0, pages) out placed.1.free_ranges placed.1.next_free_va l)
      ]

  alloc-IsLaidOut :
      (size : ℕ) (out : List (ℕ × ℕ)) (s : VirtualMemory W)
      → IsLaidOut out s.free_ranges s.next_free_va
      → IsLaidOut
          (perform o (allocates size) out s).0
          (perform o (allocates size) out s).1.free_ranges
          (perform o (allocates size) out s).1.next_free_va
  unfolding perform alloc alloc_at
  alloc-IsLaidOut size out s l =
      let pages = pages_of size in
      let after = λ (at : Option (ℕ × VirtualMemory W)).
        IsLaidOut
          (if (alloc_at o pages at s).0 == 0 then out else ((alloc_at o pages at s).0, pages) ∷ out)
          (alloc_at o pages at s).1.free_ranges (alloc_at o pages at s).1.next_free_va in
      elim (Option-cases (place pages s)) [
        | inl full ↦ subst after (sym full) l
        | inr (placed, found) ↦
            subst after (sym found)
              (alloc_at-IsLaidOut pages out s placed (place-IsLaidOut pages out s placed found l))
      ]

  free-IsLaidOut :
      (i : ℕ) (out : List (ℕ × ℕ)) (s : VirtualMemory W)
      → IsLaidOut out s.free_ranges s.next_free_va
      → IsLaidOut
          (perform o (gives_back i) out s).0
          (perform o (gives_back i) out s).1.free_ranges
          (perform o (gives_back i) out s).1.next_free_va
  unfolding perform free_picked free
  free-IsLaidOut i out s l =
      let after = λ (at : Option ((ℕ × ℕ) × List (ℕ × ℕ))).
        IsLaidOut (free_picked o at out s).0 (free_picked o at out s).1.free_ranges
          (free_picked o at out s).1.next_free_va in
      elim (Option-cases (pick i out)) [
        | inl nothing ↦ subst after (sym nothing) l
        | inr (picked, found) ↦
            let p =
              pick-IsPicked i s.next_free_va s.free_ranges out picked found l.out_apart l.out_inside
                l.across in
            let (r, others) = picked in
            let whole : pages_of (r.1 * page_size) ≡ r.1 = omega arith in
            subst after (sym found) (
              subst (λ n. IsLaidOut others (s.free_ranges ++ (r.0, n) ∷ []) s.next_free_va)
                (sym whole)
                (record {
                  low = l.low;
                  high = l.high;
                  out_inside = p.inside;
                  free_inside =
                      AreInside-append s.next_free_va s.free_ranges (r ∷ []) l.free_inside
                        (p.low, p.high, tt);
                  out_apart = p.apart;
                  free_apart = AreApart-append s.free_ranges r l.free_apart p.from_free;
                  across =
                      AreAcross-append others s.free_ranges (r ∷ []) p.across
                        (AreAcross-one r others p.from_others);
                }))
      ]

  perform_all-IsLaidOut :
      (calls : List Call) (out : List (ℕ × ℕ)) (s : VirtualMemory W)
      → IsLaidOut out s.free_ranges s.next_free_va
      → IsLaidOut
          (perform_all o calls out s).0
          (perform_all o calls out s).1.free_ranges
          (perform_all o calls out s).1.next_free_va
  unfolding perform_all
  perform_all-IsLaidOut [] out s l = l
  perform_all-IsLaidOut (allocates size ∷ calls) out s l =
      perform_all-IsLaidOut calls (perform o (allocates size) out s).0
        (perform o (allocates size) out s).1 (alloc-IsLaidOut size out s l)
  perform_all-IsLaidOut (gives_back i ∷ calls) out s l =
      perform_all-IsLaidOut calls (perform o (gives_back i) out s).0
        (perform o (gives_back i) out s).1 (free-IsLaidOut i out s l)

  -- Whatever is allocated and given back, in whatever order, with any frames and page tables, where
  -- each range that is given back is one that is out, with its size in whole pages: the ranges that
  -- are out and the free ones overlap one another nowhere, and lie between 256 MB and the next
  -- address that was never used, which is not above 512 MB.
  pub calls-IsLaidOut :
      (calls : List Call) (w : W)
      → IsLaidOut
          (perform_all o calls [] (initial w)).0
          (perform_all o calls [] (initial w)).1.free_ranges
          (perform_all o calls [] (initial w)).1.next_free_va
  calls-IsLaidOut calls w = perform_all-IsLaidOut calls [] (initial w) (record {
    low = omega arith;
    high = omega arith;
    out_inside = tt;
    free_inside = tt;
    out_apart = tt;
    free_apart = tt;
    across = tt;
  })
