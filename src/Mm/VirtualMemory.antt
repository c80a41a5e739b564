-- ===== src/Mm/VirtualMemory.antt =====
-- system32/ntos/mm/virtual-memory.js: ranges of virtual pages, each page on a frame of its own. The
-- frames and the page tables (pfn.js, paging.js) are an interface.
pub mod Ranges
pub mod Histories
pub mod Layout
use windows_10_js.Prelude.{
  ℕ, zero, suc, ◌+◌, ◌-◌, ◌*◌, ◌/◌, Bool, true, false, Option, none, some, List, [], ◌∷◌, ◌++◌,
  ◌==◌, ltb, if◌then◌else◌,
}
use windows_10_js.Mm.MemoryMap.{page_size, va_alloc_base, va_alloc_top}

-- What the module calls, on a state `W`.
pub record Pages (W : Type 0) : Type 0 where
  pub alloc_page : W → ℕ × W
  pub free_page : ℕ → W → W
  pub map_page : (va pa flags : ℕ) → W → Bool × W
  pub unmap_page : ℕ → W → W
  pub translate : ℕ → W → ℕ

pub record VirtualMemory (W : Type 0) : Type 0 where
  pub next_free_va : ℕ
  pub free_ranges : List (ℕ × ℕ)
  pub world : W

abbrev pub initial : {W : Type 0} → W → VirtualMemory W
initial w = record { next_free_va = va_alloc_base; free_ranges = []; world = w }

-- PAGE_PRESENT | PAGE_RW
abbrev pub present_rw : ℕ
present_rw = 3

-- `Math.ceil(size / PAGE)`
abbrev pub pages_of : ℕ → ℕ
pages_of size = (size + 0xFFF) / page_size

-- `findIndex` and `splice`: the first range of just as many pages, and the others.
unfoldable pub take_exact : (pages : ℕ) → List (ℕ × ℕ) → Option (ℕ × List (ℕ × ℕ))
take_exact pages [] = none
take_exact pages (range ∷ ranges) =
    let later = elim (take_exact pages ranges) as (λ _. Option (ℕ × List (ℕ × ℕ))) [
      | none ↦ none
      | some (va, others) ↦ some (va, range ∷ others)
    ] in
    if range.1 == pages then some (range.0, ranges) else later

module _ {W : Type 0} where
  -- Where the pages go; `none` if there is no room.
  unfoldable pub place : (pages : ℕ) → VirtualMemory W → Option (ℕ × VirtualMemory W)
  unfolding take_exact
  place pages s = elim (take_exact pages s.free_ranges) [
    | some (va, others) ↦ some (va, record s { free_ranges = others })
    | none ↦
        if ltb va_alloc_top (s.next_free_va + pages * page_size)
        then none
        else some (s.next_free_va, record s { next_free_va = s.next_free_va + pages * page_size })
  ]

  -- `& ~0xFFF`
  unfoldable pub release_page : Pages W → ℕ → W → W
  release_page o va w = o.unmap_page va (o.free_page (o.translate va w / page_size * page_size) w)

  -- The pages from the `q`-th on.
  unfoldable pub undo : Pages W → (va q left : ℕ) → W → W
  unfolding release_page
  undo o va q zero w = w
  undo o va q (suc left) w = undo o va (suc q) left (release_page o (va + q * page_size) w)

  unfoldable pub map_pages : Pages W → (va p left : ℕ) → W → Bool × W
  unfolding undo
  map_pages o va p zero w = (true, w)
  map_pages o va p (suc left) w =
      let got = o.alloc_page w in
      let mapped = o.map_page (va + p * page_size) got.0 present_rw got.1 in
      let later = map_pages o va (suc p) left mapped.1 in
      if got.0 == 0
      then (false, undo o va 0 p got.1)
      else if mapped.0
      then later
      else (false, undo o va 0 p mapped.1)

  unfoldable pub alloc_at :
      Pages W → (pages : ℕ) → Option (ℕ × VirtualMemory W) → VirtualMemory W → ℕ × VirtualMemory W
  alloc_at o pages none s = (0, s)
  alloc_at o pages (some (va, s')) s =
      let mapped = map_pages o va 0 pages s'.world in
      (if mapped.0 then va else 0, record s' { world = mapped.1 })

  unfoldable pub alloc : Pages W → (size : ℕ) → VirtualMemory W → ℕ × VirtualMemory W
  alloc o size s = alloc_at o (pages_of size) (place (pages_of size) s) s

  unfoldable pub free_pages : Pages W → (va p left : ℕ) → W → W
  unfolding release_page
  free_pages o va p zero w = w
  free_pages o va p (suc left) w =
      let here = va + p * page_size in
      free_pages o va (suc p) left (if o.translate here w == 0 then w else release_page o here w)

  unfoldable pub free : Pages W → (va size : ℕ) → VirtualMemory W → VirtualMemory W
  free o va size s = record s {
    world = free_pages o va 0 (pages_of size) s.world;
    free_ranges = s.free_ranges ++ (va, pages_of size) ∷ [];
  }
