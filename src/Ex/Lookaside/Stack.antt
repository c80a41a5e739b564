-- ===== src/Ex/Lookaside/Stack.antt =====
-- The cached blocks of a lookaside list are a stack.
use windows_10_js.Prelude.{
  ℕ, ◌+◌, ◌%◌, ◌≡◌, ◌∙◌, ◌≢◌, ◌<◌, ◌≤◌, refl, sym, subst, false, some, List, [], ◌∷◌, arith, ◌==◌,
  leb,
}
use windows_10_js.Hal.Memory.{Memory, read16, read32, write32}
use windows_10_js.Hal.Memory.Cells.{Apart, read32-lt, read32-write32_same, read32-write32_outside}
use windows_10_js.Hal.Memory.Fields.{field_laws}
use windows_10_js.NtAbi.LookasideList
use windows_10_js.Win32.GuestHeap.{Heap}
use windows_10_js.Ex.Lookaside.{allocate, free, count_up}

-- From the block `p` on, the blocks are `bs`, none of them in the structure `list`.
unfoldable pub Chain : (list : ℕ) → Memory → ℕ → List ℕ → Type 0
Chain list m p [] = p ≡ 0
Chain list m p (b ∷ bs) = (p ≡ b) × (b ≢ 0) × Apart list 0x80 b 4 × Chain list m (read32 m b) bs

unfoldable pub IsCache : Memory → ℕ → List ℕ → Type 0
IsCache m list bs = Chain list m (read32 m (list + LookasideList.free_head)) bs

-- The first words of the blocks do not meet the word at `b`.
abbrev pub AllApart : ℕ → List ℕ → Type 0
AllApart b [] = Unit {0}
AllApart b (c ∷ cs) = Apart b 4 c 4 × AllApart b cs

Chain-outside :
    (list : ℕ) (m : Memory) (a v p : ℕ) (bs : List ℕ)
    → Chain list m p bs
    → AllApart a bs
    → Chain list (write32 m a v) p bs
unfolding Chain
Chain-outside list m a v p [] chain apart = chain
Chain-outside list m a v p (b ∷ bs) (at, nonzero, clear, rest) (here, apart) =
    rw (read32-write32_outside m a v b here)
      (at, nonzero, clear, Chain-outside list m a v (read32 m b) bs rest apart)

-- A field of the structure is apart from every block.
AllApart-field :
    (list : ℕ) (m : Memory) (i p : ℕ) (bs : List ℕ)
    → Chain list m p bs
    → i + 4 ≤ 0x80
    → AllApart (list + i) bs
unfolding Chain
AllApart-field list m i p [] chain h = tt
AllApart-field list m i p (b ∷ bs) (at, nonzero, clear, rest) h =
    (omega arith, AllApart-field list m i (read32 m b) bs rest h)

Chain-field :
    (list : ℕ) (m : Memory) (i v p : ℕ) (bs : List ℕ)
    → Chain list m p bs
    → i + 4 ≤ 0x80
    → Chain list (write32 m (list + i) v) p bs
Chain-field list m i v p bs chain h =
    Chain-outside list m (list + i) v p bs chain (AllApart-field list m i p bs chain h)

-- A block that `free` keeps goes on top of the stack.
free-IsCache :
    (list block : ℕ) (bs : List ℕ) (m : Memory)
    → IsCache m list bs
    → block ≢ 0
    → block < 0x1_0000_0000
    → Apart list 0x80 block 4
    → AllApart block bs
    → read32 m (list + LookasideList.alloc_count)
      < (read32 m (list + LookasideList.free_count) + 1) % 0x1_0000_0000
        + read16 m (list + LookasideList.depth)
    → IsCache (free list block m) list (block ∷ bs)
unfolding free IsCache Chain
free-IsCache list block bs m cache nonzero small clear apart few =
    let m1 = count_up list LookasideList.free_count m in
    let head = read32 m1 (list + LookasideList.free_head) in
    let m2 = write32 m1 block head in
    let m3 = write32 m2 (list + LookasideList.free_head) block in
    let counted : read32 m1 (list + LookasideList.free_count)
        ≡ (read32 m (list + LookasideList.free_count) + 1) % 0x1_0000_0000 =
      simp field_laws refl in
    let allocs : read32 m1 (list + LookasideList.alloc_count)
        ≡ read32 m (list + LookasideList.alloc_count) =
      simp field_laws refl in
    let depth : read16 m1 (list + LookasideList.depth) ≡ read16 m (list + LookasideList.depth) =
      simp field_laws refl in
    let head_kept : head ≡ read32 m (list + LookasideList.free_head) = simp field_laws refl in
    let keeps : leb
          (read32 m1 (list + LookasideList.free_count) + read16 m1 (list + LookasideList.depth))
          (read32 m1 (list + LookasideList.alloc_count))
        ≡ false =
      ground arith in
    let result : free list block m ≡ m3 = rw (keeps, free) refl in
    let top : read32 m3 (list + LookasideList.free_head) ≡ block =
      read32-write32_same m2 (list + LookasideList.free_head) block ∙ (omega arith) in
    let bound = read32-lt m1 (list + LookasideList.free_head) in
    let next : read32 m3 block ≡ head =
      read32-write32_outside m2 (list + LookasideList.free_head) block block (omega arith)
      ∙ read32-write32_same m1 block head
      ∙ (omega arith) in
    let chain1 = Chain-field list m LookasideList.free_count _ _ bs cache (omega arith) in
    let chain2 = Chain-outside list m1 block head _ bs chain1 apart in
    let chain3 = Chain-field list m2 LookasideList.free_head block _ bs chain2 (omega arith) in
    subst (λ mem. IsCache mem list (block ∷ bs)) (sym result)
      (top, nonzero, clear, rw (next, head_kept) chain3)

-- `allocate` takes the block on top.
allocate-IsCache :
    (arena fuel list b : ℕ) (bs : List ℕ) (h : Heap)
    → IsCache h.memory list (b ∷ bs)
    → b < 0x1_0000_0000
    → (m : Memory) × (allocate arena fuel list h ≡ some (b, record h { memory = m }))
      × IsCache m list bs
unfolding allocate IsCache Chain
allocate-IsCache arena fuel list b bs h (at, nonzero, clear, rest) small =
    let m1 = count_up list LookasideList.alloc_count h.memory in
    let m2 = write32 m1 (list + LookasideList.free_head) (read32 m1 b) in
    let there : (read32 h.memory (list + LookasideList.free_head) == 0) ≡ false = ground arith in
    let word : read32 m1 b ≡ read32 h.memory b =
      read32-write32_outside h.memory (list + LookasideList.alloc_count) _ b (omega arith) in
    let bound = read32-lt m1 b in
    let top : read32 m2 (list + LookasideList.free_head) ≡ read32 h.memory b =
      read32-write32_same m1 (list + LookasideList.free_head) (read32 m1 b) ∙ (omega arith) in
    let chain1 = Chain-field list h.memory LookasideList.alloc_count _ _ bs rest (omega arith) in
    let chain2 =
      Chain-field list m1 LookasideList.free_head (read32 m1 b) _ bs chain1 (omega arith) in
    (m2, rw (there, at) refl, rw top chain2)

-- A block that is given back while fewer than `depth` blocks are out, to a list whose structure and
-- cached blocks it does not overlap, is the block that the next allocation answers, without a call
-- of the heap, and the list then has the cached blocks that it had before.
pub free-allocate :
    (arena fuel list block : ℕ) (bs : List ℕ) (h : Heap)
    → IsCache h.memory list bs
    → block ≢ 0
    → block < 0x1_0000_0000
    → Apart list 0x80 block 4
    → AllApart block bs
    → read32 h.memory (list + LookasideList.alloc_count)
      < (read32 h.memory (list + LookasideList.free_count) + 1) % 0x1_0000_0000
        + read16 h.memory (list + LookasideList.depth)
    → (m : Memory) × (allocate arena fuel list (record h { memory = free list block h.memory })
        ≡ some (block, record h { memory = m }))
      × IsCache m list bs
free-allocate arena fuel list block bs h cache nonzero small clear apart few =
    allocate-IsCache arena fuel list block bs (record h { memory = free list block h.memory })
      (free-IsCache list block bs h.memory cache nonzero small clear apart few) small
