-- ===== src/Ex/Lookaside.antt =====
-- system32/ntos/ex/lookaside.js: lists of free blocks of one size over the guest heap. A free block
-- holds the next one's address in its first 4 bytes.
pub mod Stack
use windows_10_js.Prelude.{ℕ, zero, suc, ◌+◌, ◌/◌, Option, none, some, ◌==◌, leb, if◌then◌else◌}
use windows_10_js.Hal.Memory.{Memory, read16, read32, write16, write32}
use windows_10_js.NtAbi.LookasideList
use windows_10_js.Win32.GuestHeap.{Heap, clear_words, guest_alloc_bytes, guest_free_bytes}

-- The loop over the structure's words writes 0, as `clear_words` does.
unfoldable pub initialize : (list block_size tag depth : ℕ) → Memory → Memory
unfolding clear_words
initialize list block_size tag depth m =
    let m = clear_words (LookasideList.size / 4) list m in
    let m = write16 m (list + LookasideList.depth) (if depth == 0 then 4 else depth) in
    let m = write32 m (list + LookasideList.block_size) block_size in
    write32 m (list + LookasideList.tag) tag

abbrev pub count_up : (list offset : ℕ) → Memory → Memory
count_up list offset m = write32 m (list + offset) (read32 m (list + offset) + 1)

-- `arena` and `fuel` are for the search in the heap.
unfoldable pub allocate : (arena fuel list : ℕ) → Heap → Option (ℕ × Heap)
unfolding guest_alloc_bytes
allocate arena fuel list h =
    let free_head = read32 h.memory (list + LookasideList.free_head) in
    let m = count_up list LookasideList.alloc_count h.memory in
    if free_head == 0
    then guest_alloc_bytes arena fuel (read32 m (list + LookasideList.block_size))
        (record h { memory = m })
    else some (
      free_head,
      record h { memory = write32 m (list + LookasideList.free_head) (read32 m free_head) },
    )

-- `cachedCount >= depth` with a difference that may be negative is written as a sum.
unfoldable pub free : (list block : ℕ) → Memory → Memory
unfolding guest_free_bytes
free list block m =
    let m = count_up list LookasideList.free_count m in
    let depth = read16 m (list + LookasideList.depth) in
    let allocs = read32 m (list + LookasideList.alloc_count) in
    let frees = read32 m (list + LookasideList.free_count) in
    if leb (frees + depth) allocs
    then guest_free_bytes block m
    else write32 (write32 m block (read32 m (list + LookasideList.free_head)))
        (list + LookasideList.free_head) block

-- The loop of `deleteList` from the block `block` on, one fuel for each block.
unfoldable pub free_chain : (fuel block : ℕ) → Memory → Option Memory
unfolding guest_free_bytes
free_chain zero block m = none
free_chain (suc fuel) block m =
    let rest = free_chain fuel (read32 m block) (guest_free_bytes block m) in
    if block == 0 then some m else rest

unfoldable pub delete_list : (fuel list : ℕ) → Memory → Option Memory
unfolding free_chain
delete_list fuel list m = elim (free_chain fuel (read32 m (list + LookasideList.free_head)) m) [
  | none ↦ none
  | some m' ↦ some (write32 m' (list + LookasideList.free_head) 0)
]
