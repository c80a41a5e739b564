-- ===== src/Win32/GuestHeap.antt =====
-- system32/win32/guest-memory.js: the allocator of guest memory, a list of blocks in an arena. A
-- block has a header of 16 bytes: its size at 0, the next block at 8, and whether it is free at 12.
pub mod Blocks
pub mod Sequence
pub mod OddSizes
use windows_10_js.Prelude.{
  ℕ, zero, suc, ◌+◌, ◌-◌, ◌*◌, ◌/◌, Bool, true, false, ◌&&◌, ◌||◌, not, Option, none, some, ◌==◌,
  ltb, leb, if◌then◌else◌,
}
use windows_10_js.Hal.Memory.{Memory, read32, write32}

abbrev pub arena_size : ℕ
arena_size = 0x100_0000

abbrev pub block_header_size : ℕ
block_header_size = 16

abbrev pub read_block_size : ℕ → Memory → ℕ
read_block_size address m = read32 m address

abbrev pub read_block_next : ℕ → Memory → ℕ
read_block_next address m = read32 m (address + 8)

abbrev pub read_block_free : ℕ → Memory → ℕ
read_block_free address m = read32 m (address + 12)

unfoldable pub write_block : (address size next free : ℕ) → Memory → Memory
write_block address size next free m =
    write32 (write32 (write32 m address size) (address + 8) next) (address + 12) free

pub record Heap : Type 0 where
  pub memory : Memory
  pub arena_base : ℕ
  pub heap_ready : Bool

-- `arena` is os.getGuestArenaBase().
unfoldable pub init_guest_heap : ℕ → Heap → Heap
unfolding write_block
init_guest_heap arena h = record {
  memory = write_block arena (arena_size - block_header_size) 0 1 h.memory;
  arena_base = arena;
  heap_ready = true;
}

-- `aligned` and `padding`, for an `align` that is a power of two: `& ~(align - 1)` rounds down to a
-- multiple of it at addresses below 2 ^ 31, as those of the arena are. A padding that has no room
-- for a block of its own grows by one `align`.
unfoldable pub align_data : (block align : ℕ) → ℕ × ℕ
align_data block align =
    let data_start = block + block_header_size in
    let aligned = (data_start + align - 1) / align * align in
    let padding = aligned - data_start in
    if ltb 0 padding && ltb padding (block_header_size + 16)
    then (aligned + align, padding + align)
    else (aligned, padding)

-- The padding becomes a free block when it has room for one, and the block after it is the one to
-- allocate.
unfoldable pub split_padding : (block aligned padding : ℕ) → Memory → ℕ × Memory
unfolding write_block
split_padding block aligned padding m =
    let available = read_block_size block m in
    let old_next = read_block_next block m in
    let rest = aligned - block_header_size in
    if leb (block_header_size + 16) padding
    then (
      rest,
      write_block rest (available - padding) old_next 1
          (write_block block (padding - block_header_size) rest 1 m),
    )
    else (block, m)

-- Marks the block as used; what it has beyond `size` becomes a free block if that has 16 bytes.
-- `remaining >= 16`, where `remaining` may be negative, is written as a sum.
unfoldable pub split_rest : (block size : ℕ) → Memory → Memory
unfolding write_block
split_rest block size m =
    let remaining = read_block_size block m - size - block_header_size in
    let next_block = block + block_header_size + size in
    if leb (size + block_header_size + 16) (read_block_size block m)
    then write_block block size next_block 0
        (write_block next_block (remaining - block_header_size) (read_block_next block m) 1 m)
    else write_block block (read_block_size block m) (read_block_next block m) 0 m

-- The loop that clears a block: `rounds` words from `address`.
unfoldable pub clear_words : (rounds address : ℕ) → Memory → Memory
clear_words zero address m = m
clear_words (suc n) address m = clear_words n (address + 4) (write32 m address 0)

-- The block's address is the first result of `split_padding`; the loop runs while `i < size`.
unfoldable pub allocate_block :
    (block aligned padding size : ℕ) → (clear : Bool) → Memory → ℕ × Memory
unfolding split_padding split_rest clear_words
allocate_block block aligned padding size clear m =
    let (block, m) = split_padding block aligned padding m in
    let m = split_rest block size m in
    let data_start = block + block_header_size in
    (data_start, if clear then clear_words ((size + 3) / 4) data_start m else m)

-- The search for the first block that fits, one fuel for each block; 0 if there is none.
unfoldable pub alloc_loop :
    (fuel block size align : ℕ) → (clear : Bool) → Memory → Option (ℕ × Memory)
unfolding align_data allocate_block
alloc_loop zero block size align clear m = none
alloc_loop (suc fuel) block size align clear m =
    let (aligned, padding) = align_data block align in
    let rest = alloc_loop fuel (read_block_next block m) size align clear m in
    if block == 0
    then some (0, m)
    else if (read_block_free block m == 0) || ltb (read_block_size block m) (padding + size)
    then rest
    else some (allocate_block block aligned padding size clear m)

unfoldable pub guest_alloc_aligned :
    (arena fuel size align : ℕ) → (clear : Bool) → Heap → Option (ℕ × Heap)
unfolding init_guest_heap alloc_loop
guest_alloc_aligned arena fuel size align clear h =
    let h = if h.heap_ready then h else init_guest_heap arena h in
    elim (alloc_loop fuel h.arena_base size align clear h.memory) [
      | none ↦ none
      | some (address, m) ↦ some (address, record h { memory = m })
    ]

unfoldable pub guest_alloc_page : (arena fuel : ℕ) → Heap → Option (ℕ × Heap)
unfolding guest_alloc_aligned
guest_alloc_page arena fuel h = guest_alloc_aligned arena fuel 0x1000 0x1000 true h

unfoldable pub guest_alloc_bytes : (arena fuel size : ℕ) → Heap → Option (ℕ × Heap)
unfolding guest_alloc_aligned
guest_alloc_bytes arena fuel size h = guest_alloc_aligned arena fuel size 16 true h

unfoldable pub guest_alloc_raw : (arena fuel size : ℕ) → Heap → Option (ℕ × Heap)
unfolding guest_alloc_aligned
guest_alloc_raw arena fuel size h = guest_alloc_aligned arena fuel size 16 false h

-- Frees a block and joins it to the next one if that is free and begins where the block ends.
unfoldable pub guest_free_bytes : ℕ → Memory → Memory
unfolding write_block
guest_free_bytes pointer m =
    let block = pointer - block_header_size in
    let freed = write32 m (block + 12) 1 in
    let next = read_block_next block freed in
    if pointer == 0
    then m
    else if not (next == 0)
        && not (read_block_free next freed == 0)
        && (block + block_header_size + read_block_size block freed == next)
    then write_block block
        (read_block_size block freed + block_header_size + read_block_size next freed)
        (read_block_next next freed) 1 freed
    else freed
