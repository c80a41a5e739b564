-- ===== src/Win32/GuestHeap/Blocks.antt =====
-- Blocks in memory, and one step of the search.
use windows_10_js.Prelude.{
  ℕ, zero, suc, ◌+◌, ◌-◌, ◌*◌, ◌/◌, ◌≡◌, ◌∙◌, ◌≢◌, ◌<◌, ◌≤◌, refl, Bool, true, false, some, arith,
  ltb, ◌==◌, ap,
}
use windows_10_js.Hal.Memory.{Memory, read32, write32}
use windows_10_js.Hal.Memory.Cells.{Apart, read32-write32_same, read32-write32_outside}
use windows_10_js.Win32.GuestHeap.{
  write_block, align_data, split_padding, split_rest, clear_words, allocate_block, alloc_loop,
}

pub record IsBlock (m : Memory) (b size next free : ℕ) : Type 0 where
  pub is_size : read32 m b ≡ size
  pub is_next : read32 m (b + 8) ≡ next
  pub is_free : read32 m (b + 12) ≡ free

pub write_block-IsBlock :
    (b size next free : ℕ) (m : Memory)
    → size < 0x1_0000_0000
    → next < 0x1_0000_0000
    → free < 0x1_0000_0000
    → IsBlock (write_block b size next free m) b size next free
unfolding write_block
write_block-IsBlock b size next free m hs hn hf =
    let m1 = write32 m b size in
    let m2 = write32 m1 (b + 8) next in
    record {
      is_size = ground (
        arith,
        read32-write32_outside m2 (b + 12) free b,
        read32-write32_outside m1 (b + 8) next b,
        read32-write32_same m b size,
      );
      is_next = ground (
        arith,
        read32-write32_outside m2 (b + 12) free (b + 8),
        read32-write32_same m1 (b + 8) next,
      );
      is_free = ground (arith, read32-write32_same m2 (b + 12) free);
    }

pub read32-write_block_outside :
    (b size next free : ℕ) (m : Memory) (a : ℕ)
    → Apart b 16 a 4
    → read32 (write_block b size next free m) a ≡ read32 m a
unfolding write_block
read32-write_block_outside b size next free m a h =
    let m1 = write32 m b size in
    let m2 = write32 m1 (b + 8) next in
    read32-write32_outside m2 (b + 12) free a (omega arith)
    ∙ read32-write32_outside m1 (b + 8) next a (omega arith)
    ∙ read32-write32_outside m b size a (omega arith)

pub read32-clear_words_outside :
    (n p : ℕ) (m : Memory) (a : ℕ) → Apart p (n * 4) a 4 → read32 (clear_words n p m) a ≡ read32 m a
unfolding clear_words
read32-clear_words_outside zero p m a h = refl
read32-clear_words_outside (suc n) p m a h =
    read32-clear_words_outside n (p + 4) (write32 m p 0) a (omega arith)
    ∙ read32-write32_outside m p 0 a (omega arith)

-- For alignment to 16 bytes the padding never has room for a block of its own.
pub align_data-padding : (b : ℕ) → (align_data b 16).1 < 32
unfolding align_data
align_data-padding b = ground arith

-- What the search makes of a free block at `b` with `avail` bytes, for a request of `n`.
abbrev pub carved : (b avail next n : ℕ) → Memory → Memory
carved b avail next n m =
    write_block b n (b + 16 + n) 0 (write_block (b + 16 + n) (avail - n - 16 - 16) next 1 m)

split_rest-carved :
    (b avail next n : ℕ) (m : Memory)
    → IsBlock m b avail next 1
    → n + 32 ≤ avail
    → split_rest b n m ≡ carved b avail next n m
unfolding split_rest
split_rest-carved b avail next n m block h = rw (block.is_size, block.is_next) (ground arith)

allocate_block-carved :
    (b avail next n aligned padding : ℕ) (m : Memory)
    → IsBlock m b avail next 1
    → n + 32 ≤ avail
    → padding < 32
    → allocate_block b aligned padding n true m
      ≡ (b + 16, clear_words ((n + 3) / 4) (b + 16) (carved b avail next n m))
unfolding allocate_block split_padding
allocate_block-carved b avail next n aligned padding m block h small =
    let fact = split_rest-carved b avail next n m block h in ground arith

-- A free block with room is taken where it stands.
pub alloc_loop-here :
    (fuel b avail next n : ℕ) (m : Memory)
    → IsBlock m b avail next 1
    → b ≢ 0
    → n + 32 ≤ avail
    → alloc_loop (suc fuel) b n 16 true m
      ≡ some (b + 16, clear_words ((n + 3) / 4) (b + 16) (carved b avail next n m))
unfolding alloc_loop allocate_block split_padding split_rest align_data write_block
alloc_loop-here fuel b avail next n m block nonzero h =
    let small = align_data-padding b in
    let fact =
      allocate_block-carved b avail next n (align_data b 16).0 (align_data b 16).1 m block h
        small in
    let usable : (read32 m (b + 12) == 0) ≡ false = rw block.is_free refl in
    let fits : ltb (read32 m b) ((align_data b 16).1 + n) ≡ false =
      rw block.is_size (ground arith) in
    let there : (b == 0) ≡ false = ground arith in rw (there, usable, fits) (ap some fact)

-- A used block is passed over.
pub alloc_loop-skip :
    (fuel b s next n align : ℕ) (clear : Bool) (m : Memory)
    → IsBlock m b s next 0
    → b ≢ 0
    → alloc_loop (suc fuel) b n align clear m ≡ alloc_loop fuel next n align clear m
unfolding alloc_loop
alloc_loop-skip fuel b s next n align clear m block nonzero =
    rw (block.is_next, block.is_free) (ground arith)

-- A free block of size 0 is passed over.
pub alloc_loop-empty :
    (fuel b next n : ℕ) (m : Memory)
    → IsBlock m b 0 next 1
    → b ≢ 0
    → 0 < n
    → alloc_loop (suc fuel) b n 16 true m ≡ alloc_loop fuel next n 16 true m
unfolding alloc_loop
alloc_loop-empty fuel b next n m block nonzero h =
    let small : ltb (read32 m b) ((align_data b 16).1 + n) ≡ true =
      rw block.is_size (ground arith) in
    let usable : (read32 m (b + 12) == 0) ≡ false = rw block.is_free refl in
    let there : (b == 0) ≡ false = ground arith in rw (there, usable, small, block.is_next) refl

-- The end of the list: no memory.
pub alloc_loop-end :
    (fuel n align : ℕ) (clear : Bool) (m : Memory)
    → alloc_loop (suc fuel) 0 n align clear m ≡ some (0, m)
unfolding alloc_loop
alloc_loop-end fuel n align clear m = refl
