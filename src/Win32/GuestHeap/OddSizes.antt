-- ===== src/Win32/GuestHeap/OddSizes.antt =====
-- Requests of sizes that are no multiple of 4: the loop that clears the block writes whole words,
-- and the last one reaches into the header of the next block.
use windows_10_js.Prelude.{
  ℕ, zero, suc, ◌+◌, ◌-◌, ◌*◌, ◌/◌, ◌%◌, ◌≡◌, ◌∙◌, ◌<◌, ◌≤◌, refl, true, false, some, [], ◌∷◌,
  arith, ◌⊎◌, inl, inr,
}
use windows_10_js.Hal.Memory.{Memory, read8, read16, read32, write8, write16, write32}
use windows_10_js.Hal.Memory.Cells.{read8-write32_outside}
use windows_10_js.Win32.GuestHeap.{
  arena_size, write_block, init_guest_heap, clear_words, guest_alloc_aligned, guest_alloc_bytes,
}
use windows_10_js.Win32.GuestHeap.Blocks.{
  IsBlock, write_block-IsBlock, read32-write_block_outside, read32-clear_words_outside,
  alloc_loop-here, alloc_loop-skip, alloc_loop-empty, alloc_loop-end,
}
use windows_10_js.Win32.GuestHeap.Sequence.{alloc_all, allocated}

read8-write32_zero : (m : Memory) (a b : ℕ) → a ≤ b → b < a + 4 → read8 (write32 m a 0) b ≡ 0
unfolding read8 write8 write16 write32
read8-write32_zero m a b low high = ground arith

read8-clear_words_outside :
    (n p : ℕ) (m : Memory) (b : ℕ)
    → (b < p) ⊎ (p + n * 4 ≤ b)
    → read8 (clear_words n p m) b ≡ read8 m b
unfolding clear_words
read8-clear_words_outside zero p m b h = refl
read8-clear_words_outside (suc n) p m b h =
    read8-clear_words_outside n (p + 4) (write32 m p 0) b (omega arith)
    ∙ read8-write32_outside m p 0 b (omega arith)

-- Every byte of the words is 0 afterwards.
read8-clear_words :
    (n p : ℕ) (m : Memory) (b : ℕ) → p ≤ b → b < p + n * 4 → read8 (clear_words n p m) b ≡ 0
unfolding clear_words
read8-clear_words zero p m b low high = omega arith
read8-clear_words (suc n) p m b low high = elim (side b (p + 4)) [
  | inl before ↦
      read8-clear_words_outside n (p + 4) (write32 m p 0) b (inl before)
      ∙ read8-write32_zero m p b low before
  | inr after ↦ read8-clear_words n (p + 4) (write32 m p 0) b after (omega arith)
]
  where
    side : (x y : ℕ) → (x < y) ⊎ (y ≤ x)
    side x y = omega arith

-- A word of less than 2 ^ 24 is 0 once its three low bytes are.
read32-low_bytes :
    (m m' : Memory) (a : ℕ)
    → read32 m a < 0x100_0000
    → read8 m' a ≡ 0
    → read8 m' (a + 1) ≡ 0
    → read8 m' (a + 2) ≡ 0
    → read8 m' (a + 2 + 1) ≡ read8 m (a + 2 + 1)
    → read32 m' a ≡ 0
unfolding read32 read16 read8
read32-low_bytes m m' a h h0 h1 h2 h3 = omega arith

-- The header behind a block of `n` bytes at `e`, with n % 4 = 1, after it is cleared.
next_header :
    (e avail n : ℕ) (m : Memory)
    → n % 4 ≡ 1
    → n + 32 ≤ avail
    → avail < 0x100_0000
    → IsBlock (allocated e avail n m) (e + 16 + n) 0 0 1
next_header e avail n m odd fits bound =
    let m1 = write_block (e + 16 + n) (avail - n - 16 - 16) 0 1 m in
    let m2 = write_block e n (e + 16 + n) 0 m1 in
    let cleared = read8-clear_words ((n + 3) / 4) (e + 16) m2 in
    let header =
      write_block-IsBlock (e + 16 + n) (avail - n - 16 - 16) 0 1 m (omega arith) (omega arith)
        (omega arith) in
    let same =
      λ (a : ℕ) (h : e + 16 ≤ a). read32-write_block_outside e n (e + 16 + n) 0 m1 a (inl h) in
    let size = same (e + 16 + n) (omega arith) ∙ header.is_size in
    record {
      is_size =
          read32-low_bytes m2 (clear_words ((n + 3) / 4) (e + 16) m2) (e + 16 + n) (omega arith)
            (cleared (e + 16 + n) (omega arith) (omega arith))
            (cleared (e + 16 + n + 1) (omega arith) (omega arith))
            (cleared (e + 16 + n + 2) (omega arith) (omega arith))
            (read8-clear_words_outside ((n + 3) / 4) (e + 16) m2 (e + 16 + n + 2 + 1)
              (omega arith));
      is_next =
          read32-clear_words_outside ((n + 3) / 4) (e + 16) m2 (e + 16 + n + 8) (omega arith)
          ∙ same (e + 16 + n + 8) (omega arith)
          ∙ header.is_next;
      is_free =
          read32-clear_words_outside ((n + 3) / 4) (e + 16) m2 (e + 16 + n + 12) (omega arith)
          ∙ same (e + 16 + n + 12) (omega arith)
          ∙ header.is_free;
    }

own_header :
    (e avail n : ℕ) (m : Memory)
    → e + 16 + n < 0x1_0000_0000
    → IsBlock (allocated e avail n m) e n (e + 16 + n) 0
own_header e avail n m bound =
    let m1 = write_block (e + 16 + n) (avail - n - 16 - 16) 0 1 m in
    let m2 = write_block e n (e + 16 + n) 0 m1 in
    let header = write_block-IsBlock e n (e + 16 + n) 0 m1 (omega arith) bound (omega arith) in
    let same = λ (a : ℕ) (h : a + 4 ≤ e + 16).
      read32-clear_words_outside ((n + 3) / 4) (e + 16) m2 a (inr h) in
    record {
      is_size = same e (omega arith) ∙ header.is_size;
      is_next = same (e + 8) (omega arith) ∙ header.is_next;
      is_free = same (e + 12) (omega arith) ∙ header.is_free;
    }

-- From an arena that is not in use yet, in whatever state its memory is: after one request of a
-- size that is 1 more than a multiple of 4 and for which there is room, the next request, of any
-- size but 0, is answered with 0 (no memory); three rounds of the search are enough fuel.
pub alloc_all-exhausted :
    (arena fuel base n k : ℕ) (m : Memory)
    → 0 < arena
    → arena + arena_size < 0x1_0000_0000
    → n % 4 ≡ 1
    → n + 48 ≤ arena_size
    → 0 < k
    → alloc_all arena
        (suc (suc (suc fuel)))
        (n ∷ k ∷ [])
        (record { memory = m; arena_base = base; heap_ready = false })
      ≡ some ((arena + 16) ∷ 0 ∷ [])
unfolding alloc_all guest_alloc_bytes guest_alloc_aligned init_guest_heap
alloc_all-exhausted arena fuel base n k m pos bound odd fits some_bytes =
    let m0 = write_block arena (arena_size - 16) 0 1 m in
    let m1 = allocated arena (arena_size - 16) n m0 in
    let first =
      alloc_loop-here (suc (suc fuel)) arena (arena_size - 16) 0 n m0
        (write_block-IsBlock arena (arena_size - 16) 0 1 m (omega arith) (omega arith)
          (omega arith))
        (omega arith) (omega arith) in
    let second =
      alloc_loop-skip (suc (suc fuel)) arena n (arena + 16 + n) k 16 true m1
        (own_header arena (arena_size - 16) n m0 (omega arith)) (omega arith)
      ∙ alloc_loop-empty (suc fuel) (arena + 16 + n) 0 k m1
          (next_header arena (arena_size - 16) n m0 odd (omega arith) (omega arith)) (omega arith)
          some_bytes
      ∙ alloc_loop-end fuel k 16 true m1 in
    rw (alloc_all, guest_alloc_aligned, first, second) refl
