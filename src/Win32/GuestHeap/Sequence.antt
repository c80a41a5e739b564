-- ===== src/Win32/GuestHeap/Sequence.antt =====
-- A sequence of allocations from an arena.
use windows_10_js.Prelude.{
  ℕ, suc, ◌+◌, ◌-◌, ◌/◌, ◌%◌, ◌≡◌, ◌∙◌, ◌<◌, ◌≤◌, refl, subst, ap, true, false, Option, none, some,
  List, [], ◌∷◌, length, ◌++◌, arith, length-append,
}
use windows_10_js.Hal.Memory.{Memory, read32}
use windows_10_js.Win32.GuestHeap.{
  Heap, arena_size, write_block, init_guest_heap, clear_words, alloc_loop, guest_alloc_aligned,
  guest_alloc_bytes,
}
use windows_10_js.Win32.GuestHeap.Blocks.{
  IsBlock, write_block-IsBlock, read32-write_block_outside, read32-clear_words_outside, carved,
  alloc_loop-here, alloc_loop-skip,
}

-- The blocks of the sizes `ss` follow one another from `b` to `e`, all used.
Used : Memory → ℕ → List ℕ → ℕ → Type 0
Used m b [] e = b ≡ e
Used m b (s ∷ ss) e = IsBlock m b s (b + 16 + s) 0 × Used m (b + 16 + s) ss e

Used-le : (m : Memory) (b : ℕ) (ss : List ℕ) (e : ℕ) → Used m b ss e → b ≤ e
unfolding Used
Used-le m b [] e u = omega arith
Used-le m b (s ∷ ss) e (block, u) = let rest = Used-le m (b + 16 + s) ss e u in omega arith

IsBlock-keep :
    (m m' : Memory) (b size next free : ℕ)
    → IsBlock m b size next free
    → ((a : ℕ) → b ≤ a → a + 4 ≤ b + 16 → read32 m' a ≡ read32 m a)
    → IsBlock m' b size next free
IsBlock-keep m m' b size next free block same = record {
  is_size = same b (omega arith) (omega arith) ∙ block.is_size;
  is_next = same (b + 8) (omega arith) (omega arith) ∙ block.is_next;
  is_free = same (b + 12) (omega arith) (omega arith) ∙ block.is_free;
}

Used-keep :
    (m m' : Memory) (b : ℕ) (ss : List ℕ) (e : ℕ)
    → Used m b ss e
    → ((a : ℕ) → a + 4 ≤ e → read32 m' a ≡ read32 m a)
    → Used m' b ss e
unfolding Used
Used-keep m m' b [] e u same = u
Used-keep m m' b (s ∷ ss) e (block, u) same =
    let le = Used-le m (b + 16 + s) ss e u in
    (
      IsBlock-keep m m' b s (b + 16 + s) 0 block (λ a _ high. same a (omega arith)),
      Used-keep m m' (b + 16 + s) ss e u same,
    )

Used-append :
    (m : Memory) (b : ℕ) (ss : List ℕ) (e n : ℕ)
    → Used m b ss e
    → IsBlock m e n (e + 16 + n) 0
    → Used m b (ss ++ n ∷ []) (e + 16 + n)
unfolding Used
Used-append m b [] e n u block = rw u (block, refl)
Used-append m b (s ∷ ss) e n (first, u) block = (first, Used-append m (b + 16 + s) ss e n u block)

-- The search passes the used blocks.
alloc_loop-walk :
    (m : Memory) (b : ℕ) (ss : List ℕ) (e n fuel : ℕ)
    → Used m b ss e
    → 0 < b
    → alloc_loop (length ss + fuel) b n 16 true m ≡ alloc_loop fuel e n 16 true m
unfolding Used
alloc_loop-walk m b [] e n fuel u h =
    let none_left : 0 + fuel ≡ fuel = omega arith in rw (u, none_left) refl
alloc_loop-walk m b (s ∷ ss) e n fuel (block, u) h =
    let one_more : suc (length ss) + fuel ≡ suc (length ss + fuel) = omega arith in
    ap (λ f. alloc_loop f b n 16 true m) one_more
    ∙ alloc_loop-skip (length ss + fuel) b s (b + 16 + s) n 16 true m block (omega arith)
    ∙ alloc_loop-walk m (b + 16 + s) ss e n fuel u (omega arith)

-- Used blocks up to `e`, and one free block there that ends the list.
record IsArena (m : Memory) (b : ℕ) (ss : List ℕ) (e avail : ℕ) : Type 0 where
  used : Used m b ss e
  tail : IsBlock m e avail 0 1

abbrev pub allocated : (e avail n : ℕ) → Memory → Memory
allocated e avail n m = clear_words ((n + 3) / 4) (e + 16) (carved e avail 0 n m)

pub allocated-outside :
    (e avail n : ℕ) (m : Memory) (a : ℕ)
    → n % 4 ≡ 0
    → a + 4 ≤ e
    → read32 (allocated e avail n m) a ≡ read32 m a
allocated-outside e avail n m a word h =
    read32-clear_words_outside ((n + 3) / 4) (e + 16) (carved e avail 0 n m) a (omega arith)
    ∙ read32-write_block_outside e n (e + 16 + n) 0 _ a (omega arith)
    ∙ read32-write_block_outside (e + 16 + n) (avail - n - 16 - 16) 0 1 m a (omega arith)

allocated-IsArena :
    (m : Memory) (b : ℕ) (ss : List ℕ) (e avail n : ℕ)
    → IsArena m b ss e avail
    → n % 4 ≡ 0
    → n + 32 ≤ avail
    → e + 16 + avail < 0x1_0000_0000
    → IsArena (allocated e avail n m) b (ss ++ n ∷ []) (e + 16 + n) (avail - n - 16 - 16)
allocated-IsArena m b ss e avail n arena word fits bound =
    let m1 = write_block (e + 16 + n) (avail - n - 16 - 16) 0 1 m in
    let m2 = write_block e n (e + 16 + n) 0 m1 in
    let m3 = clear_words ((n + 3) / 4) (e + 16) m2 in
    let head =
      write_block-IsBlock e n (e + 16 + n) 0 m1 (omega arith) (omega arith) (omega arith) in
    let rest : IsBlock m1 (e + 16 + n) (avail - n - 16 - 16) 0 1 =
      write_block-IsBlock (e + 16 + n) (avail - n - 16 - 16) 0 1 m (omega arith) (omega arith)
        (omega arith) in
    record {
      used =
          Used-append m3 b ss e n
            (Used-keep m m3 b ss e arena.used (λ a h. allocated-outside e avail n m a word h))
            (IsBlock-keep m2 m3 e n (e + 16 + n) 0 head
              (λ a low high. read32-clear_words_outside ((n + 3) / 4) (e + 16) m2 a (omega arith)));
      tail = IsBlock-keep m1 m3 (e + 16 + n) (avail - n - 16 - 16) 0 1 rest (λ a low high.
          read32-clear_words_outside ((n + 3) / 4) (e + 16) m2 a (omega arith)
          ∙ read32-write_block_outside e n (e + 16 + n) 0 m1 a (omega arith));
    }

-- What the allocator answers to requests of the sizes, one after another.
unfoldable pub alloc_all : (arena fuel : ℕ) → List ℕ → Heap → Option (List ℕ)
alloc_all arena fuel [] h = some []
alloc_all arena fuel (n ∷ ns) h = elim (guest_alloc_bytes arena fuel n h) [
  | none ↦ none
  | some (p, h') ↦ elim (alloc_all arena fuel ns h') [ none ↦ none | some ps ↦ some (p ∷ ps) ]
]

-- Blocks with a header of 16 bytes each, side by side from `e` on.
unfoldable pub side_by_side : ℕ → List ℕ → List ℕ
side_by_side e [] = []
side_by_side e (n ∷ ns) = (e + 16) ∷ side_by_side (e + 16 + n) ns

-- Sizes that are multiples of 4.
abbrev pub AllWords : List ℕ → Type 0
AllWords [] = Unit {0}
AllWords (n ∷ ns) = (n % 4 ≡ 0) × AllWords ns

-- The bytes that the requests use up, with 32 for each beside its size.
unfoldable pub room : List ℕ → ℕ
room [] = 0
room (n ∷ ns) = n + 32 + room ns

alloc_ready :
    (base fuel b : ℕ) (ss : List ℕ) (e avail n : ℕ) (m : Memory)
    → IsArena m b ss e avail
    → 0 < b
    → n + 32 ≤ avail
    → length ss < fuel
    → guest_alloc_bytes base fuel n (record { memory = m; arena_base = b; heap_ready = true })
      ≡ some (e + 16, record { memory = allocated e avail n m; arena_base = b; heap_ready = true })
unfolding guest_alloc_bytes guest_alloc_aligned
alloc_ready base fuel b ss e avail n m arena pos fits enough =
    let left : length ss + suc (fuel - length ss - 1) ≡ fuel = omega arith in
    let le = Used-le m b ss e arena.used in
    let found : alloc_loop fuel b n 16 true m ≡ some (e + 16, allocated e avail n m) =
      subst (λ f. alloc_loop f b n 16 true m ≡ some (e + 16, allocated e avail n m)) left
        (alloc_loop-walk m b ss e n (suc (fuel - length ss - 1)) arena.used pos
          ∙ alloc_loop-here (fuel - length ss - 1) e avail 0 n m arena.tail (omega arith) fits) in
    rw (found, guest_alloc_aligned) refl

all_ready :
    (base fuel b : ℕ) (ss : List ℕ) (e avail : ℕ) (ns : List ℕ) (m : Memory)
    → IsArena m b ss e avail
    → 0 < b
    → AllWords ns
    → room ns ≤ avail
    → length ss + length ns ≤ fuel
    → e + 16 + avail < 0x1_0000_0000
    → alloc_all base fuel ns (record { memory = m; arena_base = b; heap_ready = true })
      ≡ some (side_by_side e ns)
unfolding alloc_all side_by_side room
all_ready base fuel b ss e avail [] m arena pos words fits enough bound = refl
all_ready base fuel b ss e avail (n ∷ ns) m arena pos (word, words) fits enough bound =
    let longer = length-append ss (n ∷ []) in
    let rest =
      all_ready base fuel b (ss ++ n ∷ []) (e + 16 + n) (avail - n - 16 - 16) ns
        (allocated e avail n m) (allocated-IsArena m b ss e avail n arena word (omega arith) bound)
        pos words (omega arith) (omega arith) (omega arith) in
    rw
      (
        alloc_ready base fuel b ss e avail n m arena pos (omega arith) (omega arith),
        rest,
        alloc_all,
      )
      refl

-- From an arena that is not in use yet, in whatever state its memory is, requests of sizes that
-- are multiples of 4 and that the arena has room for are answered with blocks side by side, each
-- behind a header of 16 bytes; a round of the search for each request is enough fuel.
pub alloc_all-side_by_side :
    (arena fuel base : ℕ) (ns : List ℕ) (m : Memory)
    → 0 < arena
    → arena + arena_size < 0x1_0000_0000
    → AllWords ns
    → room ns + 16 ≤ arena_size
    → length ns ≤ fuel
    → alloc_all arena fuel ns (record { memory = m; arena_base = base; heap_ready = false })
      ≡ some (side_by_side arena ns)
unfolding alloc_all guest_alloc_bytes guest_alloc_aligned init_guest_heap side_by_side Used room
alloc_all-side_by_side arena fuel base [] m pos bound words fits enough = refl
alloc_all-side_by_side arena fuel base (n ∷ ns) m pos bound words fits enough =
    all_ready arena fuel arena [] arena (arena_size - 16) (n ∷ ns) _
      (record {
        used = refl;
        tail =
            write_block-IsBlock arena (arena_size - 16) 0 1 m (omega arith) (omega arith)
              (omega arith);
      })
      pos words (omega arith) (omega arith) (omega arith)
