-- ===== src/Mm/Pfn/Frames.antt =====
-- What the frame allocator answers.
use windows_10_js.Prelude.{
  ℕ, zero, suc, ◌%◌, ◌≡◌, ◌∙◌, ◌≢◌, ◌<◌, ◌≤◌, ◌⊎◌, inl, inr, refl, sym, subst, ap, Bool, true,
  false, not, ◌||◌, none, some, List, [], ◌∷◌, length, get_elem?, set, arith, ◌==◌, ltb, leb,
}
use windows_10_js.Mm.MemoryMap.{page_size, pfn_base, pfn_top}
use windows_10_js.Mm.Pfn.{
  frame_count, clear_bits, init, address_of, index_of, take_first, alloc_page, free_page,
  free_count,
}

-- The frame `i` was not used in `bits`; in `bits'` it is, and nothing else is different.
record Taken (bits bits' : List Bool) (i : ℕ) : Type 0 where
  inside : i < length bits
  was_free : get_elem? bits i ≡ some false
  now_used : get_elem? bits' i ≡ some true
  undone : set bits' i false ≡ bits
  same_length : length bits' ≡ length bits
  counted : suc (free_count bits') ≡ free_count bits

take_first-cases :
    (bits : List Bool)
    → ((take_first bits ≡ none) × (free_count bits ≡ 0))
      ⊎ ((i : ℕ) × (bits' : List Bool) × (take_first bits ≡ some (i, bits')) × Taken bits bits' i)
unfolding take_first free_count
take_first-cases [] = inl (refl, refl)
take_first-cases (false ∷ bits) = inr (
  0,
  true ∷ bits,
  refl,
  record {
    inside = omega arith;
    was_free = refl;
    now_used = refl;
    undone = refl;
    same_length = refl;
    counted = refl;
  },
)
take_first-cases (true ∷ bits) = elim (take_first-cases bits) [
  | inl (stuck, full) ↦ inl (rw stuck refl, full)
  | inr (i, bits', found, taken) ↦ inr (
    suc i,
    true ∷ bits',
    rw found refl,
    record {
      inside = let h = taken.inside in omega arith;
      was_free = taken.was_free;
      now_used = taken.now_used;
      undone = ap (λ bs. true ∷ bs) taken.undone;
      same_length = ap suc taken.same_length;
      counted = taken.counted;
    },
  )
]

-- A frame that `alloc_page` has given out.
pub record IsGiven (bits : List Bool) (address : ℕ) (bits' : List Bool) : Type 0 where
  pub low : pfn_base ≤ address
  pub high : address < pfn_top
  pub aligned : address % page_size ≡ 0
  pub was_free : get_elem? bits (index_of address) ≡ some false
  pub now_used : get_elem? bits' (index_of address) ≡ some true
  pub counted : suc (free_count bits') ≡ free_count bits
  pub same_length : length bits' ≡ length bits
  pub undone : free_page address bits' ≡ (true, bits)

Taken-IsGiven :
    (bits bits' : List Bool) (i : ℕ)
    → length bits ≡ frame_count
    → Taken bits bits' i
    → IsGiven bits (address_of i) bits'
unfolding free_page
Taken-IsGiven bits bits' i full taken =
    let inside = taken.inside in
    let index : index_of (address_of i) ≡ i = omega arith in
    let managed : ltb (address_of i) pfn_base
          || leb pfn_top (address_of i)
          || not (address_of i % page_size == 0)
        ≡ false =
      ground arith in
    record {
      low = omega arith;
      high = omega arith;
      aligned = omega arith;
      was_free = rw index taken.was_free;
      now_used = rw index taken.now_used;
      counted = taken.counted;
      same_length = taken.same_length;
      undone = rw (managed, index, taken.undone) refl;
    }

-- `alloc_page` answers 0, and changes nothing, exactly when no frame is free; else it answers the
-- address of a frame that was free: inside the managed range, aligned to a page, used from now on,
-- with one free frame less, and `free_page` on it gives the old bitmap back.
pub alloc_page-IsGiven :
    (bits : List Bool)
    → length bits ≡ frame_count
    → ((free_count bits ≡ 0) × (alloc_page bits ≡ (0, bits)))
      ⊎ IsGiven bits (alloc_page bits).0 (alloc_page bits).1
unfolding alloc_page
alloc_page-IsGiven bits full = elim (take_first-cases bits) [
  | inl (stuck, none_free) ↦ inl (none_free, rw (stuck, alloc_page) refl)
  | inr (i, bits', found, taken) ↦
      inr (rw (found, alloc_page) (Taken-IsGiven bits bits' i full taken))
]

-- A frame that an allocation has answered is not the one that the next allocation answers.
pub alloc_page-distinct :
    (bits : List Bool)
    → length bits ≡ frame_count
    → (alloc_page bits).0 ≢ 0
    → (alloc_page (alloc_page bits).1).0 ≢ (alloc_page bits).0
alloc_page-distinct bits full nonzero same = elim (alloc_page-IsGiven bits full) [
  | inl (none_free, answer) ↦ nonzero (ap (λ r. r.0) answer)
  | inr given ↦ elim (alloc_page-IsGiven (alloc_page bits).1 (given.same_length ∙ full)) [
    | inl (none_left, answer) ↦ nonzero (sym same ∙ ap (λ r. r.0) answer)
    | inr again ↦
        let moved =
          subst (λ a. get_elem? (alloc_page bits).1 (index_of a) ≡ some false) same
            again.was_free in
        let clash : some true ≡ some false = sym given.now_used ∙ moved in ground arith
  ]
]

-- The bitmap of `init` has an entry for each frame.
clear_bits-length : (n : ℕ) → length (clear_bits n) ≡ n
clear_bits-length zero = refl
clear_bits-length (suc n) = ap suc (clear_bits-length n)

pub init-length : length init ≡ frame_count
unfolding init
init-length = clear_bits-length frame_count
