-- ===== src/Mm/Pfn.antt =====
-- system32/ntos/mm/pfn.js: physical frames of 4 KB, and a bitmap of the used ones. An entry of the
-- bitmap is true for 1.
pub mod Frames
use windows_10_js.Prelude.{
  ℕ, zero, suc, ◌+◌, ◌-◌, ◌*◌, ◌/◌, ◌%◌, Bool, true, false, not, ◌||◌, Option, none, some, List, [],
  ◌∷◌, ◌==◌, ltb, leb, set, if◌then◌else◌,
}
use windows_10_js.Mm.MemoryMap.{page_size, pfn_base, pfn_top}

abbrev pub frame_count : ℕ
frame_count = (pfn_top - pfn_base) / page_size

abbrev pub clear_bits : ℕ → List Bool
clear_bits zero = []
clear_bits (suc n) = false ∷ clear_bits n

-- A bitmap without a used frame.
unfoldable pub init : List Bool
init = clear_bits frame_count

abbrev pub address_of : ℕ → ℕ
address_of index = pfn_base + index * page_size

abbrev pub index_of : ℕ → ℕ
index_of address = (address - pfn_base) / page_size

-- The loop of `allocPage`: the index of the first frame that is not used, and the bitmap with that
-- frame used.
unfoldable pub take_first : List Bool → Option (ℕ × List Bool)
take_first [] = none
take_first (false ∷ bits) = some (0, true ∷ bits)
take_first (true ∷ bits) = elim (take_first bits) [
  | none ↦ none
  | some (i, bits') ↦ some (suc i, true ∷ bits')
]

unfoldable pub alloc_page : List Bool → ℕ × List Bool
unfolding take_first
alloc_page bits = elim (take_first bits) [
  | none ↦ (0, bits)
  | some (i, bits') ↦ (address_of i, bits')
]

-- The index is a fraction in the code: it is negative below the base, and too large from the top on.
unfoldable pub free_page : ℕ → List Bool → Bool × List Bool
free_page address bits =
    if ltb address pfn_base || leb pfn_top address || not (address % page_size == 0)
    then (false, bits)
    else (true, set bits (index_of address) false)

unfoldable pub free_count : List Bool → ℕ
free_count [] = 0
free_count (true ∷ bits) = free_count bits
free_count (false ∷ bits) = suc (free_count bits)

unfoldable pub total_count : ℕ
total_count = frame_count
