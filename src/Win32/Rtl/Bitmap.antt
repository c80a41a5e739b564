-- ===== src/Win32/Rtl/Bitmap.antt =====
-- RTL_BITMAP in rtl.js: the size in bits at 0, and the address of the bits at 8. Bit `i` is bit
-- `i % 32` of word `i / 32`.
pub mod Bits
pub mod Runs
use windows_10_js.Prelude.{
  ℕ, zero, suc, ◌+◌, ◌-◌, ◌*◌, ◌/◌, ◌%◌, ◌^◌, Bool, true, false, not, ◌&&◌, ◌==◌, ltb, leb,
  if◌then◌else◌,
}
use windows_10_js.Hal.Memory.{Memory, read32, read64, write32, write64}

unfoldable pub rtl_initialize_bit_map : (bitmap buffer size_in_bits : ℕ) → Memory → Memory
rtl_initialize_bit_map bitmap buffer size_in_bits m =
    write64 (write32 m bitmap size_in_bits) (bitmap + 8) buffer

unfoldable pub fill_words : (rounds address value : ℕ) → Memory → Memory
fill_words zero address value m = m
fill_words (suc n) address value m = fill_words n (address + 4) value (write32 m address value)

unfoldable pub rtl_set_all_bits : ℕ → Memory → Memory
unfolding fill_words
rtl_set_all_bits bitmap m =
    fill_words ((read32 m bitmap + 31) / 32) (read64 m (bitmap + 8)) 0xFFFF_FFFF m

unfoldable pub rtl_clear_bits : ℕ → Memory → Memory
unfolding fill_words
rtl_clear_bits bitmap m = fill_words ((read32 m bitmap + 31) / 32) (read64 m (bitmap + 8)) 0 m

-- `buffer + (bit >> 5) * 4`, where `>>` reads a number from 2 ^ 31 on as a negative one. An address
-- below 0 would be 0 here.
unfoldable pub word_of : (buffer bit : ℕ) → ℕ
word_of buffer bit =
    let low = bit % 0x1_0000_0000 in
    if ltb low 0x8000_0000 then buffer + low / 32 * 4 else buffer + low / 32 * 4 - 0x2000_0000

-- `(word >>> (bit & 31)) & 1`
unfoldable pub test_bit : (buffer bit : ℕ) → Memory → Bool
unfolding word_of
test_bit buffer bit m = read32 m (word_of buffer bit) / 2 ^ (bit % 32) % 2 == 1

-- `word | (1 << (bit & 31))`: the bit's weight is added where it is not there.
unfoldable pub set_bit : (buffer bit : ℕ) → Memory → Memory
unfolding word_of test_bit
set_bit buffer bit m =
    let word = read32 m (word_of buffer bit) in
    write32 m (word_of buffer bit) (if test_bit buffer bit m then word else word + 2 ^ (bit % 32))

-- `(bitNumber >>> 0) >> 5` is the word's number, and `word & ~(1 << (bitNumber & 31))` its new value.
unfoldable pub rtl_clear_bit : (bitmap bit_number : ℕ) → Memory → Memory
unfolding word_of test_bit
rtl_clear_bit bitmap bit_number m =
    let buffer = read64 m (bitmap + 8) in
    let word = read32 m (word_of buffer bit_number) in
    write32 m (word_of buffer bit_number)
      (if test_bit buffer bit_number m then word - 2 ^ (bit_number % 32) else word)

-- How many of the `count` bits from `start` on are clear before the first that is set.
unfoldable pub clear_run : (count buffer start : ℕ) → Memory → ℕ
unfolding test_bit
clear_run zero buffer start m = 0
clear_run (suc n) buffer start m =
    let rest = suc (clear_run n buffer (start + 1) m) in if test_bit buffer start m then 0 else rest

unfoldable pub set_run : (count buffer bit : ℕ) → Memory → Memory
unfolding set_bit
set_run zero buffer bit m = m
set_run (suc n) buffer bit m = set_run n buffer (bit + 1) (set_bit buffer bit m)

-- The loop over `start`, with the number of starts left.
unfoldable pub find_from : (left buffer start count : ℕ) → Memory → ℕ × Memory
unfolding clear_run set_run
find_from zero buffer start count m = (0xFFFF_FFFF, m)
find_from (suc left) buffer start count m =
    let rest = find_from left buffer (start + 1) count m in
    if clear_run count buffer start m == count then (start, set_run count buffer start m) else rest

unfoldable pub rtl_find_clear_bits_and_set : (bitmap count hint : ℕ) → Memory → ℕ × Memory
unfolding find_from
rtl_find_clear_bits_and_set bitmap count hint m =
    let size_in_bits = read32 m bitmap in
    let start = hint % 0x1_0000_0000 in
    find_from (size_in_bits + 1 - (start + count)) (read64 m (bitmap + 8)) start count m
