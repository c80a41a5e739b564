-- ===== src/Hal/Memory/Fields.antt =====
-- Rewriting rules for the fields of one structure at a pointer, whose offsets are numerals: each
-- test computes there.
use native.Mathlib.Nat.{add_assoc}
use windows_10_js.Prelude.{Bool, ℕ, ◌+◌, ◌%◌, ◌≡◌, ◌||◌, arith, leb, ◌==◌, if◌then◌else◌}
use windows_10_js.Hal.Memory.{Memory, read8, read16, read32, write8, write16, write32}
use windows_10_js.Hal.Memory.Cells.{
  read8-write8_same, read8-write8_outside, read8-write16_outside, read8-write32_same,
  read8-write32_outside, read16-write8_outside, read16-write16_same, read16-write16_outside,
  read16-write32_outside, read32-write8_outside, read32-write16_outside, read32-write32_same,
  read32-write32_outside,
}

-- A read across part of what was written: no rule opens it.
pub overlap : ℕ → ℕ
overlap n = n

abbrev pub clear_of : (i n j k : ℕ) → Bool
clear_of i n j k = leb (i + n) j || leb (j + k) i

module _ (m : Memory) (p v i j : ℕ) where
  pub field32-32 : read32 (write32 m (p + i) v) (p + j) ≡ (
      if i == j
      then v % 0x1_0000_0000
      else if clear_of i 4 j 4
      then read32 m (p + j)
      else overlap (read32 (write32 m (p + i) v) (p + j)))
  unfolding overlap
  field32-32 =
      ground (arith, read32-write32_same m (p + i) v, read32-write32_outside m (p + i) v (p + j))

  pub field16-16 : read16 (write16 m (p + i) v) (p + j) ≡ (
      if i == j
      then v % 65536
      else if clear_of i 2 j 2
      then read16 m (p + j)
      else overlap (read16 (write16 m (p + i) v) (p + j)))
  unfolding overlap
  field16-16 =
      ground (arith, read16-write16_same m (p + i) v, read16-write16_outside m (p + i) v (p + j))

  pub field8-8 : read8 (write8 m (p + i) v) (p + j) ≡ (
      if i == j
      then v % 256
      else if clear_of i 1 j 1
      then read8 m (p + j)
      else overlap (read8 (write8 m (p + i) v) (p + j)))
  unfolding overlap
  field8-8 = ground (arith, read8-write8_same m (p + i) v, read8-write8_outside m (p + i) v (p + j))

  pub field8-16 : read8 (write16 m (p + i) v) (p + j) ≡ (
      if clear_of i 2 j 1 then read8 m (p + j) else overlap (read8 (write16 m (p + i) v) (p + j)))
  unfolding overlap
  field8-16 = ground (arith, read8-write16_outside m (p + i) v (p + j))

  pub field8-32 : read8 (write32 m (p + i) v) (p + j) ≡ (
      if i == j
      then v % 256
      else if clear_of i 4 j 1
      then read8 m (p + j)
      else overlap (read8 (write32 m (p + i) v) (p + j)))
  unfolding overlap
  field8-32 =
      ground (arith, read8-write32_same m (p + i) v, read8-write32_outside m (p + i) v (p + j))

  pub field16-8 : read16 (write8 m (p + i) v) (p + j) ≡ (
      if clear_of i 1 j 2 then read16 m (p + j) else overlap (read16 (write8 m (p + i) v) (p + j)))
  unfolding overlap
  field16-8 = ground (arith, read16-write8_outside m (p + i) v (p + j))

  pub field16-32 : read16 (write32 m (p + i) v) (p + j) ≡ (
      if clear_of i 4 j 2 then read16 m (p + j) else overlap (read16 (write32 m (p + i) v) (p + j)))
  unfolding overlap
  field16-32 = ground (arith, read16-write32_outside m (p + i) v (p + j))

  pub field32-8 : read32 (write8 m (p + i) v) (p + j) ≡ (
      if clear_of i 1 j 4 then read32 m (p + j) else overlap (read32 (write8 m (p + i) v) (p + j)))
  unfolding overlap
  field32-8 = ground (arith, read32-write8_outside m (p + i) v (p + j))

  pub field32-16 : read32 (write16 m (p + i) v) (p + j) ≡ (
      if clear_of i 2 j 4 then read32 m (p + j) else overlap (read32 (write16 m (p + i) v) (p + j)))
  unfolding overlap
  field32-16 = ground (arith, read32-write16_outside m (p + i) v (p + j))

pub ruleset field_laws = (
  field32-32, field32-16, field32-8, field16-32, field16-16, field16-8, field8-32, field8-16,
  field8-8, add_assoc,
)
