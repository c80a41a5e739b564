-- ===== src/Hal/Memory/Cells.antt =====
-- What a read of physical memory returns after a write, at the same place and at places apart.
use windows_10_js.Prelude.{ℕ, ◌+◌, ◌/◌, ◌%◌, ◌≤◌, ◌<◌, ◌≡◌, ◌⊎◌, arith}
use windows_10_js.Hal.Memory.{
  Memory, read8, read16, read32, read64, write8, write16, write32, write64,
}

-- The `n` bytes at `a` and the `k` bytes at `b` do not meet.
abbrev pub Apart : (a n b k : ℕ) → Type 0
Apart a n b k = (a + n ≤ b) ⊎ (b + k ≤ a)

module _ (m : Memory) (a v : ℕ) where
  pub read8-write8_same : read8 (write8 m a v) a ≡ v % 256
  unfolding read8 write8
  read8-write8_same = ground arith

  pub read8-write8_outside : (b : ℕ) → Apart a 1 b 1 → read8 (write8 m a v) b ≡ read8 m b
  unfolding read8 write8
  read8-write8_outside b h = ground arith

  pub read16-write8_outside : (b : ℕ) → Apart a 1 b 2 → read16 (write8 m a v) b ≡ read16 m b
  unfolding read16
  read16-write8_outside b h = ground (arith, read8-write8_outside b, read8-write8_outside (b + 1))

  pub read32-write8_outside : (b : ℕ) → Apart a 1 b 4 → read32 (write8 m a v) b ≡ read32 m b
  unfolding read32
  read32-write8_outside b h = ground (arith, read16-write8_outside b, read16-write8_outside (b + 2))

module _ (m : Memory) (a v : ℕ) where
  pub read8-write16_outside : (b : ℕ) → Apart a 2 b 1 → read8 (write16 m a v) b ≡ read8 m b
  unfolding write16
  read8-write16_outside b h =
      ground (
        arith,
        read8-write8_outside m a v b,
        read8-write8_outside (write8 m a v) (a + 1) (v / 256) b,
      )

  pub read16-write16_same : read16 (write16 m a v) a ≡ v % 65536
  unfolding read16 write16
  read16-write16_same = ground (
    arith,
    read8-write8_same m a v,
    read8-write8_same (write8 m a v) (a + 1) (v / 256),
    read8-write8_outside (write8 m a v) (a + 1) (v / 256) a,
  )

  pub read16-write16_outside : (b : ℕ) → Apart a 2 b 2 → read16 (write16 m a v) b ≡ read16 m b
  unfolding read16
  read16-write16_outside b h =
      ground (arith, read8-write16_outside b, read8-write16_outside (b + 1))

  pub read32-write16_outside : (b : ℕ) → Apart a 2 b 4 → read32 (write16 m a v) b ≡ read32 m b
  unfolding read32
  read32-write16_outside b h =
      ground (arith, read16-write16_outside b, read16-write16_outside (b + 2))

module _ (m : Memory) (a v : ℕ) where
  pub read8-write16_same : read8 (write16 m a v) a ≡ v % 256
  unfolding write16
  read8-write16_same =
      ground
        (arith, read8-write8_same m a v, read8-write8_outside (write8 m a v) (a + 1) (v / 256) a)

  pub read8-write32_same : read8 (write32 m a v) a ≡ v % 256
  unfolding write32
  read8-write32_same =
      ground
        (arith, read8-write16_same, read8-write16_outside (write16 m a v) (a + 2) (v / 65536) a)

  pub read8-write32_outside : (b : ℕ) → Apart a 4 b 1 → read8 (write32 m a v) b ≡ read8 m b
  unfolding write32
  read8-write32_outside b h = ground (
    arith,
    read8-write16_outside m a v b,
    read8-write16_outside (write16 m a v) (a + 2) (v / 65536) b,
  )

  pub read16-write32_outside : (b : ℕ) → Apart a 4 b 2 → read16 (write32 m a v) b ≡ read16 m b
  unfolding read16
  read16-write32_outside b h =
      ground (arith, read8-write32_outside b, read8-write32_outside (b + 1))

  pub read32-write32_same : read32 (write32 m a v) a ≡ v % 0x1_0000_0000
  unfolding read32 write32
  read32-write32_same = ground (
    arith,
    read16-write16_same m a v,
    read16-write16_same (write16 m a v) (a + 2) (v / 65536),
    read16-write16_outside (write16 m a v) (a + 2) (v / 65536) a,
  )

  pub read32-write32_outside : (b : ℕ) → Apart a 4 b 4 → read32 (write32 m a v) b ≡ read32 m b
  unfolding read32
  read32-write32_outside b h =
      ground (arith, read16-write32_outside b, read16-write32_outside (b + 2))

module _ (m : Memory) (a : ℕ) where
  pub read8-lt : read8 m a < 256
  unfolding read8
  read8-lt = omega arith

  pub read16-lt : read16 m a < 65536
  unfolding read16 read8
  read16-lt = omega arith

  pub read32-lt : read32 m a < 0x1_0000_0000
  unfolding read32 read16 read8
  read32-lt = omega arith

module _ (m : Memory) (a v : ℕ) where
  pub read64-write64_same : v < 0x1_0000_0000_0000_0000 → read64 (write64 m a v) a ≡ v
  unfolding read64 write64
  read64-write64_same h = ground (
    arith,
    read32-write32_same m a v,
    read32-write32_same (write32 m a v) (a + 4) (v / 0x1_0000_0000),
    read32-write32_outside (write32 m a v) (a + 4) (v / 0x1_0000_0000) a,
  )

  pub read32-write64_outside : (b : ℕ) → Apart a 8 b 4 → read32 (write64 m a v) b ≡ read32 m b
  unfolding write64
  read32-write64_outside b h = ground (
    arith,
    read32-write32_outside m a v b,
    read32-write32_outside (write32 m a v) (a + 4) (v / 0x1_0000_0000) b,
  )

  pub read64-write64_outside : (b : ℕ) → Apart a 8 b 8 → read64 (write64 m a v) b ≡ read64 m b
  unfolding read64
  read64-write64_outside b h =
      ground (arith, read32-write64_outside b, read32-write64_outside (b + 4))

  pub read64-write32_outside : (b : ℕ) → Apart a 4 b 8 → read64 (write32 m a v) b ≡ read64 m b
  unfolding read64
  read64-write32_outside b h =
      ground (arith, read32-write32_outside m a v b, read32-write32_outside m a v (b + 4))
