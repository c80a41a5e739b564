-- ===== src/Hal/Memory.antt =====
-- Physical memory as the kernel's JavaScript reads and writes it: system32/win32/guest-memory.js
-- over os.readPhysical8/16/32 and os.writePhysical8/16/32 (hal/qjs/primitives_memory.c).
-- A store keeps the value modulo the width; numbers are kept in little-endian byte order.
pub mod Cells
pub mod Fields
use windows_10_js.Prelude.{ℕ, ◌+◌, ◌*◌, ◌/◌, ◌%◌, ◌==◌, if◌then◌else◌}

abbrev pub Memory : Type 0
Memory = ℕ → ℕ

abbrev store : Memory → ℕ → ℕ → Memory
store m a v b = if a == b then v else m b

unfoldable pub read8 : Memory → ℕ → ℕ
read8 m a = m a % 256

unfoldable pub write8 : Memory → ℕ → ℕ → Memory
write8 m a v = store m a (v % 256)

unfoldable pub read16 : Memory → ℕ → ℕ
unfolding read8
read16 m a = read8 m a + 256 * read8 m (a + 1)

unfoldable pub write16 : Memory → ℕ → ℕ → Memory
unfolding write8
write16 m a v = write8 (write8 m a v) (a + 1) (v / 256)

unfoldable pub read32 : Memory → ℕ → ℕ
unfolding read16
read32 m a = read16 m a + 65536 * read16 m (a + 2)

unfoldable pub write32 : Memory → ℕ → ℕ → Memory
unfolding write16
write32 m a v = write16 (write16 m a v) (a + 2) (v / 65536)

unfoldable pub read64 : Memory → ℕ → ℕ
read64 m a = read32 m a + read32 m (a + 4) * 0x1_0000_0000

unfoldable pub write64 : Memory → ℕ → ℕ → Memory
write64 m a v = write32 (write32 m a v) (a + 4) (v / 0x1_0000_0000)
