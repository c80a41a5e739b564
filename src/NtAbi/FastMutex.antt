-- ===== src/NtAbi/FastMutex.antt =====
-- NtAbi.FAST_MUTEX.
use Prim.Native.Nat.{ℕ}

abbrev pub count : ℕ
count = 0x00

abbrev pub owner : ℕ
owner = 0x08

abbrev pub contention : ℕ
contention = 0x10

abbrev pub event : ℕ
event = 0x18

abbrev pub old_irql : ℕ
old_irql = 0x30
