-- ===== src/NtAbi/Ktimer.antt =====
-- NtAbi.KTIMER.
use Prim.Native.Nat.{ℕ}

abbrev pub type : ℕ
type = 0

abbrev pub signal_state : ℕ
signal_state = 4

abbrev pub dpc : ℕ
dpc = 0x30

abbrev pub period : ℕ
period = 0x38
