-- ===== src/NtAbi/DispatcherHeader.antt =====
-- NtAbi.DISPATCHER_HEADER.
use Prim.Native.Nat.{ℕ}

abbrev pub type : ℕ
type = 0

abbrev pub signal_state : ℕ
signal_state = 4

abbrev pub type_event_notification : ℕ
type_event_notification = 0

abbrev pub type_event_synchronization : ℕ
type_event_synchronization = 1

abbrev pub type_mutant : ℕ
type_mutant = 2

abbrev pub mutex_owner : ℕ
mutex_owner = 0x18
