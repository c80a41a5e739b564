-- ===== src/NtAbi/ControllerObject.antt =====
-- NtAbi.CONTROLLER_OBJECT.
use Prim.Native.Nat.{ℕ}

abbrev pub type : ℕ
type = 0

abbrev pub reference_count : ℕ
reference_count = 4

abbrev pub controller_extension : ℕ
controller_extension = 8

abbrev pub busy : ℕ
busy = 0x18

abbrev pub queued : ℕ
queued = 0x1C

abbrev pub size : ℕ
size = 0x40

abbrev pub type_controller : ℕ
type_controller = 7
