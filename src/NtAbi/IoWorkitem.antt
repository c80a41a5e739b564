-- ===== src/NtAbi/IoWorkitem.antt =====
-- NtAbi.IO_WORKITEM.
use Prim.Native.Nat.{ℕ}

abbrev pub list_flink : ℕ
list_flink = 0x00

abbrev pub list_blink : ℕ
list_blink = 0x08

abbrev pub function : ℕ
function = 0x10

abbrev pub context : ℕ
context = 0x18

abbrev pub device_object : ℕ
device_object = 0x20

abbrev pub type : ℕ
type = 0x28

abbrev pub queued : ℕ
queued = 0x2C
