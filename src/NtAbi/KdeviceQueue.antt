-- ===== src/NtAbi/KdeviceQueue.antt =====
-- NtAbi.KDEVICE_QUEUE.
use Prim.Native.Nat.{ℕ}

abbrev pub type : ℕ
type = 0x00

abbrev pub lock : ℕ
lock = 0x08

abbrev pub busy : ℕ
busy = 0x10

abbrev pub entry : ℕ
entry = 0x18

abbrev pub size : ℕ
size = 0x28

abbrev pub type_device_queue : ℕ
type_device_queue = 0x14
