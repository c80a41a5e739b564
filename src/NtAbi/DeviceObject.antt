-- ===== src/NtAbi/DeviceObject.antt =====
-- NtAbi.DEVICE_OBJECT.
use Prim.Native.Nat.{ℕ}

abbrev pub current_irp : ℕ
current_irp = 0x20

abbrev pub driver_object : ℕ
driver_object = 0x08

abbrev pub characteristics : ℕ
characteristics = 0x34

abbrev pub device_queue : ℕ
device_queue = 0x60
