-- ===== src/NtAbi/DriverObject.antt =====
-- NtAbi.DRIVER_OBJECT.
use Prim.Native.Nat.{ℕ}

abbrev pub driver_start_io : ℕ
driver_start_io = 0x60
