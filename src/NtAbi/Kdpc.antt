-- ===== src/NtAbi/Kdpc.antt =====
-- NtAbi.KDPC.
use Prim.Native.Nat.{ℕ}

abbrev pub type : ℕ
type = 0x00

abbrev pub importance : ℕ
importance = 0x04

abbrev pub dpc_list_entry : ℕ
dpc_list_entry = 0x10

abbrev pub routine : ℕ
routine = 0x18

abbrev pub context : ℕ
context = 0x20

abbrev pub sysarg1 : ℕ
sysarg1 = 0x28

abbrev pub sysarg2 : ℕ
sysarg2 = 0x30

abbrev pub dpc_data : ℕ
dpc_data = 0x38

abbrev pub type_dpc : ℕ
type_dpc = 0x13

abbrev pub importance_medium : ℕ
importance_medium = 1
