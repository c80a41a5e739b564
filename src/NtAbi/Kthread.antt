-- ===== src/NtAbi/Kthread.antt =====
-- NtAbi.KTHREAD.
use Prim.Native.Nat.{ℕ}

abbrev pub apc_state_process : ℕ
apc_state_process = 0xB8

abbrev pub cid_unique_process : ℕ
cid_unique_process = 0x478

abbrev pub cid_unique_thread : ℕ
cid_unique_thread = 0x480

abbrev pub size : ℕ
size = 0x4C0
