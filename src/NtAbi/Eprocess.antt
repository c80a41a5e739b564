-- ===== src/NtAbi/Eprocess.antt =====
-- NtAbi.EPROCESS.
use Prim.Native.Nat.{ℕ}

abbrev pub directory_table_base : ℕ
directory_table_base = 0x28

abbrev pub unique_process_id : ℕ
unique_process_id = 0x440

abbrev pub active_process_links : ℕ
active_process_links = 0x448

abbrev pub create_time : ℕ
create_time = 0x458

abbrev pub image_file_name : ℕ
image_file_name = 0x5A8

abbrev pub active_threads : ℕ
active_threads = 0x5F0

abbrev pub exit_time : ℕ
exit_time = 0x608

abbrev pub size : ℕ
size = 0xA00

abbrev pub type_process : ℕ
type_process = 3
