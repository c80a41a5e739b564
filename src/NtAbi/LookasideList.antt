-- ===== src/NtAbi/LookasideList.antt =====
-- NtAbi.LOOKASIDE_LIST.
use Prim.Native.Nat.{ℕ}

abbrev pub depth : ℕ
depth = 0x10

abbrev pub block_size : ℕ
block_size = 0x18

abbrev pub tag : ℕ
tag = 0x1C

abbrev pub alloc_count : ℕ
alloc_count = 0x20

abbrev pub free_count : ℕ
free_count = 0x24

abbrev pub free_head : ℕ
free_head = 0x28

abbrev pub size : ℕ
size = 0x80
