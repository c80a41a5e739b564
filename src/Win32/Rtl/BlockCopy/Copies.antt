-- ===== src/Win32/Rtl/BlockCopy/Copies.antt =====
-- What the copies leave in memory.
use windows_10_js.Prelude.{
  ℕ, zero, suc, ◌+◌, ◌-◌, ◌%◌, ◌≡◌, ◌∙◌, ◌≤◌, ◌⊎◌, sym, arith, ◌==◌, if◌then◌else◌, leb, ltb, ◌&&◌,
}
use windows_10_js.Hal.Memory.{Memory, read8, write8}
use windows_10_js.Hal.Memory.Cells.{read8-lt}
use windows_10_js.Win32.GuestStrings.{read_bytes, write_guest_bytes}
use windows_10_js.Win32.Rtl.BlockCopy.{copy_forward, rtl_copy_memory, rtl_move_memory}

-- What a copy of `count` bytes from `src` to `dest` leaves at `a`: the byte of the source, from
-- before the copy, for an address in the destination, and the old byte for any other.
unfoldable pub copied : (dest src count a : ℕ) → Memory → ℕ
copied dest src count a m =
    if leb dest a && ltb a (dest + count) then read8 m (src + (a - dest)) else read8 m a

read8-write8 :
    (m : Memory) (b v a : ℕ) → read8 (write8 m b v) a ≡ (if b == a then v % 256 else read8 m a)
unfolding read8 write8
read8-write8 m b v a = ground arith

write_then_read :
    (count dest src a : ℕ) (m old : Memory)
    → read8 (write_guest_bytes dest (read_bytes count src old) m) a
      ≡ (if leb dest a && ltb a (dest + count) then read8 old (src + (a - dest)) else read8 m a)
unfolding write_guest_bytes read_bytes
write_then_read zero dest src a m old = ground arith
write_then_read (suc n) dest src a m old =
    let rest = write_then_read n (dest + 1) (src + 1) a (write8 m dest (read8 old src)) old in
    let first = read8-write8 m dest (read8 old src) a in
    let small = read8-lt old src in ground (arith, rest, first)

-- RtlMoveMemory copies right also where source and destination overlap: each byte of the
-- destination gets the byte that the source had before, and no other byte changes.
pub rtl_move_memory-copied :
    (dest src count a : ℕ) (m : Memory)
    → read8 (rtl_move_memory dest src count m) a ≡ copied dest src count a m
unfolding rtl_move_memory copied
rtl_move_memory-copied dest src count a m = write_then_read count dest src a m m

copy_forward-copied :
    (count dest src a : ℕ) (m : Memory)
    → (dest ≤ src) ⊎ (src + count ≤ dest)
    → read8 (copy_forward count dest src m) a ≡ copied dest src count a m
unfolding copy_forward copied
copy_forward-copied zero dest src a m h = ground arith
copy_forward-copied (suc n) dest src a m h =
    let m' = write8 m dest (read8 m src) in
    let small = read8-lt m src in
    ground (
      arith,
      copy_forward-copied n (dest + 1) (src + 1) a m',
      read8-write8 m dest (read8 m src) a,
      read8-write8 m dest (read8 m src) (src + 1 + (a - (dest + 1))),
    )

-- RtlCopyMemory, which copies byte by byte from the front, leaves the memory that RtlMoveMemory
-- leaves, if the destination does not begin inside the source behind its first byte.
pub rtl_copy_memory-rtl_move_memory :
    (dest src count a : ℕ) (m : Memory)
    → (dest ≤ src) ⊎ (src + count ≤ dest)
    → read8 (rtl_copy_memory dest src count m) a ≡ read8 (rtl_move_memory dest src count m) a
unfolding rtl_copy_memory
rtl_copy_memory-rtl_move_memory dest src count a m h =
    copy_forward-copied count dest src a m h ∙ sym (rtl_move_memory-copied dest src count a m)
