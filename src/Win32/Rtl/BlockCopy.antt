-- ===== src/Win32/Rtl/BlockCopy.antt =====
-- The handlers of rtl.js that fill, copy and compare memory. A loop has the number of its rounds
-- left as first argument.
pub mod Copies
use windows_10_js.Prelude.{ℕ, zero, suc, ◌+◌, ◌%◌, List, [], ◌∷◌, ◌==◌, if◌then◌else◌}
use windows_10_js.Hal.Memory.{Memory, read8, write8}
use windows_10_js.Win32.GuestStrings.{read_bytes, write_guest_bytes}

unfoldable pub fill : (count dest value : ℕ) → Memory → Memory
fill zero dest value m = m
fill (suc n) dest value m = fill n (dest + 1) value (write8 m dest value)

unfoldable pub memset : (dest value count : ℕ) → Memory → ℕ × Memory
unfolding fill
memset dest value count m = (dest, fill count dest value m)

-- Through `tmp`: all bytes are read before the first is written.
unfoldable pub copy_through : (dest src count : ℕ) → Memory → Memory
unfolding read_bytes write_guest_bytes
copy_through dest src count m = write_guest_bytes dest (read_bytes count src m) m

unfoldable pub memcpy : (dest src count : ℕ) → Memory → ℕ × Memory
unfolding copy_through
memcpy dest src count m = (dest, copy_through dest src count m)

unfoldable pub memmove : (dest src count : ℕ) → Memory → ℕ × Memory
unfolding copy_through
memmove dest src count m = (dest, copy_through dest src count m)

unfoldable pub rtl_zero_memory : (dest count : ℕ) → Memory → Memory
unfolding fill
rtl_zero_memory dest count m = fill count dest 0 m

unfoldable pub rtl_fill_memory : (dest count value : ℕ) → Memory → Memory
unfolding fill
rtl_fill_memory dest count value m = fill count dest value m

unfoldable pub copy_forward : (count dest src : ℕ) → Memory → Memory
copy_forward zero dest src m = m
copy_forward (suc n) dest src m = copy_forward n (dest + 1) (src + 1) (write8 m dest (read8 m src))

unfoldable pub rtl_copy_memory : (dest src count : ℕ) → Memory → Memory
unfolding copy_forward
rtl_copy_memory dest src count m = copy_forward count dest src m

unfoldable pub rtl_move_memory : (dest src count : ℕ) → Memory → Memory
unfolding copy_through
rtl_move_memory dest src count m = copy_through dest src count m

unfoldable pub rtl_compare_memory : (count a b : ℕ) → Memory → ℕ
rtl_compare_memory zero a b m = 0
rtl_compare_memory (suc n) a b m =
    let rest = suc (rtl_compare_memory n (a + 1) (b + 1) m) in
    if read8 m a == read8 m b then rest else 0
