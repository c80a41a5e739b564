-- ===== src/Win32/Rtl/CText.antt =====
-- The functions of the C runtime on texts in rtl.js: strlen, strcmp, strcpy and so on. `none` is a
-- processor halted by a string without a terminator.
pub mod RoundTrip
use windows_10_js.Prelude.{
  ℕ, zero, suc, ◌+◌, ◌-◌, ◌*◌, ◌%◌, Bool, true, false, not, ◌&&◌, Option, none, some, List, [], ◌∷◌,
  ◌++◌, length, ◌==◌, ltb, leb, if◌then◌else◌,
}
use windows_10_js.Hal.Memory.{Memory, read8, write8, write16}
use windows_10_js.Win32.GuestStrings.{
  Text, ◌>>=◌, read_guest_c_string, read_guest_wide_string, write_guest_bytes,
}

-- The order of JavaScript's `<` on texts, as the answers -1, 0 and 1 of the handlers.
pub data Order : Type 0 where
  before same behind : Order

unfoldable pub compare_texts : Text → Text → Order
compare_texts [] [] = same
compare_texts [] (d ∷ b) = before
compare_texts (c ∷ a) [] = behind
compare_texts (c ∷ a) (d ∷ b) =
    let rest = compare_texts a b in if ltb c d then before else if ltb d c then behind else rest

-- `text.slice(0, count)`
unfoldable pub slice : ℕ → Text → Text
slice zero text = []
slice (suc n) [] = []
slice (suc n) (c ∷ text) = c ∷ slice n text

unfoldable pub strlen : ℕ → Memory → Option ℕ
strlen string m = do text ← read_guest_c_string string m; some (length text)

unfoldable pub strcmp : (a b : ℕ) → Memory → Option Order
unfolding compare_texts
strcmp a b m = do x ← read_guest_c_string a m; y ← read_guest_c_string b m; some (compare_texts x y)

unfoldable pub strncmp : (a b count : ℕ) → Memory → Option Order
unfolding compare_texts slice
strncmp a b count m = do
  x ← read_guest_c_string a m
  y ← read_guest_c_string b m
  some (compare_texts (slice count x) (slice count y))

-- The loop that writes a text and, at `i = text.length`, its terminator.
unfoldable pub write_c_string : ℕ → Text → Memory → Memory
unfolding write_guest_bytes
write_c_string dest text m = write_guest_bytes dest (text ++ 0 ∷ []) m

unfoldable pub strcpy : (dest src : ℕ) → Memory → Option (ℕ × Memory)
unfolding write_c_string
strcpy dest src m = do text ← read_guest_c_string src m; some (dest, write_c_string dest text m)

-- The first `count` characters, and zeros where the text has fewer.
unfoldable pub padded : ℕ → Text → List ℕ
padded zero text = []
padded (suc n) [] = 0 ∷ padded n []
padded (suc n) (c ∷ text) = c ∷ padded n text

unfoldable pub strncpy : (dest src count : ℕ) → Memory → Option (ℕ × Memory)
unfolding padded write_guest_bytes
strncpy dest src count m = do
  text ← read_guest_c_string src m
  some (dest, write_guest_bytes dest (padded count text) m)

unfoldable pub strcat : (dest src : ℕ) → Memory → Option (ℕ × Memory)
unfolding write_c_string
strcat dest src m = do
  current ← read_guest_c_string dest m
  suffix ← read_guest_c_string src m
  some (dest, write_c_string dest (current ++ suffix) m)

unfoldable pub starts_with : Text → Text → Bool
starts_with [] text = true
starts_with (c ∷ needle) [] = false
starts_with (c ∷ needle) (d ∷ text) = (c == d) && starts_with needle text

-- `text.indexOf(needle)`, or `none` for -1; the index counts from `i`.
unfoldable pub index_from : (i : ℕ) → Text → Text → Option ℕ
unfolding starts_with
index_from i needle [] = if starts_with needle [] then some i else none
index_from i needle (c ∷ text) =
    let later = index_from (i + 1) needle text in
    if starts_with needle (c ∷ text) then some i else later

-- `index < 0 ? 0 : pointer + index * width`
unfoldable pub pointer_at : (pointer width : ℕ) → Option ℕ → ℕ
pointer_at pointer width none = 0
pointer_at pointer width (some index) = pointer + index * width

unfoldable pub strchr : (string character : ℕ) → Memory → Option ℕ
unfolding index_from pointer_at
strchr string character m = do
  text ← read_guest_c_string string m
  some (pointer_at string 1 (index_from 0 (character % 256 ∷ []) text))

unfoldable pub strstr : (string substring : ℕ) → Memory → Option ℕ
unfolding index_from pointer_at
strstr string substring m = do
  text ← read_guest_c_string string m
  needle ← read_guest_c_string substring m
  some (pointer_at string 1 (index_from 0 needle text))

unfoldable pub wcsstr : (haystack needle : ℕ) → Memory → Option ℕ
unfolding index_from pointer_at
wcsstr haystack needle m = do
  text ← read_guest_wide_string haystack m
  sought ← read_guest_wide_string needle m
  some (pointer_at haystack 2 (index_from 0 sought text))

-- Upper case in place, with one fuel for each byte before the terminator.
unfoldable pub upcase_bytes : (fuel cursor : ℕ) → Memory → Option Memory
upcase_bytes zero cursor m = none
upcase_bytes (suc fuel) cursor m =
    let byte = read8 m cursor in
    let m' = if leb 0x61 byte && leb byte 0x7A then write8 m cursor (byte - 0x20) else m in
    let rest = upcase_bytes fuel (cursor + 1) m' in if byte == 0 then some m else rest

unfoldable pub strupr : (fuel string : ℕ) → Memory → Option (ℕ × Memory)
unfolding upcase_bytes
strupr fuel string m = do m ← upcase_bytes fuel string m; some (string, m)

unfoldable pub rtl_upcase_unicode_char : ℕ → ℕ
rtl_upcase_unicode_char character =
    let code = character % 65536 in
    if leb 0x61 code && leb code 0x7A
    then code - 0x20
    else if leb 0xE0 code && leb code 0xFE && not (code == 0xF7)
    then code - 0x20
    else code
