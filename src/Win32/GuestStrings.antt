-- ===== src/Win32/GuestStrings.antt =====
-- system32/win32/guest-strings.js: texts in guest memory. A text is the list of its UTF-16 code
-- units. `none` stands for a processor halted by a string without a terminator.
pub mod Reading
use Prim.Native.Nat.{bit_and}
use windows_10_js.Prelude.{
  ℕ, zero, suc, ◌+◌, ◌-◌, ◌*◌, ◌/◌, ◌%◌, Bool, true, false, Option, none, some, List, [], ◌∷◌, ◌++◌,
  length, map, ◌==◌, ltb, leb, if◌then◌else◌,
}
pub use windows_10_js.Prelude.TextMap.{Text}
use windows_10_js.Hal.Memory.{Memory, read8, read16, read32, write8, write16, write32}

abbrev pub max_guest_string_chars : ℕ
max_guest_string_chars = 65536

-- `Option` as a monad: a halted processor stays halted.
infixl 5 ◌>>=◌
abbrev pub ◌>>=◌ : {A B : Type 0} → Option A → (A → Option B) → Option B
none >>= f = none
some a >>= f = f a

-- The loops have as first argument how many more characters the guard lets them read.
unfoldable pub c_string_from : (left address : ℕ) → Memory → Option Text
c_string_from zero address m = if read8 m address == 0 then some [] else none
c_string_from (suc left) address m =
    let rest = c_string_from left (address + 1) m in
    let more = (rest >>= λ text. some (read8 m address ∷ text)) in
    if read8 m address == 0 then some [] else more

unfoldable pub read_guest_c_string : ℕ → Memory → Option Text
unfolding c_string_from
read_guest_c_string address m = c_string_from max_guest_string_chars address m

unfoldable pub wide_string_from : (left address : ℕ) → Memory → Option Text
wide_string_from zero address m = if read16 m address == 0 then some [] else none
wide_string_from (suc left) address m =
    let rest = wide_string_from left (address + 2) m in
    let more = (rest >>= λ text. some (read16 m address ∷ text)) in
    if read16 m address == 0 then some [] else more

unfoldable pub read_guest_wide_string : ℕ → Memory → Option Text
unfolding wide_string_from
read_guest_wide_string address m = wide_string_from max_guest_string_chars address m

unfoldable pub read_units : (count address : ℕ) → Memory → Text
read_units zero address m = []
read_units (suc count) address m = read16 m address ∷ read_units count (address + 2) m

-- `charCount` is half the length, so a last odd byte counts as a character. The guard never stops
-- the loop, as a length has 16 bits.
unfoldable pub read_unicode_string : ℕ → Memory → Text
unfolding read_units
read_unicode_string pointer m = read_units ((read16 m pointer + 1) / 2) (read32 m (pointer + 8)) m

unfoldable pub read_bytes : (count address : ℕ) → Memory → Text
read_bytes zero address m = []
read_bytes (suc count) address m = read8 m address ∷ read_bytes count (address + 1) m

unfoldable pub read_ansi_string : ℕ → Memory → Text
unfolding read_bytes
read_ansi_string pointer m = read_bytes (read16 m pointer) (read32 m (pointer + 8)) m

unfoldable pub write_string_fields :
    (pointer length_bytes maximum_bytes buffer : ℕ) → Memory → Memory
write_string_fields pointer length_bytes maximum_bytes buffer m =
    let m = write16 m pointer length_bytes in
    let m = write16 m (pointer + 2) maximum_bytes in
    let m = write32 m (pointer + 4) 0 in
    let m = write32 m (pointer + 8) buffer in write32 m (pointer + 12) 0

unfoldable pub write_units : ℕ → Text → Memory → Memory
write_units address [] m = m
write_units address (c ∷ text) m = write_units (address + 2) text (write16 m address c)

unfoldable pub write_guest_wide_string : ℕ → Text → Memory → Memory
unfolding write_units
write_guest_wide_string address text m =
    write16 (write_units address text m) (address + length text * 2) 0

unfoldable pub write_guest_bytes : ℕ → List ℕ → Memory → Memory
write_guest_bytes address [] m = m
write_guest_bytes address (b ∷ bytes) m = write_guest_bytes (address + 1) bytes (write8 m address b)
