-- ===== src/Win32/Rtl/Format.antt =====
-- printf for the guest: formatGuestText of guest-strings.js, and the handlers of rtl.js that use it
-- or print in base 16. `none` is a processor halted by a string without a terminator.
pub mod Limits
use windows_10_js.Prelude.{
  ℕ, zero, suc, ◌+◌, ◌-◌, ◌*◌, ◌%◌, Bool, Option, none, some, List, [], ◌∷◌, ◌++◌, map, length, min,
  ◌&&◌, ◌==◌, ltb, leb, if◌then◌else◌,
}
use windows_10_js.Hal.Memory.{Memory, read8, read16, read32, read64, write8, write16, write64}
use windows_10_js.Win32.GuestStrings.{
  Text, ◌>>=◌, read_guest_c_string, read_guest_wide_string, read_unicode_string, write_guest_bytes,
  write_units, write_guest_wide_string,
}
use windows_10_js.Win32.GuestHeap.{Heap, guest_alloc_bytes}
use windows_10_js.Win32.Rtl.CText.{slice, write_c_string}
use windows_10_js.Win32.Rtl.Numbers.{text_of_integer, negate}

-- `args[argIndex++] || 0`, and the arguments after it.
abbrev pub next_value : List ℕ → ℕ
next_value [] = 0
next_value (value ∷ args) = value

abbrev pub later : List ℕ → List ℕ
later [] = []
later (value ∷ args) = args

-- `text.padStart(width, character)`
unfoldable pub pad_start : (width character : ℕ) → Text → Text
pad_start width character text = padding (width - length text) ++ text
  where
    padding : ℕ → Text
    padding zero = []
    padding (suc n) = character ∷ padding n

-- `toUpperCase` of the digits of a number.
unfoldable pub upper_digits : Text → Text
upper_digits text = map (λ c. if leb 0x61 c && leb c 0x7A then c - 0x20 else c) text

-- `String(value | 0)`
unfoldable pub signed_text : ℕ → Text
signed_text value =
    if ltb (value % 0x1_0000_0000) 0x8000_0000
    then text_of_integer value 10
    else b'-' ∷ text_of_integer (negate value) 10

-- The cases of the switch; `%wZ` is the case of `%S`.
unfoldable pub directive : (spec value : ℕ) → Memory → Option Text
directive spec value m =
    if (spec == b'd')
    then some (signed_text value)
    else if (spec == b'i')
    then some (signed_text value)
    else if (spec == b'u')
    then some (text_of_integer value 10)
    else if (spec == b'x')
    then some (text_of_integer value 16)
    else if (spec == b'X')
    then some (upper_digits (text_of_integer value 16))
    else if (spec == b'p')
    then some (b'0' ∷ b'x' ∷ pad_start 8 b'0' (text_of_integer value 16))
    else if (spec == b'c')
    then some (value % 256 ∷ [])
    else if (spec == b's')
    then read_guest_c_string value m
    else if (spec == b'S')
    then some (read_unicode_string value m)
    else some (b'%' ∷ spec ∷ [])

-- Behind a last `%`, the character that is read is `undefined`, and this word is printed.
abbrev pub undefined_text : Text
undefined_text = b'%' ∷ b'u' ∷ b'n' ∷ b'd' ∷ b'e' ∷ b'f' ∷ b'i' ∷ b'n' ∷ b'e' ∷ b'd' ∷ []

-- One text behind another that may have halted the processor.
abbrev pub joined : Option Text → Option Text → Option Text
joined first rest = first >>= λ a. rest >>= λ b. some (a ++ b)

unfoldable pub format_guest_text : Text → List ℕ → Memory → Option Text
format_guest_text [] args m = some []
format_guest_text (c ∷ []) args m = some (if c == b'%' then undefined_text else c ∷ [])
format_guest_text (c ∷ d ∷ []) args m =
    let plain = format_guest_text (d ∷ []) args m in
    if c == b'%'
    then (if d == b'%' then some (b'%' ∷ []) else directive d (next_value args) m)
    else joined (some (c ∷ [])) plain
format_guest_text (c ∷ d ∷ e ∷ text) args m =
    let plain = format_guest_text (d ∷ e ∷ text) args m in
    let percent = format_guest_text (e ∷ text) args m in
    let narrow = format_guest_text (e ∷ text) (later args) m in
    let wide = format_guest_text text (later args) m in
    if c == b'%'
    then (if d == b'%'
        then joined (some (b'%' ∷ [])) percent
        else if (d == b'w') && (e == b'Z')
        then joined (directive b'S' (next_value args) m) wide
        else joined (directive d (next_value args) m) narrow)
    else joined (some (c ∷ [])) plain

unfoldable pub sprintf : (buffer format : ℕ) → (args : List ℕ) → Memory → Option (ℕ × Memory)
sprintf buffer format args m = do
  pattern_text ← read_guest_c_string format m
  text ← format_guest_text pattern_text args m
  some (length text, write_c_string buffer text m)

-- `Math.min(text.length, (size >>> 0) - 1)`, with `none` for -1.
unfoldable pub writable : (size : ℕ) → Text → Option ℕ
writable size text =
    if size % 0x1_0000_0000 == 0 then none else some (min (length text) (size % 0x1_0000_0000 - 1))

-- The characters, and the terminator where the size is not 0. A size above 32 bits whose low 32 bits
-- are 0 has the terminator in front of the buffer.
unfoldable pub write_limited : (buffer size : ℕ) → Text → Memory → Memory
write_limited buffer size text m = elim (writable size text) [
  | none ↦ if size == 0 then m else write8 m (buffer - 1) 0
  | some count ↦ write8 (write_guest_bytes buffer (slice count text) m) (buffer + count) 0
]

unfoldable pub snprintf : (buffer size format : ℕ) → (args : List ℕ) → Memory → Option (ℕ × Memory)
snprintf buffer size format args m = do
  pattern_text ← read_guest_c_string format m
  text ← format_guest_text pattern_text args m
  some (length text, write_limited buffer size text m)

-- The 8 arguments at a va_list.
unfoldable pub va_args : (count va_list : ℕ) → Memory → List ℕ
va_args zero va_list m = []
va_args (suc n) va_list m = read64 m va_list ∷ va_args n (va_list + 8) m

-- The answer -1 as 32 bits.
abbrev pub answered : Option ℕ → ℕ
answered none = 0xFFFF_FFFF
answered (some count) = count

unfoldable pub vsnprintf : (buffer count format va_list : ℕ) → Memory → Option (ℕ × Memory)
vsnprintf buffer count format va_list m = do
  pattern_text ← read_guest_c_string format m
  text ← format_guest_text pattern_text (va_args 8 va_list m) m
  some (answered (writable count text), write_limited buffer count text m)

unfoldable pub vsnwprintf : (buffer count format va_list : ℕ) → Memory → Option (ℕ × Memory)
vsnwprintf buffer count format va_list m = do
  pattern_text ← read_guest_wide_string format m
  text ← format_guest_text pattern_text (va_args 8 va_list m) m
  let written = elim (writable count text) as (λ _. Memory) [
    | none ↦ if count == 0 then m else write16 m (buffer - 2) 0
    | some n ↦ write16 (write_units buffer (slice n text) m) (buffer + n * 2) 0
  ]
  some (answered (writable count text), written)

-- `hex(value, width)` of RtlStringFromGUID
unfoldable pub hex : (value width : ℕ) → Text
hex value width = pad_start width b'0' (upper_digits (text_of_integer value 16))

unfoldable pub hex_bytes : (count address : ℕ) → Memory → Text
hex_bytes zero address m = []
hex_bytes (suc n) address m = hex (read8 m address) 2 ++ hex_bytes n (address + 1) m

unfoldable pub guid_text : (guid : ℕ) → Memory → Text
guid_text guid m =
    (b'{' ∷ hex (read32 m guid) 8)
    ++ (b'-' ∷ hex (read16 m (guid + 4)) 4)
    ++ (b'-' ∷ hex (read16 m (guid + 6)) 4)
    ++ (b'-' ∷ hex_bytes 2 (guid + 8) m)
    ++ (b'-' ∷ hex_bytes 6 (guid + 10) m)
    ++ (b'}' ∷ [])

unfoldable pub rtl_string_from_guid : (arena fuel guid output : ℕ) → Heap → Option (ℕ × Heap)
rtl_string_from_guid arena fuel guid output h =
    let text = guid_text guid h.memory in
    elim (guest_alloc_bytes arena fuel (length text * 2 + 2) h) [
      | none ↦ none
      | some (buffer, h') ↦
          let m = write_guest_wide_string buffer text h'.memory in
          let m = write16 m output (length text * 2) in
          let m = write16 m (output + 2) (length text * 2 + 2) in
          some (0, record h' { memory = write64 m (output + 8) buffer })
    ]
