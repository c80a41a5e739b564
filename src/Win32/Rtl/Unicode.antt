-- ===== src/Win32/Rtl/Unicode.antt =====
-- The handlers of rtl.js on UNICODE_STRING and ANSI_STRING: the length in bytes at 0, the room at 2
-- and the buffer at 8. `lower` and `upper` are toLowerCase and toUpperCase; `arena` and `fuel` are
-- the allocator's. `none` is a halted processor, or a search of the allocator that needs more fuel.
-- A handler answers its value, or its status, as 32 bits.
pub mod Appending
use windows_10_js.Prelude.{
  ℕ, zero, suc, ◌+◌, ◌*◌, ◌/◌, ◌%◌, Bool, not, ◌&&◌, ◌||◌, Option, none, some, [], ◌∷◌, ◌++◌,
  length, min, ◌==◌, ltb, if◌then◌else◌,
}
use windows_10_js.Prelude.TextMap.{same}
use windows_10_js.Hal.Memory.{Memory, read16, read32, read64, write16, write32, write64}
use windows_10_js.Win32.GuestHeap.{Heap, guest_alloc_bytes, guest_free_bytes}
use windows_10_js.Win32.GuestStrings.{
  Text, read_guest_c_string, read_guest_wide_string, read_unicode_string, read_ansi_string,
  write_string_fields, write_guest_wide_string, write_guest_bytes,
}
use windows_10_js.Win32.Rtl.BlockCopy.{copy_forward}
use windows_10_js.Win32.Rtl.CText.{Order, compare_texts, starts_with}

abbrev pub status_buffer_overflow : ℕ
status_buffer_overflow = 0x8000_0005

abbrev pub status_buffer_too_small : ℕ
status_buffer_too_small = 0xC000_0023

-- A handler: what it answers, and the guest's memory and heap afterwards.
abbrev pub Handler : Type 0 → Type 0
Handler A = Heap → Option (A × Heap)

infixl 5 ◌>>=◌
abbrev pub ◌>>=◌ : {A B : Type 0} → Handler A → (A → Handler B) → Handler B
(step >>= next) h = elim (step h) [ none ↦ none | some (a, h') ↦ next a h' ]

infixl 5 ◌>>◌
abbrev pub ◌>>◌ : {A B : Type 0} → Handler A → Handler B → Handler B
step >> next = step >>= λ _. next

abbrev pub answer : {A : Type 0} → A → Handler A
answer a h = some (a, h)

-- A reader of memory, one that can halt, and a writer.
abbrev pub reads : {A : Type 0} → (Memory → A) → Handler A
reads read h = some (read h.memory, h)

abbrev pub tries : {A : Type 0} → (Memory → Option A) → Handler A
tries read h = elim (read h.memory) [ none ↦ none | some a ↦ some (a, h) ]

abbrev pub writes : (Memory → Memory) → Handler (Unit {0})
writes write h = some (tt, record h { memory = write h.memory })

-- freeString
unfoldable pub free_string : ℕ → Memory → Memory
free_string pointer m =
    let buffer = read32 m (pointer + 8) in
    let m = if buffer == 0 then m else guest_free_bytes buffer m in
    let m = write16 m pointer 0 in
    let m = write16 m (pointer + 2) 0 in
    let m = write32 m (pointer + 8) 0 in write32 m (pointer + 12) 0

-- appendToUnicodeString, and the end of writeConvertedString.
unfoldable pub write_text : (dest buffer : ℕ) → Text → Memory → Memory
write_text dest buffer text m =
    write16 (write_guest_wide_string buffer text m) dest (length text * 2)

-- `newText.length + 1 > maxChars`, where `maxChars` is half of the room in bytes.
unfoldable pub append_to_unicode_string : (dest : ℕ) → Text → Memory → ℕ × Memory
append_to_unicode_string dest text m =
    if ltb (read16 m (dest + 2)) (2 * (length text + 1))
    then (status_buffer_overflow, m)
    else (0, write_text dest (read32 m (dest + 8)) text m)

unfoldable pub rtl_init_unicode_string : (output wide_string : ℕ) → Memory → Option (ℕ × Memory)
rtl_init_unicode_string output wide_string m =
    if wide_string == 0
    then some (0, write_string_fields output 0 0 0 m)
    else elim (read_guest_wide_string wide_string m) [
      | none ↦ none
      | some text ↦
          some (0, write_string_fields output (length text * 2) (length text * 2 + 2) wide_string m)
    ]

unfoldable pub rtl_init_ansi_string : (output c_string : ℕ) → Memory → Option (ℕ × Memory)
rtl_init_ansi_string output c_string m =
    if c_string == 0
    then some (0, write_string_fields output 0 0 0 m)
    else elim (read_guest_c_string c_string m) [
      | none ↦ none
      | some text ↦ some (0, write_string_fields output (length text) (length text + 1) c_string m)
    ]

-- RtlInitString writes the buffer as 64 bits, and leaves the 4 bytes of padding.
unfoldable pub rtl_init_string : (dest source : ℕ) → Memory → Option (ℕ × Memory)
rtl_init_string dest source m =
    let text = if source == 0 then some [] else read_guest_c_string source m in
    elim text [
      | none ↦ none
      | some text ↦
          let m = write16 m dest (length text) in
          let m = write16 m (dest + 2) (length text + 1) in
          some (0, write64 m (dest + 8) (source % 0x1_0000_0000))
    ]

-- The copy loop reads each unit after the ones before it were written.
unfoldable pub copy_units : (count dest src : ℕ) → Memory → Memory
copy_units zero dest src m = m
copy_units (suc count) dest src m =
    copy_units count (dest + 2) (src + 2) (write16 m dest (read16 m src))

unfoldable pub rtlx_ansi_string_to_unicode_size : ℕ → Memory → ℕ
rtlx_ansi_string_to_unicode_size string m = (read16 m string + 1) * 2

module _ (lower upper : Text → Text) where
  -- `if (caseInsensitive) text.toLowerCase()`
  abbrev folded : (case_insensitive : ℕ) → Text → Text
  folded case_insensitive text = if case_insensitive == 0 then text else lower text

  unfoldable pub rtl_compare_unicode_string : (a b case_insensitive : ℕ) → Memory → Order
  rtl_compare_unicode_string a b case_insensitive m =
      compare_texts (folded case_insensitive (read_unicode_string a m))
        (folded case_insensitive (read_unicode_string b m))

  unfoldable pub rtl_equal_unicode_string : (a b case_insensitive : ℕ) → Memory → Bool
  rtl_equal_unicode_string a b case_insensitive m =
      same (folded case_insensitive (read_unicode_string a m))
        (folded case_insensitive (read_unicode_string b m))

  unfoldable pub rtl_equal_string : (a b case_insensitive : ℕ) → Memory → Bool
  rtl_equal_string a b case_insensitive m =
      same (folded case_insensitive (read_ansi_string a m))
        (folded case_insensitive (read_ansi_string b m))

  unfoldable pub rtl_prefix_unicode_string : (prefix text case_insensitive : ℕ) → Memory → Bool
  rtl_prefix_unicode_string prefix text case_insensitive m =
      starts_with (folded case_insensitive (read_unicode_string prefix m))
        (folded case_insensitive (read_unicode_string text m))

unfoldable pub rtl_append_unicode_string_to_string : (dest src : ℕ) → Memory → ℕ × Memory
rtl_append_unicode_string_to_string dest src m =
    append_to_unicode_string dest (read_unicode_string dest m ++ read_unicode_string src m) m

unfoldable pub rtl_append_unicode_to_string : (dest wide_string : ℕ) → Memory → Option (ℕ × Memory)
rtl_append_unicode_to_string dest wide_string m = elim (read_guest_wide_string wide_string m) [
  | none ↦ none
  | some suffix ↦ some (append_to_unicode_string dest (read_unicode_string dest m ++ suffix) m)
]

module _ (arena fuel : ℕ) where
  abbrev alloc : ℕ → Handler ℕ
  alloc size = guest_alloc_bytes arena fuel size

  -- `allocate || !buffer`
  abbrev needs_buffer : (allocate buffer : ℕ) → Bool
  needs_buffer allocate buffer = not (allocate == 0) || (buffer == 0)

  unfoldable pub write_converted_string : (dest : ℕ) → Text → (allocate : ℕ) → Handler ℕ
  write_converted_string dest text allocate = do
    old ← reads (λ m. read32 m (dest + 8))
    room ← reads (λ m. read16 m (dest + 2))
    let fresh = (do
      buffer ← alloc (length text * 2 + 2)
      writes (λ m.
          write16 (write32 (write32 m (dest + 8) buffer) (dest + 12) 0) (dest + 2)
            (length text * 2 + 2))
      writes (write_text dest buffer text)
      answer 0)
    let reused = (do writes (write_text dest old text); answer 0)
    let short = ltb room (length text * 2 + 2)
    (if needs_buffer allocate old
        then fresh
        else if short
        then answer status_buffer_overflow
        else reused)

  unfoldable pub rtl_upcase_unicode_string :
      (upper : Text → Text) → (dest src allocate : ℕ) → Handler ℕ
  rtl_upcase_unicode_string upper dest src allocate = do
    text ← reads (read_unicode_string src)
    write_converted_string dest (upper text) allocate

  unfoldable pub rtl_downcase_unicode_string :
      (lower : Text → Text) → (dest src allocate : ℕ) → Handler ℕ
  rtl_downcase_unicode_string lower dest src allocate = do
    text ← reads (read_unicode_string src)
    write_converted_string dest (lower text) allocate

  -- `srcChars` and `maxChars` are halves of lengths in bytes, and may end in a half.
  unfoldable pub rtl_copy_unicode_string : (dest src : ℕ) → Handler ℕ
  rtl_copy_unicode_string dest src = do
    src_bytes ← reads (λ m. read16 m src)
    src_buffer ← reads (λ m. read32 m (src + 8))
    max_bytes ← reads (λ m. read16 m (dest + 2))
    old ← reads (λ m. read32 m (dest + 8))
    let copy_bytes = min src_bytes max_bytes
    let fresh = (do
      buffer ← alloc max_bytes
      writes (λ m. write32 (write32 m (dest + 8) buffer) (dest + 12) 0)
      answer buffer)
    buffer ← (if (old == 0) && ltb 0 max_bytes then fresh else answer old)
    writes (λ m. if buffer == 0 then m else copy_units ((copy_bytes + 1) / 2) buffer src_buffer m)
    writes (λ m. write16 m dest copy_bytes)
    answer 0

  unfoldable pub rtl_ansi_string_to_unicode_string : (unicode ansi allocate : ℕ) → Handler ℕ
  rtl_ansi_string_to_unicode_string unicode ansi allocate = do
    ansi_buffer ← reads (λ m. read32 m (ansi + 8))
    text ← tries (read_guest_c_string ansi_buffer)
    old ← reads (λ m. read32 m (unicode + 8))
    buffer ← (if needs_buffer allocate old then alloc (length text * 2 + 2) else answer old)
    writes (write_guest_wide_string buffer text)
    writes (write_string_fields unicode (length text * 2) (length text * 2 + 2) buffer)
    answer 0

  unfoldable pub rtl_unicode_string_to_ansi_string : (ansi unicode allocate : ℕ) → Handler ℕ
  rtl_unicode_string_to_ansi_string ansi unicode allocate = do
    text ← reads (read_unicode_string unicode)
    old ← reads (λ m. read32 m (ansi + 8))
    buffer ← (if needs_buffer allocate old then alloc (length text + 1) else answer old)
    writes (write_guest_bytes buffer (text ++ 0 ∷ []))
    writes (write_string_fields ansi (length text) (length text + 1) buffer)
    answer 0

  unfoldable pub rtl_duplicate_unicode_string : (allocate source dest : ℕ) → Handler ℕ
  rtl_duplicate_unicode_string allocate source dest = do
    bytes ← reads (λ m. read16 m source)
    source_buffer ← reads (λ m. read64 m (source + 8))
    let finish = λ (buffer : ℕ). (do
      writes (copy_forward bytes buffer source_buffer)
      writes (λ m. write64 (write16 m dest bytes) (dest + 8) buffer)
      answer 0)
    room ← reads (λ m. read16 m (dest + 2))
    old ← reads (λ m. read64 m (dest + 8))
    let fresh = (do
      buffer ← alloc (bytes + 2)
      writes (λ m. write16 m (dest + 2) (bytes + 2))
      finish buffer)
    (if not (allocate == 0)
        then fresh
        else if ltb room bytes
        then answer status_buffer_too_small
        else finish old)
