-- ===== src/Tests/RtlTests.antt =====
-- The handlers of rtl.js on small inputs.
use windows_10_js.Prelude.{
  ◌++◌, ◌+◌, ◌*◌, ◌%◌, ◌<◌, ◌≤◌, length, ℕ, ◌/◌, ◌≡◌, ◌⊎◌, refl, [], ◌∷◌, some, arith, inl, inr,
}
use windows_10_js.Hal.Memory.Cells.{Apart}
use windows_10_js.Hal.Memory.{
  Memory, read16, read8, read32, read64, write8, write16, write32, write64,
}
use windows_10_js.Ke.Machine.{Machine, ok}
use windows_10_js.Win32.GuestStrings.{read_guest_c_string, c_string_from}
use windows_10_js.Win32.Rtl.Interlocked.{
  ex_interlocked_insert_tail_list, ex_interlocked_remove_head_list,
}
use windows_10_js.Win32.Rtl.Interlocked.Ring.{IsRing, Linked}
use windows_10_js.Win32.Rtl.Interlocked.Handlers.{IsReady, insert_tail-IsRing, remove_head-IsRing}
use windows_10_js.Win32.Rtl.BlockCopy.{rtl_move_memory, rtl_copy_memory}
use windows_10_js.Win32.Rtl.BlockCopy.Copies.{rtl_copy_memory-rtl_move_memory}
use windows_10_js.Win32.Rtl.TimeFields.{time_fields}
use windows_10_js.Win32.Rtl.TimeFields.Calendar.{take_date, days_after, time_fields-days_after}
use windows_10_js.Win32.Rtl.Version.{rtl_verify_version_info, ver_set_condition_mask}
use windows_10_js.Win32.Rtl.Version.Conditions.{ver_set_condition_mask-ignored}
use windows_10_js.Win32.Rtl.Bitmap.{rtl_find_clear_bits_and_set}
use windows_10_js.Win32.Rtl.Bitmap.Runs.{IsSearched, rtl_find_clear_bits_and_set-IsSearched}
use windows_10_js.Win32.Rtl.CText.{strcat, strlen}
use windows_10_js.Win32.Rtl.CText.RoundTrip.{strcat-read}
use windows_10_js.Win32.Rtl.Numbers.{integer_of_text, text_of_integer}
use windows_10_js.Win32.Rtl.Numbers.RoundTrip.{text_of_integer-integer_of_text}
use windows_10_js.Win32.Rtl.CText.{slice}
use windows_10_js.Win32.GuestStrings.Reading.{AllCharacters}
use windows_10_js.Win32.Rtl.Numbers.{digits_onto, digit}
use windows_10_js.Win32.Rtl.Format.{snprintf, format_guest_text, directive}
use windows_10_js.Win32.Rtl.Format.Limits.{snprintf-slice}
use windows_10_js.Win32.GuestStrings.{read_unicode_string, read_units}
use windows_10_js.Win32.Rtl.Unicode.{status_buffer_overflow, rtl_append_unicode_string_to_string}
use windows_10_js.Win32.Rtl.Unicode.Appending.{rtl_append_unicode_string_to_string-read}
use windows_10_js.Tests.Sample.{zeros, booted}

-- A ring at 0x2000 with the one entry 0x3000.
abbrev one_entry : Machine
one_entry = record booted {
  memory =
      write64 (write64 (write64 (write64 zeros 0x2000 0x3000) 0x2008 0x3000) 0x3000 0x2000) 0x3008
        0x2000;
}

one_entry-IsRing : IsRing one_entry.memory 0x2000 (0x3000 ∷ [])
unfolding Linked read64 write64 read32 write32 read8
one_entry-IsRing = (refl, refl, (refl, refl))

insert-IsReady : IsReady one_entry 0x4000 (0x5000 ∷ 0x2000 ∷ 0x3000 ∷ [])
unfolding read32 write64 write32 read8
insert-IsReady = record {
  level = omega arith;
  is_free = refl;
  cells_apart = omega arith;
  lock_clear = (omega arith, (omega arith, (omega arith, tt)));
  level_clear = (omega arith, (omega arith, (omega arith, tt)));
}

insert_tail-IsRing_example :
    (answer : ℕ) × (after : Machine) × (ex_interlocked_insert_tail_list 1 0x2000 0x5000 0x4000
        one_entry
      ≡ ok answer after)
    × IsRing after.memory 0x2000 (0x3000 ∷ 0x5000 ∷ [])
    × (read32 after.memory 0x4000 ≡ 0)
    × (after.irql ≡ 0)
insert_tail-IsRing_example =
    insert_tail-IsRing 0 0x2000 0x5000 0x4000 (0x3000 ∷ []) one_entry one_entry-IsRing
      ((omega arith, tt), (tt, tt)) (omega arith, (omega arith, tt)) (omega arith) (omega arith)
      insert-IsReady

remove-IsReady : IsReady one_entry 0x4000 (0x2000 ∷ 0x3000 ∷ [])
unfolding read32 write64 write32 read8
remove-IsReady = record {
  level = omega arith;
  is_free = refl;
  cells_apart = omega arith;
  lock_clear = (omega arith, (omega arith, tt));
  level_clear = (omega arith, (omega arith, tt));
}

remove_head-IsRing_example :
    (after : Machine) × (ex_interlocked_remove_head_list 1 0x2000 0x4000 one_entry
      ≡ ok 0x3000 after)
    × IsRing after.memory 0x2000 []
    × (read32 after.memory 0x4000 ≡ 0)
    × (after.irql ≡ 0)
remove_head-IsRing_example =
    remove_head-IsRing 0 0x2000 0x3000 0x4000 [] one_entry one_entry-IsRing
      ((omega arith, tt), (tt, tt)) (omega arith) remove-IsReady

rtl_copy_memory-rtl_move_memory_example :
    read8 (rtl_copy_memory 0x100 0x101 4 zeros) 0x102
    ≡ read8 (rtl_move_memory 0x100 0x101 4 zeros) 0x102
rtl_copy_memory-rtl_move_memory_example =
    rtl_copy_memory-rtl_move_memory 0x100 0x101 4 0x102 zeros (inl (omega arith))

-- One day and one unit.
time_fields-days_after_example :
    take_date (time_fields 864_000_000_001)
    ≡ some (days_after (1970, 1, 1) (864_000_000_001 / 864_000_000_000))
time_fields-days_after_example = time_fields-days_after 864_000_000_001

-- VER_GREATER_EQUAL (3) for VER_MAJORVERSION (2).
ver_set_condition_mask-ignored_example :
    rtl_verify_version_info 0x100 2 (ver_set_condition_mask 0 2 3) zeros ≡ 0
ver_set_condition_mask-ignored_example =
    ver_set_condition_mask-ignored 0x100 2 0 2 3 zeros refl (omega arith) (omega arith)

-- A bitmap of 8 bits whose byte stands at 0x6000.
abbrev eight_bits : Memory
eight_bits = write64 (write32 zeros 0x5000 8) 0x5008 0x6000

eight_bits-small : read32 eight_bits 0x5000 ≤ 0x8000_0000
unfolding read32 read16 read8 write64 write32 write16 write8
eight_bits-small = ground arith

rtl_find_clear_bits_and_set-IsSearched_example :
    IsSearched eight_bits
      (read64 eight_bits 0x5008)
      (2 % 0x1_0000_0000)
      (read32 eight_bits 0x5000)
      3
      (rtl_find_clear_bits_and_set 0x5000 3 2 eight_bits)
rtl_find_clear_bits_and_set-IsSearched_example =
    rtl_find_clear_bits_and_set-IsSearched 0x5000 3 2 eight_bits eight_bits-small

-- "ab" at 0x100, and "c" at 0x200.
abbrev two_texts : Memory
two_texts = write32 (write32 zeros 0x100 0x6261) 0x200 0x63

first_text : read_guest_c_string 0x100 two_texts ≡ some (b'a' ∷ b'b' ∷ [])
unfolding read_guest_c_string c_string_from read8 write32
first_text = refl

second_text : read_guest_c_string 0x200 two_texts ≡ some (b'c' ∷ [])
unfolding read_guest_c_string c_string_from read8 write32
second_text = refl

strcat-read_example :
    (m' : Memory) × (strcat 0x100 0x200 two_texts ≡ some (0x100, m'))
    × (read_guest_c_string 0x100 m' ≡ some (b'a' ∷ b'b' ∷ b'c' ∷ []))
    × (strlen 0x100 m' ≡ some 3)
strcat-read_example =
    strcat-read 0x100 0x200 (b'a' ∷ b'b' ∷ []) (b'c' ∷ []) two_texts first_text second_text
      (omega arith)

text_of_integer-integer_of_text_example :
    integer_of_text (text_of_integer 0xBEEF 16) 16 ≡ some 0xBEEF
text_of_integer-integer_of_text_example =
    text_of_integer-integer_of_text 0xBEEF 16 (inr (inr refl)) (omega arith)

-- "%u" at 0x100
abbrev one_format : Memory
one_format = write32 zeros 0x100 0x7525

format_read : read_guest_c_string 0x100 one_format ≡ some (b'%' ∷ b'u' ∷ [])
unfolding read_guest_c_string c_string_from read8 write32
format_read = refl

format_printed : format_guest_text (b'%' ∷ b'u' ∷ []) (42 ∷ []) one_format ≡ some (b'4' ∷ b'2' ∷ [])
unfolding format_guest_text directive text_of_integer digits_onto digit
format_printed = refl

forty_two-AllCharacters : AllCharacters (b'4' ∷ b'2' ∷ [])
unfolding AllCharacters
forty_two-AllCharacters = (omega arith, omega arith, (omega arith, omega arith, tt))

snprintf-slice_example :
    (m' : Memory) × (snprintf 0x200 2 0x100 (42 ∷ []) one_format ≡ some (2, m'))
    × (read_guest_c_string 0x200 m' ≡ some (slice 1 (b'4' ∷ b'2' ∷ [])))
    × (read8 m' 0x202 ≡ read8 one_format 0x202)
snprintf-slice_example =
    snprintf-slice 0x200 2 0x100 0x202 (42 ∷ []) (b'%' ∷ b'u' ∷ []) (b'4' ∷ b'2' ∷ []) one_format
      format_read format_printed forty_two-AllCharacters (omega arith) (omega arith)
      (inl (omega arith))

-- "a" with room for 8 bytes at 0x400, and "b" at 0x420.
abbrev two_strings : Memory
two_strings =
    write32
      (write32
        (write32 (write32 (write32 (write32 zeros 0x400 0x8_0002) 0x408 0x500) 0x500 0x61) 0x420
          0x2_0002)
        0x428 0x600)
      0x600 0x62

strings_read :
    read_unicode_string 0x400 two_strings ++ read_unicode_string 0x420 two_strings
    ≡ b'a' ∷ b'b' ∷ []
unfolding read_unicode_string read_units read16 read32 read8 write32
strings_read = refl

buffer-Apart :
    Apart
      (read32 two_strings 0x408)
      (length (read_unicode_string 0x400 two_strings ++ read_unicode_string 0x420 two_strings) * 2
        + 2)
      0x400
      16
unfolding read32 read8 write32
buffer-Apart = rw strings_read (inr (omega arith))

rtl_append_unicode_string_to_string-read_example :
    (read16 two_strings 0x402
        < 2
          * (length (read_unicode_string 0x400 two_strings ++ read_unicode_string 0x420 two_strings)
              + 1))
      × (rtl_append_unicode_string_to_string 0x400 0x420 two_strings
          ≡ (status_buffer_overflow, two_strings))
    ⊎ ((m' : Memory) × (2
            * (length
                  (read_unicode_string 0x400 two_strings ++ read_unicode_string 0x420 two_strings)
                + 1)
          ≤ read16 two_strings 0x402)
        × (rtl_append_unicode_string_to_string 0x400 0x420 two_strings ≡ (0, m'))
        × (read_unicode_string 0x400 m'
            ≡ read_unicode_string 0x400 two_strings ++ read_unicode_string 0x420 two_strings))
rtl_append_unicode_string_to_string-read_example =
    rtl_append_unicode_string_to_string-read 0x400 0x420 two_strings buffer-Apart
