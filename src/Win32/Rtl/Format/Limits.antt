-- ===== src/Win32/Rtl/Format/Limits.antt =====
-- What snprintf writes into a buffer of a given size.
use windows_10_js.Prelude.{
  ℕ, zero, suc, ◌+◌, ◌-◌, ◌%◌, ◌≡◌, ◌≤◌, ◌<◌, refl, sym, ap, ◌∙◌, false, some, List, [], ◌∷◌, ◌++◌,
  length, length-append, min, ◌==◌, arith,
}
use windows_10_js.Hal.Memory.{Memory, read8, write8}
use windows_10_js.Hal.Memory.Cells.{Apart, read8-write8_outside}
use windows_10_js.Win32.GuestStrings.{
  Text, read_guest_c_string, write_guest_bytes, max_guest_string_chars,
}
use windows_10_js.Win32.GuestStrings.Reading.{AllCharacters}
use windows_10_js.Win32.Rtl.CText.{slice, write_c_string}
use windows_10_js.Win32.Rtl.CText.RoundTrip.{written-read}
use windows_10_js.Win32.Rtl.Format.{format_guest_text, writable, write_limited, snprintf}

write_guest_bytes-append :
    (a v : ℕ) (bytes : List ℕ) (m : Memory)
    → write8 (write_guest_bytes a bytes m) (a + length bytes) v
      ≡ write_guest_bytes a (bytes ++ v ∷ []) m
unfolding write_guest_bytes
write_guest_bytes-append a v [] m =
    let here : a + 0 ≡ a = omega arith in ap (λ b. write8 m b v) here
write_guest_bytes-append a v (b ∷ bytes) m =
    let next : a + suc (length bytes) ≡ a + 1 + length bytes = omega arith in
    ap (λ x. write8 (write_guest_bytes (a + 1) bytes (write8 m a b)) x v) next
    ∙ write_guest_bytes-append (a + 1) v bytes (write8 m a b)

write_guest_bytes-outside :
    (a x : ℕ) (bytes : List ℕ) (m : Memory)
    → Apart a (length bytes) x 1
    → read8 (write_guest_bytes a bytes m) x ≡ read8 m x
unfolding write_guest_bytes
write_guest_bytes-outside a x [] m h = refl
write_guest_bytes-outside a x (b ∷ bytes) m h =
    write_guest_bytes-outside (a + 1) x bytes (write8 m a b) (omega arith)
    ∙ read8-write8_outside m a b x (omega arith)

slice-min : (n : ℕ) (text : Text) → slice (min (length text) n) text ≡ slice n text
unfolding slice
slice-min zero text =
    let none_left : min (length text) 0 ≡ 0 = omega arith in ap (λ k. slice k text) none_left
slice-min (suc n) [] =
    let none_left : min 0 (suc n) ≡ 0 = omega arith in ap (λ k. slice k []) none_left
slice-min (suc n) (c ∷ text) =
    let one_more : min (suc (length text)) (suc n) ≡ suc (min (length text) n) = omega arith in
    ap (λ k. slice k (c ∷ text)) one_more ∙ ap (λ rest. c ∷ rest) (slice-min n text)

length-slice : (n : ℕ) (text : Text) → length (slice n text) ≡ min (length text) n
unfolding slice
length-slice zero text = omega arith
length-slice (suc n) [] = omega arith
length-slice (suc n) (c ∷ text) = omega (arith, length-slice n text)

slice-AllCharacters : (n : ℕ) (text : Text) → AllCharacters text → AllCharacters (slice n text)
unfolding slice AllCharacters
slice-AllCharacters zero text all = tt
slice-AllCharacters (suc n) [] all = tt
slice-AllCharacters (suc n) (c ∷ text) (pos, small, all) =
    (pos, small, slice-AllCharacters n text all)

writable-min :
    (size : ℕ) (text : Text)
    → 0 < size
    → size < 0x1_0000_0000
    → writable size text ≡ some (min (length text) (size - 1))
unfolding writable
writable-min size text pos small =
    let kept : size % 0x1_0000_0000 ≡ size = omega arith in
    let given : (size % 0x1_0000_0000 == 0) ≡ false = ground arith in
    rw (writable, given) (ap (λ n. some (min (length text) (n - 1))) kept)

-- With a size that fits in 32 bits and is not 0, as much of the text as fits is written as a C text.
write_limited-slice :
    (buffer size : ℕ) (text : Text) (m : Memory)
    → 0 < size
    → size < 0x1_0000_0000
    → write_limited buffer size text m ≡ write_c_string buffer (slice (size - 1) text) m
unfolding write_limited write_c_string
write_limited-slice buffer size text m pos small =
    let count = min (length text) (size - 1) in
    rw (writable-min size text pos small, write_limited)
      (ap (λ t. write8 (write_guest_bytes buffer t m) (buffer + count) 0)
          (slice-min (size - 1) text)
        ∙ ap (λ n. write8 (write_guest_bytes buffer (slice (size - 1) text) m) (buffer + n) 0)
            (sym (length-slice (size - 1) text))
        ∙ write_guest_bytes-append buffer 0 (slice (size - 1) text) m)

-- snprintf with a size between 1 and 65536, whose format gives a text of characters without a
-- terminator: it answers the length of the whole text, the buffer has the first `size - 1`
-- characters of it as a C text, and no byte outside the `size` bytes of the buffer changes.
pub snprintf-slice :
    (buffer size format a : ℕ) (args : List ℕ) (pattern_text text : Text) (m : Memory)
    → read_guest_c_string format m ≡ some pattern_text
    → format_guest_text pattern_text args m ≡ some text
    → AllCharacters text
    → 0 < size
    → size ≤ max_guest_string_chars
    → Apart buffer size a 1
    → (m' : Memory) × (snprintf buffer size format args m ≡ some (length text, m'))
      × (read_guest_c_string buffer m' ≡ some (slice (size - 1) text))
      × (read8 m' a ≡ read8 m a)
unfolding snprintf
snprintf-slice buffer size format a args pattern_text text m found printed all pos short apart =
    let part = slice (size - 1) text in
    let fits = length-slice (size - 1) text in
    let bytes = length-append part (0 ∷ []) in
    let limited = write_limited-slice buffer size text m pos (omega arith) in
    (
      write_c_string buffer part m,
      rw (found, printed) (ap (λ m'. some (length text, m')) limited),
      written-read buffer part m (slice-AllCharacters (size - 1) text all) (omega arith),
      unfold write_c_string in write_guest_bytes-outside buffer a (part ++ 0 ∷ []) m (omega arith),
    )
