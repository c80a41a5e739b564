-- ===== src/Win32/Rtl/Unicode/Appending.antt =====
-- What is read from a UNICODE_STRING after a text was appended to it.
use windows_10_js.Prelude.{
  ℕ, zero, suc, ◌+◌, ◌*◌, ◌/◌, ◌≡◌, ◌<◌, ◌≤◌, refl, ap, ◌∙◌, ◌⊎◌, inl, inr, [], ◌∷◌, ◌++◌, length,
  ltb, ltb→lt, Bool-cases, arith,
}
use windows_10_js.Hal.Memory.{Memory, read16, read32, write16}
use windows_10_js.Hal.Memory.Cells.{
  Apart, read16-lt, read16-write16_same, read16-write16_outside, read32-write16_outside,
}
use windows_10_js.Win32.GuestStrings.{
  Text, read_units, read_unicode_string, write_units, write_guest_wide_string,
}
use windows_10_js.Win32.Rtl.Unicode.{
  status_buffer_overflow, write_text, append_to_unicode_string, rtl_append_unicode_string_to_string,
}

-- All units have 16 bits.
abbrev AllUnits : Text → Type 0
AllUnits [] = Unit {0}
AllUnits (c ∷ text) = (c < 65536) × AllUnits text

AllUnits-append : (a b : Text) → AllUnits a → AllUnits b → AllUnits (a ++ b)
AllUnits-append [] b ha hb = hb
AllUnits-append (c ∷ a) b (small, ha) hb = (small, AllUnits-append a b ha hb)

read_units-AllUnits : (n a : ℕ) (m : Memory) → AllUnits (read_units n a m)
unfolding read_units
read_units-AllUnits zero a m = tt
read_units-AllUnits (suc n) a m = (read16-lt m a, read_units-AllUnits n (a + 2) m)

read16-write_units :
    (a b : ℕ) (text : Text) (m : Memory)
    → Apart a (length text * 2) b 2
    → read16 (write_units a text m) b ≡ read16 m b
unfolding write_units
read16-write_units a b [] m h = refl
read16-write_units a b (c ∷ text) m h =
    read16-write_units (a + 2) b text (write16 m a c) (omega arith)
    ∙ read16-write16_outside m a c b (omega arith)

read32-write_units :
    (a b : ℕ) (text : Text) (m : Memory)
    → Apart a (length text * 2) b 4
    → read32 (write_units a text m) b ≡ read32 m b
unfolding write_units
read32-write_units a b [] m h = refl
read32-write_units a b (c ∷ text) m h =
    read32-write_units (a + 2) b text (write16 m a c) (omega arith)
    ∙ read32-write16_outside m a c b (omega arith)

read_units-write16 :
    (n a p v : ℕ) (m : Memory)
    → Apart a (n * 2) p 2
    → read_units n a (write16 m p v) ≡ read_units n a m
unfolding read_units
read_units-write16 zero a p v m h = refl
read_units-write16 (suc n) a p v m h =
    let first = read16-write16_outside m p v a (omega arith) in
    let rest = read_units-write16 n (a + 2) p v m (omega arith) in
    ap (λ c. c ∷ read_units n (a + 2) (write16 m p v)) first ∙ ap (λ text. read16 m a ∷ text) rest

read_units-write_units :
    (a : ℕ) (text : Text) (m : Memory)
    → AllUnits text
    → read_units (length text) a (write_units a text m) ≡ text
unfolding read_units write_units
read_units-write_units a [] m all = refl
read_units-write_units a (c ∷ text) m (small, all) =
    let m' = write16 m a c in
    let first : read16 (write_units (a + 2) text m') a ≡ c =
      read16-write_units (a + 2) a text m' (omega arith)
      ∙ read16-write16_same m a c
      ∙ omega arith in
    ap (λ d. d ∷ read_units (length text) (a + 2) (write_units (a + 2) text m')) first
    ∙ ap (λ rest. c ∷ rest) (read_units-write_units (a + 2) text m' all)

-- A text of 16-bit units that is short enough is read back from the string that it is written to.
write_text-read :
    (dest : ℕ) (text : Text) (m : Memory)
    → AllUnits text
    → length text * 2 < 65536
    → Apart (read32 m (dest + 8)) (length text * 2 + 2) dest 16
    → read_unicode_string dest (write_text dest (read32 m (dest + 8)) text m) ≡ text
unfolding read_unicode_string write_text write_guest_wide_string
write_text-read dest text m all short apart =
    let buffer = read32 m (dest + 8) in
    let m1 = write_units buffer text m in
    let m2 = write16 m1 (buffer + length text * 2) 0 in
    let m3 = write16 m2 dest (length text * 2) in
    let count : (read16 m3 dest + 1) / 2 ≡ length text =
      ap (λ n. (n + 1) / 2) (read16-write16_same m2 dest (length text * 2)) ∙ omega arith in
    let place : read32 m3 (dest + 8) ≡ buffer =
      read32-write16_outside m2 dest (length text * 2) (dest + 8) (omega arith)
      ∙ read32-write16_outside m1 (buffer + length text * 2) 0 (dest + 8) (omega arith)
      ∙ read32-write_units buffer (dest + 8) text m (omega arith) in
    ap (λ n. read_units n (read32 m3 (dest + 8)) m3) count
    ∙ ap (λ b. read_units (length text) b m3) place
    ∙ read_units-write16 (length text) buffer dest (length text * 2) m2 (omega arith)
    ∙ read_units-write16 (length text) buffer (buffer + length text * 2) 0 m1 (omega arith)
    ∙ read_units-write_units buffer text m all

-- Where the buffer of the destination, as far as both texts and a terminator reach, is apart from its
-- UNICODE_STRING: if the room has fewer bytes than both texts and a terminator,
-- RtlAppendUnicodeStringToString answers STATUS_BUFFER_OVERFLOW and changes nothing; if it has as
-- many, it answers 0, and the destination reads as its old text with the source's behind it, also
-- if the two overlap.
pub rtl_append_unicode_string_to_string-read :
    (dest src : ℕ) (m : Memory)
    → Apart
        (read32 m (dest + 8))
        (length (read_unicode_string dest m ++ read_unicode_string src m) * 2 + 2)
        dest
        16
    → (read16 m (dest + 2)
          < 2 * (length (read_unicode_string dest m ++ read_unicode_string src m) + 1))
        × (rtl_append_unicode_string_to_string dest src m ≡ (status_buffer_overflow, m))
      ⊎ ((m' : Memory) × (2 * (length (read_unicode_string dest m ++ read_unicode_string src m) + 1)
            ≤ read16 m (dest + 2))
          × (rtl_append_unicode_string_to_string dest src m ≡ (0, m'))
          × (read_unicode_string dest m' ≡ read_unicode_string dest m ++ read_unicode_string src m))
unfolding rtl_append_unicode_string_to_string append_to_unicode_string
rtl_append_unicode_string_to_string-read dest src m apart =
    let text = read_unicode_string dest m ++ read_unicode_string src m in
    let needed = 2 * (length text + 1) in
    let room = read16-lt m (dest + 2) in
    let all : AllUnits text =
      AllUnits-append (read_unicode_string dest m) (read_unicode_string src m)
        (unfold read_unicode_string in read_units-AllUnits _ _ m)
        (unfold read_unicode_string in read_units-AllUnits _ _ m) in
    elim (Bool-cases (ltb (read16 m (dest + 2)) needed)) [
      | inl short ↦ inl (ltb→lt (read16 m (dest + 2)) needed short, rw short refl)
      | inr fits ↦
          let enough : needed ≤ read16 m (dest + 2) = ground arith in
          inr (
            write_text dest (read32 m (dest + 8)) text m,
            enough,
            rw fits refl,
            write_text-read dest text m all (omega arith) apart,
          )
    ]
