-- ===== src/Win32/Rtl/CText/RoundTrip.antt =====
-- Copies of texts.
use windows_10_js.Prelude.{
  ℕ, ◌+◌, ◌≡◌, ◌≤◌, refl, some, [], ◌∷◌, ◌++◌, length, length-append, arith,
}
use windows_10_js.Hal.Memory.{Memory}
use windows_10_js.Win32.GuestStrings.{
  Text, max_guest_string_chars, read_guest_c_string, write_guest_bytes,
}
use windows_10_js.Win32.GuestStrings.Reading.{
  AllCharacters, AllBytes, write_guest_bytes-Holds, c_string_from-Holds,
  c_string_from-AllCharacters,
}
use windows_10_js.Win32.Rtl.CText.{write_c_string, strcat, strlen}

AllBytes-AllCharacters : (text : Text) → AllCharacters text → AllBytes (text ++ 0 ∷ [])
unfolding AllCharacters
AllBytes-AllCharacters [] h = (omega arith, tt)
AllBytes-AllCharacters (c ∷ text) (pos, small, h) = (small, AllBytes-AllCharacters text h)

AllCharacters-append : (a b : Text) → AllCharacters a → AllCharacters b → AllCharacters (a ++ b)
unfolding AllCharacters
AllCharacters-append [] b ha hb = hb
AllCharacters-append (c ∷ a) b (pos, small, ha) hb = (pos, small, AllCharacters-append a b ha hb)

pub written-read :
    (dest : ℕ) (text : Text) (m : Memory)
    → AllCharacters text
    → length text ≤ max_guest_string_chars
    → read_guest_c_string dest (write_c_string dest text m) ≡ some text
unfolding read_guest_c_string write_c_string
written-read dest text m chars short =
    c_string_from-Holds text max_guest_string_chars dest (write_guest_bytes dest (text ++ 0 ∷ []) m)
      chars (write_guest_bytes-Holds (text ++ 0 ∷ []) dest m (AllBytes-AllCharacters text chars))
      short

-- After strcat, where the two texts together are no longer than the guard lets a reader read, the
-- destination has the old text with the other behind it, also if source and destination overlap.
pub strcat-read :
    (dest src : ℕ) (a b : Text) (m : Memory)
    → read_guest_c_string dest m ≡ some a
    → read_guest_c_string src m ≡ some b
    → length a + length b ≤ max_guest_string_chars
    → (m' : Memory) × (strcat dest src m ≡ some (dest, m'))
      × (read_guest_c_string dest m' ≡ some (a ++ b))
      × (strlen dest m' ≡ some (length a + length b))
unfolding strcat strlen
strcat-read dest src a b m ha hb short =
    let chars =
      AllCharacters-append a b
        (c_string_from-AllCharacters max_guest_string_chars dest m a
          (unfold read_guest_c_string in ha)).0
        (c_string_from-AllCharacters max_guest_string_chars src m b
          (unfold read_guest_c_string in hb)).0 in
    let both = length-append a b in
    let back = written-read dest (a ++ b) m chars (omega arith) in
    (write_c_string dest (a ++ b) m, rw (ha, hb) refl, back, rw (back, both) refl)
