-- ===== src/Win32/Rtl/Numbers.antt =====
-- Numbers as texts in rtl.js: RtlUnicodeStringToInteger and RtlIntegerToUnicodeString, with
-- JavaScript's trim, parseInt and Number.prototype.toString as far as the handlers use them.
-- parseInt is exact here; the interpreter rounds results above 2 ^ 53.
pub mod RoundTrip
use windows_10_js.Prelude.{
  ℕ, zero, suc, ◌+◌, ◌-◌, ◌*◌, ◌/◌, ◌%◌, Bool, true, false, not, ◌&&◌, ◌||◌, Option, none, some,
  List, [], ◌∷◌, length, ◌==◌, ltb, leb, if◌then◌else◌,
}
use windows_10_js.Hal.Memory.{Memory, read16, read32, write16, write32}
use windows_10_js.Win32.GuestStrings.{Text, read_unicode_string, write_guest_wide_string}

-- White space and line terminators of JavaScript.
unfoldable pub is_space : ℕ → Bool
is_space c =
    (leb 9 c && leb c 13)
    || (c == 0x20)
    || (c == 0xA0)
    || (c == 0x1680)
    || (leb 0x2000 c && leb c 0x200A)
    || (c == 0x2028)
    || (c == 0x2029)
    || (c == 0x202F)
    || (c == 0x205F)
    || (c == 0x3000)
    || (c == 0xFEFF)

unfoldable pub trim_start : Text → Text
unfolding is_space
trim_start [] = []
trim_start (c ∷ text) = let rest = trim_start text in if is_space c then rest else c ∷ text

unfoldable pub trim_end : Text → Text
unfolding is_space
trim_end [] = []
trim_end (c ∷ text) = elim (trim_end text) [
  | [] ↦ if is_space c then [] else c ∷ []
  | d ∷ rest ↦ c ∷ d ∷ rest
]

-- 99 for a character that is no digit.
unfoldable pub digit_value : ℕ → ℕ
digit_value c =
    if leb 0x30 c && leb c 0x39
    then c - 0x30
    else if leb 0x61 c && leb c 0x7A
    then c - 0x57
    else if leb 0x41 c && leb c 0x5A
    then c - 0x37
    else 99

unfoldable pub digits_from : (base : ℕ) → Text → (value : ℕ) → ℕ
unfolding digit_value
digits_from base [] value = value
digits_from base (c ∷ text) value =
    let rest = digits_from base text (value * base + digit_value c) in
    if ltb (digit_value c) base then rest else value

-- `none` is NaN: no digit.
unfoldable pub parse_digits : (base : ℕ) → Text → Option ℕ
unfolding digit_value digits_from
parse_digits base [] = none
parse_digits base (c ∷ text) =
    if ltb (digit_value c) base then some (digits_from base (c ∷ text) 0) else none

-- Whether a text begins with `0` and the letter, which is in lower case here, in either case.
unfoldable pub is_prefixed : (letter : ℕ) → Text → Bool
is_prefixed letter (c ∷ d ∷ text) = (c == b'0') && ((d == letter) || (d + 0x20 == letter))
is_prefixed letter text = false

-- `text.slice(n)`
abbrev pub drop : ℕ → Text → Text
drop zero text = text
drop (suc n) [] = []
drop (suc n) (c ∷ text) = drop n text

unfoldable pub starts_minus : Text → Bool
starts_minus [] = false
starts_minus (c ∷ text) = c == b'-'

unfoldable pub starts_plus : Text → Bool
starts_plus [] = false
starts_plus (c ∷ text) = c == b'+'

-- `parseInt(text, radix)` for a radix other than 0, as a sign and a magnitude.
unfoldable pub parse_int : Text → (radix : ℕ) → Option (Bool × ℕ)
unfolding trim_start parse_digits is_prefixed starts_minus starts_plus
parse_int text radix =
    let text = trim_start text in
    let negative = starts_minus text in
    let text = if negative || starts_plus text then drop 1 text else text in
    let text = if (radix == 16) && is_prefixed b'x' text then drop 2 text else text in
    if ltb radix 2 || ltb 36 radix
    then none
    else elim (parse_digits radix text) [ none ↦ none | some value ↦ some (negative, value) ]

-- `/^0[0-7]/.test(text)`
unfoldable pub is_octal : Text → Bool
is_octal (c ∷ d ∷ text) = (c == b'0') && leb b'0' d && leb d b'7'
is_octal text = false

-- The base that the handler takes, and the text without the prefix that tells it.
unfoldable pub effective : Text → (base : ℕ) → Text × ℕ
unfolding is_prefixed is_octal
effective text base =
    if not (base == 0)
    then (text, base)
    else if is_prefixed b'x' text
    then (drop 2 text, 16)
    else if is_prefixed b'b' text
    then (drop 2 text, 2)
    else if is_prefixed b'o' text
    then (drop 2 text, 8)
    else if is_octal text
    then (drop 1 text, 8)
    else (text, 10)

abbrev pub negate : ℕ → ℕ
negate value = (0x1_0000_0000 - value % 0x1_0000_0000) % 0x1_0000_0000

abbrev pub differ : Bool → Bool → Bool
differ true b = not b
differ false b = b

abbrev pub stored : (negative : Bool) → Option (Bool × ℕ) → Option ℕ
stored negative none = none
stored negative (some (sign, value)) =
    some (if differ negative sign then negate value else value % 0x1_0000_0000)

-- The part of the handler behind the sign.
unfoldable pub signed_integer : (negative : Bool) → Text → (base : ℕ) → Option ℕ
signed_integer negative text base =
    let chosen = effective text (base % 0x1_0000_0000) in
    stored negative (parse_int chosen.0 chosen.1)

unfoldable pub by_sign : Text → (base : ℕ) → Option ℕ
by_sign text base =
    if starts_minus text
    then signed_integer true (drop 1 text) base
    else signed_integer false text base

-- The 32 bits that RtlUnicodeStringToInteger stores for a text, or `none` for NaN.
unfoldable pub integer_of_text : Text → (base : ℕ) → Option ℕ
integer_of_text text base = by_sign (trim_start (trim_end text)) base

unfoldable pub rtl_unicode_string_to_integer : (unicode base output : ℕ) → Memory → ℕ × Memory
rtl_unicode_string_to_integer unicode base output m =
    elim (integer_of_text (read_unicode_string unicode m) base) [
      | none ↦ (0xC000_000D, m)
      | some value ↦ (0, write32 m output value)
    ]

unfoldable pub digit : ℕ → ℕ
digit d = if ltb d 10 then 0x30 + d else 0x57 + d

-- The digits of a number in front of others, with fuel for each digit but the first.
unfoldable pub digits_onto : (fuel base n : ℕ) → Text → Text
unfolding digit
digits_onto zero base n tail = digit n ∷ tail
digits_onto (suc fuel) base n tail =
    let more = digits_onto fuel base (n / base) (digit (n % base) ∷ tail) in
    if ltb n base then digit n ∷ tail else more

-- `(value >>> 0).toString(base)`: 32 bits have 32 digits at most.
unfoldable pub text_of_integer : (value base : ℕ) → Text
unfolding digits_onto
text_of_integer value base = digits_onto 31 base (value % 0x1_0000_0000) []

unfoldable pub rtl_integer_to_unicode_string : (value base unicode : ℕ) → Memory → ℕ × Memory
unfolding text_of_integer
rtl_integer_to_unicode_string value base unicode m =
    let asked = base % 0x1_0000_0000 in
    let base = if asked == 0 then 10 else asked in
    let text = text_of_integer value base in
    let buffer = read32 m (unicode + 8) in
    if not ((base == 2) || (base == 8) || (base == 10) || (base == 16))
    then (0xC000_000D, m)
    else if ltb (read16 m (unicode + 2)) (2 * (length text + 1))
    then (0x8000_0005, m)
    else (0, write16 (write_guest_wide_string buffer text m) unicode (length text * 2))
