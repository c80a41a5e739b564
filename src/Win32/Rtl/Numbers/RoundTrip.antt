-- ===== src/Win32/Rtl/Numbers/RoundTrip.antt =====
-- A number that was printed is read back.
use native.Mathlib.Nat.{pow-suc}
use windows_10_js.Prelude.{
  ℕ, zero, suc, ◌+◌, ◌*◌, ◌/◌, ◌%◌, ◌^◌, ◌≡◌, ◌≤◌, ◌<◌, ◌⊎◌, inl, inr, refl, sym, ap, subst, ◌∙◌,
  Bool, true, false, ◌&&◌, some, [], ◌∷◌, arith, ltb, ltb→lt, Bool-cases, ◌==◌, if◌then◌else◌,
}
use windows_10_js.Win32.GuestStrings.{Text}
use windows_10_js.Win32.Rtl.Numbers.{
  is_space, trim_start, trim_end, digit_value, digits_from, parse_digits, is_prefixed, starts_minus,
  starts_plus, parse_int, effective, stored, signed_integer, drop, by_sign, integer_of_text, digit,
  digits_onto, text_of_integer,
}

-- Division by the bases that both handlers take.
record IsBase (base : ℕ) : Type 0 where
  smallest : 2 ≤ base
  largest : base ≤ 16
  divided : (n : ℕ) → n / base * base + n % base ≡ n
  remainder : (n : ℕ) → n % base < base
  halved : (n : ℕ) → n / base ≤ n / 2

and_false : (b : Bool) → (b && false) ≡ false
and_false true = refl
and_false false = refl

-- All characters are digits of the base.
abbrev AllDigits : (base : ℕ) → Text → Type 0
AllDigits base [] = Unit {0}
AllDigits base (c ∷ text) = ((d : ℕ) × (d < base) × (c ≡ digit d)) × AllDigits base text

IsBase-bases : (base : ℕ) → ((base ≡ 2) ⊎ (base ≡ 8)) ⊎ ((base ≡ 10) ⊎ (base ≡ 16)) → IsBase base
IsBase-bases base which = elim which [
  | inl (inl e) ↦ subst IsBase (sym e) (record {
    smallest = omega arith;
    largest = omega arith;
    divided = λ n. omega arith;
    remainder = λ n. omega arith;
    halved = λ n. omega arith;
  })
  | inl (inr e) ↦ subst IsBase (sym e) (record {
    smallest = omega arith;
    largest = omega arith;
    divided = λ n. omega arith;
    remainder = λ n. omega arith;
    halved = λ n. omega arith;
  })
  | inr (inl e) ↦ subst IsBase (sym e) (record {
    smallest = omega arith;
    largest = omega arith;
    divided = λ n. omega arith;
    remainder = λ n. omega arith;
    halved = λ n. omega arith;
  })
  | inr (inr e) ↦ subst IsBase (sym e) (record {
    smallest = omega arith;
    largest = omega arith;
    divided = λ n. omega arith;
    remainder = λ n. omega arith;
    halved = λ n. omega arith;
  })
]

digit_value-digit : (d : ℕ) → d < 16 → digit_value (digit d) ≡ d
unfolding digit_value digit
digit_value-digit d small = ground arith

module _ (base : ℕ) (is_base : IsBase base) where
  digits_from-digit :
      (d : ℕ) (tail : Text) (acc value : ℕ)
      → d < base
      → acc * base + d ≡ value
      → digits_from base (digit d ∷ tail) acc ≡ digits_from base tail value
  unfolding digits_from
  digits_from-digit d tail acc value small step =
      let read = digit_value-digit d (let h = is_base.largest in omega arith) in
      let hit : ltb d base ≡ true = ground arith in rw read (rw (hit, step) refl)

  digits_onto-value :
      (fuel n : ℕ) (tail : Text)
      → n < 2 ^ suc fuel
      → digits_from base (digits_onto fuel base n tail) 0 ≡ digits_from base tail n
  unfolding digits_onto
  digits_onto-value zero n tail small =
      digits_from-digit n tail 0 n (let h = is_base.smallest in omega arith) (omega arith)
  digits_onto-value (suc fuel) n tail small = elim (Bool-cases (ltb n base)) [
    | inl hit ↦ rw hit (digits_from-digit n tail 0 n (ltb→lt n base hit) (omega arith))
    | inr miss ↦ rw miss (
        digits_onto-value fuel (n / base) (digit (n % base) ∷ tail)
          (let double = pow-suc 2 (suc fuel) in let half = is_base.halved n in omega arith)
        ∙ digits_from-digit (n % base) tail (n / base) n (is_base.remainder n) (is_base.divided n))
  ]

  -- The text is not empty, and all its characters are digits of the base.
  digits_onto-AllDigits :
      (fuel n : ℕ) (tail : Text)
      → n < 2 ^ suc fuel
      → AllDigits base tail
      → (d : ℕ) × (rest : Text) × (digits_onto fuel base n tail ≡ digit d ∷ rest)
        × (d < base)
        × AllDigits base rest
  unfolding digits_onto
  digits_onto-AllDigits zero n tail small rest =
      (n, tail, refl, (let h = is_base.smallest in omega arith), rest)
  digits_onto-AllDigits (suc fuel) n tail small rest = elim (Bool-cases (ltb n base)) [
    | inl hit ↦ (n, tail, rw hit refl, ltb→lt n base hit, rest)
    | inr miss ↦
        let (d, others, shape, below, all) =
          digits_onto-AllDigits fuel (n / base) (digit (n % base) ∷ tail)
            (let double = pow-suc 2 (suc fuel) in let half = is_base.halved n in omega arith)
            ((n % base, is_base.remainder n, refl), rest) in
        (d, others, rw miss shape, below, all)
  ]

  digit-is_space : (d : ℕ) → d < 16 → is_space (digit d) ≡ false
  unfolding is_space digit
  digit-is_space d small = ground arith

  trim_end-digits :
      (d : ℕ) (text : Text)
      → d < base
      → AllDigits base text
      → trim_end (digit d ∷ text) ≡ digit d ∷ text
  unfolding trim_end
  trim_end-digits d [] small all =
      rw (digit-is_space d (let h = is_base.largest in omega arith)) refl
  trim_end-digits d (c ∷ text) small ((e, below, it), all) =
      let rest : trim_end (c ∷ text) ≡ c ∷ text =
        subst (λ x. trim_end (x ∷ text) ≡ x ∷ text) (sym it) (trim_end-digits e text below all) in
      rw rest refl

  trim_start-digits :
      (d : ℕ) (text : Text) → d < base → trim_start (digit d ∷ text) ≡ digit d ∷ text
  unfolding trim_start
  trim_start-digits d text small =
      rw (digit-is_space d (let h = is_base.largest in omega arith)) refl

  starts_minus-digits : (d : ℕ) (text : Text) → d < base → starts_minus (digit d ∷ text) ≡ false
  unfolding starts_minus digit
  starts_minus-digits d text small = let h = is_base.largest in ground arith

  starts_plus-digits : (d : ℕ) (text : Text) → d < base → starts_plus (digit d ∷ text) ≡ false
  unfolding starts_plus digit
  starts_plus-digits d text small = let h = is_base.largest in ground arith

  is_prefixed-digits :
      (d : ℕ) (text : Text)
      → d < base
      → AllDigits base text
      → is_prefixed b'x' (digit d ∷ text) ≡ false
  unfolding is_prefixed
  is_prefixed-digits d [] small all = refl
  is_prefixed-digits d (c ∷ text) small ((e, below, it), all) =
      let h = is_base.largest in
      let first : (c == b'x') ≡ false =
        subst (λ x. (x == b'x') ≡ false) (sym it) (unfold digit in ground arith) in
      let second : (c + 0x20 == b'x') ≡ false =
        subst (λ x. (x + 0x20 == b'x') ≡ false) (sym it) (unfold digit in ground arith) in
      rw (first, second) (and_false (digit d == b'0'))

  parse_digits-digits :
      (d : ℕ) (text : Text)
      → d < base
      → parse_digits base (digit d ∷ text) ≡ some (digits_from base (digit d ∷ text) 0)
  unfolding parse_digits
  parse_digits-digits d text small =
      let read = digit_value-digit d (let h = is_base.largest in omega arith) in
      let hit : ltb d base ≡ true = ground arith in rw read (rw hit refl)

  parse_int-digits :
      (d : ℕ) (text : Text)
      → d < base
      → AllDigits base text
      → parse_int (digit d ∷ text) base ≡ some (false, digits_from base (digit d ∷ text) 0)
  unfolding parse_int
  parse_int-digits d text small all =
      let start = trim_start-digits d text small in
      let minus = starts_minus-digits d text small in
      let plus = starts_plus-digits d text small in
      let prefix = is_prefixed-digits d text small all in
      let low : ltb base 2 ≡ false = let h = is_base.smallest in ground arith in
      let high : ltb 36 base ≡ false = let h = is_base.largest in ground arith in
      let read = parse_digits-digits d text small in
      rw start (
        rw (minus, plus)
          (rw (prefix, and_false (base == 16)) (rw (low, high, read) (rw (start, minus) refl))))

  effective-given : (text : Text) → effective text (base % 0x1_0000_0000) ≡ (text, base)
  unfolding effective
  effective-given text =
      let kept : base % 0x1_0000_0000 ≡ base = let h = is_base.largest in omega arith in
      let given : (base == 0) ≡ false = let h = is_base.smallest in ground arith in
      rw kept (rw given refl)

  signed_integer-digits :
      (d : ℕ) (text : Text)
      → d < base
      → AllDigits base text
      → signed_integer false (digit d ∷ text) base
        ≡ some (digits_from base (digit d ∷ text) 0 % 0x1_0000_0000)
  unfolding signed_integer
  signed_integer-digits d text small all =
      ap (λ chosen. stored false (parse_int chosen.0 chosen.1)) (effective-given (digit d ∷ text))
      ∙ ap (stored false) (parse_int-digits d text small all)

  integer_of_text-digits :
      (d : ℕ) (text : Text)
      → d < base
      → AllDigits base text
      → integer_of_text (digit d ∷ text) base
        ≡ some (digits_from base (digit d ∷ text) 0 % 0x1_0000_0000)
  unfolding integer_of_text by_sign
  integer_of_text-digits d text small all =
      let trimmed : trim_start (trim_end (digit d ∷ text)) ≡ digit d ∷ text =
        ap trim_start (trim_end-digits d text small all) ∙ trim_start-digits d text small in
      let choose = λ (minus : Bool).
        if minus
        then signed_integer true (drop 1 (digit d ∷ text)) base
        else signed_integer false (digit d ∷ text) base in
      ap (λ t. by_sign t base) trimmed
      ∙ ap choose (starts_minus-digits d text small)
      ∙ signed_integer-digits d text small all

  printed-read :
      (value : ℕ) → integer_of_text (text_of_integer value base) base ≡ some (value % 0x1_0000_0000)
  unfolding text_of_integer
  printed-read value =
      let number = value % 0x1_0000_0000 in
      let (d, rest, shape, below, all) = digits_onto-AllDigits 31 number [] (omega arith) tt in
      let read = digits_onto-value 31 number [] (omega arith) in
      let back : digits_from base (digit d ∷ rest) 0 ≡ number =
        ap (λ text. digits_from base text 0) (sym shape) ∙ read ∙ (unfold digits_from in refl) in
      rw shape (integer_of_text-digits d rest below all ∙ rw back (ap some (omega arith)))

-- For the bases 2, 8, 10 and 16: the text that RtlIntegerToUnicodeString makes of a 32-bit value is
-- one that RtlUnicodeStringToInteger reads back as this value, with the same base.
pub text_of_integer-integer_of_text :
    (value base : ℕ)
    → ((base ≡ 2) ⊎ (base ≡ 8)) ⊎ ((base ≡ 10) ⊎ (base ≡ 16))
    → value < 0x1_0000_0000
    → integer_of_text (text_of_integer value base) base ≡ some value
text_of_integer-integer_of_text value base which small =
    printed-read base (IsBase-bases base which) value ∙ ap some (omega arith)
