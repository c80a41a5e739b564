-- ===== src/Win32/GuestStrings/Reading.antt =====
-- Reading back what was written.
use windows_10_js.Prelude.{
  ℕ, zero, suc, ◌+◌, ◌≡◌, ◌∙◌, ◌<◌, ◌≤◌, ◌⊎◌, inl, inr, refl, false, Bool-cases, Option-cases,
  subst, none, some, List, [], ◌∷◌, ◌++◌, length, arith, ◌==◌,
}
use windows_10_js.Hal.Memory.{Memory, read8, write8}
use windows_10_js.Hal.Memory.Cells.{read8-write8_same, read8-write8_outside, read8-lt}
use windows_10_js.Win32.GuestStrings.{Text, c_string_from, write_guest_bytes}

-- The bytes of the list stand in memory from `a` on.
unfoldable pub Holds : Memory → ℕ → List ℕ → Type 0
Holds m a [] = Unit {0}
Holds m a (b ∷ bs) = (read8 m a ≡ b) × Holds m (a + 1) bs

-- Characters of C strings: bytes but 0.
unfoldable pub AllCharacters : Text → Type 0
AllCharacters [] = Unit {0}
AllCharacters (c ∷ text) = (0 < c) × (c < 256) × AllCharacters text

pub read8-write_guest_bytes_outside :
    (bs : List ℕ) (dest a : ℕ) (m : Memory)
    → (a < dest) ⊎ (dest + length bs ≤ a)
    → read8 (write_guest_bytes dest bs m) a ≡ read8 m a
unfolding write_guest_bytes
read8-write_guest_bytes_outside [] dest a m h = refl
read8-write_guest_bytes_outside (b ∷ bs) dest a m h =
    read8-write_guest_bytes_outside bs (dest + 1) a (write8 m dest b) (omega arith)
    ∙ read8-write8_outside m dest b a (omega arith)

abbrev pub AllBytes : List ℕ → Type 0
AllBytes [] = Unit {0}
AllBytes (b ∷ bs) = (b < 256) × AllBytes bs

pub write_guest_bytes-Holds :
    (bs : List ℕ) (dest : ℕ) (m : Memory)
    → AllBytes bs
    → Holds (write_guest_bytes dest bs m) dest bs
unfolding write_guest_bytes Holds
write_guest_bytes-Holds [] dest m h = tt
write_guest_bytes-Holds (b ∷ bs) dest m (small, h) = (
  read8-write_guest_bytes_outside bs (dest + 1) dest (write8 m dest b) (omega arith)
      ∙ read8-write8_same m dest b
      ∙ (omega arith),
  write_guest_bytes-Holds bs (dest + 1) (write8 m dest b) h,
)

-- A text and its terminator in memory are read as that text.
pub c_string_from-Holds :
    (text : Text) (left a : ℕ) (m : Memory)
    → AllCharacters text
    → Holds m a (text ++ 0 ∷ [])
    → length text ≤ left
    → c_string_from left a m ≡ some text
unfolding c_string_from Holds AllCharacters
c_string_from-Holds [] zero a m chars (end, rest) h = rw end refl
c_string_from-Holds [] (suc left) a m chars (end, rest) h = rw end refl
c_string_from-Holds (c ∷ text) zero a m chars held h = absurd (omega arith)
c_string_from-Holds (c ∷ text) (suc left) a m (pos, small, chars) (here, held) h =
    let rest = c_string_from-Holds text left (a + 1) m chars held (omega arith) in
    let nonzero : (c == 0) ≡ false = ground arith in rw (here, nonzero, rest) refl

some_inj : {A : Type 0} {a b : A} → some a ≡ some b → a ≡ b
some_inj h = cc

none-some : {A : Type 0} {a : A} → none ≡ some a → ⊥
none-some h = cc

-- What was read as a text consists of characters, no more than the guard lets pass.
pub c_string_from-AllCharacters :
    (left a : ℕ) (m : Memory) (text : Text)
    → c_string_from left a m ≡ some text
    → AllCharacters text × (length text ≤ left)
unfolding c_string_from AllCharacters
c_string_from-AllCharacters zero a m text h = elim (Bool-cases (read8 m a == 0)) [
  | inl end ↦
      let read : some [] ≡ some text = rw end at h in
      subst (λ t. AllCharacters t × (length t ≤ 0)) (some_inj read) (tt, omega arith)
  | inr more ↦ let read : none ≡ some text = rw more at h in absurd (none-some read)
]
c_string_from-AllCharacters (suc left) a m text h = elim (Bool-cases (read8 m a == 0)) [
  | inl end ↦
      let read : some [] ≡ some text = rw end at h in
      subst (λ t. AllCharacters t × (length t ≤ suc left)) (some_inj read) (tt, omega arith)
  | inr more ↦ elim (Option-cases (c_string_from left (a + 1) m)) [
    | inl stuck ↦ let read : none ≡ some text = rw (more, stuck) at h in absurd (none-some read)
    | inr (t, found) ↦
        let rest = c_string_from-AllCharacters left (a + 1) m t found in
        let read : some (read8 m a ∷ t) ≡ some text = rw (more, found) at h in
        let small = read8-lt m a in
        let pos : 0 < read8 m a = ground arith in
        subst (λ t. AllCharacters t × (length t ≤ suc left)) (some_inj read)
          ((pos, small, rest.0), omega arith)
  ]
]
