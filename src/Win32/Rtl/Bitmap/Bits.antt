-- ===== src/Win32/Rtl/Bitmap/Bits.antt =====
-- The bits of a number.
use native.Mathlib.Nat.{pow-suc, pow-succ', div-div-eq-div-mul}
use windows_10_js.Prelude.{
  ℕ, zero, suc, ◌+◌, ◌/◌, ◌%◌, ◌^◌, ◌≡◌, ◌∙◌, ◌<◌, sym, arith, ◌==◌, if◌then◌else◌,
}

-- Bit `i` of `w`.
unfoldable pub bit : ℕ → ℕ → ℕ
bit w i = w / 2 ^ i % 2

-- The same by recursion.
half_bit : ℕ → ℕ → ℕ
half_bit w zero = w % 2
half_bit w (suc i) = half_bit (w / 2) i

bit-half_bit : (w i : ℕ) → bit w i ≡ half_bit w i
unfolding bit half_bit
bit-half_bit w zero = omega arith
bit-half_bit w (suc i) =
    rw (pow-succ' 2 i, ← div-div-eq-div-mul w 2 (2 ^ i)) (bit-half_bit (w / 2) i)

half_bit-set :
    (w k j : ℕ) → half_bit w k ≡ 0 → half_bit (w + 2 ^ k) j ≡ (if j == k then 1 else half_bit w j)
unfolding half_bit
half_bit-set w zero zero h = omega arith
half_bit-set w zero (suc j) h =
    let same : (w + 2 ^ 0) / 2 ≡ w / 2 = omega arith in rw same (ground arith)
half_bit-set w (suc k) zero h = rw (pow-suc 2 k) (ground arith)
half_bit-set w (suc k) (suc j) h =
    let halved : (w + 2 ^ suc k) / 2 ≡ w / 2 + 2 ^ k = rw (pow-suc 2 k) (omega arith) in
    rw halved (ground (arith, half_bit-set (w / 2) k j h))

half_bit-small : (n w k : ℕ) → k < n → w < 2 ^ n → half_bit w k ≡ 0 → w + 2 ^ k < 2 ^ n
unfolding half_bit
half_bit-small zero w k h hw hb = absurd (omega arith)
half_bit-small (suc n) w zero h hw hb = let twice = pow-suc 2 n in omega arith
half_bit-small (suc n) w (suc k) h hw hb =
    let twice = pow-suc 2 n in
    let twice' = pow-suc 2 k in
    let rest = half_bit-small n (w / 2) k (omega arith) (omega arith) hb in omega arith

-- Adding the weight of a clear bit sets it, and no other.
pub bit-set : (w k j : ℕ) → bit w k ≡ 0 → bit (w + 2 ^ k) j ≡ (if j == k then 1 else bit w j)
bit-set w k j h =
    rw (bit-half_bit (w + 2 ^ k) j, bit-half_bit w j)
      (half_bit-set w k j (sym (bit-half_bit w k) ∙ h))

-- In a word of 32 bits it makes no carry out of the word.
pub bit-small : (w k : ℕ) → k < 32 → w < 0x1_0000_0000 → bit w k ≡ 0 → w + 2 ^ k < 0x1_0000_0000
bit-small w k h hw hb = half_bit-small 32 w k h hw (sym (bit-half_bit w k) ∙ hb)

pub bit-lt : (w k : ℕ) → bit w k < 2
unfolding bit
bit-lt w k = omega arith
