-- ===== src/Win32/Rtl/Bitmap/Runs.antt =====
-- Runs of clear bits.
use windows_10_js.Prelude.{
  ℕ, zero, suc, ◌+◌, ◌-◌, ◌*◌, ◌/◌, ◌%◌, ◌^◌, ◌≡◌, ◌≢◌, ◌∙◌, ◌<◌, ◌≤◌, ◌⊎◌, inl, inr, refl, ap, sym,
  subst, true, false, Bool-cases, ◌&&◌, arith, ◌==◌, ltb, leb, if◌then◌else◌,
}
use windows_10_js.Hal.Memory.{Memory, read32, read64, write32}
use windows_10_js.Hal.Memory.Cells.{read32-lt, read32-write32_same, read32-write32_outside}
use windows_10_js.Win32.Rtl.Bitmap.{
  word_of, test_bit, set_bit, clear_run, set_run, find_from, rtl_find_clear_bits_and_set,
}
use windows_10_js.Win32.Rtl.Bitmap.Bits.{bit, bit-set, bit-small, bit-lt}

word_of-low : (buffer k : ℕ) → k < 0x8000_0000 → word_of buffer k ≡ buffer + k / 32 * 4
unfolding word_of
word_of-low buffer k h = ground arith

other_word :
    (buffer k j v : ℕ) (m : Memory)
    → k < 0x8000_0000
    → j < 0x8000_0000
    → j / 32 ≢ k / 32
    → test_bit buffer j (write32 m (word_of buffer k) v) ≡ test_bit buffer j m
unfolding test_bit
other_word buffer k j v m low low' h =
    let at_k = word_of-low buffer k low in
    let at_j = word_of-low buffer j low' in
    rw
      (read32-write32_outside m (word_of buffer k) v (word_of buffer j) (omega (arith, at_k, at_j)))
      refl

same_word :
    (buffer k j v : ℕ) (m : Memory)
    → word_of buffer j ≡ word_of buffer k
    → v < 0x1_0000_0000
    → test_bit buffer j (write32 m (word_of buffer k) v) ≡ (bit v (j % 32) == 1)
unfolding test_bit bit
same_word buffer k j v m h small =
    let fits : v % 0x1_0000_0000 ≡ v = omega arith in
    rw (h, read32-write32_same m (word_of buffer k) v, fits) refl

test_bit-bit :
    (buffer j : ℕ) (m : Memory)
    → test_bit buffer j m ≡ (bit (read32 m (word_of buffer j)) (j % 32) == 1)
unfolding test_bit bit
test_bit-bit buffer j m = refl

-- The word that `set_bit` writes.
new_word : (buffer k : ℕ) → Memory → ℕ
new_word buffer k m =
    let word = read32 m (word_of buffer k) in
    if test_bit buffer k m then word else word + 2 ^ (k % 32)

set_bit-new_word :
    (buffer k : ℕ) (m : Memory)
    → set_bit buffer k m ≡ write32 m (word_of buffer k) (new_word buffer k m)
unfolding set_bit new_word
set_bit-new_word buffer k m = refl

new_word-bit :
    (buffer k i : ℕ) (m : Memory)
    → (new_word buffer k m < 0x1_0000_0000)
      × (bit (new_word buffer k m) i
          ≡ (if i == k % 32 then 1 else bit (read32 m (word_of buffer k)) i))
unfolding new_word
new_word-bit buffer k i m =
    let word = read32 m (word_of buffer k) in
    let small = read32-lt m (word_of buffer k) in
    let is_bit = test_bit-bit buffer k m in
    let low = bit-lt word (k % 32) in
    elim (Bool-cases (test_bit buffer k m)) [
      | inl here ↦
          let one : bit word (k % 32) ≡ 1 = ground arith in
          rw here (small, same_bit word i (k % 32) one)
      | inr clear ↦
          let none : bit word (k % 32) ≡ 0 = ground arith in
          rw clear (bit-small word (k % 32) (omega arith) small none, bit-set word (k % 32) i none)
    ]
  where
    same_bit : (w i k : ℕ) → bit w k ≡ 1 → bit w i ≡ (if i == k then 1 else bit w i)
    same_bit w i k h = ground arith

test_bit-set_bit :
    (buffer k j : ℕ) (m : Memory)
    → k < 0x8000_0000
    → j < 0x8000_0000
    → test_bit buffer j (set_bit buffer k m) ≡ (if j == k then true else test_bit buffer j m)
test_bit-set_bit buffer k j m low low' = elim (same_or_other (j / 32) (k / 32)) [
  | inl same ↦
      let words : word_of buffer j ≡ word_of buffer k =
        word_of-low buffer j low'
        ∙ ap (λ w. buffer + w * 4) same
        ∙ sym (word_of-low buffer k low) in
      let fact = new_word-bit buffer k (j % 32) m in
      let after = same_word buffer k j (new_word buffer k m) m words fact.0 in
      let before = test_bit-bit buffer j m in
      let old : bit (read32 m (word_of buffer j)) (j % 32)
          ≡ bit (read32 m (word_of buffer k)) (j % 32) =
        ap (λ a. bit (read32 m a) (j % 32)) words in
      let div_mod : (j % 32 ≡ k % 32) → j ≡ k = λ h. omega arith in
      rw (set_bit-new_word buffer k m, after, fact.1, before, old) (ground (arith, div_mod))
  | inr other ↦
      let after = other_word buffer k j (new_word buffer k m) m low low' other in
      rw (set_bit-new_word buffer k m, after) (ground arith)
]
  where
    same_or_other : (a b : ℕ) → (a ≡ b) ⊎ (a ≢ b)
    same_or_other a b = omega arith

-- After the run of `n` bits from `b` on is set.
test_bit-set_run :
    (n buffer b j : ℕ) (m : Memory)
    → b + n ≤ 0x8000_0000
    → j < 0x8000_0000
    → test_bit buffer j (set_run n buffer b m)
      ≡ (if leb b j && ltb j (b + n) then true else test_bit buffer j m)
unfolding set_run
test_bit-set_run zero buffer b j m low low' = ground arith
test_bit-set_run (suc n) buffer b j m low low' =
    let rest = test_bit-set_run n buffer (b + 1) j (set_bit buffer b m) (omega arith) low' in
    let first = test_bit-set_bit buffer b j m (omega arith) low' in rw (rest, first) (ground arith)

-- A bit of the run of `count` bits from `start` on is set.
unfoldable pub IsBlocked : (m : Memory) (buffer count start : ℕ) → Type 0
IsBlocked m buffer count start =
    (j : ℕ) × (start ≤ j) × (j < start + count) × (test_bit buffer j m ≡ true)

clear_run-IsBlocked :
    (n buffer b : ℕ) (m : Memory) → (clear_run n buffer b m == n) ≡ false → IsBlocked m buffer n b
unfolding clear_run IsBlocked
clear_run-IsBlocked zero buffer b m h = absurd (ground arith)
clear_run-IsBlocked (suc n) buffer b m h = elim (Bool-cases (test_bit buffer b m)) [
  | inl here ↦ (b, omega arith, omega arith, here)
  | inr clear ↦
      let short : (clear_run n buffer (b + 1) m == n) ≡ false = ground arith in
      let (j, above, below, there) = clear_run-IsBlocked n buffer (b + 1) m short in
      (j, omega arith, omega arith, there)
]

clear_run-clear :
    (n buffer b j : ℕ) (m : Memory)
    → clear_run n buffer b m ≡ n
    → b ≤ j
    → j < b + n
    → test_bit buffer j m ≡ false
unfolding clear_run
clear_run-clear zero buffer b j m h low high = absurd (omega arith)
clear_run-clear (suc n) buffer b j m h low high = elim (Bool-cases (test_bit buffer b m)) [
  | inl here ↦ let stop : 0 ≡ suc n = rw here at h in absurd (omega arith)
  | inr clear ↦
      let more : suc (clear_run n buffer (b + 1) m) ≡ suc n = rw clear at h in
      elim (first_or_later b j low) [
        | inl now ↦ rw now clear
        | inr later ↦ clear_run-clear n buffer (b + 1) j m (omega arith) later (omega arith)
      ]
]
  where
    first_or_later : (b j : ℕ) → b ≤ j → (j ≡ b) ⊎ (b + 1 ≤ j)
    first_or_later b j h = omega arith

run_clear :
    (n buffer b j : ℕ) (m : Memory)
    → clear_run n buffer b m ≡ n
    → (leb b j && ltb j (b + n) && test_bit buffer j m) ≡ false
run_clear n buffer b j m h = ground (arith, clear_run-clear n buffer b j m h)

-- `start` is the first bit between `low` and `high` from which on `count` bits are clear in `m`; in
-- `m'` these bits are set, and the other ones below `high` are those of `m`.
pub record IsFirstRun (m m' : Memory) (buffer low high count start : ℕ) : Type 0 where
  pub after_hint : low ≤ start
  pub inside : start + count ≤ high
  pub was_clear : (j : ℕ) → (leb start j && ltb j (start + count) && test_bit buffer j m) ≡ false
  pub is_first : (s : ℕ) → low ≤ s → s < start → IsBlocked m buffer count s
  pub now_set :
      (j : ℕ)
      → j < high
      → test_bit buffer j m'
        ≡ (if leb start j && ltb j (start + count) then true else test_bit buffer j m)

-- Nothing was found nor changed, since every run of `count` bits between `low` and `high` has a set
-- bit; or the first run of clear bits was.
unfoldable pub IsSearched : (m : Memory) (buffer low high count : ℕ) → ℕ × Memory → Type 0
unfolding IsBlocked
IsSearched m buffer low high count found =
    ((found ≡ (0xFFFF_FFFF, m))
      × ((s : ℕ) → low ≤ s → s + count ≤ high → IsBlocked m buffer count s))
    ⊎ IsFirstRun m found.1 buffer low high count found.0

-- A start that does not do is passed over.
module _ (m : Memory) (buffer low high count : ℕ) (blocked : IsBlocked m buffer count low) where
  from_next :
      (s : ℕ) → low ≤ s → (low + 1 ≤ s → IsBlocked m buffer count s) → IsBlocked m buffer count s
  from_next s after later = elim (here_or_later low s after) [
    | inl here ↦ subst (λ x. IsBlocked m buffer count x) here blocked
    | inr above ↦ later above
  ]
    where
      here_or_later : (a b : ℕ) → a ≤ b → (a ≡ b) ⊎ (a + 1 ≤ b)
      here_or_later a b h = omega arith

  IsSearched-next :
      (found : ℕ × Memory)
      → IsSearched m buffer (low + 1) high count found
      → IsSearched m buffer low high count found
  unfolding IsSearched
  IsSearched-next found (inl (nothing, all)) =
      inl (nothing, λ s after fits. from_next s after (λ above. all s above fits))
  IsSearched-next found (inr run) = inr (record {
    after_hint = let h = run.after_hint in omega arith;
    inside = run.inside;
    was_clear = run.was_clear;
    is_first = λ s after before. from_next s after (λ above. run.is_first s above before);
    now_set = run.now_set;
  })

find_from-IsSearched :
    (left buffer start count high : ℕ) (m : Memory)
    → high ≤ 0x8000_0000
    → left ≡ high + 1 - (start + count)
    → IsSearched m buffer start high count (find_from left buffer start count m)
unfolding find_from IsSearched
find_from-IsSearched zero buffer start count high m small none =
    inl (refl, λ s after fits. absurd (omega arith))
find_from-IsSearched (suc left) buffer start count high m small some_left =
    elim (Bool-cases (clear_run count buffer start m == count)) [
      | inl found ↦ rw found (
          inr (record {
            after_hint = omega arith;
            inside = omega arith;
            was_clear = λ j. run_clear count buffer start j m (ground arith);
            is_first = λ s after before. absurd (omega arith);
            now_set = λ j h. test_bit-set_run count buffer start j m (omega arith) (omega arith);
          }))
      | inr short ↦ rw short (
          IsSearched-next m buffer start high count (clear_run-IsBlocked count buffer start m short)
            (find_from left buffer (start + 1) count m)
            (find_from-IsSearched left buffer (start + 1) count high m small (omega arith)))
    ]

-- In a bitmap of at most 2 ^ 31 bits, RtlFindClearBitsAndSet answers the first bit, from the hint
-- modulo 2 ^ 32 on, of a run of the wanted length inside the bitmap whose bits are all clear: they
-- are set then, and the bitmap's other bits are the same. It answers 0xFFFFFFFF and changes nothing
-- only where every such run has a set bit.
pub rtl_find_clear_bits_and_set-IsSearched :
    (bitmap count hint : ℕ) (m : Memory)
    → read32 m bitmap ≤ 0x8000_0000
    → IsSearched m
        (read64 m (bitmap + 8))
        (hint % 0x1_0000_0000)
        (read32 m bitmap)
        count
        (rtl_find_clear_bits_and_set bitmap count hint m)
unfolding rtl_find_clear_bits_and_set
rtl_find_clear_bits_and_set-IsSearched bitmap count hint m small =
    let start = hint % 0x1_0000_0000 in
    find_from-IsSearched (read32 m bitmap + 1 - (start + count)) (read64 m (bitmap + 8)) start count
      (read32 m bitmap) m small refl
