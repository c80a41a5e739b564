-- ===== src/Win32/Rtl/Interlocked/Unlinking.antt =====
-- Taking the first entry off a ring.
use windows_10_js.Prelude.{
  ℕ, ◌+◌, ◌≡◌, ◌∙◌, ◌<◌, refl, sym, subst, List, [], ◌∷◌, ◌++◌, arith, ◌==◌, ◌⊎◌, inl, inr, false,
}
use windows_10_js.Hal.Memory.{Memory, read64, write64}
use windows_10_js.Hal.Memory.Cells.{Apart, read64-write64_same, read64-write64_outside}
use windows_10_js.Win32.Rtl.Interlocked.{unlink_first}
use windows_10_js.Win32.Rtl.Interlocked.Ring.{Linked, IsRing, AllApart, AreApart, Kept, read64-lt}

-- A ring in a memory in which all its links are the same.
pub Linked-keep :
    (m m' : Memory) (p : ℕ) (xs : List ℕ) (q : ℕ)
    → Linked m p xs q
    → Kept m m' p (xs ++ q ∷ [])
    → Linked m' p xs q
unfolding Linked Kept
Linked-keep m m' p [] q (next, prev) (k1, k2, kept) = (k1 ∙ next, k2 ∙ prev)
Linked-keep m m' p (x ∷ xs) q (next, prev, rest) (k1, k2, kept) =
    (k1 ∙ next, k2 ∙ prev, Linked-keep m m' x xs q rest kept)

-- Past the entry `y`, two writes to `head` and to `y + 8` keep the links up to `head + 8`.
Kept-unlink :
    (m m' : Memory) (p : ℕ) (ys : List ℕ) (y head : ℕ)
    → ((a : ℕ) → Apart head 8 a 8 → Apart (y + 8) 8 a 8 → read64 m' a ≡ read64 m a)
    → Apart head 16 y 16
    → AllApart head (p ∷ ys)
    → (p ≡ y) ⊎ Apart y 16 p 16
    → AllApart y ys
    → Kept m m' p (ys ++ head ∷ [])
unfolding Kept
Kept-unlink m m' p [] y head same far h1 h2 h3 =
    (same p (omega arith) (omega arith), same (head + 8) (omega arith) (omega arith), tt)
Kept-unlink m m' p (z ∷ zs) y head same far h1 h2 h3 = (
  same p (omega arith) (omega arith),
  same (z + 8) (omega arith) (omega arith),
  Kept-unlink m m' z zs y head same far h1.1 (inr h3.0) h3.1,
)

-- The first entry of the ring is taken off and answered.
pub unlink_first-IsRing :
    (head x : ℕ) (xs : List ℕ) (m : Memory)
    → IsRing m head (x ∷ xs)
    → AreApart (head ∷ x ∷ xs)
    → head < 0x1_0000_0000_0000_0000
    → ((unlink_first head m).0 ≡ x) × IsRing (unlink_first head m).1 head xs
unfolding unlink_first Linked
unlink_first-IsRing head x [] m (next, back, (next', back')) apart small =
    let m' = write64 (write64 m head head) (head + 8) head in
    let other : (read64 m head == head) ≡ false = ground arith in
    let result : unlink_first head m ≡ (x, m') = rw (unlink_first, other, next, next') refl in
    subst (λ r. (r.0 ≡ x) × Linked r.1 head [] head) (sym result)
      (
        refl,
        (
          read64-write64_outside (write64 m head head) (head + 8) head head (omega arith)
              ∙ read64-write64_same m head head small,
          read64-write64_same (write64 m head head) (head + 8) head small,
        ),
      )
unlink_first-IsRing head x (y ∷ ys) m (next, back, (next', back', rest)) apart small =
    let m1 = write64 m head y in
    let m' = write64 m1 (y + 8) head in
    let other : (read64 m head == head) ≡ false = ground arith in
    let result : unlink_first head m ≡ (x, m') = rw (unlink_first, other, next, next') refl in
    let small_y : y < 0x1_0000_0000_0000_0000 =
      subst (λ v. v < 0x1_0000_0000_0000_0000) next' (read64-lt m x) in
    let same = λ (a : ℕ) (h1 : Apart head 8 a 8) (h2 : Apart (y + 8) 8 a 8).
      read64-write64_outside m1 (y + 8) head a h2 ∙ read64-write64_outside m head y a h1 in
    subst (λ r. (r.0 ≡ x) × Linked r.1 head (y ∷ ys) head) (sym result)
      (
        refl,
        (
          read64-write64_outside m1 (y + 8) head head (omega arith)
              ∙ read64-write64_same m head y small_y,
          read64-write64_same m1 (y + 8) head small,
          Linked-keep m m' y ys head rest
              (Kept-unlink m m' y ys y head same apart.0.1.0 apart.0.1 (inl refl) apart.1.1.0),
        ),
      )
