-- ===== src/Io/StartIo/Queueing.antt =====
-- system32/ntos/io/start-io.js: where a packet goes in the queue.
use windows_10_js.Prelude.{
  ℕ, suc, ◌≡◌, ◌<◌, refl, ap, subst, ◌∙◌, inl, inr, true, false, some, List, [], ◌∷◌, ◌++◌, length,
  ◌==◌, ltb, if◌then◌else◌, Bool-cases, arith,
}
use windows_10_js.Hal.Memory.{Memory, read64}
use windows_10_js.Win32.Rtl.Interlocked.{link_tail}
use windows_10_js.Win32.Rtl.Interlocked.Ring.{Linked, IsRing, AllApart, AreApart, link_tail-IsRing}
use windows_10_js.Io.StartIo.{key_at, find_place, insert_before}
use windows_10_js.Io.StartIo.Rotation.{
  IsRing-rotate, AllApart-append, AllApart-left, AllApart-right, AreApart-swap, append_nil,
  append_assoc,
}

-- The entries up to the first with a larger key, and the others.
unfoldable pub before : (keys : ℕ → ℕ) (key : ℕ) → List ℕ → List ℕ
before keys key [] = []
before keys key (x ∷ xs) =
    let rest = before keys key xs in if ltb key (keys x) then [] else x ∷ rest

unfoldable pub behind : (keys : ℕ → ℕ) (key : ℕ) → List ℕ → List ℕ
behind keys key [] = []
behind keys key (x ∷ xs) =
    let rest = behind keys key xs in if ltb key (keys x) then x ∷ xs else rest

pub before-behind :
    (keys : ℕ → ℕ) (key : ℕ) (xs : List ℕ) → xs ≡ before keys key xs ++ behind keys key xs
unfolding before behind
before-behind keys key [] = refl
before-behind keys key (x ∷ xs) = elim (Bool-cases (ltb key (keys x))) [
  | inl larger ↦ rw larger refl
  | inr not_larger ↦ rw not_larger (ap (λ rest. x ∷ rest) (before-behind keys key xs))
]

unfoldable pub first_or : ℕ → List ℕ → ℕ
first_or head [] = head
first_or head (x ∷ xs) = x

pub find_place-first :
    (m : Memory) (head key p : ℕ) (xs : List ℕ)
    → Linked m p xs head
    → AllApart head xs
    → find_place head key (read64 m p) (suc (length xs)) m
      ≡ some (first_or head (behind (key_at m) key xs))
unfolding find_place Linked first_or behind
find_place-first m head key p [] (next, prev) apart =
    let here : (read64 m p == head) ≡ true = ground (arith, next) in rw here (ap some next)
find_place-first m head key p (x ∷ xs) (next, prev, rest) (far, apart) =
    let elsewhere : (x == head) ≡ false = ground arith in
    let later = find_place-first m head key x xs rest apart in
    ap (λ c. find_place head key c (suc (suc (length xs))) m) next
    ∙ elim (Bool-cases (ltb key (key_at m x))) [
      | inl larger ↦ rw (elsewhere, larger) refl
      | inr not_larger ↦ rw (elsewhere, not_larger) later
    ]

-- An entry that is linked in front of `cursor` stands between what was before it and it.
pub insert_before-IsRing :
    (m : Memory) (head entry : ℕ) (xs ys : List ℕ)
    → IsRing m head (xs ++ ys)
    → AreApart (head ∷ xs ++ ys)
    → AllApart entry (head ∷ xs ++ ys)
    → head < 0x1_0000_0000_0000_0000
    → entry < 0x1_0000_0000_0000_0000
    → first_or head ys < 0x1_0000_0000_0000_0000
    → IsRing (insert_before (first_or head ys) entry m) head (xs ++ entry ∷ ys)
unfolding insert_before link_tail first_or
insert_before-IsRing m head entry xs [] ring apart fresh small_head small small_cursor =
    let short = append_nil xs in
    link_tail-IsRing head entry xs m (subst (λ l. IsRing m head l) short ring)
      (subst (λ l. AreApart (head ∷ l)) short apart)
      (subst (λ l. AllApart entry (head ∷ l)) short fresh) small_head small
insert_before-IsRing m head entry xs (z ∷ zs) ring apart fresh small_head small small_cursor =
    let m' = link_tail z entry m in
    let ring' =
      link_tail-IsRing z entry (zs ++ head ∷ xs) m (IsRing-rotate m head z xs zs ring)
        (AreApart-swap (head ∷ xs) (z ∷ zs) apart)
        (AllApart-append entry (z ∷ zs) (head ∷ xs)
          (AllApart-right entry (head ∷ xs) (z ∷ zs) fresh)
          (AllApart-left entry (head ∷ xs) (z ∷ zs) fresh))
        small_cursor small in
    let seen : IsRing m' z (zs ++ head ∷ (xs ++ entry ∷ [])) =
      subst (λ l. IsRing m' z l) (append_assoc zs (head ∷ xs) (entry ∷ [])) ring' in
    subst (λ l. IsRing m' head l) (append_assoc xs (entry ∷ []) (z ∷ zs))
      (IsRing-rotate m' z head zs (xs ++ entry ∷ []) seen)
