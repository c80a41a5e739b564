-- ===== src/Win32/Rtl/Interlocked/Ring.antt =====
-- Rings of entries: LIST_ENTRY, with the next entry's address at 0 and the previous one's at 8.
use windows_10_js.Prelude.{
  ℕ, ◌+◌, ◌≡◌, ◌∙◌, ◌<◌, refl, sym, subst, List, [], ◌∷◌, ◌++◌, arith, ◌⊎◌, inl, inr,
}
use windows_10_js.Hal.Memory.{Memory, read64, write64}
use windows_10_js.Hal.Memory.Cells.{Apart, read32-lt, read64-write64_same, read64-write64_outside}
use windows_10_js.Win32.Rtl.Interlocked.{link_tail}

-- From the entry `p` on, the entries `xs` follow one another, and then `q`; and back.
unfoldable pub Linked : Memory → ℕ → List ℕ → ℕ → Type 0
Linked m p [] q = (read64 m p ≡ q) × (read64 m (q + 8) ≡ p)
Linked m p (x ∷ xs) q = (read64 m p ≡ x) × (read64 m (x + 8) ≡ p) × Linked m x xs q

abbrev pub IsRing : Memory → ℕ → List ℕ → Type 0
IsRing m head xs = Linked m head xs head

-- The 16 bytes of the entry `e` are apart from those of the others.
abbrev pub AllApart : ℕ → List ℕ → Type 0
AllApart e [] = Unit {0}
AllApart e (x ∷ xs) = Apart e 16 x 16 × AllApart e xs

-- No two entries overlap.
abbrev pub AreApart : List ℕ → Type 0
AreApart [] = Unit {0}
AreApart (x ∷ xs) = AllApart x xs × AreApart xs

last_of : ℕ → List ℕ → ℕ
last_of p [] = p
last_of p (x ∷ xs) = last_of x xs

Linked-last :
    (m : Memory) (p : ℕ) (xs : List ℕ) (q : ℕ) → Linked m p xs q → read64 m (q + 8) ≡ last_of p xs
unfolding Linked last_of
Linked-last m p [] q (next, prev) = prev
Linked-last m p (x ∷ xs) q (next, prev, rest) = Linked-last m x xs q rest

-- The links between `p` and the entries `xs` are the same in both memories.
unfoldable pub Kept : Memory → Memory → ℕ → List ℕ → Type 0
Kept m m' p [] = Unit {0}
Kept m m' p (x ∷ xs) =
    (read64 m' p ≡ read64 m p) × (read64 m' (x + 8) ≡ read64 m (x + 8)) × Kept m m' x xs

-- The old links of the entries but the last one's to `q` are kept, and the new entry stands between
-- the last one and `q`.
Linked-append :
    (m m' : Memory) (p : ℕ) (xs : List ℕ) (q e : ℕ)
    → Linked m p xs q
    → Kept m m' p xs
    → read64 m' (last_of p xs) ≡ e
    → read64 m' (e + 8) ≡ last_of p xs
    → read64 m' e ≡ q
    → read64 m' (q + 8) ≡ e
    → Linked m' p (xs ++ e ∷ []) q
unfolding Linked last_of Kept
Linked-append m m' p [] q e linked kept a b c d = (a, b, (c, d))
Linked-append m m' p (x ∷ xs) q e (next, prev, rest) (k1, k2, kept) a b c d =
    (k1 ∙ next, k2 ∙ prev, Linked-append m m' x xs q e rest kept a b c d)

AllApart-last : (p x : ℕ) (xs : List ℕ) → AllApart p (x ∷ xs) → Apart p 16 (last_of x xs) 16
unfolding last_of
AllApart-last p x [] h = h.0
AllApart-last p x (y ∷ ys) h = AllApart-last p y ys h.1

-- Where an entry `a` of 16 bytes and all that is written are apart, its links are kept.
record Writes (m m' : Memory) (e l h : ℕ) : Type 0 where
  elsewhere :
      (a : ℕ) → Apart e 16 a 8 → Apart l 8 a 8 → Apart (h + 8) 8 a 8 → read64 m' a ≡ read64 m a

link_tail-Writes :
    (head entry : ℕ) (m : Memory)
    → Writes m (link_tail head entry m) entry (read64 m (head + 8)) head
unfolding link_tail
link_tail-Writes head entry m =
    let last = read64 m (head + 8) in
    let m1 = write64 m entry head in
    let m2 = write64 m1 (entry + 8) last in
    let m3 = write64 m2 last entry in
    record {
      elsewhere = λ a he hl hh.
          read64-write64_outside m3 (head + 8) entry a hh
          ∙ read64-write64_outside m2 last entry a hl
          ∙ read64-write64_outside m1 (entry + 8) last a (omega arith)
          ∙ read64-write64_outside m entry head a (omega arith);
    }

back_link-last : (x : ℕ) (xs : List ℕ) → AllApart x xs → Apart (last_of x xs) 8 (x + 8) 8
unfolding last_of
back_link-last x [] h = omega arith
back_link-last x (y ∷ ys) h = let far = AllApart-last x y ys h in omega arith

-- The links before the last entry are apart from what `link_tail` writes.
Kept-Writes :
    (m m' : Memory) (p : ℕ) (xs : List ℕ) (e head : ℕ)
    → Writes m m' e (last_of p xs) head
    → AreApart (p ∷ xs)
    → AllApart e (p ∷ xs)
    → (Apart head 16 p 16) ⊎ (p ≡ head)
    → AllApart head xs
    → Kept m m' p xs
unfolding Kept last_of
Kept-Writes m m' p [] e head w apart fresh h hs = tt
Kept-Writes m m' p (x ∷ xs) e head w apart fresh h hs =
    let far = AllApart-last p x xs apart.0 in
    (
      w.elsewhere p (omega arith) (omega arith) (omega arith),
      w.elsewhere (x + 8) (omega arith) (back_link-last x xs apart.1.0) (omega arith),
      Kept-Writes m m' x xs e head w apart.1 fresh.1 (inl hs.0) hs.1,
    )

pub read64-lt : (m : Memory) (a : ℕ) → read64 m a < 0x1_0000_0000_0000_0000
unfolding read64
read64-lt m a = let low = read32-lt m a in let high = read32-lt m (a + 4) in omega arith

AllApart-last_any : (e p : ℕ) (xs : List ℕ) → AllApart e (p ∷ xs) → Apart e 16 (last_of p xs) 16
unfolding last_of
AllApart-last_any e p [] h = h.0
AllApart-last_any e p (y ∷ ys) h = AllApart-last_any e y ys h.1

-- The new entry is the last of the ring.
pub link_tail-IsRing :
    (head entry : ℕ) (xs : List ℕ) (m : Memory)
    → IsRing m head xs
    → AreApart (head ∷ xs)
    → AllApart entry (head ∷ xs)
    → head < 0x1_0000_0000_0000_0000
    → entry < 0x1_0000_0000_0000_0000
    → IsRing (link_tail head entry m) head (xs ++ entry ∷ [])
link_tail-IsRing head entry xs m ring apart fresh small_head small =
    let end = Linked-last m head xs head ring in
    let last = read64 m (head + 8) in
    let m1 = write64 m entry head in
    let m2 = write64 m1 (entry + 8) last in
    let m3 = write64 m2 last entry in
    let m4 = write64 m3 (head + 8) entry in
    let other : Apart entry 16 last 16 =
      subst (λ l. Apart entry 16 l 16) (sym end) (AllApart-last_any entry head xs fresh) in
    let back : Apart last 8 (head + 8) 8 =
      subst (λ l. Apart l 8 (head + 8) 8) (sym end) (back_link-last head xs apart.0) in
    let w : Writes m m4 entry (last_of head xs) head =
      subst (λ l. Writes m m4 entry l head) end
        (unfold link_tail in link_tail-Writes head entry m) in
    let a : read64 m4 last ≡ entry =
      read64-write64_outside m3 (head + 8) entry last (omega arith)
      ∙ read64-write64_same m2 last entry small in
    let b : read64 m4 (entry + 8) ≡ last =
      read64-write64_outside m3 (head + 8) entry (entry + 8) (omega arith)
      ∙ read64-write64_outside m2 last entry (entry + 8) (omega arith)
      ∙ read64-write64_same m1 (entry + 8) last (read64-lt m (head + 8)) in
    let c : read64 m4 entry ≡ head =
      read64-write64_outside m3 (head + 8) entry entry (omega arith)
      ∙ read64-write64_outside m2 last entry entry (omega arith)
      ∙ read64-write64_outside m1 (entry + 8) last entry (omega arith)
      ∙ read64-write64_same m entry head small_head in
    unfold link_tail in
    Linked-append m m4 head xs head entry ring
      (Kept-Writes m m4 head xs entry head w apart fresh (inr refl) apart.0)
      (subst (λ l. read64 m4 l ≡ entry) end a) (b ∙ end) c
      (read64-write64_same m3 (head + 8) entry small)
