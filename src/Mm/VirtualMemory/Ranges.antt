-- ===== src/Mm/VirtualMemory/Ranges.antt =====
-- Ranges of pages that do not overlap.
use windows_10_js.Prelude.{
  ℕ, ◌+◌, ◌*◌, ◌≤◌, ◌≡◌, refl, sym, subst, ◌∙◌, inl, inr, none, some, List, [], ◌∷◌, ◌++◌, ◌==◌,
  Bool-cases, Option-cases, arith,
}
use mathlib.Core.Option.{some-injective}
use windows_10_js.Hal.Memory.Cells.{Apart}
use windows_10_js.Mm.MemoryMap.{page_size, va_alloc_base}
use windows_10_js.Mm.VirtualMemory.{take_exact}

-- An address and a number of pages: the range is apart from the others.
abbrev pub IsApart : ℕ × ℕ → List (ℕ × ℕ) → Type 0
IsApart r [] = Unit {0}
IsApart r (s ∷ ss) = Apart r.0 (r.1 * page_size) s.0 (s.1 * page_size) × IsApart r ss

abbrev pub AreApart : List (ℕ × ℕ) → Type 0
AreApart [] = Unit {0}
AreApart (r ∷ rs) = IsApart r rs × AreApart rs

-- The ranges of the one list are apart from those of the other.
abbrev pub AreAcross : List (ℕ × ℕ) → List (ℕ × ℕ) → Type 0
AreAcross [] ss = Unit {0}
AreAcross (r ∷ rs) ss = IsApart r ss × AreAcross rs ss

abbrev pub AreInside : (top : ℕ) → List (ℕ × ℕ) → Type 0
AreInside top [] = Unit {0}
AreInside top (r ∷ rs) = (va_alloc_base ≤ r.0) × (r.0 + r.1 * page_size ≤ top) × AreInside top rs

pub AreInside-higher : (a b : ℕ) (rs : List (ℕ × ℕ)) → a ≤ b → AreInside a rs → AreInside b rs
AreInside-higher a b [] le inside = tt
AreInside-higher a b (r ∷ rs) le (low, high, inside) =
    (low, omega arith, AreInside-higher a b rs le inside)

-- A range from the top on is apart from all below.
pub IsApart-above : (top pages : ℕ) (rs : List (ℕ × ℕ)) → AreInside top rs → IsApart (top, pages) rs
IsApart-above top pages [] inside = tt
IsApart-above top pages (r ∷ rs) (low, high, inside) = (inr high, IsApart-above top pages rs inside)

IsApart-append :
    (r : ℕ × ℕ) (ss ts : List (ℕ × ℕ)) → IsApart r ss → IsApart r ts → IsApart r (ss ++ ts)
IsApart-append r [] ts h k = k
IsApart-append r (s ∷ ss) ts (h, hs) k = (h, IsApart-append r ss ts hs k)

pub AreAcross-append :
    (rs ss ts : List (ℕ × ℕ)) → AreAcross rs ss → AreAcross rs ts → AreAcross rs (ss ++ ts)
AreAcross-append [] ss ts h k = tt
AreAcross-append (r ∷ rs) ss ts (h, hs) (k, ks) =
    (IsApart-append r ss ts h k, AreAcross-append rs ss ts hs ks)

-- One range is apart from all, seen from them.
pub AreAcross-one : (r : ℕ × ℕ) (rs : List (ℕ × ℕ)) → IsApart r rs → AreAcross rs (r ∷ [])
AreAcross-one r [] h = tt
AreAcross-one r (s ∷ ss) (h, hs) = ((omega arith, tt), AreAcross-one r ss hs)

pub AreApart-append :
    (rs : List (ℕ × ℕ)) (r : ℕ × ℕ) → AreApart rs → IsApart r rs → AreApart (rs ++ r ∷ [])
AreApart-append [] r h k = (tt, tt)
AreApart-append (s ∷ ss) r (h, hs) (k, ks) =
    (IsApart-append s ss (r ∷ []) h (omega arith, tt), AreApart-append ss r hs ks)

pub AreInside-append :
    (top : ℕ) (rs ss : List (ℕ × ℕ))
    → AreInside top rs
    → AreInside top ss
    → AreInside top (rs ++ ss)
AreInside-append top [] ss h k = k
AreInside-append top (r ∷ rs) ss (low, high, h) k = (low, high, AreInside-append top rs ss h k)

-- What a free range that is taken is apart from.
pub record IsTaken (pages top : ℕ) (out : List (ℕ × ℕ)) (va : ℕ) (others : List (ℕ × ℕ))
    : Type 0 where
  pub low : va_alloc_base ≤ va
  pub high : va + pages * page_size ≤ top
  pub inside : AreInside top others
  pub from_out : IsApart (va, pages) out
  pub from_others : IsApart (va, pages) others
  pub apart : AreApart others
  pub across : AreAcross out others

pub AreAcross-column :
    (r : ℕ × ℕ) (rs out : List (ℕ × ℕ)) → AreAcross out (r ∷ rs) → IsApart r out × AreAcross out rs
AreAcross-column r rs [] h = (tt, tt)
AreAcross-column r rs (s ∷ ss) ((h, k), hs) =
    let (column, rest) = AreAcross-column r rs ss hs in ((omega arith, column), (k, rest))

pub AreAcross-cons :
    (r : ℕ × ℕ) (rs out : List (ℕ × ℕ)) → IsApart r out → AreAcross out rs → AreAcross out (r ∷ rs)
AreAcross-cons r rs [] h k = tt
AreAcross-cons r rs (s ∷ ss) (h, hs) (k, ks) = ((omega arith, k), AreAcross-cons r rs ss hs ks)

pub take_exact-IsTaken :
    (pages top : ℕ) (out ranges : List (ℕ × ℕ)) (taken : ℕ × List (ℕ × ℕ))
    → take_exact pages ranges ≡ some taken
    → AreApart ranges
    → AreInside top ranges
    → AreAcross out ranges
    → IsTaken pages top out taken.0 taken.1
unfolding take_exact
take_exact-IsTaken pages top out [] taken there apart inside across = absurd (grind (arith, there))
take_exact-IsTaken pages top out (r ∷ rs) taken there (far, apart) (low, high, inside) across =
    let (column, rest) = AreAcross-column r rs out across in
    elim (Bool-cases (r.1 == pages)) [
      | inl hit ↦
          let same : r.1 ≡ pages = ground arith in
          let found : take_exact pages (r ∷ rs) ≡ some (r.0, rs) = rw hit refl in
          subst (λ t. IsTaken pages top out t.0 t.1)
            (some-injective (r.0, rs) taken (sym found ∙ there))
            (record {
              low = low;
              high = subst (λ n. r.0 + n * page_size ≤ top) same high;
              inside = inside;
              from_out = subst (λ n. IsApart (r.0, n) out) same column;
              from_others = subst (λ n. IsApart (r.0, n) rs) same far;
              apart = apart;
              across = rest;
            })
      | inr miss ↦ elim (Option-cases (take_exact pages rs)) [
        | inl nothing ↦
            let lost : take_exact pages (r ∷ rs) ≡ none = rw (miss, nothing) refl in
            absurd (grind (arith, lost, there))
        | inr (below, found_below) ↦
            let found : take_exact pages (r ∷ rs) ≡ some (below.0, r ∷ below.1) =
              rw (miss, found_below) refl in
            let t =
              take_exact-IsTaken pages top (r ∷ out) rs below found_below apart inside
                (far, rest) in
            subst (λ t. IsTaken pages top out t.0 t.1)
              (some-injective (below.0, r ∷ below.1) taken (sym found ∙ there))
              (record {
                low = t.low;
                high = t.high;
                inside = (low, high, t.inside);
                from_out = t.from_out.1;
                from_others = (t.from_out.0, t.from_others);
                apart = (t.across.0, t.apart);
                across = AreAcross-cons r below.1 out column t.across.1;
              })
      ]
    ]
