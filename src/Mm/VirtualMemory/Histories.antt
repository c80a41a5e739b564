-- ===== src/Mm/VirtualMemory/Histories.antt =====
-- system32/ntos/mm/virtual-memory.js: any history of calls.
use mathlib.Core.Option.{some-injective}
use windows_10_js.Prelude.{
  ℕ, zero, suc, ◌+◌, ◌*◌, ◌≤◌, ◌≡◌, refl, sym, subst, ◌∙◌, inl, inr, Option, none, some, List, [],
  ◌∷◌, ◌==◌, ltb, if◌then◌else◌, Bool-cases, Option-cases, arith,
}
use windows_10_js.Mm.MemoryMap.{page_size, va_alloc_base, va_alloc_top}
use windows_10_js.Mm.VirtualMemory.{Pages, VirtualMemory, place, take_exact, alloc, free, pages_of}
use windows_10_js.Mm.VirtualMemory.Ranges.{
  IsApart, AreApart, AreAcross, AreInside, AreInside-higher, IsApart-above, AreAcross-column,
  AreAcross-cons, take_exact-IsTaken,
}

-- A call: the range that is given back is one of those that are out, by its place.
pub data Call : Type 0 where
  allocates : (size : ℕ) → Call
  gives_back : ℕ → Call

unfoldable pub pick : ℕ → List (ℕ × ℕ) → Option ((ℕ × ℕ) × List (ℕ × ℕ))
pick i [] = none
pick zero (r ∷ rs) = some (r, rs)
pick (suc i) (r ∷ rs) = elim (pick i rs) as (λ _. Option ((ℕ × ℕ) × List (ℕ × ℕ))) [
  | none ↦ none
  | some (picked, others) ↦ some (picked, r ∷ others)
]

-- The ranges that are out, the free ones, and what is between the base and the next address.
pub record IsLaidOut (out ranges : List (ℕ × ℕ)) (next_free_va : ℕ) : Type 0 where
  pub low : va_alloc_base ≤ next_free_va
  pub high : next_free_va ≤ va_alloc_top
  pub out_inside : AreInside next_free_va out
  pub free_inside : AreInside next_free_va ranges
  pub out_apart : AreApart out
  pub free_apart : AreApart ranges
  pub across : AreAcross out ranges

pub record IsPicked (top : ℕ) (ranges : List (ℕ × ℕ)) (r : ℕ × ℕ) (others : List (ℕ × ℕ))
    : Type 0 where
  pub low : va_alloc_base ≤ r.0
  pub high : r.0 + r.1 * page_size ≤ top
  pub inside : AreInside top others
  pub from_others : IsApart r others
  pub from_free : IsApart r ranges
  pub apart : AreApart others
  pub across : AreAcross others ranges

pub pick-IsPicked :
    (i top : ℕ) (ranges out : List (ℕ × ℕ)) (picked : (ℕ × ℕ) × List (ℕ × ℕ))
    → pick i out ≡ some picked
    → AreApart out
    → AreInside top out
    → AreAcross out ranges
    → IsPicked top ranges picked.0 picked.1
unfolding pick
pick-IsPicked i top ranges [] picked there apart inside across = absurd (grind (arith, there))
pick-IsPicked zero top ranges (r ∷ rs) picked there (far, apart) (low, high, inside) (row, across) =
    subst (λ p. IsPicked top ranges p.0 p.1) (some-injective (r, rs) picked there)
      (record {
        low = low;
        high = high;
        inside = inside;
        from_others = far;
        from_free = row;
        apart = apart;
        across = across;
      })
pick-IsPicked (suc i) top ranges (r ∷ rs) picked there (far, apart) (low, high, inside)
      (row, across) =
    elim (Option-cases (pick i rs)) [
      | inl nothing ↦
          let lost : pick (suc i) (r ∷ rs) ≡ none = rw nothing refl in
          absurd (grind (arith, lost, there))
      | inr (below, found_below) ↦
          let found : pick (suc i) (r ∷ rs) ≡ some (below.0, r ∷ below.1) = rw found_below refl in
          let p =
            pick-IsPicked i top (r ∷ ranges) rs below found_below apart inside
              (AreAcross-cons r ranges rs far across) in
          let (column, rest) = AreAcross-column r ranges below.1 p.across in
          subst (λ p. IsPicked top ranges p.0 p.1)
            (some-injective (below.0, r ∷ below.1) picked (sym found ∙ there))
            (record {
              low = p.low;
              high = p.high;
              inside = (low, high, p.inside);
              from_others = (p.from_free.0, p.from_others);
              from_free = p.from_free.1;
              apart = (column, p.apart);
              across = (row, rest);
            })
    ]

module _ {W : Type 0} where
  unfoldable pub free_picked :
      Pages W
      → Option ((ℕ × ℕ) × List (ℕ × ℕ))
      → List (ℕ × ℕ)
      → VirtualMemory W
      → List (ℕ × ℕ) × VirtualMemory W
  free_picked o none out s = (out, s)
  free_picked o (some (r, others)) out s = (others, free o r.0 (r.1 * page_size) s)

  -- The ranges that are out after a call, and the module's state.
  unfoldable pub perform :
      Pages W → Call → List (ℕ × ℕ) → VirtualMemory W → List (ℕ × ℕ) × VirtualMemory W
  unfolding pick
  perform o (allocates size) out s =
      let got = alloc o size s in (if got.0 == 0 then out else (got.0, pages_of size) ∷ out, got.1)
  perform o (gives_back i) out s = free_picked o (pick i out) out s

  unfoldable pub perform_all :
      Pages W → List Call → List (ℕ × ℕ) → VirtualMemory W → List (ℕ × ℕ) × VirtualMemory W
  unfolding perform
  perform_all o [] out s = (out, s)
  perform_all o (call ∷ calls) out s =
      let next = perform o call out s in perform_all o calls next.0 next.1

  pub place-IsLaidOut :
      (pages : ℕ) (out : List (ℕ × ℕ)) (s : VirtualMemory W) (placed : ℕ × VirtualMemory W)
      → place pages s ≡ some placed
      → IsLaidOut out s.free_ranges s.next_free_va
      → IsLaidOut ((placed.0, pages) ∷ out) placed.1.free_ranges placed.1.next_free_va
  unfolding place
  place-IsLaidOut pages out s placed there l =
      elim (Option-cases (take_exact pages s.free_ranges)) [
        | inr (taken, found_range) ↦
            let found : place pages s ≡ some (taken.0, record s { free_ranges = taken.1 }) =
              rw (found_range, place) refl in
            let t =
              take_exact-IsTaken pages s.next_free_va out s.free_ranges taken found_range
                l.free_apart l.free_inside l.across in
            subst (λ p. IsLaidOut ((p.0, pages) ∷ out) p.1.free_ranges p.1.next_free_va)
              (some-injective (taken.0, record s { free_ranges = taken.1 }) placed
                (sym found ∙ there))
              (record {
                low = l.low;
                high = l.high;
                out_inside = (t.low, t.high, l.out_inside);
                free_inside = t.inside;
                out_apart = (t.from_out, l.out_apart);
                free_apart = t.apart;
                across = (t.from_others, t.across);
              })
        | inl nothing ↦ elim (Bool-cases (ltb va_alloc_top (s.next_free_va + pages * page_size))) [
          | inl full ↦
              let lost : place pages s ≡ none = rw (nothing, full, place) refl in
              absurd (grind (arith, lost, there))
          | inr room ↦
              let next = s.next_free_va + pages * page_size in
              let found : place pages s ≡ some (s.next_free_va, record s { next_free_va = next }) =
                rw (nothing, room, place) refl in
              let start = l.low in
              subst (λ p. IsLaidOut ((p.0, pages) ∷ out) p.1.free_ranges p.1.next_free_va)
                (some-injective (s.next_free_va, record s { next_free_va = next }) placed
                  (sym found ∙ there))
                (record {
                  low = omega arith;
                  high = ground arith;
                  out_inside = (
                    l.low,
                    omega arith,
                    AreInside-higher s.next_free_va next out (omega arith) l.out_inside,
                  );
                  free_inside =
                      AreInside-higher s.next_free_va next s.free_ranges (omega arith)
                        l.free_inside;
                  out_apart = (IsApart-above s.next_free_va pages out l.out_inside, l.out_apart);
                  free_apart = l.free_apart;
                  across =
                      (IsApart-above s.next_free_va pages s.free_ranges l.free_inside, l.across);
                })
        ]
      ]
