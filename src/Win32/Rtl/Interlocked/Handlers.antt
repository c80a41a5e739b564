-- ===== src/Win32/Rtl/Interlocked/Handlers.antt =====
-- The two handlers on rings, with their lock and the IRQL.
use windows_10_js.Prelude.{
  ℕ, suc, ◌+◌, ◌≡◌, ◌∙◌, ◌<◌, ◌≤◌, refl, ap, List, [], ◌∷◌, ◌++◌, arith, ◌==◌, ltb, false,
  if◌then◌else◌,
}
use windows_10_js.Hal.Memory.{Memory, read32, read64, write32}
use windows_10_js.Hal.Memory.Cells.{
  Apart, read64-write32_outside, read32-write32_outside, read32-write32_same,
}
use windows_10_js.Ke.Machine.{Machine, ok}
use windows_10_js.Ke.Irql.{current_irql_address, raise_irql, lower_irql}
use windows_10_js.Win32.Rtl.Interlocked.{
  spin, spin_lock_acquire, spin_lock_release, link_tail, unlink_first,
  ex_interlocked_insert_tail_list, ex_interlocked_remove_head_list,
}
use windows_10_js.Win32.Rtl.Interlocked.Ring.{IsRing, Kept, AreApart, AllApart, link_tail-IsRing}
use windows_10_js.Win32.Rtl.Interlocked.Unlinking.{Linked-keep, unlink_first-IsRing}

-- The 4 bytes at `c` are apart from the entries.
abbrev pub IsClear : ℕ → List ℕ → Type 0
IsClear c [] = Unit {0}
IsClear c (x ∷ xs) = Apart c 4 x 16 × IsClear c xs

IsClear-append : (c : ℕ) (xs ys : List ℕ) → IsClear c xs → IsClear c ys → IsClear c (xs ++ ys)
IsClear-append c [] ys hx hy = hy
IsClear-append c (x ∷ xs) ys hx hy = (hx.0, IsClear-append c xs ys hx.1 hy)

IsClear-last :
    (c e head : ℕ) (xs : List ℕ) → IsClear c (e ∷ head ∷ xs) → IsClear c (head ∷ (xs ++ e ∷ []))
IsClear-last c e head xs h = (h.1.0, IsClear-append c xs (e ∷ []) h.1.1 (h.0, tt))

Kept-write32 :
    (m : Memory) (c v p : ℕ) (xs : List ℕ) → IsClear c (p ∷ xs) → Kept m (write32 m c v) p xs
unfolding Kept
Kept-write32 m c v p [] h = tt
Kept-write32 m c v p (x ∷ xs) h = (
  read64-write32_outside m c v p (omega arith),
  read64-write32_outside m c v (x + 8) (omega arith),
  Kept-write32 m c v x xs h.1,
)

IsRing-write32 :
    (m : Memory) (c v head : ℕ) (xs : List ℕ)
    → IsRing m head xs
    → IsClear c (head ∷ xs)
    → IsRing (write32 m c v) head xs
IsRing-write32 m c v head xs ring clear = Linked-keep m (write32 m c v) head xs head ring (
    Kept-write32 m c v head (xs ++ head ∷ [])
      (clear.0, IsClear-append c xs (head ∷ []) clear.1 (clear.0, tt)))

-- A lock at `lock` that is free, apart from the IRQL's copy, as that is from the entries.
pub record IsReady (mach : Machine) (lock : ℕ) (entries : List ℕ) : Type 0 where
  pub level : mach.irql ≤ 2
  pub is_free : read32 mach.memory lock ≡ 0
  pub cells_apart : Apart lock 4 current_irql_address 4
  pub lock_clear : IsClear lock entries
  pub level_clear : IsClear current_irql_address entries

-- ExInterlockedInsertTailList on a ring, with its lock free and from a level not above
-- DISPATCH_LEVEL: the new entry, which overlaps none of the ring, is the last one of the ring
-- afterwards, the lock is free again, and the level is the old one.
pub insert_tail-IsRing :
    (fuel head entry lock : ℕ) (xs : List ℕ) (mach : Machine)
    → IsRing mach.memory head xs
    → AreApart (head ∷ xs)
    → AllApart entry (head ∷ xs)
    → head < 0x1_0000_0000_0000_0000
    → entry < 0x1_0000_0000_0000_0000
    → IsReady mach lock (entry ∷ head ∷ xs)
    → (answer : ℕ) × (after : Machine) × (ex_interlocked_insert_tail_list
          (suc fuel)
          head
          entry
          lock
          mach
        ≡ ok answer after)
      × IsRing after.memory head (xs ++ entry ∷ [])
      × (read32 after.memory lock ≡ 0)
      × (after.irql ≡ mach.irql)
unfolding ex_interlocked_insert_tail_list spin_lock_acquire spin_lock_release spin raise_irql
    lower_irql
insert_tail-IsRing fuel head entry lock xs mach ring apart fresh small_head small ready =
    let m1 = write32 mach.memory current_irql_address 2 in
    let m2 = write32 m1 lock 1 in
    let m3 = link_tail head entry m2 in
    let m4 = write32 m3 lock 0 in
    let m5 = write32 m4 current_irql_address mach.irql in
    let last = read64 m2 (head + 8) in
    let not_above : ltb 2 mach.irql ≡ false = let h = ready.level in ground arith in
    let free : read32 m1 lock ≡ 0 =
      read32-write32_outside mach.memory current_irql_address 2 lock
        (let h = ready.cells_apart in omega arith)
      ∙ ready.is_free in
    let ring1 =
      IsRing-write32 mach.memory current_irql_address 2 head xs ring ready.level_clear.1 in
    let ring2 = IsRing-write32 m1 lock 1 head xs ring1 ready.lock_clear.1 in
    let ring3 = link_tail-IsRing head entry xs m2 ring2 apart fresh small_head small in
    let ring4 =
      IsRing-write32 m3 lock 0 head (xs ++ entry ∷ []) ring3
        (IsClear-last lock entry head xs ready.lock_clear) in
    let ring5 =
      IsRing-write32 m4 current_irql_address mach.irql head (xs ++ entry ∷ []) ring4
        (IsClear-last current_irql_address entry head xs ready.level_clear) in
    (
      if last == head then 0 else last,
      record mach { memory = m5 },
      rw (not_above, free) (rw not_above refl),
      ring5,
      read32-write32_outside m4 current_irql_address mach.irql lock
            (let h = ready.cells_apart in omega arith)
          ∙ read32-write32_same m3 lock 0,
      refl,
    )

-- ExInterlockedRemoveHeadList on a ring with at least one entry, with its lock free and from a
-- level not above DISPATCH_LEVEL: the answer is the first entry, the ring has the others in their
-- order, the lock is free again, and the level is the old one.
pub remove_head-IsRing :
    (fuel head x lock : ℕ) (xs : List ℕ) (mach : Machine)
    → IsRing mach.memory head (x ∷ xs)
    → AreApart (head ∷ x ∷ xs)
    → head < 0x1_0000_0000_0000_0000
    → IsReady mach lock (head ∷ x ∷ xs)
    → (after : Machine) × (ex_interlocked_remove_head_list (suc fuel) head lock mach ≡ ok x after)
      × IsRing after.memory head xs
      × (read32 after.memory lock ≡ 0)
      × (after.irql ≡ mach.irql)
unfolding ex_interlocked_remove_head_list spin_lock_acquire spin_lock_release spin raise_irql
    lower_irql
remove_head-IsRing fuel head x lock xs mach ring apart small_head ready =
    let m1 = write32 mach.memory current_irql_address 2 in
    let m2 = write32 m1 lock 1 in
    let m3 = (unlink_first head m2).1 in
    let m4 = write32 m3 lock 0 in
    let m5 = write32 m4 current_irql_address mach.irql in
    let not_above : ltb 2 mach.irql ≡ false = let h = ready.level in ground arith in
    let free : read32 m1 lock ≡ 0 =
      read32-write32_outside mach.memory current_irql_address 2 lock
        (let h = ready.cells_apart in omega arith)
      ∙ ready.is_free in
    let ring1 =
      IsRing-write32 mach.memory current_irql_address 2 head (x ∷ xs) ring ready.level_clear in
    let ring2 = IsRing-write32 m1 lock 1 head (x ∷ xs) ring1 ready.lock_clear in
    let unlinked = unlink_first-IsRing head x xs m2 ring2 apart small_head in
    let ring4 =
      IsRing-write32 m3 lock 0 head xs unlinked.1 (ready.lock_clear.0, ready.lock_clear.1.1) in
    let ring5 =
      IsRing-write32 m4 current_irql_address mach.irql head xs ring4
        (ready.level_clear.0, ready.level_clear.1.1) in
    (
      record mach { memory = m5 },
      rw (not_above, free) (rw not_above (ap (λ r. ok r (record mach { memory = m5 })) unlinked.0)),
      ring5,
      read32-write32_outside m4 current_irql_address mach.irql lock
            (let h = ready.cells_apart in omega arith)
          ∙ read32-write32_same m3 lock 0,
      refl,
    )
