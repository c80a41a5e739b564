-- ===== src/Ps/Process/ActiveList.antt =====
-- The list of active processes as it is enumerated.
use windows_10_js.Prelude.{
  ℕ, zero, suc, ◌+◌, ◌≡◌, ◌<◌, ◌∙◌, refl, sym, ap, subst, true, false, some, List, [], ◌∷◌, ◌++◌,
  map, length, length-append, arith, ◌==◌, ◌||◌,
}
use windows_10_js.Hal.Memory.{Memory, read64}
use windows_10_js.Hal.Memory.Cells.{Apart}
use windows_10_js.NtAbi.Eprocess
use windows_10_js.Win32.Rtl.Interlocked.{link_tail}
use windows_10_js.Win32.Rtl.Interlocked.Ring.{IsRing, Linked, AllApart, AreApart, link_tail-IsRing}
use windows_10_js.Ps.Process.{
  Processes, memory_of, on_memory, describe, walk_active, list_active_processes,
  insert_into_active_process_list,
}

-- Entries of the ring with the sentinel `head`: none is at 0, and none overlaps the sentinel.
abbrev pub AreEntries : (head : ℕ) → List ℕ → Type 0
AreEntries head [] = Unit {0}
AreEntries head (x ∷ xs) = ((0 < x) × Apart head 16 x 16) × AreEntries head xs

AreEntries-append :
    (head : ℕ) (xs : List ℕ) (e : ℕ)
    → AreEntries head xs
    → 0 < e
    → Apart head 16 e 16
    → AreEntries head (xs ++ e ∷ [])
AreEntries-append head [] e all pos apart = ((pos, apart), tt)
AreEntries-append head (x ∷ xs) e (here, all) pos apart =
    (here, AreEntries-append head xs e all pos apart)

-- The walk from the entry behind `p` finds the entries of the ring in their order.
walk_active-map :
    (fuel head p : ℕ) (xs : List ℕ) (m : Memory)
    → Linked m p xs head
    → AreEntries head xs
    → length xs < fuel
    → walk_active fuel head (read64 m p) m ≡ some (map (describe m) xs)
unfolding walk_active Linked
walk_active-map zero head p xs m linked all enough = absurd (omega arith)
walk_active-map (suc fuel) head p [] m (next, back) all enough =
    let at_end : ((read64 m p == 0) || (read64 m p == head)) ≡ true = ground arith in
    rw (at_end, walk_active) refl
walk_active-map (suc fuel) head p (x ∷ xs) m (next, back, linked) ((pos, apart), all) enough =
    let on : ((x == 0) || (x == head)) ≡ false = ground arith in
    let rest = walk_active-map fuel head x xs m linked all (omega arith) in
    ap (λ cursor. walk_active (suc fuel) head cursor m) next ∙ rw (on, walk_active) (rw rest refl)

insert-link_tail :
    (head process : ℕ) (m : Memory)
    → insert_into_active_process_list head process m
      ≡ link_tail head (process + Eprocess.active_process_links) m
unfolding insert_into_active_process_list link_tail
insert-link_tail head process m = refl

-- Where the active processes are a ring of entries apart from one another, and the links of a
-- process are apart from them: after the process was inserted, the enumeration, with more fuel than
-- there are processes, lists the old ones in their order and the new one behind them, each by its
-- identifier and name in the new memory.
pub list_active-insert :
    (fuel process : ℕ) (xs : List ℕ) (s : Processes)
    → IsRing (memory_of s) s.ps_active_process_head xs
    → AreApart (s.ps_active_process_head ∷ xs)
    → AreEntries s.ps_active_process_head xs
    → AllApart (process + Eprocess.active_process_links) (s.ps_active_process_head ∷ xs)
    → s.ps_active_process_head < 0x1_0000_0000_0000_0000
    → process + Eprocess.active_process_links < 0x1_0000_0000_0000_0000
    → suc (length xs) < fuel
    → list_active_processes fuel
        (on_memory (insert_into_active_process_list s.ps_active_process_head process) s)
      ≡ some (
          map
            (describe
              (insert_into_active_process_list s.ps_active_process_head process (memory_of s)))
            (xs ++ (process + Eprocess.active_process_links) ∷ []))
unfolding list_active_processes
list_active-insert fuel process xs s ring apart entries fresh small_head small enough =
    let head = s.ps_active_process_head in
    let links = process + Eprocess.active_process_links in
    let m = memory_of s in
    let after = insert_into_active_process_list head process m in
    let linked : IsRing after head (xs ++ links ∷ []) =
      subst (λ m'. IsRing m' head (xs ++ links ∷ [])) (sym (insert-link_tail head process m))
        (link_tail-IsRing head links xs m ring apart fresh small_head small) in
    let both = length-append xs (links ∷ []) in
    walk_active-map fuel head head (xs ++ links ∷ []) after linked
      (AreEntries-append head xs links entries (omega arith) (omega arith)) (omega arith)
