-- ===== src/Win32/Ex/Slist/Histories.antt =====
-- Any history of calls on one SLIST_HEADER, against a stack of entries.
use windows_10_js.Prelude.{
  ℕ, ◌+◌, ◌%◌, ◌≡◌, ◌≢◌, ◌∙◌, ◌≤◌, refl, ap, subst, sym, List, [], ◌∷◌, length,
}
use windows_10_js.Hal.Memory.{Memory}
use windows_10_js.Hal.Memory.Cells.{Apart}
use windows_10_js.Win32.Ex.Slist.{slist_push, slist_pop, slist_flush, query_depth_slist}
use windows_10_js.Win32.Ex.Slist.Stack.{
  IsStack, AllApart, top, read64-top, push-IsStack, flush-IsStack, pop_empty, pop-IsStack,
}

pub data Call : Type 0 where
  pushes : ℕ → Call
  pops flushes asks_depth : Call

unfoldable pub perform : (head : ℕ) → Call → Memory → ℕ × Memory
perform head (pushes entry) m = slist_push head entry m
perform head pops m = slist_pop head m
perform head flushes m = slist_flush head m
perform head asks_depth m = (query_depth_slist head m, m)

-- The answer of a stack, and what is left of it.
unfoldable pub specified : Call → List ℕ → ℕ × List ℕ
unfolding top
specified (pushes entry) bs = (top bs, entry ∷ bs)
specified pops [] = (0, [])
specified pops (b ∷ bs) = (b, bs)
specified flushes bs = (top bs, [])
specified asks_depth bs = (length bs % 65536, bs)

-- An entry that is pushed is no null pointer, lies below 4 GB, and overlaps neither the header nor an
-- entry that is in the list.
unfoldable pub IsAllowed : (head : ℕ) → Call → List ℕ → Type 0
IsAllowed head (pushes entry) bs =
    (entry ≢ 0) × (entry + 8 ≤ 0x1_0000_0000) × Apart head 16 entry 8 × AllApart entry 8 bs
IsAllowed head pops bs = Unit {0}
IsAllowed head flushes bs = Unit {0}
IsAllowed head asks_depth bs = Unit {0}

unfoldable pub perform_all : (head : ℕ) → List Call → Memory → List ℕ × Memory
unfolding perform
perform_all head [] m = ([], m)
perform_all head (call ∷ calls) m =
    let first = perform head call m in
    let rest = perform_all head calls first.1 in (first.0 ∷ rest.0, rest.1)

unfoldable pub specified_all : List Call → List ℕ → List ℕ × List ℕ
unfolding specified
specified_all [] bs = ([], bs)
specified_all (call ∷ calls) bs =
    let first = specified call bs in
    let rest = specified_all calls first.1 in (first.0 ∷ rest.0, rest.1)

unfoldable pub AreAllowed : (head : ℕ) → List Call → List ℕ → Type 0
unfolding IsAllowed specified
AreAllowed head [] bs = Unit {0}
AreAllowed head (call ∷ calls) bs =
    IsAllowed head call bs × AreAllowed head calls (specified call bs).1

module _ (head : ℕ) where
  perform-IsStack :
      (call : Call) (bs : List ℕ) (m : Memory)
      → IsStack head m bs
      → IsAllowed head call bs
      → ((perform head call m).0 ≡ (specified call bs).0)
        × IsStack head (perform head call m).1 (specified call bs).1
  unfolding perform specified IsAllowed query_depth_slist slist_push slist_flush
  perform-IsStack (pushes entry) bs m s (nonzero, small, clear, apart) =
      (read64-top head m bs s, push-IsStack head m bs s entry nonzero small clear apart)
  perform-IsStack pops [] m s _ =
      let same = pop_empty head m s in
      (ap (λ r. r.0) same, subst (λ r. IsStack head r.1 []) (sym same) s)
  perform-IsStack pops (b ∷ bs) m s _ = pop-IsStack head m b bs s
  perform-IsStack flushes bs m s _ = (read64-top head m bs s, flush-IsStack head m bs s)
  perform-IsStack asks_depth bs m s _ = (s.depth, s)

  -- Any history of pushes, pops, flushes and questions for the depth on an SLIST_HEADER is answered
  -- as a stack answers it: a push and a flush answer the first entry that there was, a pop the one
  -- it removes, 0 where there is none, and the depth is the number of entries modulo 2 ^ 16. The
  -- header ends with the entries of the stack and their number modulo 2 ^ 16 as its depth. The
  -- header and the entries lie below 4 GB, and an entry that is pushed is not 0 and overlaps neither
  -- the header nor an entry of the list.
  pub perform_all-IsStack :
      (calls : List Call) (bs : List ℕ) (m : Memory)
      → IsStack head m bs
      → AreAllowed head calls bs
      → ((perform_all head calls m).0 ≡ (specified_all calls bs).0)
        × IsStack head (perform_all head calls m).1 (specified_all calls bs).1
  unfolding perform_all specified_all AreAllowed
  perform_all-IsStack [] bs m s allowed = (refl, s)
  perform_all-IsStack (call ∷ calls) bs m s (allowed, later) =
      let (answer, s') = perform-IsStack call bs m s allowed in
      let (answers, end) =
        perform_all-IsStack calls (specified call bs).1 (perform head call m).1 s' later in
      (
        ap (λ a. a ∷ (perform_all head calls (perform head call m).1).0) answer
            ∙ ap (λ as'. (specified call bs).0 ∷ as') answers,
        end,
      )
