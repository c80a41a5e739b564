-- ===== src/Tests/ExportTests.antt =====
-- The exports of the executive on small structures.
use windows_10_js.Prelude.{◌≡◌, refl, false, List, [], ◌∷◌, arith}
use windows_10_js.Hal.Memory.{read8, read16, read32, read64}
use windows_10_js.Win32.Ex.Rundown.Refinement.{
  Protection, Stands, AreAllowed, IsAllowed, perform_all-specified, acquires, releases, completes,
  specified, specified_all,
}
use windows_10_js.Win32.Ex.Rundown.Refinement
use windows_10_js.Win32.Ex.Slist.Stack.{Chain, IsStack, top}
use windows_10_js.Win32.Ex.Slist.Histories.{
  Call, pushes, pops, asks_depth, flushes, perform_all-IsStack,
}
use windows_10_js.Win32.Ex.Slist.Histories
use windows_10_js.Tests.Sample.{zeros}

abbrev no_reference : Protection
no_reference = record { held = 0; is_closed = false }

abbrev rundown_calls : List Refinement.Call
rundown_calls = acquires ∷ completes ∷ acquires ∷ releases ∷ []

no_reference-Stands : Stands 0x100 zeros no_reference
unfolding Stands read32 read16 read8
no_reference-Stands = (refl, omega arith)

rundown_calls_allowed : AreAllowed rundown_calls no_reference
unfolding AreAllowed IsAllowed Refinement.specified
rundown_calls_allowed = (omega arith, (tt, (omega arith, (omega arith, tt))))

perform_all-specified_example :
    ((Refinement.perform_all 0x100 rundown_calls zeros).0
      ≡ (Refinement.specified_all rundown_calls no_reference).0)
    × Stands 0x100
        (Refinement.perform_all 0x100 rundown_calls zeros).1
        (Refinement.specified_all rundown_calls no_reference).1
perform_all-specified_example =
    perform_all-specified 0x100 rundown_calls zeros no_reference no_reference-Stands
      rundown_calls_allowed

refused_after_completion :
    (Refinement.specified_all rundown_calls no_reference).0 ≡ 1 ∷ 0 ∷ 0 ∷ 0 ∷ []
unfolding Refinement.specified_all Refinement.specified
refused_after_completion = refl

abbrev slist_calls : List Call
slist_calls = pushes 0x200 ∷ pushes 0x210 ∷ asks_depth ∷ pops ∷ flushes ∷ pops ∷ []

empty_slist : IsStack 0x100 zeros []
unfolding Chain read64 read32 read16 read8
empty_slist = record {
  entries = refl;
  depth = refl;
  clear = tt;
  apart = tt;
  low = omega arith;
  all_low = tt;
}

slist_calls_allowed : Histories.AreAllowed 0x100 slist_calls []
unfolding Histories.AreAllowed Histories.IsAllowed Histories.specified
slist_calls_allowed = (
  (omega arith, omega arith, omega arith, tt),
  ((omega arith, omega arith, omega arith, (omega arith, tt)), (tt, (tt, (tt, (tt, tt))))),
)

perform_all-IsStack_example :
    ((Histories.perform_all 0x100 slist_calls zeros).0 ≡ (Histories.specified_all slist_calls []).0)
    × IsStack 0x100
        (Histories.perform_all 0x100 slist_calls zeros).1
        (Histories.specified_all slist_calls []).1
perform_all-IsStack_example =
    perform_all-IsStack 0x100 slist_calls [] zeros empty_slist slist_calls_allowed

slist_answers : (Histories.specified_all slist_calls []).0 ≡ 0 ∷ 0x200 ∷ 2 ∷ 0x210 ∷ 0x200 ∷ 0 ∷ []
unfolding Histories.specified_all Histories.specified top
slist_answers = refl
