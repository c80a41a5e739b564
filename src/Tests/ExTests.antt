-- ===== src/Tests/ExTests.antt =====
-- The executive at concrete inputs.
use windows_10_js.Prelude.{ℕ, refl, List, [], ◌∷◌}
use windows_10_js.Hal.Memory.{read32}
use windows_10_js.Ex.Resource.Lock.{free, readers, enter_exclusive, enter_shared, leave, downgrade}
use windows_10_js.Ex.Resource.Refinement.{
  Call, try_exclusive, try_shared, releases, converts, perform_all, specified_all, Gives,
  perform_all-specified_all,
}
use windows_10_js.Tests.Sample.{booted, idle}

-- Thread 5 writes, thread 6 is refused, the writer becomes a reader, and thread 6 joins it.
abbrev history : List (ℕ × Call)
history =
    (5, try_exclusive)
    ∷ (6, try_shared)
    ∷ (5, converts)
    ∷ (6, try_shared)
    ∷ (5, releases)
    ∷ (7, try_exclusive)
    ∷ []

perform_all-specified_all_example :
    Gives 0x900 (perform_all idle 0x900 history booted) (1 ∷ 0 ∷ 0 ∷ 1 ∷ 0 ∷ 0 ∷ []) (readers 0)
unfolding specified_all enter_exclusive enter_shared leave downgrade read32
perform_all-specified_all_example =
    perform_all-specified_all idle 0x900 history booted free (readers 0)
      (1 ∷ 0 ∷ 0 ∷ 1 ∷ 0 ∷ 0 ∷ []) (refl, refl) refl
