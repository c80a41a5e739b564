-- ===== src/Tests/PsTests.antt =====
-- Processes and the scheduler at concrete inputs.
use windows_10_js.Prelude.{
  ℕ, suc, ◌-◌, ◌≡◌, ◌≢◌, ◌<◌, ◌≤◌, ◌⊎◌, refl, inl, inr, Bool-cases, true, false, some, List, [],
  ◌∷◌, map, ◌==◌, if◌then◌else◌, arith,
}
use windows_10_js.Hal.Memory.{read64, read32, read8, write64, write32}
use windows_10_js.Win32.GuestHeap.{Heap}
use windows_10_js.Win32.Rtl.Interlocked.Ring.{IsRing, Linked}
use windows_10_js.Ps.Process.{
  Processes, memory_of, on_memory, describe, list_active_processes, insert_into_active_process_list,
}
use windows_10_js.Ps.Process.ActiveList.{list_active-insert}
use windows_10_js.Ps.Scheduler.{
  ready, done, Outcome, yielded, finished, Proc, World, tick, state_after, kill,
}
use windows_10_js.Ps.Scheduler.Rounds.{Free, IsQuiet}
use windows_10_js.Ps.Scheduler.Progress.{ticks, ticks-Free_of_measure}
use windows_10_js.Ps.Scheduler.Kills.{times, ticks-ready}
use windows_10_js.Tests.Sample.{zeros}

-- The process at 0x10000 is active; the sentinel stands at 0x2000.
abbrev one_active : Processes
one_active = record {
  heap = record {
    memory =
        write64 (write64 (write64 (write64 zeros 0x2000 0x10448) 0x2008 0x10448) 0x10448 0x2000)
          0x10450 0x2000;
    arena_base = 0;
    heap_ready = true;
  };
  ps_active_process_head = 0x2000;
  system_process_pointer = 0x10000;
  current_thread_pointer = 0;
  process_notify_routines = [];
}

one_active-IsRing : IsRing (memory_of one_active) 0x2000 (0x10448 ∷ [])
unfolding Linked read64 write64 read32 write32 read8
one_active-IsRing = (refl, refl, (refl, refl))

list_active-insert_example :
    list_active_processes 3 (on_memory (insert_into_active_process_list 0x2000 0x20000) one_active)
    ≡ some (
        map
          (describe (insert_into_active_process_list 0x2000 0x20000 (memory_of one_active)))
          (0x10448 ∷ 0x20448 ∷ []))
list_active-insert_example =
    list_active-insert 3 0x20000 (0x10448 ∷ []) one_active one_active-IsRing
      ((omega arith, tt), (tt, tt)) ((omega arith, omega arith), tt)
      (omega arith, (omega arith, tt)) (omega arith) (omega arith) (omega arith)

abbrev no_effect : (routine : ℕ) (args : List ℕ) → Heap → Heap
no_effect routine args h = h

-- The generator 7 counts the variable down and ends at 0; every other yields for ever.
abbrev counting : (gen : ℕ) → World ℕ → Outcome × World ℕ
counting gen w =
    if gen == 7
    then (if w.programs == 0
        then (finished, w)
        else (yielded, record w { programs = w.programs - 1 }))
    else (yielded, w)

counting-IsQuiet : IsQuiet counting
counting-IsQuiet gen w = elim (Bool-cases (gen == 7)) [
  | inl it ↦ rw it (elim (Bool-cases (w.programs == 0)) [
    | inl at_end ↦ rw at_end refl
    | inr more ↦ rw more refl
  ])
  | inr other ↦ rw other refl
]

counting_others : (h : ℕ) (w : World ℕ) → h ≢ 7 → (counting h w).1.programs ≤ w.programs
counting_others h w other = let unlike : (h == 7) ≡ false = ground arith in rw unlike (omega arith)

counting_falls :
    (w : World ℕ) → (state_after (counting 7 w).0 ≡ done) ⊎ ((counting 7 w).1.programs < w.programs)
counting_falls w = elim (Bool-cases (w.programs == 0)) [
  | inl at_end ↦ inl (rw at_end refl)
  | inr more ↦ inr (rw more (ground arith))
]

abbrev process_of : (pid gen : ℕ) → Proc
process_of pid gen = record {
  pid = pid;
  name = [];
  gen = gen;
  state = ready;
  process_pointer = 0x10000;
  thread_pointer = 0x30000;
  owns_process = false;
}

abbrev two_processes : World ℕ
two_processes = record {
  processes = one_active;
  procs = process_of 8 3 ∷ process_of 9 7 ∷ [];
  next_pid = 10;
  system_thread_pointer = 0;
  programs = 2;
}

ticks-Free_of_measure_example :
    (w' : World ℕ) × (ticks no_effect 0 0 0 counting 3 3 two_processes ≡ some w') × Free 7 w'.procs
ticks-Free_of_measure_example =
    ticks-Free_of_measure no_effect 0 0 0 counting counting-IsQuiet 7 (λ n. n) counting_others
      counting_falls 3 two_processes (inr (omega arith, inl (refl, refl, tt))) (omega arith)

-- Every program counts its steps, kills the process 9 and yields.
abbrev killing : (gen : ℕ) → World ℕ → Outcome × World ℕ
killing gen w = (yielded, record (kill 9 w).1 { programs = suc w.programs })

abbrev one_process : World ℕ
one_process = record two_processes { procs = process_of 9 7 ∷ [] }

ticks-ready_example :
    ((w' : World ℕ) × (ticks no_effect 0 0 0 killing 5 2 one_process ≡ some w')
      × (w'.procs ≡ process_of 9 7 ∷ [])
      × (w'.programs ≡ times 5 suc 2))
    × ((w' : World ℕ) × (tick no_effect 0 0 0 killing 2 (kill 9 one_process).1 ≡ some w')
        × (w'.procs ≡ [])
        × (w'.programs ≡ 2))
ticks-ready_example =
    ticks-ready no_effect 0 0 0 killing (process_of 9 7) suc (λ w. refl) (λ w. refl) (λ w. refl) 5 0
      one_process refl
