-- ===== src/Tests/KeTests.antt =====
-- The kernel core at concrete inputs.
use windows_10_js.Prelude.{ℕ, suc, ◌+◌, ◌≡◌, refl, ◌⊎◌, inl, inr, true, false, [], ◌∷◌, ◌++◌, arith}
use windows_10_js.Hal.Memory.{Memory, read8, read16, read32, write32}
use windows_10_js.NtAbi.Kdpc
use windows_10_js.Ke.Machine.{Machine, TimerEntry, ok, out_of_fuel}
use windows_10_js.Ke.Irql.Levels.{
  Nest, ended, bracket, IsPublished, EndsWell, rises, run_nest-EndsWell,
}
use windows_10_js.Ke.Dpc
use windows_10_js.Io.WorkItems
use windows_10_js.Ke.Dpc.{
  read_field, insert_queue_dpc, remove_queue_dpc, splice_first, run_queue, pending,
}
use windows_10_js.Ke.Dpc.Queue.{IsQueue, insert-IsQueue}
use windows_10_js.Ke.Dpc.Drain.{IsTame, deliver_all, run_queue-deliver_all}
use windows_10_js.Ke.Timer.{check_timers, check_list, set_timer, signal, initialize_timer}
use windows_10_js.Ke.Timer.Expiry.{NotDue, check_list-NotDue}
use windows_10_js.Ke.Timer.Entries.{others, Unique, Absent, armed, set_timer-armed}
use windows_10_js.Ke.Dispatcher.{
  pump_kernel, timeout_of, read_state, try_acquire, wait_for_single_object, status_success,
  status_timeout,
}
use windows_10_js.Ke.Dispatcher.Objects.{fired_timer}
use windows_10_js.Ke.Dispatcher.Waits.{IsLive, wait_for_single_object-returns}
use windows_10_js.Ke.FastMutex as Lock
use windows_10_js.Ke.FastMutex.Cycle.{acquire-release}
use windows_10_js.Ke.FastMutex.Contention.{IsHeldSignaled, acquire_loop-spins}
use windows_10_js.Tests.Sample.{zeros, booted, idle}

-- From level 0: a bracket to 2 with one to 15 in it, then one to 1.
abbrev three_brackets : Nest
three_brackets = bracket 2 (bracket 15 ended ended) (bracket 1 ended ended)

booted-IsPublished : IsPublished booted
unfolding IsPublished read32 read16 read8
booted-IsPublished = refl

run_nest-EndsWell_example : EndsWell three_brackets booted
run_nest-EndsWell_example = run_nest-EndsWell three_brackets booted booted-IsPublished

three_brackets_rise : (rises 0 three_brackets ≡ true) × (rises 5 three_brackets ≡ false)
unfolding rises
three_brackets_rise = (refl, refl)

-- A DPC at 0x5000.
abbrev one_queued : Machine
one_queued = record booted {
  memory = write32 zeros (0x5000 + Kdpc.dpc_data) 1;
  dpc_queue = 0x5000 ∷ [];
}

one_queued-IsQueue : IsQueue one_queued
unfolding write32 read32
one_queued-IsQueue = record { all_marked = omega arith; spaced = (tt, tt) }

insert-IsQueue_example : IsQueue (insert_queue_dpc 0x6000 7 8 one_queued).1
insert-IsQueue_example = insert-IsQueue 0x6000 7 8 one_queued (inr (omega arith)) one_queued-IsQueue

idle-IsTame : IsTame idle
idle-IsTame = record {
  exec_queue = λ routine args m. refl;
  exec_irql = λ routine args m. refl;
  js_queue = λ routine args m. refl;
  js_irql = λ routine args m. refl;
}

run_queue-deliver_all_example :
    (run_queue idle 3 one_queued ≡ ok tt (deliver_all idle one_queued (0x5000 ∷ [])))
    × ((deliver_all idle one_queued (0x5000 ∷ [])).dpc_queue ≡ [])
    × ((deliver_all idle one_queued (0x5000 ∷ [])).irql ≡ 0)
run_queue-deliver_all_example =
    run_queue-deliver_all idle 3 one_queued idle-IsTame (omega arith) (omega arith)

abbrev periodic : TimerEntry
periodic = record { timer_pointer = 0x7000; due = 100; period = 30; dpc_pointer = 0 }

abbrev single : TimerEntry
single = record { timer_pointer = 0x8000; due = 500; period = 0; dpc_pointer = 0 }

check_list-NotDue_example : NotDue 1000 (check_list 1000 (periodic ∷ single ∷ []) booted).0
check_list-NotDue_example = check_list-NotDue 1000 (periodic ∷ single ∷ []) booted

sweep_runs :
    (check_list 1000 (periodic ∷ single ∷ []) booted).0
    ≡ record { timer_pointer = 0x7000; due = 1030; period = 30; dpc_pointer = 0 } ∷ []
unfolding check_list
sweep_runs = refl

abbrev two_timers : Machine
two_timers = record booted { active_timers = periodic ∷ single ∷ [] }

set_timer-armed_example :
    (answer : ℕ) × (m : Machine) × (set_timer idle 0x8000 42 0 0 two_timers ≡ ok answer m)
    × (m.active_timers ≡ others 0x8000 two_timers.active_timers ++ armed 1000 0x8000 42 0 0 ∷ [])
    × Unique m.active_timers
    × (((answer ≡ 0) × Absent 0x8000 two_timers.active_timers)
        ⊎ ((answer ≡ 1) × ¬ Absent 0x8000 two_timers.active_timers))
set_timer-armed_example = set_timer-armed idle 0x8000 42 0 0 two_timers (omega arith)

abbrev timer_entry : TimerEntry
timer_entry = record { timer_pointer = 0x8000; due = 5; period = 0; dpc_pointer = 0 }

fired_timer_example :
    let fired = (signal timer_entry (initialize_timer 0x8000 8 booted)).memory in
    (read_state 0x8000 fired ≡ 1) × (try_acquire 6 0x8000 fired ≡ (false, fired))
fired_timer_example = fired_timer 6 8 timer_entry booted (inl refl) refl

-- Nothing is queued, and the level lets DPCs run.
abbrev Quiet : Machine → Type 0
Quiet m = (m.dpc_queue ≡ []) × (m.work_queue ≡ []) × (m.active_timers ≡ [])

idle-IsLive : IsLive idle 1 Quiet
unfolding pump_kernel check_timers Dpc.run_queue WorkItems.run_queue
idle-IsLive = record {
  pumps = λ m q. (record m { readings = suc m.readings }, ground arith, omega arith, q);
  reads = λ m q. q;
  ticks = λ i j h. omega arith;
}

-- An event at 0x900 that is not set, and a timeout of 120 units at 0xa00.
abbrev waiting : Machine
waiting = record booted { memory = write32 (write32 zeros 0xa00 0xffff_ff88) 0xa04 0xffff_ffff }

wait_for_single_object-returns_example :
    (status : ℕ) × (m' : Machine) × (wait_for_single_object idle 1 201 0x900 0xa00 waiting
      ≡ ok status m')
    × ((status ≡ status_success) ⊎ (status ≡ status_timeout))
unfolding timeout_of read32 write32
wait_for_single_object-returns_example =
    wait_for_single_object-returns {Good = Quiet} idle 1 200 0x900 0xa00 120 waiting idle-IsLive
      (refl, refl, refl) refl (omega arith)

abbrev unlocked : Machine
unlocked = record booted { memory = write32 zeros 0x900 1 }

acquire-release_example :
    (held released : Machine) × (Lock.try_acquire 0x900 unlocked ≡ ok 1 held)
    × (held.irql ≡ 1)
    × (read32 held.memory 0x900 ≡ 0)
    × (read32 held.memory 0x908 ≡ 1)
    × (Lock.try_acquire 0x900 held ≡ ok 0 held)
    × (Lock.release 0x900 held ≡ ok tt released)
    × (released.irql ≡ 0)
    × (read32 released.memory 0x900 ≡ 1)
    × (read32 released.memory 0x908 ≡ 0)
    × (read_state 0x918 released.memory ≡ 1)
unfolding read32 write32
acquire-release_example = acquire-release 0x900 unlocked (omega arith) refl (omega arith)

abbrev held_memory : Memory
held_memory = write32 zeros (0x900 + 0x1c) 1

held_memory-IsHeldSignaled : IsHeldSignaled 0x900 held_memory
unfolding write32 read32 read8
held_memory-IsHeldSignaled = record {
  held = omega arith;
  notification = refl;
  signaled = omega arith;
}

acquire_loop-spins_example :
    Lock.acquire_loop idle 5 5 0x900 0 1000 (record booted { memory = held_memory }) ≡ out_of_fuel
acquire_loop-spins_example =
    acquire_loop-spins idle 5 4 0x900 0 1000 (record booted { memory = held_memory })
      held_memory-IsHeldSignaled
