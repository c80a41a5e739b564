-- ===== src/Ke/Timer.antt =====
-- system32/ntos/ke/timer.js: the queue of active timers. Times and periods are in units of 100 ns,
-- so that `ms` of the source is 10000 here, and an instant counts from 1601 as in LARGE_INTEGER.
pub mod Expiry
pub mod Entries
use windows_10_js.Prelude.{
  ℕ, zero, suc, ◌+◌, ◌-◌, ◌*◌, ◌%◌, ◌≤◌, Bool, true, false, Option, none, some, List, [], ◌∷◌, ◌++◌,
  ◌==◌, ltb, leb, if◌then◌else◌, length,
}
use windows_10_js.Hal.Memory.{Memory, read32, write32}
use windows_10_js.NtAbi.Ktimer
use windows_10_js.Ke.Machine.{
  Machine, Native, TimerEntry, Run, ok, out_of_fuel, Action, ◌>>=◌, ◌>>◌, gets, modify,
}
use windows_10_js.Ke.Dpc.{insert_queue_dpc, run_queue}

abbrev two_pow_63 : ℕ
two_pow_63 = 0x8000_0000_0000_0000

abbrev two_pow_64 : ℕ
two_pow_64 = 0x1_0000_0000_0000_0000

abbrev write_guest32 : ℕ → ℕ → Machine → Machine
write_guest32 a v m = record m { memory = write32 m.memory a v }

-- `Clock.nowMs()` in units of 100 ns since 1601: each call takes the next reading of the clock.
unfoldable pub now_time : Native → Action ℕ
now_time n m = ok (n.boot_time + n.uptime m.readings) (record m { readings = suc m.readings })

-- `u64ToSigned` and `dueTimeToMs`: a negative time is relative to now, any other one is absolute.
unfoldable pub due_time : Native → ℕ → Action ℕ
unfolding now_time
due_time n value m =
    if leb two_pow_63 value
    then (now_time n >>= λ now m. ok (now + (two_pow_64 - value)) m) m
    else ok value m

unfoldable pub queue_index : ℕ → List TimerEntry → Option ℕ
queue_index timer [] = none
queue_index timer (e ∷ es) =
    if e.timer_pointer == timer
    then some 0
    else elim (queue_index timer es) [ none ↦ none | some i ↦ some (suc i) ]

unfoldable pub initialize_timer : ℕ → ℕ → Machine → Machine
initialize_timer timer type m =
    let m = write_guest32 (timer + Ktimer.type) type m in
    let m = write_guest32 (timer + Ktimer.signal_state) 0 m in
    let m = write_guest32 (timer + Ktimer.dpc) 0 m in
    let m = write_guest32 (timer + Ktimer.dpc + 4) 0 m in write_guest32 (timer + Ktimer.period) 0 m

-- `activeTimers.splice(index, 1)`
unfoldable pub splice : ℕ → List TimerEntry → List TimerEntry
splice i [] = []
splice zero (e ∷ es) = es
splice (suc i) (e ∷ es) = e ∷ splice i es

unfoldable pub cancel_timer : ℕ → Machine → ℕ × Machine
unfolding queue_index splice
cancel_timer timer m = elim (queue_index timer m.active_timers) [
  | none ↦ (0, m)
  | some i ↦ (1, record m { active_timers = splice i m.active_timers })
]

abbrev pub is_some {ℓ} : {A : Type ℓ} → Option A → Bool
is_some none = false
is_some (some _) = true

unfoldable pub set_timer : Native → ℕ → ℕ → ℕ → ℕ → Action ℕ
unfolding cancel_timer due_time
set_timer n timer due_value dpc period_ms = do
  was_queued ← gets (λ m. is_some (queue_index timer m.active_timers))
  modify (λ m. (cancel_timer timer m).1)
  modify (write_guest32 (timer + Ktimer.dpc) dpc)
  modify (write_guest32 (timer + Ktimer.period) period_ms)
  due ← due_time n due_value
  modify (λ m. record m {
    active_timers =
        m.active_timers
        ++ record {
          timer_pointer = timer;
          due = due;
          period = period_ms % 0x1_0000_0000 * 10000;
          dpc_pointer = dpc % 0x1_0000_0000;
        }
          ∷ [];
  })
  gets (λ _. if was_queued then 1 else 0)

-- What an expired timer does besides its rearming.
unfoldable pub signal : TimerEntry → Machine → Machine
unfolding insert_queue_dpc
signal e m =
    let m = write_guest32 (e.timer_pointer + Ktimer.signal_state) 1 m in
    if e.dpc_pointer == 0 then m else (insert_queue_dpc e.dpc_pointer 0 0 m).1

-- A periodic timer goes on from the time for which it was set, or from now if that has passed too.
unfoldable pub rearm : ℕ → TimerEntry → List TimerEntry → List TimerEntry
rearm now e rest =
    if ltb 0 e.period
    then (let due = e.due + e.period in
        record e { due = if leb due now then now + e.period else due } ∷ rest)
    else rest

-- The loop of `checkTimers`, which runs from the end of the array to its start.
unfoldable pub check_list : ℕ → List TimerEntry → Machine → List TimerEntry × Machine
unfolding signal rearm
check_list now [] m = ([], m)
check_list now (e ∷ es) m =
    let (rest, m') = check_list now es m in
    if ltb now e.due then (e ∷ rest, m') else (rearm now e rest, signal e m')

unfoldable pub check_timers : Native → Action (Unit {0})
unfolding now_time check_list
check_timers n = do
  now ← now_time n
  modify (λ m.
      let (timers, m') = check_list now m.active_timers m in record m' { active_timers = timers })

-- `delayExecutionThread`: the loop until the deadline, with fuel for its rounds and for each drain.
unfoldable pub delay_loop : Native → ℕ → ℕ → ℕ → Action (Unit {0})
unfolding check_timers run_queue
delay_loop n drain deadline zero = λ m. out_of_fuel
delay_loop n drain deadline (suc fuel) = do
  check_timers n
  run_queue n drain
  now ← now_time n
  let rest = delay_loop n drain deadline fuel
  if leb deadline now then (λ m. ok tt m) else rest

unfoldable pub pending_count : Machine → ℕ
pending_count m = length m.active_timers
