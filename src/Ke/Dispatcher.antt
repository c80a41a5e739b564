-- ===== src/Ke/Dispatcher.antt =====
-- system32/ntos/ke/dispatcher.js: events and mutexes (KEVENT, KMUTEX), and the waits on them.
pub mod Objects
pub mod Waits
use windows_10_js.Prelude.{
  ℕ, zero, suc, ◌+◌, ◌*◌, ◌-◌, Bool, true, false, not, ◌&&◌, Option, none, some, List, [], ◌∷◌,
  ◌==◌, leb, if◌then◌else◌,
}
use windows_10_js.Hal.Memory.{Memory, read8, read32, write8, write32}
use windows_10_js.NtAbi.DispatcherHeader
use windows_10_js.Ke.Machine.{Machine, Native, Run, ok, out_of_fuel, Action, ◌>>=◌, ◌>>◌}
use windows_10_js.Ke.Dpc
use windows_10_js.Ke.Timer
use windows_10_js.Io.WorkItems

abbrev pub status_success : ℕ
status_success = 0

abbrev pub status_timeout : ℕ
status_timeout = 0x102

unfoldable pub read_state : ℕ → Memory → ℕ
read_state object m = read32 m (object + DispatcherHeader.signal_state)

unfoldable pub initialize_event : ℕ → ℕ → ℕ → Memory → Memory
initialize_event event type initial_state m =
    let m = write8 m (event + DispatcherHeader.type) type in
    write32 m (event + DispatcherHeader.signal_state) (if initial_state == 0 then 0 else 1)

unfoldable pub set_event : ℕ → Memory → ℕ × Memory
unfolding read_state
set_event event m = (read_state event m, write32 m (event + DispatcherHeader.signal_state) 1)

unfoldable pub clear_event : ℕ → Memory → Memory
clear_event event m = write32 m (event + DispatcherHeader.signal_state) 0

unfoldable pub reset_event : ℕ → Memory → ℕ × Memory
unfolding read_state
reset_event event m = (read_state event m, write32 m (event + DispatcherHeader.signal_state) 0)

unfoldable pub initialize_mutex : ℕ → Memory → Memory
initialize_mutex mutex m =
    let m = write8 m (mutex + DispatcherHeader.type) DispatcherHeader.type_mutant in
    let m = write32 m (mutex + DispatcherHeader.signal_state) 1 in
    let m = write32 m (mutex + DispatcherHeader.mutex_owner) 0 in
    write32 m (mutex + DispatcherHeader.mutex_owner + 4) 0

unfoldable pub release_mutex : ℕ → Memory → ℕ × Memory
unfolding read_state
release_mutex mutex m =
    let previous = read_state mutex m in
    let m = write32 m (mutex + DispatcherHeader.mutex_owner) 0 in
    let m = write32 m (mutex + DispatcherHeader.mutex_owner + 4) 0 in
    let m = write32 m (mutex + DispatcherHeader.signal_state) 1 in
    (if previous == 0 then 1 else 0, m)

-- `KernelThreads.getCurrentThreadHandle() || 1`
abbrev pub owner_of : ℕ → ℕ
owner_of thread = if thread == 0 then 1 else thread

-- The three kinds of object that a wait knows; of any other type is `other`.
pub data Kind : Type 0 where
  notification synchronization mutant other : Kind

unfoldable pub kind_of : ℕ → Kind
kind_of type =
    if type == DispatcherHeader.type_event_notification
    then Kind.notification
    else if type == DispatcherHeader.type_event_synchronization
    then Kind.synchronization
    else if type == DispatcherHeader.type_mutant
    then Kind.mutant
    else Kind.other

-- The switch of `tryAcquire`, at the object's kind, with its signal state read.
unfoldable pub satisfy : Kind → ℕ → ℕ → ℕ → Memory → Bool × Memory
satisfy Kind.notification thread object signaled m = (not (signaled == 0), m)
satisfy Kind.synchronization thread object signaled m =
    if signaled == 0
    then (false, m)
    else (true, write32 m (object + DispatcherHeader.signal_state) 0)
satisfy Kind.mutant thread object signaled m =
    if signaled == 0
    then (false, m)
    else (let m = write32 m (object + DispatcherHeader.signal_state) 0 in
        (true, write32 m (object + DispatcherHeader.mutex_owner) (owner_of thread)))
satisfy Kind.other thread object signaled m = (false, m)

unfoldable pub try_acquire : ℕ → ℕ → Memory → Bool × Memory
unfolding satisfy kind_of read_state
try_acquire thread object m =
    satisfy (kind_of (read8 m (object + DispatcherHeader.type))) thread object (read_state object m)
      m

-- The timeout of a wait, in units of 100 ns. A positive LARGE_INTEGER is an absolute time in NT;
-- the code negates it like a relative one, and gets a deadline before the start of the wait.
pub data Timeout : Type 0 where
  infinite poll : Timeout
  after before : ℕ → Timeout

unfoldable pub timeout_of : ℕ → Memory → Timeout
timeout_of pointer m =
    let raw = read32 m pointer + read32 m (pointer + 4) * 0x1_0000_0000 in
    if pointer == 0
    then infinite
    else if raw == 0
    then poll
    else if leb 0x8000_0000_0000_0000 raw
    then after (0x1_0000_0000_0000_0000 - raw)
    else before raw

-- `Clock.uptimeMs() >= deadline`, for a wait that began at `start`.
abbrev pub passed : Timeout → ℕ → ℕ → Bool
passed infinite start now = false
passed poll start now = leb start now
passed (after t) start now = leb (start + t) now
passed (before t) start now = leb start (now + t)

abbrev pub is_poll : Timeout → Bool
is_poll poll = true
is_poll _ = false

-- `Clock.uptimeMs()`
unfoldable pub uptime : Native → Action ℕ
uptime n m = ok (n.uptime m.readings) (record m { readings = suc m.readings })

-- The clock is read for a deadline only if there is a deadline.
abbrev read_deadline : Native → Timeout → Action ℕ
unfolding uptime
read_deadline n infinite = λ m. ok 0 m
read_deadline n _ = uptime n

unfoldable pub pump_kernel : Native → ℕ → Action (Unit {0})
unfolding Timer.check_timers Dpc.run_queue WorkItems.run_queue
pump_kernel n drain = do Timer.check_timers n; Dpc.run_queue n drain; WorkItems.run_queue n drain

-- A wait tries `attempt` in each round; `attempt` answers with the value that the wait returns.
-- The wait gives up at once if it only polls, or at the deadline; else it pumps the kernel.
unfoldable pub wait_loop : Native → ℕ → (Machine → Option ℕ × Machine) → Timeout → ℕ → ℕ → Action ℕ
unfolding uptime pump_kernel
wait_loop n drain attempt timeout start zero m = out_of_fuel
wait_loop n drain attempt timeout start (suc fuel) m =
    let (answer, m1) = attempt m in
    let pumped = (pump_kernel n drain >> wait_loop n drain attempt timeout start fuel) in
    elim answer [
      | some status ↦ ok status m1
      | none ↦
          if is_poll timeout
          then ok status_timeout m1
          else ((read_deadline n timeout >>= λ now.
                if passed timeout start now then (λ m. ok status_timeout m) else pumped)
              m1)
    ]

abbrev pub attempt_single : ℕ → Machine → Option ℕ × Machine
attempt_single object m =
    let (acquired, memory) = try_acquire m.current_thread object m.memory in
    (if acquired then some status_success else none, record m { memory = memory })

unfoldable pub wait_for_single_object : Native → (drain fuel object timeout_pointer : ℕ) → Action ℕ
unfolding wait_loop try_acquire timeout_of
wait_for_single_object n drain fuel object timeout_pointer m =
    let timeout = timeout_of timeout_pointer m.memory in
    (read_deadline n timeout >>= λ start.
    wait_loop n drain (attempt_single object) timeout start fuel)
      m

-- WaitAny: the first object in the order of the array that can be acquired.
unfoldable pub acquire_any : ℕ → ℕ → List ℕ → Memory → Option ℕ × Memory
unfolding try_acquire
acquire_any thread i [] m = (none, m)
acquire_any thread i (o ∷ os) m =
    let (acquired, m') = try_acquire thread o m in
    let rest = acquire_any thread (i + 1) os m' in if acquired then (some i, m') else rest

unfoldable pub all_signaled : List ℕ → Memory → Bool
unfolding read_state
all_signaled [] m = true
all_signaled (o ∷ os) m = not (read_state o m == 0) && all_signaled os m

unfoldable pub acquire_each : ℕ → List ℕ → Memory → Memory
unfolding try_acquire
acquire_each thread [] m = m
acquire_each thread (o ∷ os) m = acquire_each thread os (try_acquire thread o m).1

-- WaitAll: all objects at once, or none.
unfoldable pub acquire_all : ℕ → List ℕ → Memory → Option ℕ × Memory
unfolding all_signaled acquire_each
acquire_all thread objects m =
    if all_signaled objects m
    then (some status_success, acquire_each thread objects m)
    else (none, m)

-- The low halves of the `count` pointers of the array.
unfoldable pub read_objects : (count array : ℕ) → Memory → List ℕ
read_objects zero array m = []
read_objects (suc count) array m = read32 m array ∷ read_objects count (array + 8) m

abbrev attempt_multiple : ℕ → List ℕ → Machine → Option ℕ × Machine
attempt_multiple wait_type objects m =
    let (answer, memory) =
      if wait_type == 1
      then acquire_any m.current_thread 0 objects m.memory
      else acquire_all m.current_thread objects m.memory in
    (answer, record m { memory = memory })

unfoldable pub wait_for_multiple_objects :
    Native → (drain fuel count array wait_type timeout_pointer : ℕ) → Action ℕ
unfolding wait_loop acquire_any acquire_all timeout_of read_objects
wait_for_multiple_objects n drain fuel count array wait_type timeout_pointer m =
    let timeout = timeout_of timeout_pointer m.memory in
    let objects = read_objects count array m.memory in
    (read_deadline n timeout >>= λ start.
    wait_loop n drain (attempt_multiple wait_type objects) timeout start fuel)
      m
