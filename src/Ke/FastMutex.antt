-- ===== src/Ke/FastMutex.antt =====
-- system32/ntos/ke/fast-mutex.js: FAST_MUTEX, with its embedded event.
pub mod Cycle
pub mod Contention
use windows_10_js.Prelude.{
  ℕ, zero, suc, ◌+◌, Bool, true, false, Option, none, some, ◌==◌, if◌then◌else◌,
}
use windows_10_js.Hal.Memory.{Memory, read32, write32}
use windows_10_js.NtAbi.FastMutex
use windows_10_js.Ke.Machine.{
  Machine, Native, Run, ok, out_of_fuel, Action, ◌>>=◌, ◌>>◌, gets, on_memory,
}
use windows_10_js.Ke.Irql.{raise_irql, lower_irql}
use windows_10_js.Ke.Dispatcher.{initialize_event, set_event, owner_of, wait_for_single_object}

abbrev pub apc_level : ℕ
apc_level = 1

unfoldable pub initialize : ℕ → Memory → Memory
unfolding initialize_event
initialize fast_mutex m =
    let m = write32 m (fast_mutex + FastMutex.count) 1 in
    let m = write32 m (fast_mutex + FastMutex.owner) 0 in
    let m = write32 m (fast_mutex + FastMutex.owner + 4) 0 in
    let m = write32 m (fast_mutex + FastMutex.contention) 0 in
    let m = write32 m (fast_mutex + FastMutex.old_irql) 0 in
    initialize_event (fast_mutex + FastMutex.event) 0 0 m

-- Taking a free mutex: the count, the owner and the level to return to.
unfoldable pub take : (fast_mutex thread old_irql : ℕ) → Memory → Memory
take fast_mutex thread old_irql m =
    let m = write32 m (fast_mutex + FastMutex.count) 0 in
    let m = write32 m (fast_mutex + FastMutex.owner) (owner_of thread) in
    write32 m (fast_mutex + FastMutex.old_irql) old_irql

unfoldable pub acquire_loop :
    Native → (drain rounds fast_mutex old_irql fuel : ℕ) → Action (Unit {0})
unfolding take
acquire_loop n drain rounds fast_mutex old_irql zero m = out_of_fuel
acquire_loop n drain rounds fast_mutex old_irql (suc fuel) m =
    let contended = (do
      on_memory (λ mem.
          write32 mem (fast_mutex + FastMutex.contention)
            (read32 mem (fast_mutex + FastMutex.contention) + 1))
      (wait_for_single_object n drain rounds (fast_mutex + FastMutex.event) 0 >>= λ _.
          gets (λ _. tt))
      acquire_loop n drain rounds fast_mutex old_irql fuel) in
    if read32 m.memory (fast_mutex + FastMutex.count) == 1
    then ok tt (record m { memory = take fast_mutex m.current_thread old_irql m.memory })
    else contended m

unfoldable pub acquire : Native → (drain rounds fuel fast_mutex : ℕ) → Action (Unit {0})
unfolding acquire_loop raise_irql
acquire n drain rounds fuel fast_mutex = do
  old_irql ← gets (λ m. m.irql)
  (raise_irql apc_level >>= λ _. gets (λ _. tt))
  acquire_loop n drain rounds fast_mutex old_irql fuel

unfoldable pub try_acquire : ℕ → Action ℕ
unfolding take raise_irql
try_acquire fast_mutex m =
    let taking = (do
      old_irql ← raise_irql apc_level
      on_memory (take fast_mutex m.current_thread old_irql)
      gets (λ _. 1)) in
    if read32 m.memory (fast_mutex + FastMutex.count) == 1 then taking m else ok 0 m

unfoldable pub release : ℕ → Action (Unit {0})
unfolding lower_irql set_event
release fast_mutex = do
  on_memory (λ mem. write32 mem (fast_mutex + FastMutex.owner) 0)
  on_memory (λ mem. write32 mem (fast_mutex + FastMutex.count) 1)
  on_memory (λ mem. (set_event (fast_mutex + FastMutex.event) mem).1)
  old_irql ← gets (λ m. read32 m.memory (fast_mutex + FastMutex.old_irql))
  lower_irql old_irql
