-- ===== src/Ex/Resource.antt =====
-- system32/ntos/ex/resource.js: ERESOURCE, many readers or one writer.
pub mod Lock
pub mod Refinement
use windows_10_js.Prelude.{ℕ, zero, suc, ◌+◌, ◌-◌, ◌%◌, Bool, ◌&&◌, ◌==◌, ltb, if◌then◌else◌}
use windows_10_js.Hal.Memory.{Memory, read32, write32}
use windows_10_js.Ke.Machine.{
  Machine, Native, Run, ok, out_of_fuel, Action, ◌>>=◌, ◌>>◌, gets, on_memory,
}
use windows_10_js.Ke.Dispatcher.{initialize_event, set_event, owner_of, wait_for_single_object}

abbrev pub active_count : ℕ
active_count = 0x00

abbrev pub exclusive_flag : ℕ
exclusive_flag = 0x04

abbrev pub owner : ℕ
owner = 0x08

abbrev pub shared_event : ℕ
shared_event = 0x10

abbrev pub exclusive_event : ℕ
exclusive_event = 0x28

abbrev pub exclusive_waiters : ℕ
exclusive_waiters = 0x40

abbrev pub field : ℕ → ℕ → Memory → ℕ
field resource offset m = read32 m (resource + offset)

unfoldable pub initialize : ℕ → Memory → Memory
unfolding initialize_event
initialize resource m =
    let m = write32 m (resource + active_count) 0 in
    let m = write32 m (resource + exclusive_flag) 0 in
    let m = write32 m (resource + owner) 0 in
    let m = write32 m (resource + owner + 4) 0 in
    let m = initialize_event (resource + shared_event) 0 0 m in
    let m = initialize_event (resource + exclusive_event) 0 0 m in
    write32 m (resource + exclusive_waiters) 0

abbrev is_free : ℕ → Memory → Bool
is_free resource m = (field resource active_count m == 0) && (field resource exclusive_flag m == 0)

unfoldable pub take_exclusive : ℕ → ℕ → Memory → Memory
take_exclusive thread resource m =
    let m = write32 m (resource + exclusive_flag) 1 in
    let m = write32 m (resource + active_count) 1 in write32 m (resource + owner) (owner_of thread)

abbrev add_waiter : ℕ → Action (Unit {0})
add_waiter resource =
    on_memory
      (λ m. write32 m (resource + exclusive_waiters) (field resource exclusive_waiters m + 1))

-- `- 1` on a u32 that is written back with `>>> 0`.
abbrev drop_waiter : ℕ → Action (Unit {0})
drop_waiter resource = on_memory (λ m.
    write32 m (resource + exclusive_waiters)
      (field resource exclusive_waiters m + 0x1_0000_0000 - 1))

-- One fuel for each round of the loop, `rounds` for each wait in it, `drain` for each pump.
unfoldable pub acquire_exclusive : Native → (drain rounds fuel resource wait : ℕ) → Action ℕ
unfolding take_exclusive
acquire_exclusive n drain rounds zero resource wait m = out_of_fuel
acquire_exclusive n drain rounds (suc fuel) resource wait m =
    let contended = (do
      add_waiter resource
      (wait_for_single_object n drain rounds (resource + exclusive_event) 0 >>= λ _. gets (λ _. tt))
      drop_waiter resource
      acquire_exclusive n drain rounds fuel resource wait) in
    if is_free resource m.memory
    then ok 1 (record m { memory = take_exclusive m.current_thread resource m.memory })
    else if wait % 256 == 0
    then ok 0 m
    else contended m

abbrev add_reader : ℕ → Memory → Memory
add_reader resource m = write32 m (resource + active_count) (field resource active_count m + 1)

unfoldable pub acquire_shared : Native → (drain rounds fuel resource wait : ℕ) → Action ℕ
acquire_shared n drain rounds zero resource wait m = out_of_fuel
acquire_shared n drain rounds (suc fuel) resource wait m =
    let contended = (do
      (wait_for_single_object n drain rounds (resource + shared_event) 0 >>= λ _. gets (λ _. tt))
      acquire_shared n drain rounds fuel resource wait) in
    if field resource exclusive_flag m.memory == 0
    then ok 1 (record m { memory = add_reader resource m.memory })
    else if wait % 256 == 0
    then ok 0 m
    else contended m

unfoldable pub acquire_shared_starve_exclusive :
    Native → (drain rounds fuel resource wait : ℕ) → Action ℕ
unfolding acquire_shared
acquire_shared_starve_exclusive n drain rounds fuel resource wait =
    acquire_shared n drain rounds fuel resource wait

unfoldable pub acquire_shared_wait_for_exclusive :
    Native → (drain rounds fuel resource wait : ℕ) → Action ℕ
acquire_shared_wait_for_exclusive n drain rounds zero resource wait m = out_of_fuel
acquire_shared_wait_for_exclusive n drain rounds (suc fuel) resource wait m =
    let contended = (do
      (wait_for_single_object n drain rounds (resource + shared_event) 0 >>= λ _. gets (λ _. tt))
      acquire_shared_wait_for_exclusive n drain rounds fuel resource wait) in
    if (field resource exclusive_flag m.memory == 0)
      && (field resource exclusive_waiters m.memory == 0)
    then ok 1 (record m { memory = add_reader resource m.memory })
    else if wait % 256 == 0
    then ok 0 m
    else contended m

abbrev wake_all : ℕ → Memory → Memory
wake_all resource m =
    let m = (set_event (resource + exclusive_event) m).1 in
    (set_event (resource + shared_event) m).1

-- A release by the last holder wakes all waiters. Without a holder the count wraps to 2 ^ 32 - 1,
-- while `remaining` is -1 in the test.
unfoldable pub release : ℕ → Memory → Memory
unfolding set_event
release resource m =
    if field resource exclusive_flag m == 0
    then (let active = field resource active_count m in
        let m' = write32 m (resource + active_count) (active + 0x1_0000_0000 - 1) in
        if ltb 1 active then m' else wake_all resource m')
    else (let m = write32 m (resource + exclusive_flag) 0 in
        let m = write32 m (resource + owner) 0 in
        wake_all resource (write32 m (resource + active_count) 0))

unfoldable pub is_acquired_exclusive : ℕ → Memory → ℕ
is_acquired_exclusive resource m = if field resource exclusive_flag m == 0 then 0 else 1

unfoldable pub is_acquired_shared : ℕ → Memory → ℕ
is_acquired_shared resource m = field resource active_count m

unfoldable pub convert_exclusive_to_shared : ℕ → Memory → Memory
unfolding set_event
convert_exclusive_to_shared resource m =
    if field resource exclusive_flag m == 0
    then m
    else (let m = write32 m (resource + exclusive_flag) 0 in
        let m = write32 m (resource + owner) 0 in (set_event (resource + shared_event) m).1)

-- STATUS_INVALID_PARAMETER (0xC000000D) while somebody is inside, as a bit pattern.
unfoldable pub delete_resource : ℕ → Memory → ℕ
delete_resource resource m = if field resource active_count m == 0 then 0 else 0xC000_000D
