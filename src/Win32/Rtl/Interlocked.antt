-- ===== src/Win32/Rtl/Interlocked.antt =====
-- The handlers of rtl.js that change a word at once, and the lists of the executive. Nothing runs
-- between their steps, as the kernel is cooperative.
pub mod Ring
pub mod Unlinking
pub mod Handlers
use windows_10_js.Prelude.{ℕ, zero, suc, ◌+◌, ◌-◌, ◌%◌, ◌==◌, if◌then◌else◌}
use windows_10_js.Hal.Memory.{Memory, read32, read64, write32, write64}
use windows_10_js.Ke.Machine.{Machine, Run, ok, out_of_fuel, Action, ◌>>=◌, ◌>>◌, gets, on_memory}
use windows_10_js.Ke.Irql.{dispatch_level, raise_irql, lower_irql}

unfoldable pub interlocked_increment : ℕ → Memory → ℕ × Memory
interlocked_increment pointer m =
    let value = (read32 m pointer + 1) % 0x1_0000_0000 in (value, write32 m pointer value)

unfoldable pub interlocked_decrement : ℕ → Memory → ℕ × Memory
interlocked_decrement pointer m =
    let value = (read32 m pointer + 0xFFFF_FFFF) % 0x1_0000_0000 in (value, write32 m pointer value)

unfoldable pub interlocked_exchange : (pointer value : ℕ) → Memory → ℕ × Memory
interlocked_exchange pointer value m = (read32 m pointer, write32 m pointer value)

unfoldable pub interlocked_compare_exchange : (pointer exchange comparand : ℕ) → Memory → ℕ × Memory
interlocked_compare_exchange pointer exchange comparand m =
    let old = read32 m pointer in
    (old, if old == comparand % 0x1_0000_0000 then write32 m pointer exchange else m)

unfoldable pub interlocked_push_entry_list : (head entry : ℕ) → Memory → ℕ × Memory
interlocked_push_entry_list head entry m =
    let old_head = read64 m head in (old_head, write64 (write64 m entry old_head) head entry)

unfoldable pub interlocked_pop_entry_list : ℕ → Memory → ℕ × Memory
interlocked_pop_entry_list head m =
    let first = read64 m head in
    if first == 0 then (0, m) else (first, write64 m head (read64 m first))

-- `for (;;)`: the lock is tried once for each fuel.
unfoldable pub spin : (fuel lock : ℕ) → Action (Unit {0})
spin zero lock m = out_of_fuel
spin (suc fuel) lock m =
    let again = spin fuel lock m in
    if read32 m.memory lock == 0
    then ok tt (record m { memory = write32 m.memory lock 1 })
    else again

unfoldable pub spin_lock_acquire : (fuel lock : ℕ) → Action ℕ
unfolding spin raise_irql
spin_lock_acquire fuel lock = do old ← raise_irql dispatch_level; spin fuel lock; gets (λ _. old)

unfoldable pub spin_lock_release : (lock old : ℕ) → Action (Unit {0})
unfolding lower_irql
spin_lock_release lock old = do on_memory (λ m. write32 m lock 0); lower_irql old

-- The four writes between the two lock operations; the entry behind the last is the new one.
unfoldable pub link_tail : (head entry : ℕ) → Memory → Memory
link_tail head entry m =
    let last = read64 m (head + 8) in
    let m = write64 m entry head in
    let m = write64 m (entry + 8) last in let m = write64 m last entry in write64 m (head + 8) entry

unfoldable pub ex_interlocked_insert_tail_list : (fuel head entry lock : ℕ) → Action ℕ
unfolding spin_lock_acquire link_tail spin_lock_release
ex_interlocked_insert_tail_list fuel head entry lock = do
  old ← spin_lock_acquire fuel lock
  last ← gets (λ m. read64 m.memory (head + 8))
  on_memory (link_tail head entry)
  spin_lock_release lock old
  gets (λ _. if last == head then 0 else last)

unfoldable pub unlink_first : ℕ → Memory → ℕ × Memory
unlink_first head m =
    let first = read64 m head in
    let new_first = read64 m first in
    if first == head
    then (0, m)
    else (first, write64 (write64 m head new_first) (new_first + 8) head)

unfoldable pub ex_interlocked_remove_head_list : (fuel head lock : ℕ) → Action ℕ
unfolding spin_lock_acquire unlink_first spin_lock_release
ex_interlocked_remove_head_list fuel head lock = do
  old ← spin_lock_acquire fuel lock
  removed ← gets (λ m. (unlink_first head m.memory).0)
  on_memory (λ m. (unlink_first head m).1)
  spin_lock_release lock old
  gets (λ _. removed)
