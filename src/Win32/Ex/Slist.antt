-- ===== src/Win32/Ex/Slist.antt =====
-- system32/win32/ntoskrnl/ex.js: SLIST_HEADER, with the first entry at 0, the depth at 8 and a
-- sequence number at 10; and the lists of entries that have a spin lock. Addresses are below 4 GB.
pub mod Stack
pub mod Histories
use windows_10_js.Prelude.{ℕ, ◌+◌, ◌==◌, if◌then◌else◌}
use windows_10_js.Hal.Memory.{Memory, read16, read64, write16, write64}
use windows_10_js.Ke.Machine.{Machine, Action, ◌>>=◌, ◌>>◌, gets, on_memory}
use windows_10_js.Win32.Rtl.Interlocked.{spin_lock_acquire, spin_lock_release}

unfoldable pub slist_push : (head entry : ℕ) → Memory → ℕ × Memory
slist_push head entry m =
    let previous_head = read64 m head in
    let m = write64 m entry previous_head in
    let m = write64 m head entry in
    let m = write16 m (head + 8) (read16 m (head + 8) + 1) in
    (previous_head, write16 m (head + 0xA) (read16 m (head + 0xA) + 1))

-- A depth of 0 wraps.
unfoldable pub slist_pop : ℕ → Memory → ℕ × Memory
slist_pop head m =
    let first = read64 m head in
    let rest = write64 m head (read64 m first) in
    if first == 0
    then (0, m)
    else (first, write16 rest (head + 8) (read16 rest (head + 8) + 0xFFFF))

unfoldable pub initialize_slist_head : ℕ → Memory → Memory
initialize_slist_head head m = write64 (write64 m head 0) (head + 8) 0

unfoldable pub slist_flush : ℕ → Memory → ℕ × Memory
slist_flush head m = (read64 m head, write16 (write64 m head 0) (head + 8) 0)

unfoldable pub query_depth_slist : ℕ → Memory → ℕ
query_depth_slist head m = read16 m (head + 8)

-- The lock is taken and given back as by KeAcquireSpinLock in rtl.js: the level is raised to
-- DISPATCH_LEVEL, and the lock tried once for each fuel.
unfoldable pub ex_interlocked_push_entry_list : (fuel head entry lock : ℕ) → Action ℕ
unfolding spin_lock_acquire slist_push spin_lock_release
ex_interlocked_push_entry_list fuel head entry lock = do
  old ← spin_lock_acquire fuel lock
  previous ← gets (λ m. (slist_push head entry m.memory).0)
  on_memory (λ m. (slist_push head entry m).1)
  spin_lock_release lock old
  gets (λ _. previous)

unfoldable pub ex_interlocked_pop_entry_list : (fuel head lock : ℕ) → Action ℕ
unfolding spin_lock_acquire slist_pop spin_lock_release
ex_interlocked_pop_entry_list fuel head lock = do
  old ← spin_lock_acquire fuel lock
  entry ← gets (λ m. (slist_pop head m.memory).0)
  on_memory (λ m. (slist_pop head m).1)
  spin_lock_release lock old
  gets (λ _. entry)
