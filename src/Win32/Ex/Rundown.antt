-- ===== src/Win32/Ex/Rundown.antt =====
-- system32/win32/ntoskrnl/ex.js: rundown protection. Bit 0 of the count is set once the rundown is
-- completed, and the bits above count the references. The cache-aware handlers do the same.
pub mod Refinement
use windows_10_js.Prelude.{ℕ, zero, suc, ◌+◌, ◌%◌, ◌==◌, ltb, if◌then◌else◌}
use windows_10_js.Hal.Memory.{Memory, read32, write32}
use windows_10_js.Ke.Machine.{Native, Run, out_of_fuel, Action, ◌>>=◌, ◌>>◌, gets}
use windows_10_js.Ke.Dispatcher.{pump_kernel}

unfoldable pub initialize_rundown_protection : ℕ → Memory → Memory
initialize_rundown_protection rundown m = write32 (write32 m rundown 0) (rundown + 4) 0

unfoldable pub acquire_rundown_protection : ℕ → Memory → ℕ × Memory
acquire_rundown_protection rundown m =
    let count = read32 m rundown in
    if count % 2 == 1 then (0, m) else (1, write32 m rundown ((count + 2) % 0x1_0000_0000))

-- `(count - 2) >>> 0`
unfoldable pub release_rundown_protection : ℕ → Memory → Memory
release_rundown_protection rundown m =
    write32 m rundown ((read32 m rundown + 0xFFFF_FFFE) % 0x1_0000_0000)

-- `count | 1`
unfoldable pub rundown_completed : ℕ → Memory → Memory
rundown_completed rundown m =
    let count = read32 m rundown in write32 m rundown (if count % 2 == 1 then count else count + 1)

-- `for (;;)`: the count is read once for each fuel. `count & ~1` is 0 below 2.
unfoldable pub wait_for_rundown_protection_release_cache_aware :
    Native → (drain fuel rundown : ℕ) → Action ℕ
unfolding pump_kernel
wait_for_rundown_protection_release_cache_aware n drain zero rundown m = out_of_fuel
wait_for_rundown_protection_release_cache_aware n drain (suc fuel) rundown m =
    let pumped =
      (pump_kernel n drain
        >> wait_for_rundown_protection_release_cache_aware n drain fuel rundown) in
    if ltb (read32 m.memory rundown) 2 then gets (λ _. 0) m else pumped m

unfoldable pub re_initialize_rundown_protection_cache_aware : ℕ → Memory → Memory
re_initialize_rundown_protection_cache_aware rundown m = write32 m rundown 0
