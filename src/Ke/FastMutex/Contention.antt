-- ===== src/Ke/FastMutex/Contention.antt =====
-- A contended acquire once the mutex has been released before.
use native.Mathlib.Nat.{add_assoc}
use windows_10_js.Prelude.{ℕ, zero, suc, ◌+◌, ◌≡◌, ◌≢◌, refl, arith}
use windows_10_js.Hal.Memory.{Memory, read8, read32, write32}
use windows_10_js.Hal.Memory.Fields.{field_laws}
use windows_10_js.NtAbi.DispatcherHeader
use windows_10_js.NtAbi.FastMutex
use windows_10_js.Ke.Machine.{Machine, Native, ok, out_of_fuel}
use windows_10_js.Ke.Dispatcher.{
  read_state, status_success, wait_for_single_object, wait_loop, timeout_of,
}
use windows_10_js.Ke.FastMutex.{acquire_loop}

-- Held by somebody, with the embedded event of type 0 (notification) set, as `release` leaves it.
pub record IsHeldSignaled (p : ℕ) (m : Memory) : Type 0 where
  pub held : read32 m (p + FastMutex.count) ≢ 1
  pub notification : read8 m (p + 0x18) ≡ 0
  pub signaled : read32 m (p + 0x1c) ≢ 0

-- The machine after the contention count went up.
abbrev counted : ℕ → Machine → Machine
counted p m = record m {
  memory =
      write32 m.memory (p + FastMutex.contention) (read32 m.memory (p + FastMutex.contention) + 1);
}

counted-IsHeldSignaled :
    (p : ℕ) (m : Machine) → IsHeldSignaled p m.memory → IsHeldSignaled p (counted p m).memory
counted-IsHeldSignaled p m h = record {
  held = simp field_laws h.held;
  notification = simp field_laws h.notification;
  signaled = simp field_laws h.signaled;
}

mark_zero :
    (p : ℕ) (m : Memory)
    → IsHeldSignaled p m
    → read8 m (p + FastMutex.event + DispatcherHeader.type) ≡ 0
mark_zero p m h = simp add_assoc h.notification

state_nonzero : (p : ℕ) (m : Memory) → IsHeldSignaled p m → read_state (p + FastMutex.event) m ≢ 0
unfolding read_state
state_nonzero p m h = simp add_assoc h.signaled

-- The wait on the set event comes back at once, and has pumped nothing.
wait-returns :
    (n : Native) (drain rounds p : ℕ) (m : Machine)
    → IsHeldSignaled p m.memory
    → wait_for_single_object n drain (suc rounds) (p + FastMutex.event) 0 m ≡ ok status_success m
unfolding wait_for_single_object wait_loop timeout_of
wait-returns n drain rounds p m h =
    ground (arith, mark_zero p m.memory h, state_nonzero p m.memory h)

-- Once a fast mutex has been released, its event stays set for ever, since it was made of type 0.
-- From then on an acquire of the held mutex never ends and never lets the owner run: whatever the
-- native code would do, with any fuel it only counts contentions and comes round again.
pub acquire_loop-spins :
    (n : Native) (drain rounds p old_irql fuel : ℕ) (m : Machine)
    → IsHeldSignaled p m.memory
    → acquire_loop n drain (suc rounds) p old_irql fuel m ≡ out_of_fuel
unfolding acquire_loop
acquire_loop-spins n drain rounds p old_irql zero m h = refl
acquire_loop-spins n drain rounds p old_irql (suc fuel) m h =
    let next = counted-IsHeldSignaled p m h in
    ground (
      arith,
      wait-returns n drain rounds p (counted p m) next,
      acquire_loop-spins n drain rounds p old_irql fuel (counted p m) next,
      h.held,
    )
