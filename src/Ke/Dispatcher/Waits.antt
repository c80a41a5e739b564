-- ===== src/Ke/Dispatcher/Waits.antt =====
-- The waits end, and what they answer.
use windows_10_js.Prelude.{
  ℕ, zero, suc, ◌+◌, ◌≤◌, ◌<◌, ◌≡◌, refl, ◌⊎◌, inl, inr, Option, none, some, arith, ap, ◌∙◌,
  Option-cases,
}
use native.Mathlib.Decide.{dec_le}
use windows_10_js.Ke.Machine.{Machine, Native, Run, ok}
use windows_10_js.Hal.Memory.{Memory}
use windows_10_js.Ke.Dispatcher.Objects.{try_acquire_fails}
use windows_10_js.Ke.Dispatcher.{
  after, pump_kernel, wait_loop, status_success, status_timeout, uptime, timeout_of,
  wait_for_single_object, attempt_single,
}

-- The machines of `Good` are such that a pump of the kernel comes back, with a `Good` one again;
-- and the clock goes on from one reading to the next.
pub record IsLive (n : Native) (drain : ℕ) (Good : Machine → Type 0) : Type 0 where
  pub pumps :
      (m : Machine)
      → Good m
      → (m' : Machine) × (pump_kernel n drain m ≡ ok tt m') × (m.readings < m'.readings) × Good m'
  pub reads : (m : Machine) → Good m → Good (record m { readings = suc m.readings })
  pub ticks : (i j : ℕ) → i < j → n.uptime i < n.uptime j

-- An attempt that fails changes nothing.
abbrev pub FailsClean : (Machine → Option ℕ × Machine) → Type 0
FailsClean attempt = (m : Machine) → (attempt m).0 ≡ none → (attempt m).1 ≡ m

attempt_single-FailsClean : (object : ℕ) → FailsClean (attempt_single object)
attempt_single-FailsClean object m h =
    let same = try_acquire_fails m.current_thread object m.memory (ground arith) in
    ap (λ (mem : Memory). record m { memory = mem }) same

-- One round of a wait with a relative timeout, by what it meets.
module _ (n : Native) (drain : ℕ) (attempt : Machine → Option ℕ × Machine)
    (clean : FailsClean attempt) (t start fuel : ℕ) (m : Machine) where
  round_acquired :
      (status : ℕ)
      → (attempt m).0 ≡ some status
      → wait_loop n drain attempt (after t) start (suc fuel) m ≡ ok status (attempt m).1
  unfolding wait_loop
  round_acquired status e = ground arith

  -- The machine after a clock reading that follows a vain attempt.
  abbrev vain : Machine
  vain = record m { readings = suc m.readings }

  round_late :
      (attempt m).0 ≡ none
      → start + t ≤ n.uptime m.readings
      → wait_loop n drain attempt (after t) start (suc fuel) m ≡ ok status_timeout vain
  unfolding wait_loop
  round_late e h = ground (arith, clean m e)

  round_early :
      (m' : Machine)
      → (attempt m).0 ≡ none
      → n.uptime m.readings < start + t
      → pump_kernel n drain vain ≡ ok tt m'
      → wait_loop n drain attempt (after t) start (suc fuel) m
        ≡ wait_loop n drain attempt (after t) start fuel m'
  unfolding wait_loop uptime
  round_early m' e h p = ground (arith, clean m e)

-- What a wait returns: an answer of its attempt, or STATUS_TIMEOUT.
abbrev pub Ends : (ℕ → Type 0) → Run ℕ → Type 0
Ends P r =
    (status : ℕ) × (m' : Machine) × (r ≡ ok status m') × (P status ⊎ (status ≡ status_timeout))

module _ {P : ℕ → Type 0} {Good : Machine → Type 0} (n : Native) (drain : ℕ)
    (live : IsLive n drain Good) (attempt : Machine → Option ℕ × Machine)
    (clean : FailsClean attempt)
    (gives : (m : Machine) (status : ℕ) → (attempt m).0 ≡ some status → P status) where
  -- With a round of fuel for each 100 ns that is left, and one more, the loop ends.
  pub wait_loop-Ends :
      (t start fuel : ℕ) (m : Machine)
      → Good m
      → start + t < n.uptime m.readings + fuel
      → Ends P (wait_loop n drain attempt (after t) start (suc fuel) m)
  wait_loop-Ends t start zero m good f = elim (Option-cases (attempt m).0) [
    | inr (status, e) ↦ (
      status,
      _,
      round_acquired n drain attempt clean t start 0 m status e,
      inl (gives m status e),
    )
    | inl e ↦
        (status_timeout, _, round_late n drain attempt clean t start 0 m e (omega arith), inr refl)
  ]
  wait_loop-Ends t start (suc k) m good f = elim (Option-cases (attempt m).0) [
    | inr (status, e) ↦ (
      status,
      _,
      round_acquired n drain attempt clean t start (suc k) m status e,
      inl (gives m status e),
    )
    | inl e ↦ elim (dec_le (start + t) (n.uptime m.readings)) [
      | yes late ↦
          (status_timeout, _, round_late n drain attempt clean t start (suc k) m e late, inr refl)
      | no early ↦
          let (m', pumped, later, good') =
            live.pumps (vain n drain attempt clean t start (suc k) m) (live.reads m good) in
          let ticks = live.ticks m.readings m'.readings (omega arith) in
          let (status, last, runs, right) = wait_loop-Ends t start k m' good' (omega arith) in
          (
            status,
            last,
            round_early n drain attempt clean t start (suc k) m m' e (omega arith) pumped ∙ runs,
            right,
          )
    ]
  ]

-- KeWaitForSingleObject with a relative timeout of `t` (in units of 100 ns) returns, whatever the
-- DPCs, timers and work items do that run meanwhile, if from the machine at hand on each pump of
-- the kernel comes back and the clock advances between two readings: with more than `t` rounds of
-- fuel it ends, and its answer is STATUS_SUCCESS or STATUS_TIMEOUT.
pub wait_for_single_object-returns :
    {Good : Machine → Type 0} (n : Native) (drain fuel object timeout_pointer t : ℕ) (m : Machine)
    → IsLive n drain Good
    → Good m
    → timeout_of timeout_pointer m.memory ≡ after t
    → t < fuel
    → (status : ℕ) × (m' : Machine) × (wait_for_single_object n drain
          (suc fuel)
          object
          timeout_pointer
          m
        ≡ ok status m')
      × ((status ≡ status_success) ⊎ (status ≡ status_timeout))
unfolding wait_for_single_object uptime
wait_for_single_object-returns n drain fuel object timeout_pointer t m live good e f =
    rw (e, wait_for_single_object)
      (wait_loop-Ends {P = λ status. status ≡ status_success} n drain live (attempt_single object)
        (attempt_single-FailsClean object) (λ k status h. ground arith) t (n.uptime m.readings) fuel
        (record m { readings = suc m.readings }) (live.reads m good)
        (let ticks = live.ticks m.readings (suc m.readings) (omega arith) in omega arith))
