-- ===== src/Ke/Dispatcher/Objects.antt =====
-- Events and mutexes, one operation after the other.
use windows_10_js.Prelude.{
  ℕ, ◌+◌, ◌%◌, ◌≡◌, ◌⊎◌, inl, inr, refl, true, false, arith, List, [], ◌∷◌, none,
}
use windows_10_js.Hal.Memory.{Memory, read8, read32}
use windows_10_js.Hal.Memory.Fields.{field_laws}
use windows_10_js.NtAbi.DispatcherHeader
use windows_10_js.Ke.Machine.{Machine, TimerEntry}
use windows_10_js.Ke.Timer.{signal, initialize_timer}
use windows_10_js.Ke.Dispatcher.{
  Kind, read_state, initialize_event, set_event, reset_event, initialize_mutex, release_mutex,
  owner_of, kind_of, satisfy, try_acquire, acquire_any,
}

module _ (thread object : ℕ) (m : Memory) where
  -- `tryAcquire` through what it reads.
  pub try_acquire-satisfy :
      (kind : Kind) (signaled : ℕ)
      → kind_of (read8 m (object + DispatcherHeader.type)) ≡ kind
      → read_state object m ≡ signaled
      → try_acquire thread object m ≡ satisfy kind thread object signaled m
  unfolding try_acquire
  try_acquire-satisfy kind signaled k s = rw (k, s)

-- A notification event that is set satisfies each wait and stays set, until it is reset; the reset
-- answers with the old state and then no wait is satisfied.
pub notification_event :
    (thread event initial : ℕ) (m : Memory)
    → let set = (set_event event (initialize_event event 0 initial m)).1 in
      let (old, reset) = reset_event event set in
      (try_acquire thread event set ≡ (true, set))
      × (old ≡ 1)
      × (try_acquire thread event reset ≡ (false, reset))
unfolding set_event reset_event initialize_event read_state try_acquire satisfy kind_of
notification_event thread event initial m = simp field_laws (refl, refl, refl)

-- A synchronization event that is set satisfies exactly one wait: it is reset by it, and the next
-- wait fails, whoever waits; setting it again answers 0 and satisfies one more.
pub synchronization_event :
    (thread other event initial : ℕ) (m : Memory)
    → let set = (set_event event (initialize_event event 1 initial m)).1 in
      let (first, after) = try_acquire thread event set in
      let (old, again) = set_event event after in
      (first ≡ true)
      × (read_state event after ≡ 0)
      × (try_acquire other event after ≡ (false, after))
      × (old ≡ 0)
      × ((try_acquire other event again).0 ≡ true)
unfolding set_event initialize_event read_state try_acquire satisfy kind_of
synchronization_event thread other event initial m = simp field_laws (refl, refl, refl, refl, refl)

-- A fresh mutex is taken by the first thread, whose handle (1 for none) it then holds; nobody takes
-- it until it is released, its owner neither; a release answers 1 if it was held and 0 if not, clears
-- the owner, and lets the next thread in.
pub mutex_cycle :
    (thread other mutex : ℕ) (m : Memory)
    → let (taken, held) = try_acquire thread mutex (initialize_mutex mutex m) in
      let (was_held, free) = release_mutex mutex held in
      (taken ≡ true)
      × (read32 held (mutex + DispatcherHeader.mutex_owner) ≡ owner_of thread % 0x1_0000_0000)
      × (try_acquire other mutex held ≡ (false, held))
      × (was_held ≡ 1)
      × (read32 free (mutex + DispatcherHeader.mutex_owner) ≡ 0)
      × ((release_mutex mutex free).0 ≡ 0)
      × ((try_acquire other mutex free).0 ≡ true)
unfolding initialize_mutex release_mutex read_state try_acquire satisfy kind_of
mutex_cycle thread other mutex m = simp field_laws (refl, refl, refl, refl, refl, refl, refl)

-- A timer that fires sets its signal state, and yet no wait on it is satisfied: `tryAcquire` knows
-- none of the two types of a KTIMER, and waits on every other type for ever.
pub fired_timer :
    (thread type : ℕ) (e : TimerEntry) (m : Machine)
    → (type ≡ 8) ⊎ (type ≡ 9)
    → e.dpc_pointer ≡ 0
    → let fired = (signal e (initialize_timer e.timer_pointer type m)).memory in
      (read_state e.timer_pointer fired ≡ 1)
      × (try_acquire thread e.timer_pointer fired ≡ (false, fired))
unfolding signal initialize_timer read_state try_acquire satisfy kind_of
fired_timer thread type e m (inl h) d = simp (h, d, field_laws) (refl, refl)
fired_timer thread type e m (inr h) d = simp (h, d, field_laws) (refl, refl)

abbrev pub AllFail : ℕ → List ℕ → Memory → Type 0
AllFail thread [] m = Unit {0}
AllFail thread (o ∷ os) m = ((try_acquire thread o m).0 ≡ false) × AllFail thread os m

satisfy_fails :
    (kind : Kind) (thread object signaled : ℕ) (m : Memory)
    → (satisfy kind thread object signaled m).0 ≡ false
    → (satisfy kind thread object signaled m).1 ≡ m
unfolding satisfy
satisfy_fails Kind.notification thread object signaled m h = refl
satisfy_fails _ thread object signaled m h = ground arith

pub try_acquire_fails :
    (thread object : ℕ) (m : Memory)
    → (try_acquire thread object m).0 ≡ false
    → (try_acquire thread object m).1 ≡ m
unfolding try_acquire
try_acquire_fails thread object m h =
    satisfy_fails (kind_of (read8 m (object + DispatcherHeader.type))) thread object
      (read_state object m) m h

-- A WaitAny that is not satisfied found no object that can be acquired, and changed nothing.
pub acquire_any-none :
    (thread i : ℕ) (os : List ℕ) (m : Memory)
    → (acquire_any thread i os m).0 ≡ none
    → ((acquire_any thread i os m).1 ≡ m) × AllFail thread os m
unfolding acquire_any
acquire_any-none thread i [] m h = (refl, tt)
acquire_any-none thread i (o ∷ os) m h =
    ground (arith, try_acquire_fails thread o m, acquire_any-none thread (i + 1) os m)
