-- ===== src/Ke/Timer/Entries.antt =====
-- A timer is in the queue at most once.
use windows_10_js.Prelude.{
  ℕ, zero, suc, ◌+◌, ◌*◌, ◌-◌, ◌%◌, ◌≡◌, ◌≢◌, ◌↔◌, refl, sym, ap, subst, ◌⊎◌, false, none, some,
  List, [], ◌∷◌, ◌++◌, arith, leb, ◌==◌, if◌then◌else◌, Option-cases, Bool-cases, inl, inr,
}
use windows_10_js.Hal.Memory.{write32}
use windows_10_js.NtAbi.Ktimer
use windows_10_js.Ke.Machine.{Machine, Native, TimerEntry, ok}
use windows_10_js.Ke.Timer.{queue_index, splice, cancel_timer, set_timer, due_time, is_some}

abbrev pub Absent : ℕ → List TimerEntry → Type 0
Absent t [] = Unit {0}
Absent t (e ∷ es) = (e.timer_pointer ≢ t) × Absent t es

abbrev pub Unique : List TimerEntry → Type 0
Unique [] = Unit {0}
Unique (e ∷ es) = Absent e.timer_pointer es × Unique es

queue_index-Absent : (t : ℕ) (es : List TimerEntry) → queue_index t es ≡ none → Absent t es
unfolding queue_index
queue_index-Absent t [] h = tt
queue_index-Absent t (e ∷ es) h = ground (arith, queue_index-Absent t es)

Absent-queue_index : (t : ℕ) (es : List TimerEntry) → Absent t es → queue_index t es ≡ none
unfolding queue_index
Absent-queue_index t [] h = refl
Absent-queue_index t (e ∷ es) h = ground (arith, Absent-queue_index t es)

splice-Absent : (t i : ℕ) (es : List TimerEntry) → Absent t es → Absent t (splice i es)
unfolding splice
splice-Absent t i [] h = tt
splice-Absent t zero (e ∷ es) h = h.1
splice-Absent t (suc i) (e ∷ es) h = (h.0, splice-Absent t i es h.1)

splice-Unique : (i : ℕ) (es : List TimerEntry) → Unique es → Unique (splice i es)
unfolding splice
splice-Unique i [] u = tt
splice-Unique zero (e ∷ es) u = u.1
splice-Unique (suc i) (e ∷ es) u = (splice-Absent e.timer_pointer i es u.0, splice-Unique i es u.1)

-- In a list without duplicates, the entry that `findIndex` finds is the only one.
splice-queue_index :
    (t : ℕ) (es : List TimerEntry) (i : ℕ)
    → Unique es
    → queue_index t es ≡ some i
    → Absent t (splice i es)
unfolding queue_index splice
splice-queue_index t [] i u h = tt
splice-queue_index t (e ∷ es) zero u h = ground arith
splice-queue_index t (e ∷ es) (suc i) u h = ground (arith, splice-queue_index t es i u.1)

cancel-missing : (t : ℕ) (m : Machine) → Absent t m.active_timers → cancel_timer t m ≡ (0, m)
unfolding cancel_timer
cancel-missing t m h = rw (Absent-queue_index t m.active_timers h, cancel_timer)

cancel-found :
    (t i : ℕ) (m : Machine)
    → queue_index t m.active_timers ≡ some i
    → cancel_timer t m ≡ (1, record m { active_timers = splice i m.active_timers })
unfolding cancel_timer
cancel-found t i m e = rw (e, cancel_timer)

-- Cancelling answers 1 exactly when the timer was in the queue; afterwards it is in the queue no
-- more, so that a second call answers 0 and changes nothing; memory stays as it was.
pub cancel_timer-Absent :
    (t : ℕ) (m : Machine)
    → Unique m.active_timers
    → let (answer, after) = cancel_timer t m in
      ((answer ≡ 0) ↔ Absent t m.active_timers)
      × Absent t after.active_timers
      × Unique after.active_timers
      × (cancel_timer t after ≡ (0, after))
      × (after.memory ≡ m.memory)
cancel_timer-Absent t m u = elim (Option-cases (queue_index t m.active_timers)) [
  | inl e ↦
      let out = queue_index-Absent t m.active_timers e in
      rw (cancel-missing t m out) (((λ _. out), λ _. refl), out, u, cancel-missing t m out, refl)
  | inr (i, e) ↦
      let gone = splice-queue_index t m.active_timers i u e in
      rw (cancel-found t i m e) (
        ((λ h. absurd (omega arith)), λ h. cc (e, Absent-queue_index t m.active_timers h)),
        gone,
        splice-Unique i m.active_timers u,
        cancel-missing t (record m { active_timers = splice i m.active_timers }) gone,
        refl,
      )
]

cancel-readings : (t : ℕ) (m : Machine) → (cancel_timer t m).1.readings ≡ m.readings
unfolding cancel_timer
cancel-readings t m = ground arith

Absent-append :
    (t : ℕ) (es : List TimerEntry) (e : TimerEntry)
    → Absent t es
    → e.timer_pointer ≢ t
    → Absent t (es ++ e ∷ [])
Absent-append t [] e a h = (h, tt)
Absent-append t (x ∷ es) e a h = (a.0, Absent-append t es e a.1 h)

Unique-append :
    (es : List TimerEntry) (e : TimerEntry)
    → Unique es
    → Absent e.timer_pointer es
    → Unique (es ++ e ∷ [])
Unique-append [] e u a = (tt, tt)
Unique-append (x ∷ es) e u a =
    (Absent-append x.timer_pointer es e u.0 (λ h. a.0 (sym h)), Unique-append es e u.1 a.1)

-- The entry that a call of KeSetTimer makes, at the reading `now` of the clock.
abbrev pub armed : (now timer due_value dpc period_ms : ℕ) → TimerEntry
armed now timer due_value dpc period_ms = record {
  timer_pointer = timer;
  due =
      if leb 0x8000_0000_0000_0000 due_value
      then now + (0x1_0000_0000_0000_0000 - due_value)
      else due_value;
  period = period_ms % 0x1_0000_0000 * 10000;
  dpc_pointer = dpc % 0x1_0000_0000;
}

due_time-runs :
    (n : Native) (value : ℕ) (k : Machine)
    → due_time n value k
      ≡ ok
          (armed (n.boot_time + n.uptime k.readings) 0 value 0 0).due
          (if leb 0x8000_0000_0000_0000 value then record k { readings = suc k.readings } else k)
unfolding due_time
due_time-runs n value k = ground arith

-- The machine after a call of KeSetTimer.
abbrev set_machine : Native → (timer due_value dpc period_ms : ℕ) → Machine → Machine
set_machine n timer due_value dpc period_ms m =
    let k = (cancel_timer timer m).1 in
    record k {
      memory =
          write32 (write32 k.memory (timer + Ktimer.dpc) dpc) (timer + Ktimer.period) period_ms;
      active_timers =
          k.active_timers
          ++ armed (n.boot_time + n.uptime m.readings) timer due_value dpc period_ms ∷ [];
      readings = if leb 0x8000_0000_0000_0000 due_value then suc m.readings else m.readings;
    }

set_timer-runs :
    (n : Native) (timer due_value dpc period_ms : ℕ) (m : Machine)
    → set_timer n timer due_value dpc period_ms m
      ≡ ok
          (if is_some (queue_index timer m.active_timers) then 1 else 0)
          (set_machine n timer due_value dpc period_ms m)
unfolding set_timer due_time
set_timer-runs n timer due_value dpc period_ms m = ground (arith, cancel-readings timer m)

-- The queue without the entries of a timer.
unfoldable pub others : ℕ → List TimerEntry → List TimerEntry
others t [] = []
others t (e ∷ es) = let rest = others t es in if e.timer_pointer == t then rest else e ∷ rest

others-Absent : (t : ℕ) (es : List TimerEntry) → Absent t es → others t es ≡ es
unfolding others
others-Absent t [] h = refl
others-Absent t (e ∷ es) (other, h) =
    let differs : (e.timer_pointer == t) ≡ false = ground arith in
    rw differs (ap (λ rest. e ∷ rest) (others-Absent t es h))

-- In a queue without duplicates, taking out the entry that is found leaves the others.
splice-others :
    (t : ℕ) (es : List TimerEntry) (i : ℕ)
    → Unique es
    → queue_index t es ≡ some i
    → splice i es ≡ others t es
unfolding queue_index splice others
splice-others t [] i u h = refl
splice-others t (e ∷ es) i (far, u) h = elim (Bool-cases (e.timer_pointer == t)) [
  | inl hit ↦
      let here : e.timer_pointer ≡ t = ground arith in
      let first : i ≡ 0 = grind (arith, hit, h) in
      rw (hit, first) (sym (others-Absent t es (subst (λ p. Absent p es) here far)))
  | inr miss ↦ elim (Option-cases (queue_index t es)) [
    | inl nowhere ↦ absurd (grind (arith, miss, nowhere, h))
    | inr (k, there) ↦
        let later : i ≡ suc k = grind (arith, miss, there, h) in
        rw (miss, later) (ap (λ rest. e ∷ rest) (splice-others t es k u there))
  ]
]

cancel-others :
    (t : ℕ) (m : Machine)
    → Unique m.active_timers
    → (cancel_timer t m).1.active_timers ≡ others t m.active_timers
cancel-others t m u = elim (Option-cases (queue_index t m.active_timers)) [
  | inl e ↦
      let out = queue_index-Absent t m.active_timers e in
      rw (cancel-missing t m out) (sym (others-Absent t m.active_timers out))
  | inr (i, e) ↦ rw (cancel-found t i m e) (splice-others t m.active_timers i u e)
]

-- Whether there was an older entry.
answer-queued :
    (timer : ℕ) (m : Machine)
    → let answer : ℕ = if is_some (queue_index timer m.active_timers) then 1 else 0 in
      ((answer ≡ 0) × Absent timer m.active_timers)
      ⊎ ((answer ≡ 1) × ¬ Absent timer m.active_timers)
answer-queued timer m = elim (Option-cases (queue_index timer m.active_timers)) [
  | inl e ↦ inl (rw e refl, queue_index-Absent timer m.active_timers e)
  | inr (i, e) ↦ inr (rw e refl, λ h. cc (e, Absent-queue_index timer m.active_timers h))
]

-- In a queue without duplicates, setting a timer always returns: the other timers stay in the queue
-- in their order, behind them stands the one entry of the timer, with the time, the period and the
-- DPC of this call, and no timer is in the queue twice. The answer is 0 if the timer was not in the
-- queue, and 1 if it was.
pub set_timer-armed :
    (n : Native) (timer due_value dpc period_ms : ℕ) (m : Machine)
    → Unique m.active_timers
    → (answer : ℕ) × (after : Machine) × (set_timer n timer due_value dpc period_ms m
        ≡ ok answer after)
      × (after.active_timers
          ≡ others timer m.active_timers
            ++ armed (n.boot_time + n.uptime m.readings) timer due_value dpc period_ms ∷ [])
      × Unique after.active_timers
      × (((answer ≡ 0) × Absent timer m.active_timers)
          ⊎ ((answer ≡ 1) × ¬ Absent timer m.active_timers))
set_timer-armed n timer due_value dpc period_ms m u =
    let (answers, gone, unique, _, _) = cancel_timer-Absent timer m u in
    let k = (cancel_timer timer m).1 in
    let entry = armed (n.boot_time + n.uptime m.readings) timer due_value dpc period_ms in
    (
      _,
      _,
      set_timer-runs n timer due_value dpc period_ms m,
      ap (λ es. es ++ entry ∷ []) (cancel-others timer m u),
      Unique-append k.active_timers entry unique gone,
      answer-queued timer m,
    )
