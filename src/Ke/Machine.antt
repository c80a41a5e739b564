-- ===== src/Ke/Machine.antt =====
-- The state that the modules of system32/ntos/ke, ex and io share, and what native code may do to
-- it. The module variables of dpc.js, timer.js, work-items.js and irql.js are fields of one record,
-- since a native routine that one of them calls may call any of the others.
use windows_10_js.Prelude.{ℕ, List}
use windows_10_js.Hal.Memory.{Memory}

-- An entry of `activeTimers`. Times are in units of 100 ns since 1601, so that none is negative.
pub record TimerEntry : Type 0 where
  pub timer_pointer : ℕ
  pub due : ℕ
  pub period : ℕ
  pub dpc_pointer : ℕ

pub record Machine : Type 0 where
  pub memory : Memory
  pub irql : ℕ
  pub dpc_queue : List ℕ
  pub js_dpcs : List (ℕ × ℕ)
  pub work_queue : List ℕ
  pub js_items : List (ℕ × ℕ)
  pub active_timers : List TimerEntry
  pub readings : ℕ
  pub current_thread : ℕ

-- `os.execMsAbi`, the JavaScript routines that the kernel registers (named by a number), and the
-- clock: `uptime n` is its reading number `n`.
pub record Native : Type 0 where
  pub exec : ℕ → List ℕ → Machine → Machine
  pub call_js : ℕ → List ℕ → Machine → Machine
  pub uptime : ℕ → ℕ
  pub boot_time : ℕ

-- The end of a run: a value, a BUGCHECK that halts the processor, or no fuel left.
pub data Run (A : Type 0) : Type 0 where
  ok : A → Machine → Run A
  halted : Run A
  out_of_fuel : Run A

abbrev pub Action : Type 0 → Type 0
Action A = Machine → Run A

abbrev pub pure : {A : Type 0} → A → Action A
pure a m = ok a m

abbrev and_then : {A B : Type 0} → Run A → (A → Action B) → Run B
and_then (ok a m) f = f a m
and_then halted f = halted
and_then out_of_fuel f = out_of_fuel

infixl 5 ◌>>=◌ ◌>>◌
abbrev pub ◌>>=◌ : {A B : Type 0} → Action A → (A → Action B) → Action B
◌>>=◌ a f m = and_then (a m) f

abbrev pub ◌>>◌ : {B : Type 0} → Action (Unit {0}) → Action B → Action B
a >> b = a >>= λ _. b

abbrev pub gets : {A : Type 0} → (Machine → A) → Action A
gets f m = ok (f m) m

abbrev pub modify : (Machine → Machine) → Action (Unit {0})
modify f m = ok tt (f m)

abbrev pub on_memory : (Memory → Memory) → Action (Unit {0})
on_memory f m = ok tt (record m { memory = f m.memory })

abbrev pub with_memory : (Memory → Memory) → Machine → Machine
with_memory f m = record m { memory = f m.memory }
