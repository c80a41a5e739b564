-- ===== src/Ke/FastMutex/Cycle.antt =====
-- A fast mutex is taken and released.
use windows_10_js.Prelude.{ℕ, ◌+◌, ◌%◌, ◌≤◌, ◌≡◌, ◌≢◌, refl, ◌∙◌, arith}
use windows_10_js.Hal.Memory.{Memory, read32, write32}
use windows_10_js.Hal.Memory.Cells.{Apart, read32-write32_outside}
use windows_10_js.Hal.Memory.Fields.{field_laws}
use windows_10_js.NtAbi.FastMutex
use windows_10_js.Ke.Machine.{Machine, ok}
use windows_10_js.Ke.Irql.{current_irql_address, lower_irql}
use windows_10_js.Ke.Dispatcher.{owner_of, read_state}
use windows_10_js.Ke.FastMutex.{apc_level, take, try_acquire, release}

module _ (p : ℕ) (m : Machine) where
  taken : Machine
  taken = record m {
    irql = 1;
    memory = take p m.current_thread m.irql (write32 m.memory current_irql_address 1);
  }

  freed : Memory
  freed =
      write32 (write32 (write32 m.memory (p + FastMutex.owner) 0) (p + FastMutex.count) 1)
        (p + FastMutex.event + 4) 1

  old_irql-freed : read32 freed (p + FastMutex.old_irql) ≡ read32 m.memory (p + FastMutex.old_irql)
  unfolding freed
  old_irql-freed = simp field_laws

  released : Machine
  released = record m {
    memory = write32 freed current_irql_address (read32 m.memory (p + FastMutex.old_irql));
    irql = read32 m.memory (p + FastMutex.old_irql);
  }

  taken-irql : taken.irql ≡ 1
  unfolding taken
  taken-irql = refl

  released-irql : released.irql ≡ read32 m.memory (p + FastMutex.old_irql)
  unfolding released
  released-irql = refl

  try_acquire-free :
      read32 m.memory (p + FastMutex.count) ≡ 1 → m.irql ≤ 1 → try_acquire p m ≡ ok 1 taken
  unfolding try_acquire taken
  try_acquire-free e h = ground arith

  try_acquire-held : read32 m.memory (p + FastMutex.count) ≢ 1 → try_acquire p m ≡ ok 0 m
  unfolding try_acquire
  try_acquire-held e = ground arith

  release-runs : read32 m.memory (p + FastMutex.old_irql) ≤ m.irql → release p m ≡ ok tt released
  unfolding release released freed
  release-runs h = rw (old_irql-freed, lower_irql) (ground arith)

module _ (p : ℕ) (apart : Apart p 0x38 current_irql_address 4) where
  at_field :
      (mem : Memory) (v i : ℕ)
      → i + 4 ≤ 0x38
      → read32 (write32 mem current_irql_address v) (p + i) ≡ read32 mem (p + i)
  at_field mem v i h = read32-write32_outside mem current_irql_address v (p + i) (omega arith)

  taken_fields :
      (m : Machine)
      → m.irql ≤ 1
      → (read32 (taken p m).memory (p + FastMutex.count) ≡ 0)
        × (read32 (taken p m).memory (p + FastMutex.owner)
            ≡ owner_of m.current_thread % 0x1_0000_0000)
        × (read32 (taken p m).memory (p + FastMutex.old_irql) ≡ m.irql)
  unfolding taken take
  taken_fields m h = simp field_laws (refl, refl, omega arith)

  released_fields :
      (m : Machine)
      → (read32 (released p m).memory (p + FastMutex.count) ≡ 1)
        × (read32 (released p m).memory (p + FastMutex.owner) ≡ 0)
        × (read_state (p + FastMutex.event) (released p m).memory ≡ 1)
  unfolding released freed read_state
  released_fields m = (
    at_field (freed p m) _ FastMutex.count (omega arith) ∙ simp field_laws,
    at_field (freed p m) _ FastMutex.owner (omega arith) ∙ simp field_laws,
    read32-write32_outside (freed p m) current_irql_address _ (p + FastMutex.event + 4)
          (omega arith)
        ∙ simp field_laws,
  )

-- From a level not above APC_LEVEL, a free fast mutex is taken at once: its count is 0, its owner
-- is the current thread (1 for none), and the level is APC_LEVEL. While it is held a second attempt
-- answers 0 and changes nothing. The release frees it, clears its owner, sets its event, and
-- returns to the level from before. The mutex must not overlap the published copy of the level.
pub acquire-release :
    (p : ℕ) (m : Machine)
    → Apart p 0x38 current_irql_address 4
    → read32 m.memory (p + FastMutex.count) ≡ 1
    → m.irql ≤ apc_level
    → (held free : Machine) × (try_acquire p m ≡ ok 1 held)
      × (held.irql ≡ apc_level)
      × (read32 held.memory (p + FastMutex.count) ≡ 0)
      × (read32 held.memory (p + FastMutex.owner) ≡ owner_of m.current_thread % 0x1_0000_0000)
      × (try_acquire p held ≡ ok 0 held)
      × (release p held ≡ ok tt free)
      × (free.irql ≡ m.irql)
      × (read32 free.memory (p + FastMutex.count) ≡ 1)
      × (read32 free.memory (p + FastMutex.owner) ≡ 0)
      × (read_state (p + FastMutex.event) free.memory ≡ 1)
acquire-release p m apart e h =
    let (count, owner, old) = taken_fields p apart m h in
    let held = taken p m in
    let (count', owner', state) = released_fields p apart held in
    (
      held,
      released p held,
      try_acquire-free p m e h,
      taken-irql p m,
      count,
      owner,
      try_acquire-held p held (omega arith),
      release-runs p held (let l = taken-irql p m in omega arith),
      released-irql p held ∙ old,
      count',
      owner',
      state,
    )
