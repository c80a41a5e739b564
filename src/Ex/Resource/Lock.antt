-- ===== src/Ex/Resource/Lock.antt =====
-- The reader/writer lock that an ERESOURCE implements.
use windows_10_js.Prelude.{
  ℕ, zero, suc, ◌+◌, ◌%◌, ◌<◌, ◌≡◌, ◌≢◌, ◌↔◌, refl, subst, lt→ltb, Option, none, some, arith,
}
use mathlib.Core.Option.{some-injective}
use windows_10_js.Hal.Memory.{Memory, write32}
use windows_10_js.Hal.Memory.Cells.{read32-lt}
use windows_10_js.Hal.Memory.Fields.{field_laws}
use windows_10_js.Ke.Machine.{Machine, Native, ok}
use windows_10_js.Ke.Dispatcher.{owner_of}
use windows_10_js.Ex.Resource.{
  active_count, exclusive_flag, owner, field, initialize, take_exclusive, acquire_exclusive,
  acquire_shared, release, convert_exclusive_to_shared, is_acquired_exclusive, is_acquired_shared,
}

-- Nobody, `n + 1` readers, or one writer.
pub data Lock : Type 0 where
  free : Lock
  readers : ℕ → Lock
  writer : ℕ → Lock

-- The specification: what each call answers and leaves; `none` for a release that nobody may make.
unfoldable pub enter_exclusive : ℕ → Lock → ℕ × Lock
enter_exclusive thread free = (1, writer thread)
enter_exclusive thread l = (0, l)

unfoldable pub enter_shared : Lock → ℕ × Lock
enter_shared free = (1, readers 0)
enter_shared (readers n) = (1, readers (n + 1))
enter_shared (writer t) = (0, writer t)

unfoldable pub leave : Lock → Option Lock
leave free = none
leave (readers zero) = some free
leave (readers (suc n)) = some (readers n)
leave (writer t) = some free

unfoldable pub downgrade : Lock → Lock
downgrade (writer t) = readers 0
downgrade l = l

-- The fields of the structure that stand for a lock.
abbrev pub Stands : ℕ → Memory → Lock → Type 0
Stands r m free = (field r active_count m ≡ 0) × (field r exclusive_flag m ≡ 0)
Stands r m (readers n) = (field r active_count m ≡ n + 1) × (field r exclusive_flag m ≡ 0)
Stands r m (writer t) =
    (field r active_count m ≡ 1) × (field r exclusive_flag m ≡ 1) × (field r owner m ≡ t)

-- Fewer readers than a u32 can count.
abbrev pub Fits : Lock → Type 0
Fits (readers n) = n + 2 < 0x1_0000_0000
Fits _ = Unit {0}

initialize-free : (r : ℕ) (m : Memory) → Stands r (initialize r m) free
unfolding initialize
initialize-free r m = simp field_laws (refl, refl)

-- A release implements `leave`: the last reader or the writer leaves a free lock, any other reader
-- one reader less. (Only for a lock that somebody holds.)
pub release-leave :
    (r : ℕ) (m : Memory) (l l' : Lock)
    → Stands r m l
    → leave l ≡ some l'
    → Stands r (release r m) l'
unfolding release leave
release-leave r m free l' s e = cc
release-leave r m (readers zero) l' s e =
    subst (Stands r (release r m)) (some-injective _ _ e) (simp (s.0, s.1, field_laws) (refl, refl))
release-leave r m (readers (suc n)) l' s e = subst (Stands r (release r m)) (some-injective _ _ e) (
    simp (s.0, s.1, lt→ltb 1 (suc n + 1) (omega arith), field_laws)
      (let bound = read32-lt m (r + active_count) in omega arith, refl))
release-leave r m (writer t) l' s e =
    subst (Stands r (release r m)) (some-injective _ _ e) (simp (s.0, s.1, field_laws) (refl, refl))

take_exclusive-writer :
    (thread r : ℕ) (m : Memory)
    → Stands r (take_exclusive thread r m) (writer (owner_of thread % 0x1_0000_0000))
unfolding take_exclusive
take_exclusive-writer thread r m = simp field_laws (refl, refl, refl)

-- An attempt without waiting (a BOOLEAN whose low byte is 0) to take the lock exclusively answers as
-- the specification does, and leaves a structure that stands for its lock.
pub acquire_exclusive-enter :
    (n : Native) (drain rounds fuel r wait : ℕ) (m : Machine) (l : Lock)
    → wait % 256 ≡ 0
    → Stands r m.memory l
    → let (answer, l') = enter_exclusive (owner_of m.current_thread % 0x1_0000_0000) l in
      (m' : Machine) × (acquire_exclusive n drain rounds (suc fuel) r wait m ≡ ok answer m')
      × Stands r m'.memory l'
unfolding acquire_exclusive enter_exclusive
acquire_exclusive-enter n drain rounds fuel r wait m free w s = (
  record m { memory = take_exclusive m.current_thread r m.memory },
  ground arith,
  take_exclusive-writer m.current_thread r m.memory,
)
acquire_exclusive-enter n drain rounds fuel r wait m (readers k) w s = (m, ground arith, s)
acquire_exclusive-enter n drain rounds fuel r wait m (writer t) w s = (m, ground arith, s)

-- The same for readers, as long as their number fits a u32.
pub acquire_shared-enter :
    (n : Native) (drain rounds fuel r wait : ℕ) (m : Machine) (l : Lock)
    → wait % 256 ≡ 0
    → Fits l
    → Stands r m.memory l
    → let (answer, l') = enter_shared l in
      (m' : Machine) × (acquire_shared n drain rounds (suc fuel) r wait m ≡ ok answer m')
      × Stands r m'.memory l'
unfolding acquire_shared enter_shared
acquire_shared-enter n drain rounds fuel r wait m free w f s = (
  record m { memory = write32 m.memory (r + active_count) (field r active_count m.memory + 1) },
  ground arith,
  simp (s.0, s.1, field_laws) (refl, refl),
)
acquire_shared-enter n drain rounds fuel r wait m (readers k) w f s = (
  record m { memory = write32 m.memory (r + active_count) (field r active_count m.memory + 1) },
  ground arith,
  simp (s.0, s.1, field_laws) (omega arith, refl),
)
acquire_shared-enter n drain rounds fuel r wait m (writer t) w f s = (m, ground arith, s)

-- A conversion makes one reader of the writer, and changes no other lock.
pub convert-downgrade :
    (r : ℕ) (m : Memory) (l : Lock)
    → Stands r m l
    → Stands r (convert_exclusive_to_shared r m) (downgrade l)
unfolding convert_exclusive_to_shared downgrade
convert-downgrade r m free s = rw s.1 s
convert-downgrade r m (readers n) s = rw s.1 s
convert-downgrade r m (writer t) s = simp (s.0, s.1, field_laws) (refl, refl)

-- What the two queries answer.
pub queries :
    (r : ℕ) (m : Memory) (l : Lock)
    → Stands r m l
    → ((is_acquired_exclusive r m ≡ 0) ↔ ((t : ℕ) → l ≢ writer t))
      × ((is_acquired_shared r m ≡ 0) ↔ (l ≡ free))
unfolding is_acquired_exclusive is_acquired_shared
queries r m free s = (((λ _ t e. cc), λ _. ground arith), ((λ _. refl), λ _. s.0))
queries r m (readers n) s =
    (((λ _ t e. cc), λ _. ground arith), ((λ e. absurd (omega arith)), λ e. cc))
queries r m (writer t) s =
    (((λ e t' e'. ground arith), λ h. absurd (h t refl)), ((λ e. absurd (omega arith)), λ e. cc))
