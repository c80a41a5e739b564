-- ===== src/Ke/Irql/Levels.antt =====
-- Nested brackets of `raiseIrql(level)` and `lowerIrql(old)`.
use windows_10_js.Prelude.{
  ℕ, ◌%◌, ◌≡◌, ◌∙◌, ◌⊎◌, inl, inr, refl, Bool, true, false, Bool-cases, ◌&&◌, leb, arith,
}
use windows_10_js.Hal.Memory.{Memory, read32, read8}
use windows_10_js.Hal.Memory.Cells.{Apart, read8-write32_outside, read32-write32_same}
use windows_10_js.Ke.Machine.{Machine, Run, ok, halted, Action, ◌>>=◌, ◌>>◌}
use windows_10_js.Ke.Irql.{raise_irql, lower_irql, publish_irql, current_irql_address}

-- A sequence of brackets, each with the level it raises to, the brackets in it, and those after it.
pub data Nest : Type 0 where
  ended : Nest
  bracket : (level : ℕ) (inner rest : Nest) → Nest

-- The calls that the brackets stand for: each lowers to the level that its raise answered.
unfoldable pub run_nest : Nest → Action (Unit {0})
run_nest ended m = ok tt m
run_nest (bracket level inner rest) m =
    (raise_irql level >>= λ old. (run_nest inner >> (lower_irql old >> run_nest rest))) m

-- No bracket raises to a level below that of the bracket around it, `now` for an outermost one.
unfoldable pub rises : (now : ℕ) → Nest → Bool
rises now ended = true
rises now (bracket level inner rest) = leb now level && (rises level inner && rises now rest)

-- The copy that native code reads holds the level, as a 32-bit number.
unfoldable pub IsPublished : Machine → Type 0
IsPublished m = read32 m.memory current_irql_address ≡ m.irql % 0x1_0000_0000

-- All is as in `m`, with the level published, but for memory, where no byte outside the published
-- copy is another one.
unfoldable pub IsRestored : Machine → Run (Unit {0}) → Type 0
unfolding IsPublished
IsRestored m end =
    (memory : Memory) × (end ≡ ok tt (record m { memory = memory }))
    × IsPublished (record m { memory = memory })
    × ((b : ℕ) → Apart current_irql_address 4 b 1 → read8 memory b ≡ read8 m.memory b)

unfoldable pub EndsWell : Nest → Machine → Type 0
unfolding run_nest rises IsRestored
EndsWell nest m =
    ((rises m.irql nest ≡ true) × IsRestored m (run_nest nest m))
    ⊎ ((rises m.irql nest ≡ false) × (run_nest nest m ≡ halted))

-- The machine after a raise or a lowering to `level`.
at_level : ℕ → Machine → Machine
unfolding publish_irql
at_level level m = publish_irql (record m { irql = level })

at_level-IsPublished : (level : ℕ) (m : Machine) → IsPublished (at_level level m)
unfolding at_level IsPublished
at_level-IsPublished level m = read32-write32_same m.memory current_irql_address level

raise-at_level :
    (level : ℕ) (m : Machine)
    → leb m.irql level ≡ true
    → raise_irql level m ≡ ok m.irql (at_level level m)
unfolding raise_irql at_level
raise-at_level level m h = ground arith

raise-halted : (level : ℕ) (m : Machine) → leb m.irql level ≡ false → raise_irql level m ≡ halted
unfolding raise_irql
raise-halted level m h = ground arith

lower-at_level :
    (level : ℕ) (m : Machine)
    → leb level m.irql ≡ true
    → lower_irql level m ≡ ok tt (at_level level m)
unfolding lower_irql at_level
lower-at_level level m h = ground arith

at_level-outside :
    (level : ℕ) (m : Machine) (b : ℕ)
    → Apart current_irql_address 4 b 1
    → read8 (at_level level m).memory b ≡ read8 m.memory b
unfolding at_level
at_level-outside level m b apart = read8-write32_outside m.memory current_irql_address level b apart

-- What follows a bracket starts where the bracket did, and all that ran in it was undone.
IsRestored-after :
    (level : ℕ) (m : Machine) (memory : Memory) (end : Run (Unit {0}))
    → ((b : ℕ)
        → Apart current_irql_address 4 b 1
        → read8 memory b ≡ read8 (at_level level m).memory b)
    → IsRestored (at_level m.irql (record (at_level level m) { memory = memory })) end
    → IsRestored m end
unfolding IsRestored at_level
IsRestored-after level m memory end inside (after, ends, published, outside) = (
  after,
  ends,
  published,
  λ b apart.
      outside b apart
      ∙ at_level-outside m.irql (record (at_level level m) { memory = memory }) b apart
      ∙ inside b apart
      ∙ at_level-outside level m b apart,
)

module _ (level : ℕ) (inner rest : Nest) (m : Machine) (up : leb m.irql level ≡ true) where
  inner_halts :
      (rises level inner ≡ false) × (run_nest inner (at_level level m) ≡ halted)
      → EndsWell (bracket level inner rest) m
  unfolding EndsWell
  inner_halts (falls, stops) = inr (rw (up, falls) refl, rw (raise-at_level level m up, stops) refl)

  inner_ends :
      (memory : Memory)
      → rises level inner ≡ true
      → run_nest inner (at_level level m) ≡ ok tt (record (at_level level m) { memory = memory })
      → ((b : ℕ)
          → Apart current_irql_address 4 b 1
          → read8 memory b ≡ read8 (at_level level m).memory b)
      → EndsWell rest (at_level m.irql (record (at_level level m) { memory = memory }))
      → EndsWell (bracket level inner rest) m
  unfolding EndsWell at_level publish_irql
  inner_ends memory rising ends outside after =
      let raised = record (at_level level m) { memory = memory } in
      let raise = raise-at_level level m up in
      let lower = lower-at_level m.irql raised up in
      elim after [
        | inl (later, restored) ↦ inl (
          rw (up, rising, later) refl,
          rw (raise, ends, lower) (IsRestored-after level m memory _ outside restored),
        )
        | inr (falls, stops) ↦ inr (rw (up, rising, falls) refl, rw (raise, ends, lower) stops)
      ]

-- Where the level is published: brackets that only rise run through, and leave the level, its copy
-- and all else as before, but for no byte of memory outside that copy. Any other nest halts the
-- processor, wherever in it the level would fall.
pub run_nest-EndsWell : (nest : Nest) (m : Machine) → IsPublished m → EndsWell nest m
unfolding EndsWell IsRestored at_level publish_irql
run_nest-EndsWell ended m published = inl (refl, (m.memory, refl, published, λ b apart. refl))
run_nest-EndsWell (bracket level inner rest) m published = elim (Bool-cases (leb m.irql level)) [
  | inr falls ↦ inr (rw falls refl, rw (raise-halted level m falls) refl)
  | inl up ↦ elim (run_nest-EndsWell inner (at_level level m) (at_level-IsPublished level m)) [
    | inr stops ↦ inner_halts level inner rest m up stops
    | inl (rising, restored) ↦
        let (memory, ends, copy, outside) = restored in
        let back = record (at_level level m) { memory = memory } in
        inner_ends level inner rest m up memory rising ends outside
          (run_nest-EndsWell rest (at_level m.irql back) (at_level-IsPublished m.irql back))
  ]
]
