-- ===== src/Ke/Irql.antt =====
-- system32/ntos/ke/irql.js: the interrupt request level, and its copy at a fixed address.
pub mod Levels
use windows_10_js.Prelude.{ℕ, ltb, if◌then◌else◌}
use windows_10_js.Hal.Memory.{Memory, write32}
use windows_10_js.Ke.Machine.{Machine, Run, ok, halted, Action}

abbrev pub passive_level : ℕ
passive_level = 0

abbrev pub dispatch_level : ℕ
dispatch_level = 2

abbrev pub high_level : ℕ
high_level = 15

abbrev pub current_irql_address : ℕ
current_irql_address = 0x81528

unfoldable pub publish_irql : Machine → Machine
publish_irql m = record m { memory = write32 m.memory current_irql_address m.irql }

unfoldable pub raise_irql : ℕ → Action ℕ
unfolding publish_irql
raise_irql new m =
    if ltb new m.irql then halted else ok m.irql (publish_irql (record m { irql = new }))

unfoldable pub lower_irql : ℕ → Action (Unit {0})
unfolding publish_irql
lower_irql new m = if ltb m.irql new then halted else ok tt (publish_irql (record m { irql = new }))
