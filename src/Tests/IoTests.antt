-- ===== src/Tests/IoTests.antt =====
-- A controller on which one request waits.
use windows_10_js.Prelude.{ℕ, ◌+◌, ◌≡◌, refl, some, false, List, [], ◌∷◌}
use windows_10_js.Prelude.Assoc.{lookup}
use windows_10_js.Hal.Memory.{read8, write8}
use windows_10_js.NtAbi.ControllerObject
use windows_10_js.Io.Controller.{
  Request, Controllers, memory_of, io_free_controller, io_allocate_controller, call, on_memory,
  request_of,
}
use windows_10_js.Io.Controller.Handover.{handed_over, io_free_controller-shared}
use windows_10_js.Tests.Sample.{zeros}

-- Every routine keeps the controller and does nothing.
abbrev keeping : (routine : ℕ) (args : List ℕ) → Controllers → ℕ × Controllers
keeping routine args s = (0, s)

abbrev mouse : Request
mouse = record { device_object = 0x3000; routine = 0x4000; context = 0; map_register_base = 0 }

abbrev one_waits : Controllers
one_waits = record {
  heap = record { memory = zeros; arena_base = 0; heap_ready = false };
  queue_by_controller = (0x2000, mouse ∷ []) ∷ [];
}

mouse_waits : lookup 0x2000 one_waits.queue_by_controller ≡ some (mouse ∷ [])
unfolding lookup
mouse_waits = refl

io_free_controller-shared_example :
    (io_free_controller keeping 2 0x2000 one_waits
      ≡ some (handed_over keeping 0x2000 mouse [] one_waits))
    × (read8
          (memory_of (handed_over keeping 0x2000 mouse [] one_waits))
          (0x2000 + ControllerObject.busy)
        ≡ 0)
    × (io_allocate_controller keeping 2 0x2000 0x5000 0x6000 0
          (handed_over keeping 0x2000 mouse [] one_waits)
        ≡ some
            (call keeping (request_of 0x5000 0x6000 0) (
              on_memory
                (λ m. write8 m (0x2000 + ControllerObject.busy) 1)
                (handed_over keeping 0x2000 mouse [] one_waits))).1)
io_free_controller-shared_example =
    io_free_controller-shared keeping 1 2 0x2000 0x5000 0x6000 0 mouse [] one_waits mouse_waits
      (λ args t. refl) (λ args t. refl) (λ args t. refl)
