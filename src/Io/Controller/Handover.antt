-- ===== src/Io/Controller/Handover.antt =====
-- What IoFreeController leaves when a request waits.
use windows_10_js.Prelude.{ℕ, suc, ◌+◌, ◌%◌, ◌≡◌, refl, ◌∙◌, some, List, ◌∷◌, arith}
use windows_10_js.Prelude.Assoc.{lookup, insert}
use windows_10_js.Hal.Memory.{read8, write8, write32}
use windows_10_js.Hal.Memory.Cells.{read8-write8_same, read8-write32_outside}
use windows_10_js.NtAbi.ControllerObject
use windows_10_js.Io.Controller.{
  Request, Controllers, memory_of, on_memory, queue_length, call, pump, io_free_controller,
  io_allocate_controller, start, request_of,
}

-- The state in which the routine of a waiting request is called, and the one that is left when it
-- keeps the controller: the request is off the queue, the busy byte is 0, and the length of the
-- queue is stored.
unfoldable pub taken_off : (controller : ℕ) (rest : List Request) → Controllers → Controllers
unfolding insert
taken_off controller rest s =
    let freed = on_memory (λ m. write8 m (controller + ControllerObject.busy) 0) s in
    record freed { queue_by_controller = insert controller rest s.queue_by_controller }

unfoldable pub handed_over :
    (run : (routine : ℕ) (args : List ℕ) → Controllers → ℕ × Controllers)
    → (controller : ℕ) (request : Request) (rest : List Request) → Controllers
    → Controllers
unfolding taken_off call lookup
handed_over run controller request rest s =
    let called = (call run request (taken_off controller rest s)).1 in
    on_memory
      (λ m.
        write32 m (controller + ControllerObject.queued)
          (queue_length rest (lookup controller called.queue_by_controller)))
      called

-- The first request waits for a controller that is freed, and its routine keeps the controller: it
-- answers 0 in its low 32 bits and leaves the busy byte as it is. IoFreeController takes the request
-- off the queue, calls its routine, and ends, with the busy byte 0. If the routine of another device
-- keeps the controller too, the next IoAllocateController does not queue the request of that device
-- but calls its routine at once, in that very state with the busy byte set: two requests hold the
-- controller.
pub io_free_controller-shared :
    (run : (routine : ℕ) (args : List ℕ) → Controllers → ℕ × Controllers)
    (fuel fuel' controller device routine context : ℕ) (request : Request) (rest : List Request)
    (s : Controllers)
    → lookup controller s.queue_by_controller ≡ some (request ∷ rest)
    → ((args : List ℕ) (t : Controllers) → (run request.routine args t).0 % 0x1_0000_0000 ≡ 0)
    → ((args : List ℕ) (t : Controllers)
        → read8 (memory_of (run request.routine args t).1) (controller + ControllerObject.busy)
          ≡ read8 (memory_of t) (controller + ControllerObject.busy))
    → ((args : List ℕ) (t : Controllers) → (run routine args t).0 % 0x1_0000_0000 ≡ 0)
    → (io_free_controller run (suc fuel) controller s
        ≡ some (handed_over run controller request rest s))
      × (read8
            (memory_of (handed_over run controller request rest s))
            (controller + ControllerObject.busy)
          ≡ 0)
      × (io_allocate_controller run fuel' controller device routine context
            (handed_over run controller request rest s)
          ≡ some
              (call run (request_of device routine context) (
                on_memory
                  (λ m. write8 m (controller + ControllerObject.busy) 1)
                  (handed_over run controller request rest s))).1)
unfolding io_free_controller pump call io_allocate_controller start taken_off handed_over
io_free_controller-shared run fuel fuel' controller device routine context request rest s waiting
      keeps quiet keeps' =
    let taken = taken_off controller rest s in
    let called = call run request taken in
    let left = queue_length rest (lookup controller called.1.queue_by_controller) in
    let counted = on_memory (λ m. write32 m (controller + ControllerObject.queued) left) called.1 in
    let busy = on_memory (λ m. write8 m (controller + ControllerObject.busy) 1) counted in
    let is_free : read8 (memory_of counted) (controller + ControllerObject.busy) ≡ 0 =
      read8-write32_outside (memory_of called.1) (controller + ControllerObject.queued) left
        (controller + ControllerObject.busy) (omega arith)
      ∙ quiet _ taken
      ∙ read8-write8_same (memory_of s) (controller + ControllerObject.busy) 0 in
    (rw (waiting, pump) (rw (keeps _ taken) refl), is_free, rw is_free (rw (keeps' _ busy) refl))
