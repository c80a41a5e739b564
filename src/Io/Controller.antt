-- ===== src/Io/Controller.antt =====
-- system32/ntos/io/controller.js: controllers that serialise the requests of their devices.
pub mod Handover
use windows_10_js.Prelude.{
  ℕ, zero, suc, ◌+◌, ◌*◌, ◌%◌, Option, none, some, List, [], ◌∷◌, ◌++◌, length, ◌==◌, ltb,
  if◌then◌else◌,
}
use windows_10_js.Prelude.Assoc.{lookup, insert, erase}
use windows_10_js.Hal.Memory.{Memory, read8, read64, write8, write32, write64}
use windows_10_js.NtAbi.ControllerObject
use windows_10_js.NtAbi.DeviceObject
use windows_10_js.Win32.GuestHeap.{Heap, guest_alloc_bytes, guest_free_bytes}

pub record Request : Type 0 where
  pub device_object : ℕ
  pub routine : ℕ
  pub context : ℕ
  pub map_register_base : ℕ

-- The guest's memory with its heap, and queueByController.
pub record Controllers : Type 0 where
  pub heap : Heap
  pub queue_by_controller : List (ℕ × List Request)

abbrev pub memory_of : Controllers → Memory
memory_of s = s.heap.memory

abbrev pub on_memory : (Memory → Memory) → Controllers → Controllers
on_memory write s = record s { heap = record (s.heap) { memory = write s.heap.memory } }

-- The length of the queue. A routine that deletes its controller leaves the array as it was.
abbrev pub queue_length : (kept : List Request) → Option (List Request) → ℕ
queue_length kept none = length kept
queue_length kept (some queue) = length queue

abbrev pub request_of : (device_object routine context : ℕ) → Request
request_of device_object routine context = record {
  device_object = device_object;
  routine = routine;
  context = context;
  map_register_base = 0;
}

-- `run` is os.execMsAbi: a native routine answers a value and may call the functions below.
module _ (run : (routine : ℕ) (args : List ℕ) → Controllers → ℕ × Controllers) where
  -- The call of a request's routine, with the device's current IRP.
  unfoldable pub call : Request → Controllers → ℕ × Controllers
  call request s =
      run request.routine
        (request.device_object
          ∷ read64 (memory_of s) (request.device_object + DeviceObject.current_irp)
          ∷ request.map_register_base
          ∷ request.context
          ∷ [])
        s

  -- A fuel for each request that is taken off the queue.
  unfoldable pub pump : (fuel controller : ℕ) → Controllers → Option Controllers
  unfolding call lookup insert
  pump zero controller s = none
  pump (suc fuel) controller s = elim (lookup controller s.queue_by_controller) [
    | none ↦ some s
    | some [] ↦ some s
    | some (request ∷ rest) ↦
        let taken = record s {
          queue_by_controller = insert controller rest s.queue_by_controller;
        } in
        let called = call request taken in
        let left = queue_length rest (lookup controller called.1.queue_by_controller) in
        let counted =
          on_memory (λ m. write32 m (controller + ControllerObject.queued) left) called.1 in
        let next =
          pump fuel controller
            (on_memory (λ m. write8 m (controller + ControllerObject.busy) 0) counted) in
        if called.0 % 0x1_0000_0000 == 0 then some counted else next
  ]

  unfoldable pub io_free_controller : (fuel controller : ℕ) → Controllers → Option Controllers
  unfolding pump
  io_free_controller fuel controller s =
      pump fuel controller (on_memory (λ m. write8 m (controller + ControllerObject.busy) 0) s)

  -- The branch of ioAllocateController for a controller that is free.
  unfoldable pub start : (fuel controller : ℕ) → Request → Controllers → Option Controllers
  unfolding call io_free_controller
  start fuel controller request s =
      let called =
        call request (on_memory (λ m. write8 m (controller + ControllerObject.busy) 1) s) in
      let freed = io_free_controller fuel controller called.1 in
      if called.0 % 0x1_0000_0000 == 0 then some called.1 else freed

  -- `none` where the controller has no queue: the code throws.
  unfoldable pub enqueue : (controller : ℕ) → Request → Controllers → Option Controllers
  unfolding lookup insert
  enqueue controller request s = elim (lookup controller s.queue_by_controller) [
    | none ↦ none
    | some queue ↦
        let s' = record s {
          queue_by_controller = insert controller (queue ++ request ∷ []) s.queue_by_controller;
        } in
        some (
          on_memory
            (λ m. write32 m (controller + ControllerObject.queued) (length (queue ++ request ∷ [])))
            s')
  ]

  unfoldable pub io_allocate_controller :
      (fuel controller device_object routine context : ℕ) → Controllers → Option Controllers
  io_allocate_controller fuel controller device_object routine context s =
      if read8 (memory_of s) (controller + ControllerObject.busy) == 0
      then start fuel controller (request_of device_object routine context) s
      else enqueue controller
          (request_of (device_object % 0x1_0000_0000) (routine % 0x1_0000_0000)
            (context % 0x1_0000_0000))
          s

unfoldable pub io_create_controller :
    (arena fuel extension_size : ℕ) → Controllers → Option (ℕ × Controllers)
unfolding insert
io_create_controller arena fuel extension_size s =
    let extension = extension_size % 0x1_0000_0000 in
    elim (guest_alloc_bytes arena fuel (ControllerObject.size + extension) s.heap) [
      | none ↦ none
      | some (controller, h) ↦
          let m =
            write32 h.memory (controller + ControllerObject.type)
              (ControllerObject.type_controller + ControllerObject.size * 0x1_0000) in
          let m = write32 m (controller + ControllerObject.reference_count) 1 in
          let m = write8 m (controller + ControllerObject.busy) 0 in
          let m = write32 m (controller + ControllerObject.queued) 0 in
          let m =
            if ltb 0 extension
            then write64 m (controller + ControllerObject.controller_extension)
                (controller + ControllerObject.size)
            else m in
          some (
            controller,
            record {
              heap = record h { memory = m };
              queue_by_controller = insert controller [] s.queue_by_controller;
            },
          )
    ]

unfoldable pub io_delete_controller : ℕ → Controllers → Controllers
unfolding erase
io_delete_controller controller s = record {
  heap = record (s.heap) { memory = guest_free_bytes controller s.heap.memory };
  queue_by_controller = erase controller s.queue_by_controller;
}
