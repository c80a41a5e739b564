-- ===== src/Io/StartIo.antt =====
-- system32/ntos/io/start-io.js: the packets of a device, one at a time. `exec` is os.execMsAbi of a
-- routine with the device and the IRP.
pub mod Rotation
pub mod Queueing
pub mod Packets
use windows_10_js.Prelude.{
  ℕ, zero, suc, ◌+◌, ◌-◌, ◌*◌, ◌%◌, ◌==◌, ltb, ◌&&◌, if◌then◌else◌, Option, none, some,
}
use windows_10_js.Hal.Memory.{Memory, read8, read32, read64, write8, write32, write64}
use windows_10_js.NtAbi.DeviceObject
use windows_10_js.NtAbi.DriverObject
use windows_10_js.NtAbi.KdeviceQueue

abbrev pub list_in_irp : ℕ
list_in_irp = 0x70

abbrev pub key_in_irp : ℕ
key_in_irp = 0x80

abbrev pub queue_head : ℕ → ℕ
queue_head device = device + DeviceObject.device_queue

-- The sentinel of the queue's ring.
abbrev pub list_head : ℕ → ℕ
list_head device = queue_head device + KdeviceQueue.entry

unfoldable pub queue_initialize : ℕ → Memory → Memory
queue_initialize device m =
    let queue = queue_head device in
    let m =
      write32 m (queue + KdeviceQueue.type)
        (KdeviceQueue.type_device_queue + KdeviceQueue.size * 0x1_0000) in
    let m = write32 (write32 m (queue + KdeviceQueue.lock) 0) (queue + KdeviceQueue.lock + 4) 0 in
    let m = write8 m (queue + KdeviceQueue.busy) 0 in
    let m = write64 m (list_head device) (list_head device) in
    write64 m (list_head device + 8) (list_head device)

unfoldable pub queue_ensure_initialized : ℕ → Memory → Memory
queue_ensure_initialized device m =
    if read64 m (list_head device) == 0 then queue_initialize device m else m

-- The key of the IRP that holds the links at `cursor`.
unfoldable pub key_at : Memory → ℕ → ℕ
key_at m cursor = read64 m (cursor - list_in_irp + key_in_irp)

-- The loop that looks for the entry in front of which the new one goes.
unfoldable pub find_place : (head key cursor fuel : ℕ) → Memory → Option ℕ
unfolding key_at
find_place head key cursor zero m = none
find_place head key cursor (suc fuel) m =
    let later = find_place head key (read64 m cursor) fuel m in
    if cursor == head then some cursor else if ltb key (key_at m cursor) then some cursor else later

unfoldable pub insert_before : (cursor entry : ℕ) → Memory → Memory
insert_before cursor entry m =
    let blink = read64 m (cursor + 8) in
    let m = write64 m entry cursor in
    let m = write64 m (entry + 8) blink in
    let m = write64 m blink entry in write64 m (cursor + 8) entry

unfoldable pub packet_key : (sort_key : ℕ) → Memory → ℕ
packet_key sort_key m = if sort_key == 0 then 0xFFFF_FFFF else read32 m (sort_key % 0x1_0000_0000)

unfoldable pub insert_packet : (device irp key fuel : ℕ) → Memory → Option Memory
unfolding insert_before find_place
insert_packet device irp key fuel m =
    let head = list_head device in
    elim (find_place head key (read64 m head) fuel m) as (λ _. Option Memory) [
      | none ↦ none
      | some cursor ↦ some (insert_before cursor (irp + list_in_irp) m)
    ]

module _ (exec : (routine device irp : ℕ) → Memory → Memory) where
  unfoldable pub call_start_io : (device irp : ℕ) → Memory → Memory
  call_start_io device irp m =
      let driver = read64 m (device + DeviceObject.driver_object) in
      let routine = read64 m (driver + DriverObject.driver_start_io) in
      if routine == 0 then m else exec routine device irp m

  unfoldable pub start_packet : (device irp : ℕ) → Memory → Memory
  start_packet device irp m =
      let m = write8 m (queue_head device + KdeviceQueue.busy) 1 in
      call_start_io device irp (write64 m (device + DeviceObject.current_irp) irp)

  -- `fuel` is for the search; `none` if it does not end.
  unfoldable pub io_start_packet : (device irp sort_key fuel : ℕ) → Memory → Option Memory
  io_start_packet device irp sort_key fuel m =
      let m0 = queue_ensure_initialized device m in
      let key = packet_key sort_key m0 in
      let m1 = write64 m0 (irp + key_in_irp) key in
      if (read64 m1 (device + DeviceObject.current_irp) == 0)
        && (read8 m1 (queue_head device + KdeviceQueue.busy) == 0)
      then some (start_packet device irp m1)
      else insert_packet device irp key fuel m1

  unfoldable pub start_first : (device first : ℕ) → Memory → Memory
  start_first device first m =
      let first_flink = read64 m first in
      let first_blink = read64 m (first + 8) in
      let m = write64 (write64 m first_blink first_flink) (first_flink + 8) first_blink in
      let next = first - list_in_irp in
      call_start_io device next (write64 m (device + DeviceObject.current_irp) next)

  -- The first entry is read before the current IRP is cleared.
  unfoldable pub io_start_next_packet : (device : ℕ) → Memory → Memory
  io_start_next_packet device m =
      let m0 = queue_ensure_initialized device m in
      let m1 = write64 m0 (device + DeviceObject.current_irp) 0 in
      if read64 m0 (list_head device) == list_head device
      then write8 m1 (queue_head device + KdeviceQueue.busy) 0
      else start_first device (read64 m0 (list_head device)) m1

unfoldable pub io_set_start_io_attributes : (device deferred serial : ℕ) → Memory → Memory
io_set_start_io_attributes device deferred serial m =
    let low = read32 m (device + DeviceObject.characteristics) % 0x1_0000 in
    let deferred_bit = if deferred == 0 then 0 else 0x1_0000 in
    let serial_bit = if serial == 0 then 0 else 0x2_0000 in
    write32 m (device + DeviceObject.characteristics) (low + deferred_bit + serial_bit)
