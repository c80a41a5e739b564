-- ===== src/Io/WorkItems.antt =====
-- system32/ntos/io/work-items.js: the queue of work items that the kernel drains at PASSIVE_LEVEL.
use Prim.Native.Nat.{bit_or, bit_and}
use windows_10_js.Prelude.{
  ℕ, zero, suc, ◌+◌, ◌%◌, Bool, false, Option, none, some, List, [], ◌∷◌, ◌++◌, ◌==◌, if◌then◌else◌,
  length,
}
use windows_10_js.Prelude.Assoc.{lookup, insert, erase}
use windows_10_js.Hal.Memory.{Memory, read32, write32}
use windows_10_js.NtAbi.IoWorkitem
use windows_10_js.Ke.Machine.{Machine, Native, ok, out_of_fuel, Action}

abbrev pub read_field : Memory → ℕ → ℕ → ℕ
read_field m item offset = read32 m (item + offset)

abbrev pub write_field : ℕ → ℕ → ℕ → Machine → Machine
write_field item offset value m = record m { memory = write32 m.memory (item + offset) value }

unfoldable pub create_work_item : ℕ → ℕ → Machine → Machine
create_work_item device item m =
    let m = write_field item IoWorkitem.list_flink 0 m in
    let m = write_field item IoWorkitem.list_blink 0 m in
    let m = write_field item IoWorkitem.function 0 m in
    let m = write_field item IoWorkitem.context 0 m in
    let m = write_field item IoWorkitem.device_object device m in
    write_field item IoWorkitem.queued 0 m

unfoldable pub queue_work_item_ex : (item routine queue_type context : ℕ) → Bool → Machine → Machine
queue_work_item_ex item routine queue_type context is_ex m =
    if read_field m.memory item IoWorkitem.queued == 0
    then (let m = write_field item IoWorkitem.function routine m in
        let m = write_field item IoWorkitem.context context m in
        let type = bit_or (queue_type % 0x1_0000_0000) (if is_ex then 0x8000_0000 else 0) in
        let m = write_field item IoWorkitem.type type m in
        let m = write_field item IoWorkitem.queued 1 m in
        record m { work_queue = m.work_queue ++ item ∷ [] })
    else m

unfoldable pub queue_work_item : (item routine queue_type context : ℕ) → Machine → Machine
unfolding queue_work_item_ex
queue_work_item item routine queue_type context m =
    queue_work_item_ex item routine queue_type context false m

unfoldable pub queue_js_work_item : (item js_function context : ℕ) → Machine → Machine
unfolding queue_work_item_ex
queue_js_work_item item js_function context m =
    queue_work_item_ex item 0 1 context false
      (record m { js_items = insert (item % 0x1_0000_0000) js_function m.js_items })

unfoldable pub remove_first : ℕ → List ℕ → List ℕ
remove_first item [] = []
remove_first item (q ∷ qs) = if q == item then qs else q ∷ remove_first item qs

unfoldable pub unqueue : ℕ → Machine → Machine
unfolding remove_first
unqueue item m =
    write_field item IoWorkitem.queued 0 (record m { work_queue = remove_first item m.work_queue })

unfoldable pub initialize_ex_work_item : (item routine context : ℕ) → Machine → Machine
initialize_ex_work_item item routine context m =
    let m = write_field item IoWorkitem.list_flink 0 m in
    let m = write_field item IoWorkitem.list_blink 0 m in
    let m = write_field item IoWorkitem.function routine m in
    let m = write_field item IoWorkitem.context context m in
    let m = write_field item IoWorkitem.device_object 0 m in write_field item IoWorkitem.queued 0 m

unfoldable pub queue_ex_work_item : (item queue_type : ℕ) → Machine → Machine
queue_ex_work_item item queue_type m =
    if read_field m.memory item IoWorkitem.queued == 0
    then (let type = bit_or (queue_type % 0x1_0000_0000) 0x4000_0000 in
        let m = write_field item IoWorkitem.type type m in
        let m = write_field item IoWorkitem.queued 1 m in
        record m { work_queue = m.work_queue ++ item ∷ [] })
    else m

-- The call of a native routine: the flags of the item's type choose its arguments.
unfoldable pub native_args : (type item device context : ℕ) → List ℕ
native_args type item device context =
    if bit_and type 0x8000_0000 == 0
    then (if bit_and type 0x4000_0000 == 0 then device ∷ context ∷ [] else context ∷ [])
    else device ∷ context ∷ item ∷ []

-- A JavaScript routine serves one delivery: it is taken off the map before its call.
abbrev call_item : Native → Option ℕ → (item type routine device context : ℕ) → Machine → Machine
unfolding native_args
call_item n none item type routine device context m =
    n.exec routine (native_args type item device context) m
call_item n (some js) item type routine device context m =
    n.call_js js (device ∷ context ∷ [])
      (record m { js_items = erase (item % 0x1_0000_0000) m.js_items })

-- One round of the loop in `runQueue`, at an entry that `shift` has taken off.
unfoldable pub deliver : Native → ℕ → Machine → Machine
unfolding native_args
deliver n item m =
    let m = write_field item IoWorkitem.queued 0 m in
    call_item n (lookup (item % 0x1_0000_0000) m.js_items) item
      (read_field m.memory item IoWorkitem.type) (read_field m.memory item IoWorkitem.function)
      (read_field m.memory item IoWorkitem.device_object)
      (read_field m.memory item IoWorkitem.context) m

unfoldable pub run_queue : Native → ℕ → Action (Unit {0})
unfolding deliver
run_queue n zero m = elim m.work_queue [ [] ↦ ok tt m | _ ∷ _ ↦ out_of_fuel ]
run_queue n (suc fuel) m = elim m.work_queue [
  | [] ↦ ok tt m
  | item ∷ rest ↦ run_queue n fuel (deliver n item (record m { work_queue = rest }))
]

unfoldable pub pending : Machine → ℕ
pending m = length m.work_queue
