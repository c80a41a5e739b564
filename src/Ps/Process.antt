-- ===== src/Ps/Process.antt =====
-- system32/ntos/ps/process.js: the EPROCESS and KTHREAD structures in guest memory, the list of
-- active processes, and the current thread.
pub mod ActiveList
use windows_10_js.Prelude.{
  ℕ, zero, suc, ◌+◌, ◌-◌, ◌%◌, Bool, true, false, ◌||◌, Option, none, some, List, [], ◌∷◌, ◌++◌,
  ◌==◌, ltb, if◌then◌else◌,
}
use windows_10_js.Prelude.TextMap.{Text}
use windows_10_js.Hal.Memory.{Memory, read8, read32, read64, write32, write64}
use windows_10_js.NtAbi.Eprocess
use windows_10_js.NtAbi.Kthread
use windows_10_js.Win32.GuestHeap.{Heap, guest_alloc_bytes}
use windows_10_js.Win32.GuestStrings.{write_guest_bytes}
use windows_10_js.Win32.Rtl.CText.{padded}

abbrev pub system_process_id : ℕ
system_process_id = 4

-- MemoryMap.PML4_PHYS
abbrev pub pml4_phys : ℕ
pml4_phys = 0x70000

-- The guest's memory with its heap, and the module's variables.
pub record Processes : Type 0 where
  pub heap : Heap
  pub ps_active_process_head : ℕ
  pub system_process_pointer : ℕ
  pub current_thread_pointer : ℕ
  pub process_notify_routines : List ℕ

abbrev pub memory_of : Processes → Memory
memory_of s = s.heap.memory

abbrev pub on_memory : (Memory → Memory) → Processes → Processes
on_memory write s = record s { heap = record (s.heap) { memory = write s.heap.memory } }

unfoldable pub register_process_notify : ℕ → Processes → Processes
register_process_notify callback s = record s {
  process_notify_routines = s.process_notify_routines ++ (callback % 0x1_0000_0000) ∷ [];
}

-- `indexOf` and `splice`: without the first occurrence, and whether there was one.
unfoldable pub without_first : ℕ → List ℕ → Bool × List ℕ
without_first x [] = (false, [])
without_first x (y ∷ ys) =
    let rest = without_first x ys in if y == x then (true, ys) else (rest.0, y ∷ rest.1)

unfoldable pub unregister_process_notify : ℕ → Processes → Bool × Processes
unfolding without_first
unregister_process_notify callback s =
    let found = without_first (callback % 0x1_0000_0000) s.process_notify_routines in
    (found.0, record s { process_notify_routines = found.1 })

unfoldable pub get_current_process : Processes → ℕ
get_current_process s =
    if s.current_thread_pointer == 0
    then s.system_process_pointer
    else read64 (memory_of s) (s.current_thread_pointer + Kthread.apc_state_process)

unfoldable pub get_current_process_id : Processes → ℕ
get_current_process_id s =
    if s.current_thread_pointer == 0
    then system_process_id
    else read64 (memory_of s) (s.current_thread_pointer + Kthread.cid_unique_process)

unfoldable pub get_current_thread_id : Processes → ℕ
get_current_thread_id s =
    if s.current_thread_pointer == 0
    then 0
    else read64 (memory_of s) (s.current_thread_pointer + Kthread.cid_unique_thread)

unfoldable pub set_current_thread : ℕ → Processes → Processes
set_current_thread thread s = record s { current_thread_pointer = thread }

unfoldable pub insert_into_active_process_list : (head process : ℕ) → Memory → Memory
insert_into_active_process_list head process m =
    let links = process + Eprocess.active_process_links in
    let last_process = read64 m (head + 8) in
    let m = write64 m links head in
    let m = write64 m (links + 8) last_process in
    let m = write64 m last_process links in write64 m (head + 8) links

unfoldable pub remove_from_active_process_list : (process : ℕ) → Memory → Memory
remove_from_active_process_list process m =
    let links = process + Eprocess.active_process_links in
    let next = read64 m links in
    let previous = read64 m (links + 8) in
    let m = write64 m previous next in write64 m (next + 8) previous

unfoldable pub add_thread : ℕ → Memory → Memory
add_thread process m =
    let active = read32 m (process + Eprocess.active_threads) in
    write32 m (process + Eprocess.active_threads) (active + 1)

unfoldable pub remove_thread : ℕ → Memory → Memory
remove_thread process m =
    let active = read32 m (process + Eprocess.active_threads) in
    if ltb 0 active then write32 m (process + Eprocess.active_threads) (active - 1) else m

-- The bytes of a name up to the first 0, and 15 at most.
unfoldable pub image_name : (left address : ℕ) → Memory → Text
image_name zero address m = []
image_name (suc left) address m =
    let rest = image_name left (address + 1) m in
    if read8 m address == 0 then [] else read8 m address ∷ rest

pub record ProcessInfo : Type 0 where
  pub pid : ℕ
  pub name : Text
  pub address : ℕ

unfoldable pub describe : Memory → (cursor : ℕ) → ProcessInfo
unfolding image_name
describe m cursor =
    let process = cursor - Eprocess.active_process_links in
    record {
      pid = read64 m (process + Eprocess.unique_process_id);
      name = image_name 15 (process + Eprocess.image_file_name) m;
      address = process;
    }

-- The loop of listActiveProcesses, with a fuel for each test.
unfoldable pub walk_active : (fuel head cursor : ℕ) → Memory → Option (List ProcessInfo)
unfolding describe
walk_active zero head cursor m = none
walk_active (suc fuel) head cursor m =
    let rest = walk_active fuel head (read64 m cursor) m in
    let more = elim rest as (λ _. Option (List ProcessInfo)) [
      | none ↦ none
      | some infos ↦ some (describe m cursor ∷ infos)
    ] in
    if (cursor == 0) || (cursor == head) then some [] else more

unfoldable pub list_active_processes : (fuel : ℕ) → Processes → Option (List ProcessInfo)
unfolding walk_active
list_active_processes fuel s =
    walk_active fuel s.ps_active_process_head (read64 (memory_of s) s.ps_active_process_head)
      (memory_of s)

-- `exec` is os.execMsAbi as far as the guest's memory goes: a notify routine that calls the
-- functions of this file is left out. `arena` and `fuel` are the allocator's, and `now` is
-- Math.floor(Clock.uptimeMs()). `none`: a search of the allocator needs more fuel.
module _ (exec : (routine : ℕ) (args : List ℕ) → Heap → Heap) (arena fuel now : ℕ) where
  notify_all : List ℕ → (args : List ℕ) → Heap → Heap
  notify_all [] args h = h
  notify_all (callback ∷ callbacks) args h = notify_all callbacks args (exec callback args h)

  unfoldable pub fire_process_notify : (process_id created : ℕ) → Processes → Processes
  unfolding notify_all get_current_process_id
  fire_process_notify process_id created s = record s {
    heap =
        notify_all s.process_notify_routines (get_current_process_id s ∷ process_id ∷ created ∷ [])
          s.heap;
  }

  unfoldable pub create_process :
      (process_id : ℕ) → (image : Text) → Processes → Option (ℕ × Processes)
  unfolding insert_into_active_process_list fire_process_notify
  create_process process_id image s = elim (guest_alloc_bytes arena fuel Eprocess.size s.heap) [
    | none ↦ none
    | some (process, h) ↦
        let m = write32 h.memory process Eprocess.type_process in
        let m = write64 m (process + Eprocess.directory_table_base) pml4_phys in
        let m = write64 m (process + Eprocess.unique_process_id) process_id in
        let m = write64 m (process + Eprocess.create_time) now in
        let m = write32 m (process + Eprocess.active_threads) 1 in
        let m = write_guest_bytes (process + Eprocess.image_file_name) (padded 15 image) m in
        let m = insert_into_active_process_list s.ps_active_process_head process m in
        some
          (process, fire_process_notify process_id 1 (record s { heap = record h { memory = m } }))
  ]

  unfoldable pub create_kernel_thread : (process thread_id : ℕ) → Processes → Option (ℕ × Processes)
  create_kernel_thread process thread_id s =
      elim (guest_alloc_bytes arena fuel Kthread.size s.heap) [
        | none ↦ none
        | some (thread, h) ↦
            let process_id = read64 h.memory (process + Eprocess.unique_process_id) in
            let m = write64 h.memory (thread + Kthread.apc_state_process) process in
            let m = write64 m (thread + Kthread.cid_unique_process) process_id in
            let m = write64 m (thread + Kthread.cid_unique_thread) thread_id in
            some (thread, record s { heap = record h { memory = m } })
      ]

  unfoldable pub terminate_process : (process : ℕ) → Processes → Processes
  unfolding fire_process_notify remove_from_active_process_list
  terminate_process process s =
      let process_id = read64 (memory_of s) (process + Eprocess.unique_process_id) in
      on_memory
        (λ m. remove_from_active_process_list process (
          write64 (write32 m (process + Eprocess.active_threads) 0) (process + Eprocess.exit_time)
            now))
        (fire_process_notify process_id 0 s)

  -- `init`: "System" is process 4.
  unfoldable pub init : Processes → Option Processes
  unfolding create_process
  init s = elim (guest_alloc_bytes arena fuel 16 s.heap) [
    | none ↦ none
    | some (head, h) ↦
        let m = write64 (write64 h.memory head head) (head + 8) head in
        let s = record s { heap = record h { memory = m }; ps_active_process_head = head } in
        elim (create_process system_process_id (b'S' ∷ b'y' ∷ b's' ∷ b't' ∷ b'e' ∷ b'm' ∷ []) s) [
          | none ↦ none
          | some (process, s') ↦ some (record s' { system_process_pointer = process })
        ]
  ]
