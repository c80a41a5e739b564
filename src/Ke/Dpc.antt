-- ===== src/Ke/Dpc.antt =====
-- system32/ntos/ke/dpc.js: deferred procedure calls, over the KDPC structure of nt-abi.js.
pub mod Queue
pub mod Drain
use windows_10_js.Prelude.{
  ℕ, zero, suc, ◌+◌, ◌%◌, Bool, Option, none, some, List, [], ◌∷◌, ◌++◌, ◌==◌, if◌then◌else◌,
  length,
}
use windows_10_js.Prelude.Assoc.{lookup, insert}
use windows_10_js.Hal.Memory.{Memory, read32, write32}
use windows_10_js.Ke.Machine.{
  Machine, Native, Run, ok, out_of_fuel, Action, ◌>>=◌, ◌>>◌, gets, modify,
}
use windows_10_js.NtAbi.Kdpc
use windows_10_js.Ke.Irql.{raise_irql, lower_irql, dispatch_level}

abbrev pub read_field : Memory → ℕ → ℕ → ℕ
read_field m dpc offset = read32 m (dpc + offset)

abbrev pub write_field : ℕ → ℕ → ℕ → Machine → Machine
write_field dpc offset value m = record m { memory = write32 m.memory (dpc + offset) value }

unfoldable pub initialize_dpc : ℕ → ℕ → ℕ → Machine → Machine
initialize_dpc dpc routine context m =
    let m = write_field dpc Kdpc.type Kdpc.type_dpc m in
    let m = write_field dpc Kdpc.importance Kdpc.importance_medium m in
    let m = write_field dpc Kdpc.dpc_list_entry 0 m in
    let m = write_field dpc Kdpc.routine routine m in
    let m = write_field dpc (Kdpc.routine + 4) 0 m in
    let m = write_field dpc Kdpc.context context m in
    let m = write_field dpc (Kdpc.context + 4) 0 m in
    let m = write_field dpc Kdpc.sysarg1 0 m in
    let m = write_field dpc Kdpc.sysarg2 0 m in write_field dpc Kdpc.dpc_data 0 m

unfoldable pub initialize_js_dpc : ℕ → ℕ → ℕ → Machine → Machine
unfolding initialize_dpc
initialize_js_dpc dpc js_function context m =
    let m = initialize_dpc dpc 0 context m in
    record m { js_dpcs = insert (dpc % 0x1_0000_0000) js_function m.js_dpcs }

unfoldable pub insert_queue_dpc : ℕ → ℕ → ℕ → Machine → ℕ × Machine
insert_queue_dpc dpc arg1 arg2 m =
    if read_field m.memory dpc Kdpc.dpc_data == 0
    then (let m = write_field dpc Kdpc.sysarg1 arg1 m in
        let m = write_field dpc Kdpc.sysarg2 arg2 m in
        let m = write_field dpc Kdpc.dpc_data 1 m in
        (1, record m { dpc_queue = m.dpc_queue ++ dpc ∷ [] }))
    else (0, m)

-- `findIndex` and `splice`: the queue without the first entry that is `dpc`, if there is one.
unfoldable pub splice_first : ℕ → List ℕ → Option (List ℕ)
splice_first dpc [] = none
splice_first dpc (q ∷ qs) =
    if q == dpc
    then some qs
    else elim (splice_first dpc qs) [ none ↦ none | some rest ↦ some (q ∷ rest) ]

unfoldable pub remove_queue_dpc : ℕ → Machine → ℕ × Machine
unfolding splice_first
remove_queue_dpc dpc m = elim (splice_first dpc m.dpc_queue) [
  | none ↦ (0, m)
  | some rest ↦ (1, write_field dpc Kdpc.dpc_data 0 (record m { dpc_queue = rest }))
]

-- The JavaScript routine of the DPC if it has one, else its native routine.
abbrev pub call_routine : Native → Option ℕ → ℕ → List ℕ → Machine → Machine
call_routine n none routine args = n.exec routine args
call_routine n (some js) routine args = n.call_js js args

-- One round of the loop in `runQueue`, at an entry that `shift` has taken off.
unfoldable pub deliver : Native → ℕ → Action (Unit {0})
unfolding raise_irql lower_irql
deliver n dpc = do
  modify (write_field dpc Kdpc.dpc_data 0)
  routine ← gets (λ m. read_field m.memory dpc Kdpc.routine)
  context ← gets (λ m. read_field m.memory dpc Kdpc.context)
  arg1 ← gets (λ m. read_field m.memory dpc Kdpc.sysarg1)
  arg2 ← gets (λ m. read_field m.memory dpc Kdpc.sysarg2)
  old ← raise_irql dispatch_level
  js ← gets (λ m. lookup (dpc % 0x1_0000_0000) m.js_dpcs)
  modify (call_routine n js routine (dpc ∷ context ∷ arg1 ∷ arg2 ∷ []))
  lower_irql old

-- `while (dpcQueue.length > 0)` with fuel: a routine may queue further DPCs, also itself.
unfoldable pub run_queue : Native → ℕ → Action (Unit {0})
unfolding deliver
run_queue n zero m = elim m.dpc_queue [ [] ↦ ok tt m | _ ∷ _ ↦ out_of_fuel ]
run_queue n (suc fuel) m = elim m.dpc_queue [
  | [] ↦ ok tt m
  | dpc ∷ rest ↦ (deliver n dpc >> run_queue n fuel) (record m { dpc_queue = rest })
]

unfoldable pub pending : Machine → ℕ
pending m = length m.dpc_queue
