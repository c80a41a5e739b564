-- ===== src/Ke/Dpc/Drain.antt =====
-- Draining the queue of deferred procedure calls.
use windows_10_js.Prelude.{
  ℕ, zero, suc, ◌%◌, ◌≤◌, ◌≡◌, ◌∙◌, refl, Option, none, some, List, [], ◌∷◌, arith, length,
}
use windows_10_js.Prelude.Assoc.{lookup}
use windows_10_js.NtAbi.Kdpc
use windows_10_js.Ke.Machine.{Machine, Native, ok}
use windows_10_js.Ke.Irql.{dispatch_level, publish_irql}
use windows_10_js.Ke.Dpc.{read_field, write_field, call_routine, deliver, run_queue}

-- What the routines of the queued DPCs are assumed to do: they return at the level at which they
-- were called, and queue no further DPC and take none off.
pub record IsTame (n : Native) : Type 0 where
  pub exec_queue :
      (routine : ℕ) (args : List ℕ) (m : Machine) → (n.exec routine args m).dpc_queue ≡ m.dpc_queue
  pub exec_irql :
      (routine : ℕ) (args : List ℕ) (m : Machine) → (n.exec routine args m).irql ≡ m.irql
  pub js_queue :
      (routine : ℕ) (args : List ℕ) (m : Machine)
      → (n.call_js routine args m).dpc_queue ≡ m.dpc_queue
  pub js_irql :
      (routine : ℕ) (args : List ℕ) (m : Machine) → (n.call_js routine args m).irql ≡ m.irql

-- The machine in which the routine of a DPC starts: its mark is cleared, at DISPATCH_LEVEL.
abbrev entered : Machine → ℕ → Machine
unfolding publish_irql
entered m dpc = publish_irql (record (write_field dpc Kdpc.dpc_data 0 m) { irql = dispatch_level })

-- The machine after the routine ran on the fields of its DPC.
abbrev called : Native → Machine → ℕ → Machine
unfolding publish_irql
called n m dpc =
    let mem = (write_field dpc Kdpc.dpc_data 0 m).memory in
    call_routine n (lookup (dpc % 0x1_0000_0000) m.js_dpcs) (read_field mem dpc Kdpc.routine)
      (dpc
        ∷ read_field mem dpc Kdpc.context
        ∷ read_field mem dpc Kdpc.sysarg1
        ∷ read_field mem dpc Kdpc.sysarg2
        ∷ [])
      (entered m dpc)

-- One delivery: the routine runs, and the level from before returns.
pub delivered : Native → Machine → ℕ → Machine
unfolding publish_irql
delivered n m dpc = publish_irql (record (called n m dpc) { irql = m.irql })

-- The deliveries of a list of DPCs in order, each with the rest of the list queued behind it.
pub deliver_all : Native → Machine → List ℕ → Machine
unfolding delivered
deliver_all n m [] = m
deliver_all n m (dpc ∷ rest) = deliver_all n (delivered n (record m { dpc_queue = rest }) dpc) rest

module _ (n : Native) (tame : IsTame n) where
  call_queue :
      (o : Option ℕ) (routine : ℕ) (args : List ℕ) (m : Machine)
      → (call_routine n o routine args m).dpc_queue ≡ m.dpc_queue
  call_queue none routine args m = tame.exec_queue routine args m
  call_queue (some js) routine args m = tame.js_queue js args m

  call_irql :
      (o : Option ℕ) (routine : ℕ) (args : List ℕ) (m : Machine)
      → (call_routine n o routine args m).irql ≡ m.irql
  call_irql none routine args m = tame.exec_irql routine args m
  call_irql (some js) routine args m = tame.js_irql js args m

  delivered_queue : (m : Machine) (dpc : ℕ) → (delivered n m dpc).dpc_queue ≡ m.dpc_queue
  unfolding delivered
  delivered_queue m dpc = call_queue _ _ _ _

  delivered_irql : (m : Machine) (dpc : ℕ) → (delivered n m dpc).irql ≡ m.irql
  unfolding delivered
  delivered_irql m dpc = refl

  called_irql : (m : Machine) (dpc : ℕ) → (called n m dpc).irql ≡ dispatch_level
  unfolding publish_irql
  called_irql m dpc = call_irql (lookup (dpc % 0x1_0000_0000) m.js_dpcs) _ _ (entered m dpc)

  deliver-delivered :
      (dpc : ℕ) (m : Machine)
      → m.irql ≤ dispatch_level
      → deliver n dpc m ≡ ok tt (delivered n m dpc)
  unfolding deliver delivered
  deliver-delivered dpc m h = let level = called_irql m dpc in ground arith

  run_queue_go :
      (qs : List ℕ) (fuel : ℕ) (m : Machine)
      → m.dpc_queue ≡ qs
      → length qs ≤ fuel
      → m.irql ≤ dispatch_level
      → (run_queue n fuel m ≡ ok tt (deliver_all n m qs))
        × ((deliver_all n m qs).dpc_queue ≡ [])
        × ((deliver_all n m qs).irql ≡ m.irql)
  unfolding run_queue deliver_all
  run_queue_go [] zero m e f h = (ground arith, e, refl)
  run_queue_go [] (suc fuel) m e f h = (ground arith, e, refl)
  run_queue_go (q ∷ qs) zero m e f h = absurd (omega arith)
  run_queue_go (q ∷ qs) (suc fuel) m e f h =
      let start : Machine = record m { dpc_queue = qs } in
      let (runs, empties, level) =
        run_queue_go qs fuel (delivered n start q) (delivered_queue start q) (omega arith)
          (rw (delivered_irql start q) h) in
      (rw (e, deliver-delivered q start h) runs, empties, level ∙ delivered_irql start q)

-- With routines that queue nothing, and from a level not above DISPATCH_LEVEL, a drain with as much
-- fuel as there are queued DPCs delivers each of them once, in the order in which they were queued,
-- and ends with an empty queue at the level at which it began.
pub run_queue-deliver_all :
    (n : Native) (fuel : ℕ) (m : Machine)
    → IsTame n
    → length m.dpc_queue ≤ fuel
    → m.irql ≤ dispatch_level
    → (run_queue n fuel m ≡ ok tt (deliver_all n m m.dpc_queue))
      × ((deliver_all n m m.dpc_queue).dpc_queue ≡ [])
      × ((deliver_all n m m.dpc_queue).irql ≡ m.irql)
run_queue-deliver_all n fuel m tame f h = run_queue_go n tame m.dpc_queue fuel m refl f h
