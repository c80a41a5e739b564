-- ===== src/Ps/Scheduler.antt =====
-- system32/ntos/ps/scheduler.js: the cooperative round-robin scheduler. A generator is a number;
-- `next` is what its next step does, to the scheduler too, and `programs` the variables of all
-- programs. The clock shows `now` during an operation.
pub mod Rounds
pub mod Progress
pub mod Kills
use windows_10_js.Prelude.{
  ℕ, zero, suc, ◌+◌, ◌*◌, Bool, true, false, Option, none, some, List, [], ◌∷◌, ◌++◌, get_elem?,
  ◌==◌, if◌then◌else◌,
}
use windows_10_js.Prelude.TextMap.{Text}
use windows_10_js.Hal.Memory.{read64}
use windows_10_js.NtAbi.Kthread
use windows_10_js.Win32.GuestHeap.{Heap, guest_free_bytes}
use windows_10_js.Ps.Process.{
  Processes, memory_of, on_memory, create_process, create_kernel_thread, terminate_process,
  add_thread, remove_thread, set_current_thread,
}

pub data State : Type 0 where
  ready running done killed : State

-- What `gen.next()` ends with: `done` is false, `done` is true, or an exception.
pub data Outcome : Type 0 where
  yielded finished threw : Outcome

pub record Proc : Type 0 where
  pub pid : ℕ
  pub name : Text
  pub gen : ℕ
  pub state : State
  pub process_pointer : ℕ
  pub thread_pointer : ℕ
  pub owns_process : Bool

pub record World (S : Type 0) : Type 0 where
  pub processes : Processes
  pub procs : List Proc
  pub next_pid : ℕ
  pub system_thread_pointer : ℕ
  pub programs : S

abbrev pub with_state : State → Proc → Proc
with_state state p = record p { state = state }

-- The object at an index of `procs` is changed.
unfoldable pub change_at : ℕ → (Proc → Proc) → List Proc → List Proc
change_at i f [] = []
change_at zero f (p ∷ ps) = f p ∷ ps
change_at (suc i) f (p ∷ ps) = p ∷ change_at i f ps

unfoldable pub kill_first : (pid : ℕ) → List Proc → Option (List Proc)
kill_first pid [] = none
kill_first pid (p ∷ ps) =
    let rest = elim (kill_first pid ps) as (λ _. Option (List Proc)) [
      | none ↦ none
      | some ps' ↦ some (p ∷ ps')
    ] in
    if p.pid == pid then some (with_state killed p ∷ ps) else rest

abbrev pub is_ready : State → Bool
is_ready ready = true
is_ready other = false

-- `state === 'done' || state === 'killed'`
abbrev pub is_over : State → Bool
is_over done = true
is_over killed = true
is_over other = false

abbrev pub state_after : Outcome → State
state_after yielded = ready
state_after finished = done
state_after threw = done

module _ (exec : (routine : ℕ) (args : List ℕ) → Heap → Heap) (arena fuel now : ℕ) where
  -- What `reap` does for a process that is over.
  unfoldable pub release : Proc → Processes → Processes
  release p s =
      if p.owns_process
      then terminate_process exec arena fuel now p.process_pointer s
      else on_memory (λ m. guest_free_bytes p.thread_pointer (remove_thread p.process_pointer m)) s

  -- The loop runs from the last process to the first.
  unfoldable pub reap_all : List Proc → Processes → List Proc × Processes
  reap_all [] s = ([], s)
  reap_all (p ∷ ps) s =
      let rest = reap_all ps s in
      if is_over p.state then (rest.0, release p rest.1) else (p ∷ rest.0, rest.1)

module _ {S : Type 0} where
  unfoldable pub kill : (pid : ℕ) → World S → Bool × World S
  unfolding kill_first
  kill pid w = elim (kill_first pid w.procs) [
    | none ↦ (false, w)
    | some ps ↦ (true, record w { procs = ps })
  ]

  unfoldable pub current_pid : World S → ℕ
  current_pid w =
      let thread = w.processes.current_thread_pointer in
      if thread == 0
      then 0
      else read64 (memory_of w.processes) (thread + Kthread.cid_unique_process)

  unfoldable pub switch_to : (thread : ℕ) → World S → World S
  unfolding set_current_thread
  switch_to thread w = record w { processes = set_current_thread thread w.processes }

  unfoldable pub set_state_at : ℕ → State → World S → World S
  unfolding change_at
  set_state_at i state w = record w { procs = change_at i (with_state state) w.procs }

  module _ (exec : (routine : ℕ) (args : List ℕ) → Heap → Heap) (arena fuel now : ℕ) where
    unfoldable pub spawn : (name : Text) (gen : ℕ) → World S → Option (ℕ × World S)
    spawn name gen w = elim (create_process exec arena fuel now w.next_pid name w.processes) [
      | none ↦ none
      | some (process, s) ↦
          elim (create_kernel_thread exec arena fuel now process (w.next_pid * 4) s) [
            | none ↦ none
            | some (thread, s') ↦
                let p : Proc = record {
                  pid = w.next_pid;
                  name = name;
                  gen = gen;
                  state = ready;
                  process_pointer = process;
                  thread_pointer = thread;
                  owns_process = true;
                } in
                some (
                  w.next_pid,
                  record w { processes = s'; procs = w.procs ++ p ∷ []; next_pid = w.next_pid + 1 },
                )
          ]
    ]

    unfoldable pub spawn_into_process :
        (name : Text) (process thread gen : ℕ) → World S → ℕ × World S
    spawn_into_process name process thread gen w =
        let p : Proc = record {
          pid = w.next_pid;
          name = name;
          gen = gen;
          state = ready;
          process_pointer = process;
          thread_pointer = thread;
          owns_process = false;
        } in
        (
          w.next_pid,
          record w {
            processes = on_memory (add_thread process) w.processes;
            procs = w.procs ++ p ∷ [];
            next_pid = w.next_pid + 1;
          },
        )

    unfoldable pub reap : World S → World S
    unfolding reap_all
    reap w =
        let left = reap_all exec arena fuel now w.procs w.processes in
        record w { procs = left.0; processes = left.1 }

    module _ (next : (gen : ℕ) → World S → Outcome × World S) where
      -- The turn of the process `p` at the index `i`.
      unfoldable pub turn : (i : ℕ) → Proc → World S → World S
      unfolding set_state_at switch_to
      turn i p w =
          let stepped = next p.gen (switch_to p.thread_pointer (set_state_at i running w)) in
          let w' = set_state_at i (state_after stepped.0) stepped.1 in
          switch_to w'.system_thread_pointer w'

      -- `for (const p of procs)`: what a step adds is visited too. A fuel for each test.
      unfoldable pub visit : (rounds i : ℕ) → World S → Option (World S)
      unfolding turn
      visit zero i w = none
      visit (suc rounds) i w = elim (get_elem? w.procs i) [
        | none ↦ some w
        | some p ↦ visit rounds (suc i) (if is_ready p.state then turn i p w else w)
      ]

      unfoldable pub tick : (rounds : ℕ) → World S → Option (World S)
      unfolding visit reap
      tick rounds w = elim (visit rounds 0 (reap w)) [ none ↦ none | some w' ↦ some (reap w') ]
