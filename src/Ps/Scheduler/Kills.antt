-- ===== src/Ps/Scheduler/Kills.antt =====
-- What becomes of a kill: of one from outside, and of one during the turn of the process itself.
use windows_10_js.Prelude.{
  ℕ, zero, suc, ◌≡◌, ◌∙◌, refl, sym, ap, subst, true, Option, none, some, List, [], ◌∷◌, ◌==◌,
  arith,
}
use windows_10_js.Win32.GuestHeap.{Heap}
use windows_10_js.Ps.Scheduler.{
  State, ready, running, killed, Outcome, yielded, Proc, World, with_state, change_at, kill_first,
  kill, state_after, set_state_at, switch_to, turn, visit, reap, reap_all, tick,
}
use windows_10_js.Ps.Scheduler.Progress.{ticks}

-- `f`, so often.
unfoldable pub times : {A : Type 0} → ℕ → (A → A) → A → A
times zero f a = a
times (suc n) f a = times n f (f a)

own_kill :
    (state : State) (p : Proc)
    → kill_first p.pid (with_state state p ∷ []) ≡ some (with_state killed p ∷ [])
unfolding kill_first
own_kill state p = let same : (p.pid == p.pid) ≡ true = ground arith in rw same refl

module _ {S : Type 0} where
  -- The world with these processes.
  abbrev with_procs : List Proc → World S → World S
  with_procs ps w = record w { procs = ps }

  kill-alone :
      (state : State) (p : Proc) (w : World S)
      → (kill p.pid (with_procs (with_state state p ∷ []) w)).1
        ≡ with_procs (with_state killed p ∷ []) w
  unfolding kill
  kill-alone state p w = rw (own_kill state p, kill) refl

module _ {S : Type 0} (exec : (routine : ℕ) (args : List ℕ) → Heap → Heap) (arena fuel now : ℕ)
    (next : (gen : ℕ) → World S → Outcome × World S) (p : Proc) where
  reap-alone : (w : World S) → w.procs ≡ with_state ready p ∷ [] → reap exec arena fuel now w ≡ w
  unfolding reap reap_all
  reap-alone w alone =
      let same : with_procs (with_state ready p ∷ []) w ≡ w =
        ap (λ ps. with_procs ps w) (sym alone) in
      subst (λ v. reap exec arena fuel now v ≡ v) same refl

  visit-end :
      (rounds : ℕ) (w : World S)
      → w.procs ≡ with_state ready p ∷ []
      → visit exec arena fuel now next (suc rounds) 1 w ≡ some w
  unfolding visit
  visit-end rounds w alone =
      let same : with_procs (with_state ready p ∷ []) w ≡ w =
        ap (λ ps. with_procs ps w) (sym alone) in
      subst (λ v. visit exec arena fuel now next (suc rounds) 1 v ≡ some v) same refl

  tick-visit :
      (rounds : ℕ) (w w' : World S)
      → reap exec arena fuel now w ≡ w
      → visit exec arena fuel now next rounds 0 w ≡ some w'
      → tick exec arena fuel now next rounds w ≡ some (reap exec arena fuel now w')
  unfolding tick
  tick-visit rounds w w' same visited =
      ap
        (λ o. elim o as (λ _. Option (World S)) [
          | none ↦ none
          | some v ↦ some (reap exec arena fuel now v)
        ])
        (ap (visit exec arena fuel now next rounds 0) same ∙ visited)

  -- A kill between two ticks: the process is reaped by the next one, and makes no step.
  kill-reaped :
      (rounds : ℕ) (w : World S)
      → w.procs ≡ with_state ready p ∷ []
      → (w' : World S) × (tick exec arena fuel now next (suc rounds) (kill p.pid w).1 ≡ some w')
        × (w'.procs ≡ [])
        × (w'.programs ≡ w.programs)
  unfolding tick visit reap reap_all
  kill-reaped rounds w alone =
      let dead = with_procs (with_state killed p ∷ []) w in
      let same : with_procs (with_state ready p ∷ []) w ≡ w =
        ap (λ ps. with_procs ps w) (sym alone) in
      let after : (kill p.pid w).1 ≡ dead =
        ap (λ v. (kill p.pid v).1) (sym same) ∙ kill-alone ready p w in
      (
        reap exec arena fuel now (reap exec arena fuel now dead),
        ap (tick exec arena fuel now next (suc rounds)) after,
        refl,
        refl,
      )

  module _ (step : S → S) (goes_on : (w : World S) → (next p.gen w).0 ≡ yielded)
      (kills_itself : (w : World S) → (next p.gen w).1.procs ≡ (kill p.pid w).1.procs)
      (steps : (w : World S) → (next p.gen w).1.programs ≡ step w.programs) where
    turn-alone :
        (w : World S)
        → let w' =
            turn exec arena fuel now next 0
              (with_state ready p)
              (with_procs (with_state ready p ∷ []) w) in
          (w'.procs ≡ with_state ready p ∷ []) × (w'.programs ≡ step w.programs)
    unfolding turn set_state_at switch_to change_at
    turn-alone w =
        let u =
          switch_to p.thread_pointer
            (set_state_at 0 running (with_procs (with_state ready p ∷ []) w)) in
        let dead : (next p.gen u).1.procs ≡ with_state killed p ∷ [] =
          kills_itself u ∙ ap (λ v. v.procs) (kill-alone running p u) in
        (
          ap (λ ps. change_at 0 (with_state (state_after (next p.gen u).0)) ps) dead
              ∙ ap (λ o. with_state (state_after o) p ∷ []) (goes_on u),
          steps u,
        )

    tick-alone :
        (rounds : ℕ) (w : World S)
        → w.procs ≡ with_state ready p ∷ []
        → (w' : World S) × (tick exec arena fuel now next (suc (suc rounds)) w ≡ some w')
          × (w'.procs ≡ with_state ready p ∷ [])
          × (w'.programs ≡ step w.programs)
    unfolding tick visit
    tick-alone rounds w alone =
        let w0 = with_procs (with_state ready p ∷ []) w in
        let same : w0 ≡ w = ap (λ ps. with_procs ps w) (sym alone) in
        let t = turn exec arena fuel now next 0 (with_state ready p) w0 in
        let (left, stepped) = turn-alone w in
        let visited : visit exec arena fuel now next (suc (suc rounds)) 0 w0 ≡ some t =
          visit-end rounds t left in
        let ends : tick exec arena fuel now next (suc (suc rounds)) w0 ≡ some t =
          tick-visit (suc (suc rounds)) w0 t (reap-alone w0 refl) visited
          ∙ ap some (reap-alone t left) in
        (t, ap (tick exec arena fuel now next (suc (suc rounds))) (sym same) ∙ ends, left, stepped)

    -- A process that is alone, and in each of its steps kills itself and yields: it is there and
    -- ready after any number of ticks, with two rounds of fuel for each, and has made a step in each
    -- of them. A kill of it between two ticks removes it in the next one, without another step.
    pub ticks-ready :
        (count rounds : ℕ) (w : World S)
        → w.procs ≡ with_state ready p ∷ []
        → ((w' : World S) × (ticks exec arena fuel now next count (suc (suc rounds)) w ≡ some w')
            × (w'.procs ≡ with_state ready p ∷ [])
            × (w'.programs ≡ times count step w.programs))
          × ((w' : World S) × (tick exec arena fuel now next (suc (suc rounds)) (kill p.pid w).1
                ≡ some w')
              × (w'.procs ≡ [])
              × (w'.programs ≡ w.programs))
    unfolding ticks times
    ticks-ready zero rounds w alone = ((w, refl, alone, refl), kill-reaped (suc rounds) w alone)
    ticks-ready (suc count) rounds w alone =
        let (t, ticked, left, stepped) = tick-alone rounds w alone in
        let ((w', ends, stays, made), _) = ticks-ready count rounds t left in
        (
          (w', rw (ticked, ticks) ends, stays, made ∙ ap (times count step) stepped),
          kill-reaped (suc rounds) w alone,
        )
