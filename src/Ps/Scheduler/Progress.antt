-- ===== src/Ps/Scheduler/Progress.antt =====
-- Every program that makes progress ends, and is reaped.
use windows_10_js.Prelude.{
  ℕ, zero, suc, ◌≡◌, ◌≢◌, ◌<◌, ◌≤◌, ◌∙◌, refl, sym, ap, subst, false, Option, none, some, List, [],
  ◌∷◌, length, ◌⊎◌, inl, inr, Bool-cases, arith,
}
use windows_10_js.Win32.GuestHeap.{Heap}
use windows_10_js.Ps.Process.{Processes}
use windows_10_js.Ps.Scheduler.{
  done, Outcome, Proc, World, is_over, state_after, visit, reap_all, reap, tick,
}
use windows_10_js.Ps.Scheduler.Rounds.{Free, Single, Ended, IsQuiet, visit-Free, visit-Single}

module _ (exec : (routine : ℕ) (args : List ℕ) → Heap → Heap) (arena fuel now g : ℕ) where
  reap_all-Free :
      (ps : List Proc) (s : Processes) → Free g ps → Free g (reap_all exec arena fuel now ps s).0
  unfolding reap_all
  reap_all-Free [] s free = tt
  reap_all-Free (p ∷ ps) s (other, free) =
      let rest = reap_all-Free ps s free in
      elim (Bool-cases (is_over p.state)) [ inl over ↦ rw over rest | inr on ↦ rw on (other, rest) ]

  reap_all-Single :
      (ps : List Proc) (s : Processes)
      → Single g ps
      → Single g (reap_all exec arena fuel now ps s).0
  unfolding reap_all
  reap_all-Single [] s single = absurd single
  reap_all-Single (p ∷ ps) s (inl (it, on, free)) =
      let stays : is_over p.state ≡ false = ap is_over on in
      rw stays (inl (it, on, reap_all-Free ps s free))
  reap_all-Single (p ∷ ps) s (inr (other, single)) =
      let rest = reap_all-Single ps s single in
      elim (Bool-cases (is_over p.state)) [
        | inl over ↦ rw over rest
        | inr on ↦ rw on (inr (other, rest))
      ]

  reap_all-Ended :
      (ps : List Proc) (s : Processes) → Ended g ps → Free g (reap_all exec arena fuel now ps s).0
  unfolding reap_all
  reap_all-Ended [] s ended = absurd ended
  reap_all-Ended (p ∷ ps) s (inl (it, over, free)) = rw over (reap_all-Free ps s free)
  reap_all-Ended (p ∷ ps) s (inr (other, ended)) =
      let rest = reap_all-Ended ps s ended in
      elim (Bool-cases (is_over p.state)) [ inl over ↦ rw over rest | inr on ↦ rw on (other, rest) ]

  length-reap_all :
      (ps : List Proc) (s : Processes) → length (reap_all exec arena fuel now ps s).0 ≤ length ps
  unfolding reap_all
  length-reap_all [] s = omega arith
  length-reap_all (p ∷ ps) s =
      let rest = length-reap_all ps s in
      elim (Bool-cases (is_over p.state)) [
        | inl over ↦ rw over (omega arith)
        | inr on ↦ rw on (omega arith)
      ]

-- So many ticks after one another.
unfoldable pub ticks :
    {S : Type 0} (exec : (routine : ℕ) (args : List ℕ) → Heap → Heap) (arena fuel now : ℕ)
    (next : (gen : ℕ) → World S → Outcome × World S) (count rounds : ℕ)
    → World S
    → Option (World S)
ticks exec arena fuel now next zero rounds w = some w
ticks exec arena fuel now next (suc count) rounds w =
    elim (tick exec arena fuel now next rounds w) [
      | none ↦ none
      | some w' ↦ ticks exec arena fuel now next count rounds w'
    ]

module _ {S : Type 0} (exec : (routine : ℕ) (args : List ℕ) → Heap → Heap) (arena fuel now : ℕ)
    (next : (gen : ℕ) → World S → Outcome × World S) (quiet : IsQuiet next) (g : ℕ) (left : S → ℕ)
    (others : (h : ℕ) (w : World S) → h ≢ g → left (next h w).1.programs ≤ left w.programs) where
  -- The world that a tick leaves.
  abbrev Ticked : (rounds : ℕ) (w : World S) → (World S → Type 0) → Type 0
  Ticked rounds w Post =
      (w' : World S) × (tick exec arena fuel now next rounds w ≡ some w')
      × (length w'.procs ≤ length w.procs)
      × Post w'

  tick-visit :
      (rounds : ℕ) (w w2 : World S)
      → visit exec arena fuel now next rounds 0 (reap exec arena fuel now w) ≡ some w2
      → tick exec arena fuel now next rounds w ≡ some (reap exec arena fuel now w2)
  unfolding tick
  tick-visit rounds w w2 run = rw (run, tick) refl

  tick-Free :
      (rounds : ℕ) (w : World S)
      → Free g w.procs
      → length w.procs < rounds
      → Ticked rounds w (λ w'. Free g w'.procs)
  unfolding reap
  tick-Free rounds w free enough =
      let w1 = reap exec arena fuel now w in
      let shorter = length-reap_all exec arena fuel now g w.procs w.processes in
      let (w2, post, run, procs, same, (free', low)) =
        visit-Free exec arena fuel now next quiet g left others rounds [] w1.procs w1 refl
          (reap_all-Free exec arena fuel now g w.procs w.processes free) (omega arith) in
      let free2 : Free g w2.procs = subst (Free g) (sym procs) free' in
      let length2 = ap length procs in
      let shorter2 = length-reap_all exec arena fuel now g w2.procs w2.processes in
      (
        reap exec arena fuel now w2,
        tick-visit rounds w w2 run,
        omega arith,
        reap_all-Free exec arena fuel now g w2.procs w2.processes free2,
      )

  tick-Single :
      ((w : World S)
        → (state_after (next g w).0 ≡ done) ⊎ (left (next g w).1.programs < left w.programs))
      → (rounds : ℕ) (w : World S) → Single g w.procs
      → length w.procs < rounds
      → Ticked rounds w
          (λ w'. Free g w'.procs ⊎ (Single g w'.procs × (left w'.programs < left w.programs)))
  unfolding reap
  tick-Single falls rounds w single enough =
      let w1 = reap exec arena fuel now w in
      let shorter = length-reap_all exec arena fuel now g w.procs w.processes in
      let (w2, post, run, procs, same, after) =
        visit-Single exec arena fuel now next quiet g left others falls rounds [] w1.procs w1 refl
          (reap_all-Single exec arena fuel now g w.procs w.processes single) (omega arith) in
      let length2 = ap length procs in
      let shorter2 = length-reap_all exec arena fuel now g w2.procs w2.processes in
      (
        reap exec arena fuel now w2,
        tick-visit rounds w w2 run,
        omega arith,
        elim after [
          | inl ended ↦ inl (
              reap_all-Ended exec arena fuel now g w2.procs w2.processes
                (subst (Ended g) (sym procs) ended))
          | inr (single', low) ↦ inr (
            reap_all-Single exec arena fuel now g w2.procs w2.processes
                (subst (Single g) (sym procs) single'),
            low,
          )
        ],
      )

  ticks-once :
      (count rounds : ℕ) (w w1 : World S)
      → tick exec arena fuel now next rounds w ≡ some w1
      → ticks exec arena fuel now next (suc count) rounds w
        ≡ ticks exec arena fuel now next count rounds w1
  unfolding ticks
  ticks-once count rounds w w1 run = rw (run, ticks) refl

  ticks-Free :
      (count rounds : ℕ) (w : World S)
      → Free g w.procs
      → length w.procs < rounds
      → (w' : World S) × (ticks exec arena fuel now next count rounds w ≡ some w') × Free g w'.procs
  unfolding ticks
  ticks-Free zero rounds w free enough = (w, refl, free)
  ticks-Free (suc count) rounds w free enough =
      let (w1, run, shorter, free1) = tick-Free rounds w free enough in
      let (w', runs, free') = ticks-Free count rounds w1 free1 (omega arith) in
      (w', ticks-once count rounds w w1 run ∙ runs, free')

  ticks-ends :
      ((w : World S)
        → (state_after (next g w).0 ≡ done) ⊎ (left (next g w).1.programs < left w.programs))
      → (count rounds : ℕ) (w : World S) → Single g w.procs
      → length w.procs < rounds
      → left w.programs ≤ count
      → (w' : World S) × (ticks exec arena fuel now next (suc count) rounds w ≡ some w')
        × Free g w'.procs
  unfolding ticks
  ticks-ends falls zero rounds w single enough bound =
      let (w1, run, shorter, after) = tick-Single falls rounds w single enough in
      elim after [
        | inl free ↦ (w1, ticks-once zero rounds w w1 run, free)
        | inr (single1, low) ↦ absurd (omega arith)
      ]
  ticks-ends falls (suc count) rounds w single enough bound =
      let (w1, run, shorter, after) = tick-Single falls rounds w single enough in
      elim after [
        | inl free ↦
            let (w', runs, free') = ticks-Free (suc count) rounds w1 free (omega arith) in
            (w', ticks-once (suc count) rounds w w1 run ∙ runs, free')
        | inr (single1, low) ↦
            let (w', runs, free') =
              ticks-ends falls count rounds w1 single1 (omega arith) (omega arith) in
            (w', ticks-once (suc count) rounds w w1 run ∙ runs, free')
      ]

  -- A ready process whose program, the only one that runs the generator `g`, in each of its steps
  -- either ends or lowers a measure that the other programs do not raise, is reaped after as many
  -- ticks as the measure and one more, if no program starts or kills processes: these ticks return,
  -- with more fuel than there are processes, and no process runs `g` then.
  pub ticks-Free_of_measure :
      ((w : World S)
        → (state_after (next g w).0 ≡ done) ⊎ (left (next g w).1.programs < left w.programs))
      → (rounds : ℕ) (w : World S) → Single g w.procs
      → length w.procs < rounds
      → (w' : World S) × (ticks exec arena fuel now next (suc (left w.programs)) rounds w ≡ some w')
        × Free g w'.procs
  ticks-Free_of_measure falls rounds w single enough =
      ticks-ends falls (left w.programs) rounds w single enough (omega arith)
