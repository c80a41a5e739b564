-- ===== src/Ps/Scheduler/Rounds.antt =====
-- One round over the processes, with programs that leave the list of processes alone.
use windows_10_js.Prelude.{
  ℕ, zero, suc, ◌≡◌, ◌≢◌, ◌<◌, ◌≤◌, ◌∙◌, refl, sym, ap, subst, none, some, List, [], ◌∷◌, ◌++◌,
  length, get_elem?, ◌⊎◌, inl, inr, Bool-cases, if◌then◌else◌, arith,
}
use windows_10_js.Win32.GuestHeap.{Heap}
use windows_10_js.Ps.Scheduler.{
  ready, running, done, Outcome, yielded, finished, threw, Proc, World, with_state, change_at,
  is_ready, state_after, set_state_at, switch_to, turn, visit,
}

get_elem?-append :
    (pre : List Proc) (p : Proc) (ps : List Proc) → get_elem? (pre ++ p ∷ ps) (length pre) ≡ some p
get_elem?-append [] p ps = refl
get_elem?-append (q ∷ pre) p ps = get_elem?-append pre p ps

get_elem?_end : (pre : List Proc) → get_elem? pre (length pre) ≡ none
get_elem?_end [] = refl
get_elem?_end (q ∷ pre) = get_elem?_end pre

change_at-append :
    (f : Proc → Proc) (pre : List Proc) (p : Proc) (ps : List Proc)
    → change_at (length pre) f (pre ++ p ∷ ps) ≡ pre ++ f p ∷ ps
unfolding change_at
change_at-append f [] p ps = refl
change_at-append f (q ∷ pre) p ps = ap (λ rest. q ∷ rest) (change_at-append f pre p ps)

append_cons : (pre : List Proc) (p : Proc) (ps : List Proc) → (pre ++ p ∷ []) ++ ps ≡ pre ++ p ∷ ps
append_cons [] p ps = refl
append_cons (q ∷ pre) p ps = ap (λ rest. q ∷ rest) (append_cons pre p ps)

append_nil : (pre : List Proc) → pre ++ [] ≡ pre
append_nil [] = refl
append_nil (q ∷ pre) = ap (λ rest. q ∷ rest) (append_nil pre)

length_next : (pre : List Proc) (p : Proc) → length (pre ++ p ∷ []) ≡ suc (length pre)
length_next [] p = refl
length_next (q ∷ pre) p = ap suc (length_next pre p)

-- No process runs the generator `g`.
abbrev pub Free : (g : ℕ) → List Proc → Type 0
Free g [] = Unit {0}
Free g (p ∷ ps) = (p.gen ≢ g) × Free g ps

-- One process runs the generator `g`, and is ready.
abbrev pub Single : (g : ℕ) → List Proc → Type 0
Single g [] = ⊥
Single g (p ∷ ps) = ((p.gen ≡ g) × (p.state ≡ ready) × Free g ps) ⊎ ((p.gen ≢ g) × Single g ps)

-- One process runs the generator `g`, and is done.
abbrev pub Ended : (g : ℕ) → List Proc → Type 0
Ended g [] = ⊥
Ended g (p ∷ ps) = ((p.gen ≡ g) × (p.state ≡ done) × Free g ps) ⊎ ((p.gen ≢ g) × Ended g ps)

module _ {S : Type 0} (next : (gen : ℕ) → World S → Outcome × World S) where
  -- A step leaves the list of processes alone.
  abbrev pub IsQuiet : Type 0
  IsQuiet = (gen : ℕ) (w : World S) → (next gen w).1.procs ≡ w.procs

  -- What the program of the process at the index `i` does in its turn.
  abbrev pub step_of : (i : ℕ) → Proc → World S → Outcome × World S
  step_of i p w = next p.gen (switch_to p.thread_pointer (set_state_at i running w))

module _ {S : Type 0} (exec : (routine : ℕ) (args : List ℕ) → Heap → Heap) (arena fuel now : ℕ)
    (next : (gen : ℕ) → World S → Outcome × World S) (quiet : IsQuiet next) where
  -- The state of the process afterwards, and nothing else in the list, is new.
  turn-procs :
      (pre : List Proc) (p : Proc) (ps : List Proc) (w : World S)
      → w.procs ≡ pre ++ p ∷ ps
      → (turn exec arena fuel now next (length pre) p w).procs
        ≡ pre ++ with_state (state_after (step_of next (length pre) p w).0) p ∷ ps
  unfolding turn set_state_at switch_to
  turn-procs pre p ps w h =
      let before = switch_to p.thread_pointer (set_state_at (length pre) running w) in
      let stepped = next p.gen before in
      ap (change_at (length pre) (with_state (state_after stepped.0))) (
        quiet p.gen before
        ∙ ap (change_at (length pre) (with_state running)) h
        ∙ change_at-append (with_state running) pre p ps)
      ∙ change_at-append (with_state (state_after stepped.0)) pre (with_state running p) ps

  visit-end :
      (rounds : ℕ) (pre : List Proc) (w : World S)
      → w.procs ≡ pre ++ []
      → visit exec arena fuel now next (suc rounds) (length pre) w ≡ some w
  unfolding visit
  visit-end rounds pre w h =
      let nothing : get_elem? w.procs (length pre) ≡ none =
        ap (λ ps. get_elem? ps (length pre)) (h ∙ append_nil pre) ∙ get_elem?_end pre in
      rw (nothing, visit) refl

  visit-cons :
      (rounds : ℕ) (pre : List Proc) (p p' : Proc) (ps : List Proc) (w w' : World S)
      → w.procs ≡ pre ++ p ∷ ps
      → (if is_ready p.state then turn exec arena fuel now next (length pre) p w else w) ≡ w'
      → visit exec arena fuel now next (suc rounds) (length pre) w
        ≡ visit exec arena fuel now next rounds (length (pre ++ p' ∷ [])) w'
  unfolding visit
  visit-cons rounds pre p p' ps w w' h e =
      let found : get_elem? w.procs (length pre) ≡ some p =
        ap (λ qs. get_elem? qs (length pre)) h ∙ get_elem?-append pre p ps in
      let here : visit exec arena fuel now next (suc rounds) (length pre) w
          ≡ visit exec arena fuel now next rounds (suc (length pre))
              (if is_ready p.state then turn exec arena fuel now next (length pre) p w else w) =
        rw (found, visit) refl in
      here
      ∙ ap (visit exec arena fuel now next rounds (suc (length pre))) e
      ∙ ap (λ i. visit exec arena fuel now next rounds i w') (sym (length_next pre p'))

  module _ (g : ℕ) (left : S → ℕ)
      (others : (h : ℕ) (w : World S) → h ≢ g → left (next h w).1.programs ≤ left w.programs) where
    -- The turn of a process that does not run `g`, or that is not ready.
    pass :
        (pre : List Proc) (p : Proc) (ps : List Proc) (w : World S)
        → w.procs ≡ pre ++ p ∷ ps
        → p.gen ≢ g
        → (p' : Proc) × (w' : World S) × ((if is_ready p.state
              then turn exec arena fuel now next (length pre) p w
              else w)
            ≡ w')
          × (p'.gen ≢ g)
          × (w'.procs ≡ pre ++ p' ∷ ps)
          × (left w'.programs ≤ left w.programs)
    unfolding turn set_state_at switch_to
    pass pre p ps w h other = elim (Bool-cases (is_ready p.state)) [
      | inl on ↦ (
        with_state (state_after (step_of next (length pre) p w).0) p,
        turn exec arena fuel now next (length pre) p w,
        rw on refl,
        other,
        turn-procs pre p ps w h,
        others p.gen (switch_to p.thread_pointer (set_state_at (length pre) running w)) other,
      )
      | inr off ↦ (p, w, rw off refl, other, h, omega arith)
    ]

    -- What a round that begins behind `pre` leaves.
    abbrev pub Rounded :
        (rounds : ℕ) (pre post : List Proc) (w : World S) → (List Proc → World S → Type 0) → Type 0
    Rounded rounds pre post w Post =
        (w' : World S) × (post' : List Proc) × (visit exec arena fuel now next rounds (length pre) w
          ≡ some w')
        × (w'.procs ≡ pre ++ post')
        × (length post' ≡ length post)
        × Post post' w'

    pub visit-Free :
        (rounds : ℕ) (pre post : List Proc) (w : World S)
        → w.procs ≡ pre ++ post
        → Free g post
        → length post < rounds
        → Rounded rounds pre post w
            (λ post' w'. Free g post' × (left w'.programs ≤ left w.programs))
    visit-Free zero pre post w h free enough = absurd (omega arith)
    visit-Free (suc rounds) pre [] w h free enough =
        (w, [], visit-end rounds pre w h, h, refl, (tt, omega arith))
    visit-Free (suc rounds) pre (p ∷ ps) w h (other, free) enough =
        let (p', w1, turned, other', procs', low) = pass pre p ps w h other in
        let (w', post', run, procs'', same, (free', low')) =
          visit-Free rounds (pre ++ p' ∷ []) ps w1 (procs' ∙ sym (append_cons pre p' ps)) free
            (omega arith) in
        (
          w',
          p' ∷ post',
          visit-cons rounds pre p p' ps w w1 h turned ∙ run,
          procs'' ∙ append_cons pre p' post',
          ap suc same,
          ((other', free'), omega arith),
        )

    state_after-cases : (o : Outcome) → (state_after o ≡ ready) ⊎ (state_after o ≡ done)
    state_after-cases yielded = inl refl
    state_after-cases finished = inr refl
    state_after-cases threw = inr refl

    -- The process that runs `g` has its turn: it is done, or its measure fell.
    pub visit-Single :
        ((w : World S)
          → (state_after (next g w).0 ≡ done) ⊎ (left (next g w).1.programs < left w.programs))
        → (rounds : ℕ) (pre post : List Proc) (w : World S) → w.procs ≡ pre ++ post
        → Single g post
        → length post < rounds
        → Rounded rounds pre post w
            (λ post' w'. Ended g post' ⊎ (Single g post' × (left w'.programs < left w.programs)))
    unfolding turn set_state_at switch_to
    visit-Single falls zero pre post w h single enough = absurd (omega arith)
    visit-Single falls (suc rounds) pre [] w h single enough = absurd single
    visit-Single falls (suc rounds) pre (p ∷ ps) w h (inr (other, single)) enough =
        let (p', w1, turned, other', procs', low) = pass pre p ps w h other in
        let (w', post', run, procs'', same, after) =
          visit-Single falls rounds (pre ++ p' ∷ []) ps w1 (procs' ∙ sym (append_cons pre p' ps))
            single (omega arith) in
        (
          w',
          p' ∷ post',
          visit-cons rounds pre p p' ps w w1 h turned ∙ run,
          procs'' ∙ append_cons pre p' post',
          ap suc same,
          elim after [
            | inl ended ↦ inl (inr (other', ended))
            | inr (single', low') ↦ inr (inr (other', single'), omega arith)
          ],
        )
    visit-Single falls (suc rounds) pre (p ∷ ps) w h (inl (it, on, free)) enough =
        let before = switch_to p.thread_pointer (set_state_at (length pre) running w) in
        let stepped = next p.gen before in
        let p' = with_state (state_after stepped.0) p in
        let w1 = turn exec arena fuel now next (length pre) p w in
        let turned : (if is_ready p.state then w1 else w) ≡ w1 = rw on refl in
        let (w', post', run, procs', same, (free', low)) =
          visit-Free rounds (pre ++ p' ∷ []) ps w1
            (turn-procs pre p ps w h ∙ sym (append_cons pre p' ps)) free (omega arith) in
        let fell : (state_after stepped.0 ≡ done) ⊎ (left stepped.1.programs < left w.programs) =
          subst
            (λ k.
              (state_after (next k before).0 ≡ done)
              ⊎ (left (next k before).1.programs < left w.programs))
            (sym it) (falls before) in
        (
          w',
          p' ∷ post',
          visit-cons rounds pre p p' ps w w1 h turned ∙ run,
          procs' ∙ append_cons pre p' post',
          ap suc same,
          elim fell [
            | inl over ↦ inl (inl (it, over, free'))
            | inr less ↦ elim (state_after-cases stepped.0) [
              | inl again ↦ inr (inl (it, again, free'), omega arith)
              | inr over ↦ inl (inl (it, over, free'))
            ]
          ],
        )
