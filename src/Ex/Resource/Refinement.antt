-- ===== src/Ex/Resource/Refinement.antt =====
-- Any history of calls on one ERESOURCE, by any threads, against the reader/writer lock.
use windows_10_js.Prelude.{
  ℕ, ◌+◌, ◌%◌, ◌≡◌, refl, subst, Option, none, some, List, [], ◌∷◌, ltb, if◌then◌else◌,
  Option-cases, Bool-cases, ltb→lt, inl, inr,
}
use mathlib.Core.Option.{some-injective}
use windows_10_js.Ke.Machine.{Machine, Native, Run, ok, Action, pure, ◌>>=◌}
use windows_10_js.Ke.Dispatcher.{owner_of}
use windows_10_js.Ex.Resource.{
  acquire_exclusive, acquire_shared, release, convert_exclusive_to_shared,
}
use windows_10_js.Ex.Resource.Lock.{
  Lock, free, readers, writer, Stands, enter_exclusive, enter_shared, leave, downgrade,
  release-leave, acquire_exclusive-enter, acquire_shared-enter, convert-downgrade,
}

-- The calls that do not wait.
pub data Call : Type 0 where
  try_exclusive try_shared releases converts : Call

-- A call of the thread `thread`, by the code.
abbrev pub perform : Native → ℕ → ℕ → Call → Action ℕ
perform n r thread try_exclusive m =
    acquire_exclusive n 0 0 1 r 0 (record m { current_thread = thread })
perform n r thread try_shared m = acquire_shared n 0 0 1 r 0 (record m { current_thread = thread })
perform n r thread releases m = ok 0 (record m { memory = release r m.memory })
perform n r thread converts m = ok 0 (record m { memory = convert_exclusive_to_shared r m.memory })

-- The same call by the specification; `none` for a release of a free lock, and for more readers
-- than a u32 counts.
unfoldable pub specified : ℕ → Call → Lock → Option (ℕ × Lock)
specified thread try_exclusive l = some (enter_exclusive (owner_of thread % 0x1_0000_0000) l)
specified thread try_shared free = some (enter_shared free)
specified thread try_shared (readers k) =
    if ltb (k + 2) 0x1_0000_0000 then some (enter_shared (readers k)) else none
specified thread try_shared (writer t) = some (enter_shared (writer t))
specified thread releases l = elim (leave l) [ none ↦ none | some l' ↦ some (0, l') ]
specified thread converts l = some (0, downgrade l)

abbrev pub perform_all : Native → ℕ → List (ℕ × Call) → Action (List ℕ)
perform_all n r [] m = ok [] m
perform_all n r ((thread, c) ∷ cs) m =
    (perform n r thread c >>= λ a. perform_all n r cs >>= λ as'. pure (a ∷ as')) m

unfoldable pub specified_all : List (ℕ × Call) → Lock → Option (List ℕ × Lock)
unfolding specified
specified_all [] l = some ([], l)
specified_all ((thread, c) ∷ cs) l = elim (specified thread c l) [
  | none ↦ none
  | some (a, l') ↦ elim (specified_all cs l') [
    | none ↦ none
    | some (as', end) ↦ some (a ∷ as', end)
  ]
]

-- The code answers `a` and leaves a structure that stands for `l`.
abbrev pub Gives : {A : Type 0} → ℕ → Run A → A → Lock → Type 0
Gives r run a l = (m' : Machine) × (run ≡ ok a m') × Stands r m'.memory l

none_ne_some : {A : Type 0} {x : A} → none ≡ some x → ⊥
none_ne_some e = cc

-- The two parts of an answer, moved along an equation.
answer_as :
    {A : Type 0} (r : ℕ) (run : Run A) (x y : A × Lock)
    → some x ≡ some y
    → Gives r run x.0 x.1
    → Gives r run y.0 y.1
answer_as {A} r run x y e g = subst (λ (z : A × Lock). Gives r run z.0 z.1) (some-injective _ _ e) g

module _ (n : Native) (r thread : ℕ) (m : Machine) (a : ℕ) (l' : Lock) where
  shared-specified :
      (l : Lock)
      → Stands r m.memory l
      → specified thread try_shared l ≡ some (a, l')
      → Gives r (perform n r thread try_shared m) a l'
  unfolding specified
  shared-specified free s e =
      answer_as r _ (enter_shared free) (a, l') e
        (acquire_shared-enter n 0 0 0 r 0 (record m { current_thread = thread }) free refl tt s)
  shared-specified (readers k) s e = elim (Bool-cases (ltb (k + 2) 0x1_0000_0000)) [
    | inl h ↦
        answer_as r _ (enter_shared (readers k)) (a, l') (rw h at e)
          (acquire_shared-enter n 0 0 0 r 0 (record m { current_thread = thread }) (readers k) refl
            (ltb→lt _ _ h) s)
    | inr h ↦ absurd (none_ne_some (rw h at e))
  ]
  shared-specified (writer t) s e =
      answer_as r _ (enter_shared (writer t)) (a, l') e
        (acquire_shared-enter n 0 0 0 r 0 (record m { current_thread = thread }) (writer t) refl tt
          s)

  perform-specified :
      (c : Call) (l : Lock)
      → Stands r m.memory l
      → specified thread c l ≡ some (a, l')
      → Gives r (perform n r thread c m) a l'
  unfolding specified
  perform-specified try_exclusive l s e =
      answer_as r _ (enter_exclusive (owner_of thread % 0x1_0000_0000) l) (a, l') e
        (acquire_exclusive-enter n 0 0 0 r 0 (record m { current_thread = thread }) l refl s)
  perform-specified try_shared l s e = shared-specified l s e
  perform-specified releases l s e = elim (Option-cases (leave l)) [
    | inl h ↦ absurd (none_ne_some (rw (h, specified) at e))
    | inr (k, h) ↦
        answer_as r _ (0, k) (a, l') (rw (h, specified) at e)
          (record m { memory = release r m.memory }, refl, release-leave r m.memory l k s h)
  ]
  perform-specified converts l s e =
      answer_as r _ (0, downgrade l) (a, l') e
        (
          record m { memory = convert_exclusive_to_shared r m.memory },
          refl,
          convert-downgrade r m.memory l s,
        )

-- Every history of calls that the specification allows is answered by the code as the specification
-- answers it, and ends in a structure that stands for its lock.
pub perform_all-specified_all :
    (n : Native) (r : ℕ) (calls : List (ℕ × Call)) (m : Machine) (l l' : Lock) (answers : List ℕ)
    → Stands r m.memory l
    → specified_all calls l ≡ some (answers, l')
    → Gives r (perform_all n r calls m) answers l'
unfolding specified_all
perform_all-specified_all n r [] m l l' answers s e =
    answer_as r (ok [] m) ([], l) (answers, l') e (m, refl, s)
perform_all-specified_all n r ((thread, c) ∷ cs) m l l' answers s e =
    elim (Option-cases (specified thread c l)) [
      | inl h ↦ absurd (none_ne_some (rw (h, specified_all) at e))
      | inr ((a, k), h) ↦ elim (Option-cases (specified_all cs k)) [
        | inl h' ↦ absurd (none_ne_some (rw (h, specified_all, h') at e))
        | inr ((as', end), h') ↦
            let (m1, runs, s1) = perform-specified n r thread m a k c l s h in
            let (m2, rest, s2) = perform_all-specified_all n r cs m1 k end as' s1 h' in
            answer_as r _ (a ∷ as', end) (answers, l') (rw (h, specified_all, h') at e)
              (m2, rw (runs, rest), s2)
      ]
    ]
