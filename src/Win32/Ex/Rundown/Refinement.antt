-- ===== src/Win32/Ex/Rundown/Refinement.antt =====
-- Any history of calls on one rundown protection, against a count of references and a flag.
use windows_10_js.Prelude.{
  ℕ, suc, ◌+◌, ◌-◌, ◌*◌, ◌%◌, ◌<◌, ◌≡◌, refl, ap, ◌∙◌, Bool, true, false, List, [], ◌∷◌, ◌==◌,
  if◌then◌else◌, Bool-cases, inl, inr, arith,
}
use windows_10_js.Hal.Memory.{Memory, read32}
use windows_10_js.Hal.Memory.Cells.{read32-write32_same}
use windows_10_js.Win32.Ex.Rundown.{
  acquire_rundown_protection, release_rundown_protection, rundown_completed,
  re_initialize_rundown_protection_cache_aware,
}

pub data Call : Type 0 where
  acquires releases completes re_initializes : Call

-- How many references are held, and whether no more are given.
pub record Protection : Type 0 where
  pub held : ℕ
  pub is_closed : Bool

unfoldable pub perform : ℕ → Call → Memory → ℕ × Memory
perform rundown acquires m = acquire_rundown_protection rundown m
perform rundown releases m = (0, release_rundown_protection rundown m)
perform rundown completes m = (0, rundown_completed rundown m)
perform rundown re_initializes m = (0, re_initialize_rundown_protection_cache_aware rundown m)

unfoldable pub specified : Call → Protection → ℕ × Protection
specified acquires p = if p.is_closed then (0, p) else (1, record p { held = suc p.held })
specified releases p = (0, record p { held = p.held - 1 })
specified completes p = (0, record p { is_closed = true })
specified re_initializes p = (0, record { held = 0; is_closed = false })

unfoldable pub perform_all : ℕ → List Call → Memory → List ℕ × Memory
unfolding perform
perform_all rundown [] m = ([], m)
perform_all rundown (call ∷ calls) m =
    let first = perform rundown call m in
    let rest = perform_all rundown calls first.1 in (first.0 ∷ rest.0, rest.1)

unfoldable pub specified_all : List Call → Protection → List ℕ × Protection
unfolding specified
specified_all [] p = ([], p)
specified_all (call ∷ calls) p =
    let first = specified call p in
    let rest = specified_all calls first.1 in (first.0 ∷ rest.0, rest.1)

-- Only a held reference is released, and fewer are held than 31 bits count.
unfoldable pub IsAllowed : Call → Protection → Type 0
IsAllowed acquires p = suc p.held < 0x8000_0000
IsAllowed releases p = 0 < p.held
IsAllowed completes p = Unit {0}
IsAllowed re_initializes p = Unit {0}

unfoldable pub AreAllowed : List Call → Protection → Type 0
unfolding IsAllowed specified
AreAllowed [] p = Unit {0}
AreAllowed (call ∷ calls) p = IsAllowed call p × AreAllowed calls (specified call p).1

unfoldable pub Stands : ℕ → Memory → Protection → Type 0
Stands rundown m p =
    (read32 m rundown ≡ 2 * p.held + (if p.is_closed then 1 else 0)) × (p.held < 0x8000_0000)

module _ (rundown : ℕ) (m : Memory) (p : Protection) (s : Stands rundown m p) where
  acquire-Stands :
      suc p.held < 0x8000_0000
      → ((acquire_rundown_protection rundown m).0 ≡ (specified acquires p).0)
        × Stands rundown (acquire_rundown_protection rundown m).1 (specified acquires p).1
  unfolding specified Stands acquire_rundown_protection
  acquire-Stands few = elim (Bool-cases p.is_closed) [
    | inl shut ↦
        let count : read32 m rundown ≡ 2 * p.held + 1 = s.0 ∙ rw shut refl in
        let odd : (read32 m rundown % 2 == 1) ≡ true = ground (arith, count) in
        rw (shut, odd) (refl, (count, s.1))
    | inr ajar ↦
        let count : read32 m rundown ≡ 2 * p.held = s.0 ∙ rw ajar (omega arith) in
        let even : (read32 m rundown % 2 == 1) ≡ false = ground (arith, count) in
        rw (ajar, even) (refl, (read32-write32_same m rundown _ ∙ omega (arith, count, few), few))
  ]

  release-Stands :
      0 < p.held → Stands rundown (release_rundown_protection rundown m) (specified releases p).1
  unfolding specified Stands release_rundown_protection
  release-Stands some_held =
      let small = s.1 in
      let after =
        read32-write32_same m rundown ((read32 m rundown + 0xFFFF_FFFE) % 0x1_0000_0000) in
      elim (Bool-cases p.is_closed) [
        | inl shut ↦
            let count : read32 m rundown ≡ 2 * p.held + 1 = s.0 ∙ rw shut refl in
            rw shut (after ∙ omega (arith, count, small, some_held), omega arith)
        | inr ajar ↦
            let count : read32 m rundown ≡ 2 * p.held = s.0 ∙ rw ajar (omega arith) in
            rw ajar (after ∙ omega (arith, count, small, some_held), omega arith)
      ]

  complete-Stands : Stands rundown (rundown_completed rundown m) (specified completes p).1
  unfolding specified Stands rundown_completed
  complete-Stands =
      let small = s.1 in
      elim (Bool-cases p.is_closed) [
        | inl shut ↦
            let count : read32 m rundown ≡ 2 * p.held + 1 = s.0 ∙ rw shut refl in
            let odd : (read32 m rundown % 2 == 1) ≡ true = ground (arith, count) in
            rw odd (read32-write32_same m rundown _ ∙ omega (arith, count, small), small)
        | inr ajar ↦
            let count : read32 m rundown ≡ 2 * p.held = s.0 ∙ rw ajar (omega arith) in
            let even : (read32 m rundown % 2 == 1) ≡ false = ground (arith, count) in
            rw even (read32-write32_same m rundown _ ∙ omega (arith, count, small), small)
      ]

module _ (rundown : ℕ) where
  perform-Stands :
      (call : Call) (m : Memory) (p : Protection)
      → Stands rundown m p
      → IsAllowed call p
      → ((perform rundown call m).0 ≡ (specified call p).0)
        × Stands rundown (perform rundown call m).1 (specified call p).1
  unfolding perform specified IsAllowed Stands re_initialize_rundown_protection_cache_aware
  perform-Stands acquires m p s few = acquire-Stands rundown m p s few
  perform-Stands releases m p s some_held = (refl, release-Stands rundown m p s some_held)
  perform-Stands completes m p s _ = (refl, complete-Stands rundown m p s)
  perform-Stands re_initializes m p s _ = (refl, (read32-write32_same m rundown 0, omega arith))

  -- Any history of calls on a rundown protection is answered as a count of references with a flag
  -- answers it: an acquire is refused exactly after the rundown was completed, until the protection
  -- is made anew, and changes nothing then. The protection ends with this count and flag. Only held
  -- references are released, and fewer than 2 ^ 31 are held.
  pub perform_all-specified :
      (calls : List Call) (m : Memory) (p : Protection)
      → Stands rundown m p
      → AreAllowed calls p
      → ((perform_all rundown calls m).0 ≡ (specified_all calls p).0)
        × Stands rundown (perform_all rundown calls m).1 (specified_all calls p).1
  unfolding perform_all specified_all AreAllowed
  perform_all-specified [] m p s allowed = (refl, s)
  perform_all-specified (call ∷ calls) m p s (allowed, later) =
      let (answer, s') = perform-Stands call m p s allowed in
      let (answers, end) =
        perform_all-specified calls (perform rundown call m).1 (specified call p).1 s' later in
      (
        ap (λ a. a ∷ (perform_all rundown calls (perform rundown call m).1).0) answer
            ∙ ap (λ as'. (specified call p).0 ∷ as') answers,
        end,
      )
