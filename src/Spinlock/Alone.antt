-- ===== src/Spinlock/Alone.antt =====
-- A thread that takes its steps alone in `lock` of spinlock.hpp.
use multicore_programming_la.Common.{
  ℕ, zero, suc, List, [], ◌∷◌, true, false, ◌==◌, ◌≡◌, refl, ap, ◌∙◌, arith, ◌≤◌, ◌≢◌,
}
use multicore_programming_la.Spinlock.{
  Pc, outside, fast, spinning, sleeping, holding, Spinlock, access, step, run,
}

-- The next steps of one thread.
unfoldable pub steps : ℕ → ℕ → List ℕ
steps zero i = []
steps (suc n) i = i ∷ steps n i

self : (i : ℕ) → (i == i) ≡ true
self i = ground arith

step_at :
    (i : ℕ) (s : Spinlock)
    → ((step i s).pc i ≡ (access (s.pc i) s.locked).1)
      × ((step i s).locked ≡ (access (s.pc i) s.locked).0)
unfolding step
step_at i s = (rw (self i) refl, refl)

-- A thread that does not have the lock has it after at most two steps of its own, when the lock is
-- free and no other thread takes a step.
taken_alone :
    (i : ℕ) (s : Spinlock)
    → s.locked ≡ false
    → s.pc i ≢ holding
    → (n : ℕ) × (n ≤ 2) × ((run (steps n i) s).pc i ≡ holding)
unfolding run steps access
taken_alone i s free not_yet = from (s.pc i) refl
  where
    last :
        (p : Pc)
        → s.pc i ≡ p
        → (access p false).1 ≡ holding
        → (n : ℕ) × (n ≤ 2) × ((run (steps n i) s).pc i ≡ holding)
    last p e h = (1, omega arith, (step_at i s).0 ∙ rw (e, free) h)

    before_last :
        (p q : Pc)
        → s.pc i ≡ p
        → access p false ≡ (false, q)
        → (access q false).1 ≡ holding
        → (n : ℕ) × (n ≤ 2) × ((run (steps n i) s).pc i ≡ holding)
    before_last p q e f h =
        let at : (step i s).pc i ≡ q = (step_at i s).0 ∙ rw (e, free, f) refl in
        let still : (step i s).locked ≡ false = (step_at i s).1 ∙ rw (e, free, f) refl in
        (2, omega arith, (step_at i (step i s)).0 ∙ rw (at, still) h)

    from : (p : Pc) → s.pc i ≡ p → (n : ℕ) × (n ≤ 2) × ((run (steps n i) s).pc i ≡ holding)
    from outside e = before_last outside fast e refl refl
    from fast e = last fast e refl
    from (spinning zero) e = before_last (spinning zero) sleeping e refl refl
    from (spinning (suc n)) e = before_last (spinning (suc n)) sleeping e refl refl
    from sleeping e = last sleeping e refl
    from holding e = absurd (not_yet e)

-- While the lock is taken and no other thread takes a step, a thread that spins with a counter of
-- n goes on to the loop that sleeps after n + 1 looks at the lock.
pub sleeps_in_the_end :
    (n i : ℕ) (s : Spinlock)
    → s.locked ≡ true
    → s.pc i ≡ spinning n
    → (run (steps (suc n) i) s).pc i ≡ sleeping
unfolding run steps access
sleeps_in_the_end zero i s l e = (step_at i s).0 ∙ ap (λ p. (access p s.locked).1) e
sleeps_in_the_end (suc n) i s l e =
    sleeps_in_the_end n i (step i s) ((step_at i s).1 ∙ rw (e, l) refl)
      ((step_at i s).0 ∙ rw (e, l) refl)
