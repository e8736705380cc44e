-- ===== src/ThreadPoolFast/Ready.antt =====
-- The state of the free workers of thread_pool_fast.cpp, under each operation.
use multicore_programming_la.Common.{
  no_result, both_values, ℕ, ◌≡◌, refl, sym, ap, subst, ◌∙◌, Bool, true, false, not, ◌&&◌, ◌||◌,
  none, some, List, [], ◌∷◌, ◌==◌, ==_iff, if◌then◌else◌, Bool-cases, inl, inr, arith,
}
use mathlib.Core.Option.{some-injective}
use multicore_programming_la.ThreadPoolFast.{
  Task, Worker, Phase, waiting, running, exited, Pool, assign_task, add_task, queue_worker,
  take_task, finish_task, set_worker,
}

unfoldable pub listed : ℕ → List ℕ → Bool
listed w [] = false
listed w (v ∷ ws) = v == w || listed w ws

unfoldable pub once_each : List ℕ → Bool
once_each [] = true
once_each (w ∷ ws) = not (listed w ws) && once_each ws

abbrev pub is_waiting : Phase → Bool
is_waiting waiting = true
is_waiting running = false
is_waiting exited = false

-- The free workers wait without a task, each of them is listed once, and a worker that runs a task
-- was not given another one.
pub record IsReady (p : Pool) : Type 0 where
  pub free :
      (w : ℕ)
      → listed w p.workers ≡ true
      → ((p.worker w).has_task ≡ false) × ((p.worker w).phase ≡ waiting)
  pub busy : (w : ℕ) → is_waiting (p.worker w).phase ≡ false → (p.worker w).has_task ≡ false
  pub once : once_each p.workers ≡ true

waits_not_runs : waiting ≡ running → ⊥
waits_not_runs e = cc

-- A worker that is not free, changed so that it has no task where it does not wait.
changed :
    (w : ℕ) (v : Worker) (p : Pool)
    → IsReady p
    → listed w p.workers ≡ false
    → (is_waiting v.phase ≡ false → v.has_task ≡ false)
    → IsReady (set_worker w v p)
changed w v p k out ok = record {
  free = λ i h. elim (Bool-cases (i == w)) [
    | inl e ↦ absurd (both_values (sym h ∙ ap (λ x. listed x p.workers) ((==_iff i w).0 e) ∙ out))
    | inr e ↦ rw e (k.free i h)
  ];
  busy = λ i h. elim (Bool-cases (i == w)) [
    | inl e ↦ rw e (ok (rw e at h))
    | inr e ↦ rw e (k.busy i (rw e at h))
  ];
  once = k.once;
}

-- A free worker taken out of the list.
first_out :
    (w : ℕ) (ws : List ℕ) (p : Pool)
    → p.workers ≡ w ∷ ws
    → IsReady p
    → IsReady (record p { workers = ws }) × (listed w ws ≡ false) × ((p.worker w).phase ≡ waiting)
unfolding listed once_each
first_out w ws p e k =
    let parts : (listed w ws ≡ false) × (once_each ws ≡ true) = split (rw e at k.once) in
    (
      record { free = λ i h. k.free i (rw e (later i h)); busy = k.busy; once = parts.1 },
      parts.0,
      (k.free w (rw e first)).1,
    )
  where
    split : once_each (w ∷ ws) ≡ true → (listed w ws ≡ false) × (once_each ws ≡ true)
    split h = ground arith

    later : (i : ℕ) → listed i ws ≡ true → listed i (w ∷ ws) ≡ true
    later i h = ground arith

    first : listed w (w ∷ ws) ≡ true
    first = ground arith

pub add_task-IsReady : (t : Task) (p : Pool) → IsReady p → IsReady (add_task t p)
unfolding add_task assign_task
add_task-IsReady t p k = cases p.workers refl
  where
    cases : (ws : List ℕ) → p.workers ≡ ws → IsReady (add_task t p)
    cases [] e = rw (e, add_task) (record { free = k.free; busy = k.busy; once = k.once })
    cases (w ∷ ws) e =
        let (k1, out, wait) = first_out w ws p e k in
        let c =
          changed w (record (p.worker w) { task = t; has_task = true }) (record p { workers = ws })
            k1 out (λ h. absurd (both_values (sym (ap is_waiting wait) ∙ h))) in
        rw (e, add_task) (record { free = c.free; busy = c.busy; once = c.once })

pub queue_worker-IsReady :
    (w : ℕ) (p : Pool)
    → IsReady p
    → listed w p.workers ≡ false
    → (p.worker w).has_task ≡ false
    → (p.worker w).phase ≡ waiting
    → IsReady (queue_worker w p)
unfolding queue_worker assign_task listed once_each
queue_worker-IsReady w p k out free wait = cases p.dispatch_queue refl
  where
    listed_free :
        (i : ℕ)
        → listed i (w ∷ p.workers) ≡ true
        → ((p.worker i).has_task ≡ false) × ((p.worker i).phase ≡ waiting)
    listed_free i h = elim (Bool-cases (w == i)) [
      | inl e ↦
          subst (λ x. ((p.worker x).has_task ≡ false) × ((p.worker x).phase ≡ waiting))
            ((==_iff w i).0 e) (free, wait)
      | inr e ↦ k.free i (ground arith)
    ]

    cases : (q : List Task) → p.dispatch_queue ≡ q → IsReady (queue_worker w p)
    cases [] e =
        rw (e, queue_worker)
          (record { free = listed_free; busy = k.busy; once = ground (arith, k.once, out) })
    cases (t ∷ q) e =
        rw (e, queue_worker)
          (let c =
              changed w (record (p.worker w) { task = t; has_task = true }) p k out
                (λ h. absurd (both_values (sym (ap is_waiting wait) ∙ h))) in
            record { free = c.free; busy = c.busy; once = c.once })

-- A worker that runs a task, or was given one, is not free.
not_free_running :
    (w : ℕ) (p : Pool) → IsReady p → (p.worker w).phase ≡ running → listed w p.workers ≡ false
not_free_running w p k f = elim (Bool-cases (listed w p.workers)) [
  | inl e ↦ absurd (waits_not_runs (sym (k.free w e).1 ∙ f))
  | inr e ↦ e
]

not_free_given :
    (w : ℕ) (p : Pool) → IsReady p → (p.worker w).has_task ≡ true → listed w p.workers ≡ false
not_free_given w p k f = elim (Bool-cases (listed w p.workers)) [
  | inl e ↦ absurd (both_values (sym f ∙ (k.free w e).0))
  | inr e ↦ e
]

pub take_task-IsReady : (w : ℕ) (p p' : Pool) → IsReady p → take_task w p ≡ some p' → IsReady p'
unfolding take_task
take_task-IsReady w p p' k e = cases (p.worker w).phase refl
  where
    cases : (f : Phase) → (p.worker w).phase ≡ f → IsReady p'
    cases waiting g = elim (Bool-cases (p.worker w).has_task) [
      | inl h ↦
          let c =
            changed w
              (record (p.worker w) {
                has_task = false;
                phase = elim (p.worker w).task [ none ↦ exited | some t ↦ running ];
              })
              p k (not_free_given w p k h) (λ x. refl) in
          subst IsReady (some-injective _ _ (rw (g, take_task, h) at e))
            (record { free = c.free; busy = c.busy; once = c.once })
      | inr h ↦ absurd (no_result (rw (g, take_task, h) at e))
    ]
    cases running g = absurd (no_result (rw (g, take_task) at e))
    cases exited g = absurd (no_result (rw (g, take_task) at e))

pub finish_task-IsReady : (w : ℕ) (p p' : Pool) → IsReady p → finish_task w p ≡ some p' → IsReady p'
unfolding finish_task
finish_task-IsReady w p p' k e = cases (p.worker w).phase refl
  where
    cases : (f : Phase) → (p.worker w).phase ≡ f → IsReady p'
    cases running g =
        subst IsReady (some-injective _ _ (rw (g, finish_task) at e))
          (back (p.worker w).last_worker)
      where
        idle : (p.worker w).has_task ≡ false
        idle = k.busy w (rw g refl)

        self : (w == w) ≡ true
        self = ground arith

        back :
            (b : Bool)
            → IsReady (
                if b
                then set_worker w (record (p.worker w) { phase = exited }) p
                else queue_worker w (set_worker w (record (p.worker w) { phase = waiting }) p))
        back true =
            changed w (record (p.worker w) { phase = exited }) p k (not_free_running w p k g)
              (λ x. idle)
        back false =
            queue_worker-IsReady w (set_worker w (record (p.worker w) { phase = waiting }) p)
              (changed w (record (p.worker w) { phase = waiting }) p k (not_free_running w p k g)
                (λ x. idle))
              (not_free_running w p k g) (rw self idle) (rw self refl)
    cases waiting g = absurd (no_result (rw (g, finish_task) at e))
    cases exited g = absurd (no_result (rw (g, finish_task) at e))
