-- ===== src/ThreadPoolFast/Order.antt =====
-- The order of the tasks in thread_pool_fast.cpp, from `addTask` to the workers.
use multicore_programming_la.Common.{
  no_result, guarded, ℕ, zero, suc, ◌≡◌, refl, sym, ap, subst, ◌∙◌, Bool, true, false, some, List,
  [], ◌∷◌, ◌++◌, if◌then◌else◌, append-nil, append_assoc, Option-cases, inl, inr, ◌⊎◌,
}
use mathlib.Core.Option
use mathlib.Core.Option.{some-injective}
use multicore_programming_la.ThreadPoolFast.{
  Task, Phase, waiting, running, exited, Pool, assign_task, add_task, queue_worker, take_task,
  finish_task, create, start_workers, Action, add, take, finish, mark, step, run, set_worker,
}

-- What was given out and what still waits, in order.
abbrev pub all_tasks : Pool → List Task
all_tasks p = p.assigned ++ p.dispatch_queue

-- No worker is free while a task waits.
abbrev pub NoneIdle : Pool → Type 0
NoneIdle p = (p.dispatch_queue ≡ []) ⊎ (p.workers ≡ [])

-- The tasks that the steps add.
unfoldable pub added : List Action → List Task
added [] = []
added (add t ∷ rest) = t ∷ added rest
added (take w ∷ rest) = added rest
added (finish w ∷ rest) = added rest
added (mark w ∷ rest) = added rest

not_both : {w : ℕ} {ws : List ℕ} → [] ≡ w ∷ ws → ⊥
not_both e = cc

no_task : {t : Task} {q : List Task} → [] ≡ t ∷ q → ⊥
no_task e = cc

-- A step keeps a task in its place and adds at the end.
record Next (p : Pool) (ts : List Task) (p' : Pool) : Type 0 where
  tasks : all_tasks p' ≡ all_tasks p ++ ts
  idle : NoneIdle p'

add_task-Next : (t : Task) (p : Pool) → NoneIdle p → Next p (t ∷ []) (add_task t p)
unfolding add_task assign_task
add_task-Next t p k = cases p.workers refl
  where
    cases : (ws : List ℕ) → p.workers ≡ ws → Next p (t ∷ []) (add_task t p)
    cases [] e =
        rw (e, add_task)
          (record { tasks = sym (append_assoc p.assigned p.dispatch_queue (t ∷ [])); idle = inr e })
    cases (w ∷ ws) e = elim k [
      | inl q ↦
          rw (e, add_task)
            (record {
              tasks = rw (q, append-nil p.assigned) (append-nil (p.assigned ++ t ∷ []));
              idle = inl q;
            })
      | inr f ↦ absurd (not_both (sym f ∙ e))
    ]

queue_worker-Next : (w : ℕ) (p : Pool) → NoneIdle p → Next p [] (queue_worker w p)
unfolding queue_worker assign_task
queue_worker-Next w p k = cases p.dispatch_queue refl
  where
    cases : (q : List Task) → p.dispatch_queue ≡ q → Next p [] (queue_worker w p)
    cases [] e =
        rw (e, queue_worker)
          (record {
            tasks = ap (λ q. p.assigned ++ q) e ∙ sym (append-nil (p.assigned ++ []));
            idle = inl e;
          })
    cases (t ∷ q) e = elim k [
      | inl f ↦ absurd (no_task (sym f ∙ e))
      | inr f ↦
          rw (e, queue_worker)
            (record {
              tasks = append_assoc p.assigned (t ∷ []) q ∙ sym (append-nil (p.assigned ++ t ∷ q));
              idle = inr f;
            })
    ]

take_task-Next : (w : ℕ) (p p' : Pool) → NoneIdle p → take_task w p ≡ some p' → Next p [] p'
unfolding take_task
take_task-Next w p p' k e = cases (p.worker w).phase refl
  where
    cases : (f : Phase) → (p.worker w).phase ≡ f → Next p [] p'
    cases waiting g =
        guarded (p.worker w).has_task (Next p []) (rw (g, take_task) at e)
          (λ t. record { tasks = sym (append-nil _); idle = k })
    cases running g = absurd (no_result (rw (g, take_task) at e))
    cases exited g = absurd (no_result (rw (g, take_task) at e))

finish_task-Next : (w : ℕ) (p p' : Pool) → NoneIdle p → finish_task w p ≡ some p' → Next p [] p'
unfolding finish_task
finish_task-Next w p p' k e = cases (p.worker w).phase refl
  where
    back :
        (b : Bool)
        → Next p [] (
            if b
            then set_worker w (record (p.worker w) { phase = exited }) p
            else queue_worker w (set_worker w (record (p.worker w) { phase = waiting }) p))
    back true = record { tasks = sym (append-nil _); idle = k }
    back false =
        let s = queue_worker-Next w (set_worker w (record (p.worker w) { phase = waiting }) p) k in
        record { tasks = s.tasks; idle = s.idle }

    cases : (f : Phase) → (p.worker w).phase ≡ f → Next p [] p'
    cases running g =
        subst (Next p []) (some-injective _ _ (rw (g, finish_task) at e))
          (back (p.worker w).last_worker)
    cases waiting g = absurd (no_result (rw (g, finish_task) at e))
    cases exited g = absurd (no_result (rw (g, finish_task) at e))

-- What a step adds.
added_by : Action → List Task
added_by (add t) = t ∷ []
added_by (take w) = []
added_by (finish w) = []
added_by (mark w) = []

step-Next : (a : Action) (p p' : Pool) → NoneIdle p → step a p ≡ some p' → Next p (added_by a) p'
unfolding step added_by
step-Next (add t) p p' k e = subst (Next p (t ∷ [])) (some-injective _ _ e) (add_task-Next t p k)
step-Next (take w) p p' k e = take_task-Next w p p' k e
step-Next (finish w) p p' k e = finish_task-Next w p p' k e
step-Next (mark w) p p' k e =
    subst (Next p []) (some-injective _ _ e) (record { tasks = sym (append-nil _); idle = k })

added-cons : (a : Action) (rest : List Action) → added (a ∷ rest) ≡ added_by a ++ added rest
unfolding added added_by
added-cons (add t) rest = refl
added-cons (take w) rest = refl
added-cons (finish w) rest = refl
added-cons (mark w) rest = refl

run-Next :
    (actions : List Action) (p p' : Pool)
    → NoneIdle p
    → run actions p ≡ some p'
    → Next p (added actions) p'
unfolding run Option.bind added
run-Next [] p p' k e =
    subst (Next p []) (some-injective _ _ e) (record { tasks = sym (append-nil _); idle = k })
run-Next (a ∷ rest) p p' k e = elim (Option-cases (step a p)) [
  | inl f ↦ absurd (no_result (rw f at e))
  | inr (p1, f) ↦
      let s = step-Next a p p1 k f in
      let t = run-Next rest p1 p' s.idle (rw f at e) in
      record {
        tasks =
            t.tasks
            ∙ ap (λ l. l ++ added rest) s.tasks
            ∙ append_assoc (all_tasks p) (added_by a) (added rest)
            ∙ ap (λ l. all_tasks p ++ l) (sym (added-cons a rest));
        idle = t.idle;
      }
]

start_workers-Next : (n i : ℕ) (p : Pool) → NoneIdle p → Next p [] (start_workers n i p)
unfolding start_workers
start_workers-Next zero i p k = record { tasks = sym (append-nil _); idle = k }
start_workers-Next (suc n) i p k =
    let s = queue_worker-Next i p k in
    let t = start_workers-Next n (suc i) (queue_worker i p) s.idle in
    record { tasks = t.tasks ∙ append-nil _ ∙ s.tasks; idle = t.idle }

-- For a pool of any number of workers and any sequence of added tasks and steps of workers that
-- can be taken: the tasks given out, and behind them those that wait in the queue, are the tasks
-- added, in the order in which they were added.
pub first_in_first_out :
    (n : ℕ) (actions : List Action) (p : Pool)
    → run actions (create n) ≡ some p
    → p.assigned ++ p.dispatch_queue ≡ added actions
unfolding create
first_in_first_out n actions p e =
    let s = start_workers-Next n 0 _ (inl refl) in
    let t = run-Next actions (create n) p s.idle e in t.tasks ∙ ap (λ l. l ++ added actions) s.tasks

-- For a pool of any number of workers and any sequence of added tasks and steps of workers that
-- can be taken: the queue is empty or no worker is free.
none_idle :
    (n : ℕ) (actions : List Action) (p : Pool) → run actions (create n) ≡ some p → NoneIdle p
unfolding create
none_idle n actions p e =
    (run-Next actions (create n) p (start_workers-Next n 0 _ (inl refl)).idle e).idle
