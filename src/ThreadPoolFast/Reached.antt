-- ===== src/ThreadPoolFast/Reached.antt =====
-- The state of the free workers of thread_pool_fast.cpp after any run.
use multicore_programming_la.Common.{
  no_result, ℕ, zero, suc, ◌<◌, ◌≡◌, refl, ap, subst, true, false, some, List, [], ◌∷◌, ◌==◌,
  ==_iff, Bool-cases, Option-cases, inl, inr, arith,
}
use mathlib.Core.Option
use mathlib.Core.Option.{some-injective}
use multicore_programming_la.ThreadPoolFast.{
  Pool, queue_worker, create, start_workers, Action, add, take, finish, mark, step, run, new_worker,
  mark_last,
}
use multicore_programming_la.ThreadPoolFast.Ready.{
  IsReady, listed, once_each, add_task-IsReady, queue_worker-IsReady, take_task-IsReady,
  finish_task-IsReady,
}

mark_last-IsReady : (w : ℕ) (p : Pool) → IsReady p → IsReady (mark_last w p)
mark_last-IsReady w p k = record {
  free = λ i h. elim (Bool-cases (i == w)) [
    | inl e ↦ rw e (k.free w (subst (λ x. listed x p.workers ≡ true) ((==_iff i w).0 e) h))
    | inr e ↦ rw e (k.free i h)
  ];
  busy = λ i h. elim (Bool-cases (i == w)) [
    | inl e ↦ rw e (k.busy w (rw e at h))
    | inr e ↦ rw e (k.busy i (rw e at h))
  ];
  once = k.once;
}

step-IsReady : (a : Action) (p p' : Pool) → IsReady p → step a p ≡ some p' → IsReady p'
unfolding step
step-IsReady (add t) p p' k e = subst IsReady (some-injective _ _ e) (add_task-IsReady t p k)
step-IsReady (take w) p p' k e = take_task-IsReady w p p' k e
step-IsReady (finish w) p p' k e = finish_task-IsReady w p p' k e
step-IsReady (mark w) p p' k e = subst IsReady (some-injective _ _ e) (mark_last-IsReady w p k)

run-IsReady :
    (actions : List Action) (p p' : Pool) → IsReady p → run actions p ≡ some p' → IsReady p'
unfolding run Option.bind
run-IsReady [] p p' k e = subst IsReady (some-injective _ _ e) k
run-IsReady (a ∷ rest) p p' k e = elim (Option-cases (step a p)) [
  | inl f ↦ absurd (no_result (rw f at e))
  | inr (p1, f) ↦ run-IsReady rest p1 p' (step-IsReady a p p1 k f) (rw f at e)
]

-- While the constructor starts its workers, the queue is empty and no worker has a task.
record Starting (i : ℕ) (p : Pool) : Type 0 where
  ready : IsReady p
  no_tasks : p.dispatch_queue ≡ []
  below : (w : ℕ) → listed w p.workers ≡ true → w < i
  fresh : (w : ℕ) → p.worker w ≡ new_worker

queued_free :
    (w : ℕ) (p : Pool)
    → p.dispatch_queue ≡ []
    → queue_worker w p ≡ record p { workers = w ∷ p.workers }
unfolding queue_worker
queued_free w p e =
    rw (e, queue_worker) (ap (λ q. record p { dispatch_queue = q; workers = w ∷ p.workers }) e)

start_workers-IsReady : (n i : ℕ) (p : Pool) → Starting i p → IsReady (start_workers n i p)
unfolding start_workers listed
start_workers-IsReady zero i p s = s.ready
start_workers-IsReady (suc n) i p s = start_workers-IsReady n (suc i) (queue_worker i p) next
  where
    out : listed i p.workers ≡ false
    out = elim (Bool-cases (listed i p.workers)) [
      | inl e ↦ absurd (omega (arith, s.below i e))
      | inr e ↦ e
    ]

    queued : queue_worker i p ≡ record p { workers = i ∷ p.workers }
    queued = queued_free i p s.no_tasks

    next : Starting (suc i) (queue_worker i p)
    next = rw queued (record {
      ready =
          rw queued at
            (queue_worker-IsReady i p s.ready out (rw (s.fresh i) refl) (rw (s.fresh i) refl));
      no_tasks = s.no_tasks;
      below = λ w h. ground (arith, s.below w);
      fresh = s.fresh;
    })

-- For a pool of any number of workers and any sequence of added tasks and steps of workers that
-- can be taken: every free worker is listed once, waits and has no task, so that the next task
-- given to it overwrites none; nor has a worker that does not wait.
pub free_workers_wait :
    (n : ℕ) (actions : List Action) (p : Pool) → run actions (create n) ≡ some p → IsReady p
unfolding create listed once_each
free_workers_wait n actions p e =
    run-IsReady actions (create n) p
      (start_workers-IsReady n 0 _ (record {
        ready = record { free = λ w h. absurd cc; busy = λ w h. refl; once = refl };
        no_tasks = refl;
        below = λ w h. absurd cc;
        fresh = λ w. refl;
      }))
      e
