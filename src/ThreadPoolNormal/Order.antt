-- ===== src/ThreadPoolNormal/Order.antt =====
-- The order of the tasks in thread_pool_normal.cpp, and the tasks behind a stop.
use mathlib.Core.Option
use mathlib.Core.Option.{some-injective}
use multicore_programming_la.Common.{
  ℕ, ◌≡◌, refl, sym, ap, subst, ◌∙◌, true, false, some, List, [], ◌∷◌, ◌++◌, append-nil,
  append_assoc, Bool-cases, Option-cases, inl, inr, no_result, both_values,
}
use multicore_programming_la.ThreadPoolNormal.{
  ThreadPoolNormal, Phase, looking, running, exited, create, add_task, request_stop, next_task,
  finish_task, Action, add, next, finish, stop, step, run,
}

-- The tasks that the steps add.
unfoldable pub added : List Action → List ℕ
added [] = []
added (add t ∷ rest) = t ∷ added rest
added (next w ∷ rest) = added rest
added (finish w ∷ rest) = added rest
added (stop ∷ rest) = added rest

-- A step adds tasks behind those there are, and starts none once the pool is to stop.
record Next (p : ThreadPoolNormal) (ts : List ℕ) (p' : ThreadPoolNormal) : Type 0 where
  tasks : p'.started ++ p'.task_queue ≡ (p.started ++ p.task_queue) ++ ts
  stopped : p.be_stop ≡ true → (p'.be_stop ≡ true) × (p'.started ≡ p.started)

next_task-Next : (w : ℕ) (p p' : ThreadPoolNormal) → next_task w p ≡ some p' → Next p [] p'
unfolding next_task
next_task-Next w p p' e = cases (p.phase w) refl
  where
    queue_cases :
        (q : List ℕ) → p.task_queue ≡ q → p.phase w ≡ looking → p.be_stop ≡ false → Next p [] p'
    queue_cases [] g f b = absurd (no_result (rw (f, next_task, b, g) at e))
    queue_cases (t ∷ q) g f b =
        subst (Next p []) (some-injective _ _ (rw (f, next_task, b, g) at e)) (record {
          tasks =
              append_assoc p.started (t ∷ []) q
              ∙ ap (λ l. p.started ++ l) (sym g)
              ∙ sym (append-nil _);
          stopped = λ s. absurd (both_values (sym s ∙ b));
        })

    cases : (f : Phase) → p.phase w ≡ f → Next p [] p'
    cases looking f = elim (Bool-cases p.be_stop) [
      | inl b ↦
          subst (Next p []) (some-injective _ _ (rw (f, next_task, b) at e))
            (record { tasks = sym (append-nil _); stopped = λ s. (refl, refl) })
      | inr b ↦ queue_cases p.task_queue refl f b
    ]
    cases running f = absurd (no_result (rw (f, next_task) at e))
    cases exited f = absurd (no_result (rw (f, next_task) at e))

finish_task-Next : (w : ℕ) (p p' : ThreadPoolNormal) → finish_task w p ≡ some p' → Next p [] p'
unfolding finish_task
finish_task-Next w p p' e = cases (p.phase w) refl
  where
    cases : (f : Phase) → p.phase w ≡ f → Next p [] p'
    cases running f =
        subst (Next p []) (some-injective _ _ (rw (f, finish_task) at e))
          (record { tasks = sym (append-nil _); stopped = λ s. (s, refl) })
    cases looking f = absurd (no_result (rw (f, finish_task) at e))
    cases exited f = absurd (no_result (rw (f, finish_task) at e))

-- What a step adds.
added_by : Action → List ℕ
added_by (add t) = t ∷ []
added_by (next w) = []
added_by (finish w) = []
added_by stop = []

step-Next : (a : Action) (p p' : ThreadPoolNormal) → step a p ≡ some p' → Next p (added_by a) p'
unfolding step added_by add_task request_stop
step-Next (add t) p p' e = subst (Next p (t ∷ [])) (some-injective _ _ e) (record {
  tasks = sym (append_assoc p.started p.task_queue (t ∷ []));
  stopped = λ s. (s, refl);
})
step-Next (next w) p p' e = next_task-Next w p p' e
step-Next (finish w) p p' e = finish_task-Next w p p' e
step-Next stop p p' e =
    subst (Next p []) (some-injective _ _ e)
      (record { tasks = sym (append-nil _); stopped = λ s. (refl, refl) })

added-cons : (a : Action) (rest : List Action) → added (a ∷ rest) ≡ added_by a ++ added rest
unfolding added added_by
added-cons (add t) rest = refl
added-cons (next w) rest = refl
added-cons (finish w) rest = refl
added-cons stop rest = refl

run-Next :
    (actions : List Action) (p p' : ThreadPoolNormal)
    → run actions p ≡ some p'
    → Next p (added actions) p'
unfolding run Option.bind added
run-Next [] p p' e =
    subst (Next p []) (some-injective _ _ e)
      (record { tasks = sym (append-nil _); stopped = λ s. (s, refl) })
run-Next (a ∷ rest) p p' e = elim (Option-cases (step a p)) [
  | inl f ↦ absurd (no_result (rw f at e))
  | inr (p1, f) ↦
      let s = step-Next a p p1 f in
      let t = run-Next rest p1 p' (rw f at e) in
      record {
        tasks =
            t.tasks
            ∙ ap (λ l. l ++ added rest) s.tasks
            ∙ append_assoc (p.started ++ p.task_queue) (added_by a) (added rest)
            ∙ ap (λ l. (p.started ++ p.task_queue) ++ l) (sym (added-cons a rest));
        stopped = λ b.
            let (b1, same) = s.stopped b in let (b2, same') = t.stopped b1 in (b2, same' ∙ same);
      }
]

-- For any sequence of added tasks, steps of workers that can be taken, and stops: the tasks that
-- workers have started, and behind them those in the queue, are the tasks added, in the order in
-- which they were added.
pub started_in_order :
    (actions : List Action) (p : ThreadPoolNormal)
    → run actions create ≡ some p
    → p.started ++ p.task_queue ≡ added actions
unfolding create
started_in_order actions p e = (run-Next actions create p e).tasks

-- Once the pool is to stop, no sequence of steps that can be taken starts a further task or takes
-- the stop back.
stop_starts_none :
    (actions : List Action) (p p' : ThreadPoolNormal)
    → p.be_stop ≡ true
    → run actions p ≡ some p'
    → (p'.be_stop ≡ true) × (p'.started ≡ p.started)
stop_starts_none actions p p' b e = (run-Next actions p p' e).stopped b
