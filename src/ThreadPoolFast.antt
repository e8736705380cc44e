-- ===== src/ThreadPoolFast.antt =====
-- thread_pool_fast.hpp and thread_pool_fast.cpp: workers, each with a place for one task, and a queue
-- of the tasks that found no free worker. A task is `some` of its number; `none` is NULL, the request
-- to stop. The bodies of `addTask` and `queueWorker` run under `m_dispatch_`, a worker takes its task
-- under its own mutex: each is one step. `assigned` records the tasks in the order in which
-- `assignTask` gave them out, and `taken` those that a worker has taken over; no step reads them.
pub mod Order
pub mod Ready
pub mod Reached
mod Tests
use multicore_programming_la.Common.{
  ℕ, zero, suc, Bool, true, false, Option, none, some, List, [], ◌∷◌, ◌++◌, ◌==◌, if◌then◌else◌,
  length,
}
use mathlib.Core.Option

abbrev pub Task : Type 0
Task = Option ℕ

-- Where a worker stands in `workerLoop`: it waits for a task, runs one, or has left the loop.
pub data Phase : Type 0 where
  waiting running exited : Phase

-- `Worker`
pub record Worker : Type 0 where
  pub has_task : Bool
  pub task : Task
  pub phase : Phase
  pub last_worker : Bool

pub record Pool : Type 0 where
  pub dispatch_queue : List Task
  pub workers : List ℕ
  pub worker : ℕ → Worker
  pub assigned : List Task
  pub taken : List Task

abbrev pub set_worker : ℕ → Worker → Pool → Pool
set_worker w v p = record p { worker = λ i. if i == w then v else p.worker i }

unfoldable pub assign_task : ℕ → Task → Pool → Pool
assign_task w t p = record (set_worker w (record (p.worker w) { task = t; has_task = true }) p) {
  assigned = p.assigned ++ t ∷ [];
}

unfoldable pub add_task : Task → Pool → Pool
add_task t p = elim p.workers [
  | [] ↦ record p { dispatch_queue = p.dispatch_queue ++ t ∷ [] }
  | w ∷ ws ↦ assign_task w t (record p { workers = ws })
]

unfoldable pub queue_worker : ℕ → Pool → Pool
queue_worker w p = elim p.dispatch_queue [
  | [] ↦ record p { workers = w ∷ p.workers }
  | t ∷ q ↦ record (assign_task w t p) { dispatch_queue = q }
]

unfoldable pub count : Pool → ℕ
count p = length p.dispatch_queue

-- A worker that has a task takes it: it stops on NULL, and else runs it.
unfoldable pub take_task : ℕ → Pool → Option Pool
take_task w p = elim (p.worker w).phase [
  | waiting ↦
      if (p.worker w).has_task
      then some
          (record (set_worker w
            (record (p.worker w) {
              has_task = false;
              phase = elim (p.worker w).task [ none ↦ exited | some t ↦ running ];
            })
            p) { taken = p.taken ++ (p.worker w).task ∷ [] })
      else none
  | running ↦ none
  | exited ↦ none
]

-- A worker has run its task: it leaves after a `stop` from itself, and else goes back to the pool.
unfoldable pub finish_task : ℕ → Pool → Option Pool
finish_task w p = elim (p.worker w).phase [
  | waiting ↦ none
  | running ↦ some (
      if (p.worker w).last_worker
      then set_worker w (record (p.worker w) { phase = exited }) p
      else queue_worker w (set_worker w (record (p.worker w) { phase = waiting }) p))
  | exited ↦ none
]

-- The stop requests of `stop`, one for each worker, and the mark that it leaves on the worker that
-- calls it.
unfoldable pub add_stops : ℕ → Pool → Pool
add_stops zero p = p
add_stops (suc n) p = add_stops n (add_task none p)

abbrev pub mark_last : ℕ → Pool → Pool
mark_last w p = set_worker w (record (p.worker w) { last_worker = true }) p

abbrev pub new_worker : Worker
new_worker = record { has_task = false; task = none; phase = waiting; last_worker = false }

-- The loop of the constructor: worker `i`, and the `n - 1` behind it.
unfoldable pub start_workers : ℕ → ℕ → Pool → Pool
start_workers zero i p = p
start_workers (suc n) i p = start_workers n (suc i) (queue_worker i p)

-- `ThreadPoolFast(int num_workers)`
unfoldable pub create : ℕ → Pool
create n = start_workers n 0 (record {
  dispatch_queue = [];
  workers = [];
  worker = λ i. new_worker;
  assigned = [];
  taken = [];
})

pub data Action : Type 0 where
  add : Task → Action
  take finish mark : ℕ → Action

unfoldable pub step : Action → Pool → Option Pool
step (add t) p = some (add_task t p)
step (take w) p = take_task w p
step (finish w) p = finish_task w p
step (mark w) p = some (mark_last w p)

unfoldable pub run : List Action → Pool → Option Pool
run [] p = some p
run (a ∷ rest) p = Option.bind (step a p) (run rest)
