-- ===== src/ThreadPoolNormal.antt =====
-- thread_pool_normal.hpp and thread_pool_normal.cpp: workers that share one queue of tasks under a
-- mutex. A task is its number. Each section under the mutex is one step; a worker that waits on the
-- condition variable is one whose step cannot be taken. `started` records the tasks in the order in
-- which workers took them; no step reads it.
pub mod Order
mod Tests
use mathlib.Core.Option
use multicore_programming_la.Common.{
  ℕ, Bool, true, false, Option, none, some, List, [], ◌∷◌, ◌++◌, ◌==◌, if◌then◌else◌, length,
}

-- Where a worker stands in `workerFunction`.
pub data Phase : Type 0 where
  looking running exited : Phase

pub record ThreadPoolNormal : Type 0 where
  pub task_queue : List ℕ
  pub be_stop : Bool
  pub phase : ℕ → Phase
  pub started : List ℕ

-- `ThreadPoolNormal(int num_workers)`: worker numbers below that one are in use.
unfoldable pub create : ThreadPoolNormal
create = record { task_queue = []; be_stop = false; phase = λ w. looking; started = [] }

abbrev pub set_phase : ℕ → Phase → ThreadPoolNormal → ThreadPoolNormal
set_phase w f p = record p { phase = λ i. if i == w then f else p.phase i }

unfoldable pub add_task : ℕ → ThreadPoolNormal → ThreadPoolNormal
add_task t p = record p { task_queue = p.task_queue ++ t ∷ [] }

-- The first part of `stop`; the joins behind it wait for the workers to leave.
unfoldable pub request_stop : ThreadPoolNormal → ThreadPoolNormal
request_stop p = record p { be_stop = true }

unfoldable pub count : ThreadPoolNormal → ℕ
count p = length p.task_queue

-- The section of `workerFunction` under the mutex: `none` while the worker has to wait.
unfoldable pub next_task : ℕ → ThreadPoolNormal → Option ThreadPoolNormal
next_task w p = elim (p.phase w) [
  | looking ↦ if p.be_stop then some (set_phase w exited p) else elim p.task_queue [
    | [] ↦ none
    | t ∷ q ↦
        some (record (set_phase w running p) { task_queue = q; started = p.started ++ t ∷ [] })
  ]
  | running ↦ none
  | exited ↦ none
]

-- The end of `(*task)()`.
unfoldable pub finish_task : ℕ → ThreadPoolNormal → Option ThreadPoolNormal
finish_task w p = elim (p.phase w) [
  | looking ↦ none
  | running ↦ some (set_phase w looking p)
  | exited ↦ none
]

pub data Action : Type 0 where
  add next finish : ℕ → Action
  stop : Action

unfoldable pub step : Action → ThreadPoolNormal → Option ThreadPoolNormal
step (add t) p = some (add_task t p)
step (next w) p = next_task w p
step (finish w) p = finish_task w p
step stop p = some (request_stop p)

unfoldable pub run : List Action → ThreadPoolNormal → Option ThreadPoolNormal
run [] p = some p
run (a ∷ rest) p = Option.bind (step a p) (run rest)
