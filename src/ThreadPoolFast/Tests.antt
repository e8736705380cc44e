-- ===== src/ThreadPoolFast/Tests.antt =====
-- Runs of the pool, and its theorems at one of them.
use multicore_programming_la.Common.{◌≡◌, refl, Option, none, some, List, [], ◌∷◌, ◌++◌}
use mathlib.Core.Option
use multicore_programming_la.ThreadPoolFast.{
  Pool, create, start_workers, queue_worker, assign_task, add_task, take_task, finish_task, Action,
  add, take, finish, step, run, count,
}
use multicore_programming_la.ThreadPoolFast.Order.{added, first_in_first_out}
use multicore_programming_la.ThreadPoolFast.Ready.{IsReady}
use multicore_programming_la.ThreadPoolFast.Reached.{free_workers_wait}

-- Two workers and three tasks; the first worker that finishes gets the task that waits.
abbrev three_tasks : List Action
three_tasks = add (some 7) ∷ add (some 8) ∷ add (some 9) ∷ take 1 ∷ finish 1 ∷ []

abbrev get : Option Pool → Pool
get none = create 0
get (some p) = p

abbrev last : Pool
last = get (run three_tasks (create 2))

three_tasks-run : run three_tasks (create 2) ≡ some last
unfolding run step create start_workers queue_worker assign_task add_task take_task finish_task
    Option.bind
three_tasks-run = refl

three_tasks_result : (last.assigned ≡ some 7 ∷ some 8 ∷ some 9 ∷ []) × (count last ≡ 0)
unfolding run step create start_workers queue_worker assign_task add_task take_task finish_task
    Option.bind count
three_tasks_result = (refl, refl)

first_in_first_out_example : last.assigned ++ last.dispatch_queue ≡ added three_tasks
first_in_first_out_example = first_in_first_out 2 three_tasks last three_tasks-run

free_workers_wait_example : IsReady last
free_workers_wait_example = free_workers_wait 2 three_tasks last three_tasks-run
