-- ===== src/ThreadPoolNormal/Tests.antt =====
-- Runs of the pool, and its theorems at them.
use mathlib.Core.Option
use multicore_programming_la.Common.{◌≡◌, refl, true, Option, none, some, List, [], ◌∷◌, ◌++◌}
use multicore_programming_la.ThreadPoolNormal.{
  ThreadPoolNormal, create, add_task, request_stop, next_task, finish_task, Action, add, next,
  finish, stop, step, run, count,
}
use multicore_programming_la.ThreadPoolNormal.Order.{added, started_in_order}

abbrev get : Option ThreadPoolNormal → ThreadPoolNormal
get none = create
get (some p) = p

-- Three tasks, of which two are started before a stop.
abbrev two_of_three : List Action
two_of_three = add 7 ∷ add 8 ∷ next 1 ∷ add 9 ∷ next 0 ∷ finish 1 ∷ stop ∷ []

abbrev last : ThreadPoolNormal
last = get (run two_of_three create)

two_of_three-run : run two_of_three create ≡ some last
unfolding run step create add_task request_stop next_task finish_task Option.bind
two_of_three-run = refl

two_of_three-result : (last.started ≡ 7 ∷ 8 ∷ []) × (count last ≡ 1)
unfolding run step create add_task request_stop next_task finish_task Option.bind count
two_of_three-result = (refl, refl)

started_in_order_example : last.started ++ last.task_queue ≡ added two_of_three
started_in_order_example = started_in_order two_of_three last two_of_three-run

-- A worker that looks for a task after the stop.
abbrev after_stop : ThreadPoolNormal
after_stop = get (run (next 1 ∷ []) last)

after_stop-run : run (next 1 ∷ []) last ≡ some after_stop
unfolding run step create add_task request_stop next_task finish_task Option.bind
after_stop-run = refl

last_stopped : last.be_stop ≡ true
unfolding run step create add_task request_stop next_task finish_task Option.bind
last_stopped = refl
