-- ===== src/Barrier/Tests.antt =====
-- Runs of the barrier, and its theorems at one of them.
use multicore_programming_la.Common.{◌*◌, ◌<◌, ◌≤◌, ◌≡◌, ◌≢◌, ◌⊎◌, refl, some, List, [], ◌∷◌, arith}
use mathlib.Core.Option
use multicore_programming_la.Barrier.{
  Barrier, create, Action, enter, count_in, post_in, leave, count_out, step, run,
}
use multicore_programming_la.Barrier.Order.{all_arrive_first, never_stuck}

-- Two threads arrive; one of them departs.
abbrev two_come : List Action
two_come = enter ∷ count_in ∷ post_in ∷ enter ∷ count_in ∷ post_in ∷ leave ∷ count_out ∷ []

abbrev one_left : Barrier
one_left = record (create 2) {
  arrival = 0;
  counter = 1;
  between = 1;
  counted_out = 1;
  arrived = 2;
  departed = 1;
}

two_come-run : run two_come (create 2) ≡ some one_left
unfolding run step create Option.bind
two_come-run = refl

all_arrive_first_example : 2 * 1 ≤ one_left.arrived
all_arrive_first_example =
    all_arrive_first 2 two_come one_left (omega arith) two_come-run 0 (omega arith)

never_stuck_example :
    ((0 < one_left.arrival) × (one_left.counter < 2))
    ⊎ ((a : Action) × (b' : Barrier) × (a ≢ enter) × (step a one_left ≡ some b'))
never_stuck_example = never_stuck 2 two_come one_left (omega arith) two_come-run
