-- ===== src/Barrier.antt =====
-- thread_barrier.hpp: a barrier of two semaphores and a counter. The threads that call `wait` are
-- alike, so that a state counts how many of them stand at each point of it: behind the wait on
-- `arrival_`, behind the increment, before the wait on `departure_`, behind that wait, and behind the
-- decrement. A semaphore is its value. `arrived` and `departed` count the increments and decrements
-- of `counter_` so far; the code has no such counts, and no step reads them.
pub mod Rounds
pub mod Order
mod Tests
use multicore_programming_la.Common.{
  ◌&&◌, ℕ, zero, suc, ◌+◌, ◌-◌, Option, none, some, List, [], ◌∷◌, ltb, if◌then◌else◌,
}
use mathlib.Core.Option

pub record Barrier : Type 0 where
  pub participants : ℕ
  pub arrival : ℕ
  pub departure : ℕ
  pub counter : ℕ
  pub entered : ℕ
  pub counted_in : ℕ
  pub between : ℕ
  pub departing : ℕ
  pub counted_out : ℕ
  pub arrived : ℕ
  pub departed : ℕ

-- `Barrier(int num_participants)`
unfoldable pub create : ℕ → Barrier
create n = record {
  participants = n;
  arrival = 1;
  departure = 0;
  counter = 0;
  entered = 0;
  counted_in = 0;
  between = 0;
  departing = 0;
  counted_out = 0;
  arrived = 0;
  departed = 0;
}

-- The steps of `wait`: `sem_wait(arrival_)`, `counter_ += 1`, the test and its `sem_post`,
-- `sem_wait(departure_)`, `counter_ -= 1`, the test and its `sem_post`.
pub data Action : Type 0 where
  enter count_in post_in leave count_out post_out : Action

-- One thread takes a step; `none` where no thread can take it.
unfoldable pub step : Action → Barrier → Option Barrier
step enter b =
    if ltb 0 b.arrival
    then some (record b { arrival = b.arrival - 1; entered = b.entered + 1 })
    else none
step count_in b =
    if ltb 0 b.entered
    then some (record b {
      entered = b.entered - 1;
      counter = b.counter + 1;
      counted_in = b.counted_in + 1;
      arrived = b.arrived + 1;
    })
    else none
step post_in b =
    if ltb 0 b.counted_in
    then some (
        if ltb b.counter b.participants
        then record b {
          counted_in = b.counted_in - 1;
          between = b.between + 1;
          arrival = b.arrival + 1;
        }
        else record b {
          counted_in = b.counted_in - 1;
          between = b.between + 1;
          departure = b.departure + 1;
        })
    else none
step leave b =
    if ltb 0 b.departure && ltb 0 b.between
    then some (record b {
      departure = b.departure - 1;
      between = b.between - 1;
      departing = b.departing + 1;
    })
    else none
step count_out b =
    if ltb 0 b.departing
    then some (record b {
      departing = b.departing - 1;
      counter = b.counter - 1;
      counted_out = b.counted_out + 1;
      departed = b.departed + 1;
    })
    else none
step post_out b =
    if ltb 0 b.counted_out
    then some (
        if ltb 0 b.counter
        then record b { counted_out = b.counted_out - 1; departure = b.departure + 1 }
        else record b { counted_out = b.counted_out - 1; arrival = b.arrival + 1 })
    else none

unfoldable pub run : List Action → Barrier → Option Barrier
run [] b = some b
run (a ∷ rest) b = Option.bind (step a b) (run rest)
