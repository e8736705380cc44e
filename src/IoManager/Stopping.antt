-- ===== src/IoManager/Stopping.antt =====
-- `poll` and `stop` of io_manager.cpp, called by threads in any order.
use multicore_programming_la.Common.{
  ℕ, ◌≡◌, refl, sym, subst, inl, inr, ◌⊎◌, ◌≢◌, true, false, Option, none, some, List, [], ◌∷◌,
  arith, if◌then◌else◌, Bool-cases,
}
use multicore_programming_la.IoManager.{
  PollPhase, not_called, testing, in_round, leaving, returned, StopPhase, not_stopping,
  waiting_poll, stopping_workers, stop_done, Running, started, poll_step, stop_at, stop_step,
  run_threads,
}

-- A thread is past the first step of `stop` with `stopped_` set only. One that is past its wait has
-- seen no round, and none begins while `stopped_` is set.
record IsOrderly (s : Running) : Type 0 where
  polls : (s.poll ≡ testing) ⊎ (s.poll ≡ in_round) → s.polling ≡ true
  waits : (i : ℕ) → s.stop i ≡ waiting_poll → s.stopped ≡ true
  stops : (i : ℕ) → s.stop i ≡ stopping_workers → (s.stopped ≡ true) × (s.poll ≢ in_round)
  workers : s.workers_run ≡ false → (s.stopped ≡ true) × (s.poll ≢ in_round)

poll_step-IsOrderly :
    (p : PollPhase) (s : Running) → s.poll ≡ p → IsOrderly s → IsOrderly (poll_step p s)
unfolding poll_step
poll_step-IsOrderly not_called s e h = record {
  polls = λ k. ground (arith, h.polls);
  waits = λ j k. ground (arith, h.waits j);
  stops = λ j k. ground (arith, h.stops j);
  workers = λ k. ground (arith, h.workers);
}
poll_step-IsOrderly testing s e h = record {
  polls = λ k. ground (arith, h.polls);
  waits = λ j k. ground (arith, h.waits j);
  stops = λ j k. ground (arith, h.stops j);
  workers = λ k. ground (arith, h.workers);
}
poll_step-IsOrderly in_round s e h = record {
  polls = λ k. ground (arith, h.polls);
  waits = λ j k. ground (arith, h.waits j);
  stops = λ j k. ground (arith, h.stops j);
  workers = λ k. ground (arith, h.workers);
}
poll_step-IsOrderly leaving s e h = record {
  polls = λ k. ground (arith, h.polls);
  waits = λ j k. ground (arith, h.waits j);
  stops = λ j k. ground (arith, h.stops j);
  workers = λ k. ground (arith, h.workers);
}
poll_step-IsOrderly returned s e h = h

stop_step-IsOrderly :
    (i : ℕ) (p : StopPhase) (s : Running) → s.stop i ≡ p → IsOrderly s → IsOrderly (stop_step i p s)
unfolding stop_step
stop_step-IsOrderly i not_stopping s e h = record {
  polls = λ k. ground (arith, h.polls);
  waits = λ j k. ground (arith, h.waits j, h.waits i);
  stops = λ j k. ground (arith, h.stops j, h.stops i);
  workers = λ k. ground (arith, h.workers, h.stops i);
}
stop_step-IsOrderly i waiting_poll s e h = elim (Bool-cases s.polling) [
  | inl t ↦ subst (λ b. IsOrderly (if b then s else stop_at i stopping_workers s)) (sym t) h
  | inr f ↦
      subst (λ b. IsOrderly (if b then s else stop_at i stopping_workers s)) (sym f)
        (record {
          polls = h.polls;
          waits = λ j k. ground (arith, h.waits j, h.waits i);
          stops = λ j k. ground (arith, h.stops j, h.waits i, h.polls);
          workers = h.workers;
        })
]
stop_step-IsOrderly i stopping_workers s e h = record {
  polls = λ k. ground (arith, h.polls);
  waits = λ j k. ground (arith, h.waits j, h.waits i);
  stops = λ j k. ground (arith, h.stops j, h.stops i);
  workers = λ k. ground (arith, h.workers, h.stops i);
}
stop_step-IsOrderly i stop_done s e h = h

run_threads-IsOrderly :
    (who : List (Option ℕ)) (s : Running) → IsOrderly s → IsOrderly (run_threads who s)
unfolding run_threads
run_threads-IsOrderly [] s h = h
run_threads-IsOrderly (none ∷ who) s h =
    run_threads-IsOrderly who (poll_step s.poll s) (poll_step-IsOrderly s.poll s refl h)
run_threads-IsOrderly (some i ∷ who) s h =
    run_threads-IsOrderly who (stop_step i (s.stop i) s) (stop_step-IsOrderly i (s.stop i) s refl h)

started-IsOrderly : IsOrderly started
started-IsOrderly = record {
  polls = λ k. ground arith;
  waits = λ i k. cc;
  stops = λ i k. cc;
  workers = λ k. cc;
}

-- In any order of the steps of the polling thread and of any threads that call stop: once the
-- workers were stopped, the polling thread is not in a round.
pub no_round_without_workers :
    (who : List (Option ℕ))
    → (run_threads who started).workers_run ≡ false
    → (run_threads who started).poll ≢ in_round
no_round_without_workers who e = ((run_threads-IsOrderly who started started-IsOrderly).workers e).1
