-- ===== src/IoManager/Tests.antt =====
-- Runs of the descriptors, the timers and the two threads, and the theorems at concrete inputs.
use multicore_programming_la.Common.{
  ℕ, ◌≤◌, ◌≡◌, ◌≢◌, refl, inl, true, false, Option, none, some, List, [], ◌∷◌, ◌==◌, if◌then◌else◌,
}
use multicore_programming_la.IoManager.{
  Descriptor, new_descriptor, read_when_ready, write_when_ready, read_if_waiting, write_if_waiting,
  Event, dispatch, want_read, want_write, polled, signal, signals, Timer, insert_timer, issue_due,
  IoManager, add_timer, run_timers, stop_done, in_round, started, poll_step, stop_step, run_threads,
}
use multicore_programming_la.IoManager.Wakes.{reading, count, upcall_follows, upcalls_answer}
use multicore_programming_la.IoManager.Timers.{add_timers, Ran, run_timers-Ran}
use multicore_programming_la.IoManager.Stopping.{no_round_without_workers}

abbrev readable : Event
readable = record { error = false; read_ready = true; write_ready = false }

abbrev broken : Event
broken = record { error = true; read_ready = false; write_ready = false }

abbrev fresh : Descriptor
fresh = new_descriptor 5 (some 1) (some 2)

-- An event that comes before the request is remembered.
early_event : (signals (polled readable ∷ want_write ∷ want_read ∷ []) fresh).1 ≡ 1 ∷ []
unfolding signals signal dispatch read_when_ready write_when_ready read_if_waiting write_if_waiting
early_event = refl

upcall_follows_example : 1 ≤ count 1 (signals (want_read ∷ want_write ∷ polled broken ∷ []) fresh).1
upcall_follows_example =
    upcall_follows reading 1 want_read (polled broken) (want_write ∷ []) fresh refl
      (inl (refl, refl))

upcalls_answer_example :
    (count 1 (signals (want_read ∷ polled readable ∷ polled broken ∷ []) fresh).1 ≤ 1)
    × (count 1 (signals (want_read ∷ polled readable ∷ polled broken ∷ []) fresh).1 ≤ 2)
upcalls_answer_example =
    upcalls_answer reading 1 (want_read ∷ polled readable ∷ polled broken ∷ []) 5 (some 1) (some 2)
      refl (λ e. cc)

abbrev idle : IoManager
idle = record {
  descriptors = λ a. if a == 7 then some fresh else none;
  deleted_desc = 7 ∷ [];
  timer_queue = [];
  added = [];
}

abbrev alarms : List Timer
alarms =
    record { at = 30; task = 3 } ∷ record { at = 10; task = 4 } ∷ record { at = 10; task = 5 } ∷ []

due_in_order : (run_timers 20 (add_timers alarms idle)).added ≡ 4 ∷ 5 ∷ []
unfolding run_timers add_timer insert_timer issue_due
due_in_order = refl

run_timers-Ran_example : Ran 20 [] alarms (run_timers 20 (add_timers alarms idle))
run_timers-Ran_example = run_timers-Ran alarms 20 idle refl

-- A second call of `stop` returns while the first one still waits.
second_stop_returns :
    ((run_threads (none ∷ none ∷ some 0 ∷ some 1 ∷ []) started).stop 1 ≡ stop_done)
    × ((run_threads (none ∷ none ∷ some 0 ∷ some 1 ∷ []) started).poll ≡ in_round)
unfolding run_threads poll_step stop_step
second_stop_returns = (refl, refl)

abbrev stopping : List (Option ℕ)
stopping = none ∷ none ∷ some 0 ∷ none ∷ none ∷ none ∷ some 0 ∷ some 0 ∷ []

no_round_without_workers_example : (run_threads stopping started).poll ≢ in_round
unfolding run_threads poll_step stop_step
no_round_without_workers_example = no_round_without_workers stopping workers_stopped
  where
    workers_stopped : (run_threads stopping started).workers_run ≡ false
    workers_stopped = refl
