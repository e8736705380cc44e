-- ===== src/IoManager.antt =====
-- io_manager.hpp and io_manager.cpp: descriptors, which issue the upcalls of a socket, and the
-- manager, whose polling thread looks for ready sockets and due timers.
--
-- A callback is a number that stands for the object, and NULL is `none`. The worker pool is seen as
-- the list of the tasks that `addTask` gives it, in order. What the poller reports and what the
-- clock shows are arguments. A call that changes the state of a descriptor under `m_` is one step.
pub mod Wakes
pub mod Timers
pub mod Polling
pub mod Stopping
mod Tests
use multicore_programming_la.Common.{
  ℕ, zero, suc, ◌+◌, Bool, true, false, ◌&&◌, ◌||◌, Option, none, some, List, [], ◌∷◌, ◌++◌, ltb,
  leb, ◌==◌, if◌then◌else◌,
}

abbrev pub Task : Type 0
Task = ℕ

pub record Descriptor : Type 0 where
  pub fd : ℕ
  pub closed : Bool
  pub read_cb : Option Task
  pub write_cb : Option Task
  pub can_read : Bool
  pub can_write : Bool
  pub waiting_read : Bool
  pub waiting_write : Bool

-- `Descriptor(...)`
abbrev pub new_descriptor : ℕ → Option Task → Option Task → Descriptor
new_descriptor fd read_cb write_cb = record {
  fd = fd;
  closed = false;
  read_cb = read_cb;
  write_cb = write_cb;
  can_read = false;
  can_write = false;
  waiting_read = false;
  waiting_write = false;
}

-- `if (cb && now) workerPool()->addTask(cb)`
abbrev pub scheduled : Option Task → Bool → List Task
scheduled none now = []
scheduled (some task) true = task ∷ []
scheduled (some task) false = []

unfoldable pub set_up_calls : Option Task → Option Task → Descriptor → Descriptor
set_up_calls read_cb write_cb d = record d { read_cb = read_cb; write_cb = write_cb }

-- Each returns the tasks that it adds to the worker pool.
unfoldable pub read_when_ready : Descriptor → Descriptor × List Task
read_when_ready d =
    let d' =
      if d.can_read then record d { can_read = false } else record d { waiting_read = true } in
    (d', scheduled d.read_cb d.can_read)

unfoldable pub write_when_ready : Descriptor → Descriptor × List Task
write_when_ready d =
    let d' =
      if d.can_write then record d { can_write = false } else record d { waiting_write = true } in
    (d', scheduled d.write_cb d.can_write)

unfoldable pub read_if_waiting : Descriptor → Descriptor × List Task
read_if_waiting d =
    let d' =
      if d.waiting_read then record d { waiting_read = false } else record d { can_read = true } in
    (d', scheduled d.read_cb d.waiting_read)

unfoldable pub write_if_waiting : Descriptor → Descriptor × List Task
write_if_waiting d =
    let d' =
      if d.waiting_write
      then record d { waiting_write = false }
      else record d { can_write = true } in
    (d', scheduled d.write_cb d.waiting_write)

-- The bits of `PollEvents` that are set.
pub record Event : Type 0 where
  pub error : Bool
  pub read_ready : Bool
  pub write_ready : Bool

-- The body of the loop over the events.
unfoldable pub dispatch : Event → Descriptor → Descriptor × List Task
dispatch e d =
    let (d', tasks) = if e.error || e.read_ready then read_if_waiting d else (d, []) in
    let (d'', tasks') = if e.error || e.write_ready then write_if_waiting d' else (d', []) in
    (d'', tasks ++ tasks')

-- What happens to one descriptor.
pub data Signal : Type 0 where
  want_read want_write : Signal
  polled : Event → Signal

unfoldable pub signal : Signal → Descriptor → Descriptor × List Task
unfolding dispatch
signal want_read d = read_when_ready d
signal want_write d = write_when_ready d
signal (polled e) d = dispatch e d

-- The tasks of a sequence of calls.
unfoldable pub signals : List Signal → Descriptor → Descriptor × List Task
signals [] d = (d, [])
signals (s ∷ ss) d =
    let (d', tasks) = signal s d in let (d'', tasks') = signals ss d' in (d'', tasks ++ tasks')

-- An entry of the multimap: the time and the callback.
pub record Timer : Type 0 where
  pub at : ℕ
  pub task : Task

-- `timer_queue_.insert`: behind the entries that are not later.
unfoldable pub insert_timer : Timer → List Timer → List Timer
insert_timer t [] = t ∷ []
insert_timer t (u ∷ us) =
    let rest = insert_timer t us in if leb u.at t.at then u ∷ rest else t ∷ u ∷ us

-- The loop over the entries that are due: the tasks that are added, and the entries that stay.
unfoldable pub issue_due : ℕ → List Timer → List Task × List Timer
issue_due now [] = ([], [])
issue_due now (t ∷ ts) =
    let (tasks, rest) = issue_due now ts in
    if ltb now t.at then ([], t ∷ ts) else (t.task ∷ tasks, rest)

-- `deleted_desc` is the list of the descriptors to dispose of; `added` are the tasks that the worker
-- pool was given.
pub record IoManager : Type 0 where
  pub descriptors : ℕ → Option Descriptor
  pub deleted_desc : List ℕ
  pub timer_queue : List Timer
  pub added : List Task

abbrev pub put : ℕ → Option Descriptor → IoManager → IoManager
put a d m = record m { descriptors = λ i. if i == a then d else m.descriptors i }

-- `newDescriptor`, at an address that was free.
unfoldable pub add_descriptor : ℕ → ℕ → Option Task → Option Task → IoManager → IoManager
add_descriptor a fd read_cb write_cb = put a (some (new_descriptor fd read_cb write_cb))

unfoldable pub del_descriptor : Option ℕ → IoManager → IoManager
del_descriptor none m = m
del_descriptor (some a) m = record m { deleted_desc = a ∷ m.deleted_desc }

-- `addTimer`: `at` is the time that the delay comes to.
unfoldable pub add_timer : ℕ → Task → IoManager → IoManager
add_timer at task m = record m {
  timer_queue = insert_timer (record { at = at; task = task }) m.timer_queue;
}

unfoldable pub add_task : Task → IoManager → IoManager
add_task task m = record m { added = m.added ++ task ∷ [] }

-- The part of a round of `pollBody` that holds `m_timer_queue_`.
unfoldable pub run_timers : ℕ → IoManager → IoManager
run_timers now m =
    let (tasks, rest) = issue_due now m.timer_queue in
    record m { timer_queue = rest; added = m.added ++ tasks }

-- The loop over the events; an event of a descriptor that is no longer there is `none`.
unfoldable pub run_events : List (ℕ × Event) → IoManager → Option IoManager
run_events [] m = some m
run_events ((a, e) ∷ es) m = elim (m.descriptors a) [
  | none ↦ none
  | some d ↦
      let (d', tasks) = dispatch e d in
      run_events es (put a (some d') (record m { added = m.added ++ tasks }))
]

-- The loop that disposes of the descriptors; disposing of one twice is `none`.
unfoldable pub dispose : List ℕ → IoManager → Option IoManager
dispose [] m = some m
dispose (a ∷ as_) m = elim (m.descriptors a) [ none ↦ none | some d ↦ dispose as_ (put a none m) ]

-- A round of `pollBody` behind the poll, which reported `es`.
unfoldable pub poll_round : ℕ → List (ℕ × Event) → IoManager → Option IoManager
poll_round now es m = elim (run_events es (run_timers now m)) [
  | none ↦ none
  | some m' ↦ dispose m'.deleted_desc (record m' { deleted_desc = [] })
]

-- Where the thread that calls `poll` stands: before the call; at the test of the loop; in a round;
-- behind the loop; behind the call. And a thread in `stop`: before it; waiting for the polling to end;
-- stopping the workers; behind it.
pub data PollPhase : Type 0 where
  not_called testing in_round leaving returned : PollPhase

pub data StopPhase : Type 0 where
  not_stopping waiting_poll stopping_workers stop_done : StopPhase

-- `stopped_` and `polling_`, whether the worker pool runs, and where the threads stand.
pub record Running : Type 0 where
  pub poll : PollPhase
  pub stop : ℕ → StopPhase
  pub stopped : Bool
  pub polling : Bool
  pub workers_run : Bool

-- `IOManager(...)`
abbrev pub started : Running
started = record {
  poll = not_called;
  stop = λ i. not_stopping;
  stopped = false;
  polling = false;
  workers_run = true;
}

-- The next step of the polling thread.
unfoldable pub poll_step : PollPhase → Running → Running
poll_step not_called s = record s { poll = testing; polling = true }
poll_step testing s = record s { poll = if s.stopped then leaving else in_round }
poll_step in_round s = record s { poll = testing }
poll_step leaving s = record s { poll = returned; polling = false }
poll_step returned s = s

abbrev pub stop_at : ℕ → StopPhase → Running → Running
stop_at i p s = record s { stop = λ j. if j == i then p else s.stop j }

-- The next step of a thread that stops the manager. A call that finds `stopped_` returns at once; a
-- wait that finds `polling_` goes on.
unfoldable pub stop_step : ℕ → StopPhase → Running → Running
stop_step i not_stopping s =
    if s.stopped
    then stop_at i stop_done s
    else stop_at i waiting_poll (record s { stopped = true })
stop_step i waiting_poll s = if s.polling then s else stop_at i stopping_workers s
stop_step i stopping_workers s = stop_at i stop_done (record s { workers_run = false })
stop_step i stop_done s = s

-- A schedule says whose step comes next, `none` for the polling thread.
unfoldable pub run_threads : List (Option ℕ) → Running → Running
run_threads [] s = s
run_threads (none ∷ who) s = run_threads who (poll_step s.poll s)
run_threads (some i ∷ who) s = run_threads who (stop_step i (s.stop i) s)
