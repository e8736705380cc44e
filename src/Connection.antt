-- ===== src/Connection.antt =====
-- connection.hpp and connection.cpp: a reference-counted connection that reads from a socket into one
-- buffer and writes to it from another, driven by the upcalls of its descriptor.
--
-- What the socket answers to successive system calls is a list; where it ends the socket has nothing
-- more, which is EAGAIN. `read_done` and `conn_done` stand for the virtual methods of a sub-class. The
-- tasks that the descriptor gives to the worker pool are kept in `queued`. A NULL pointer that is used
-- is `none`. A handler is one step: `writing_` and the one outstanding read keep others out of it.
pub mod Writing
pub mod Reading
mod Tests
mod Connecting
pub mod Counting
use mathlib.Core.Option
use multicore_programming_la.Common.{
  ℕ, zero, suc, ◌+◌, ◌-◌, Bool, true, false, not, ◌&&◌, Option, none, some, List, [], ◌∷◌, ◌++◌,
  ltb, ◌==◌, if◌then◌else◌, length, take, min,
}
use multicore_programming_la.Buffer.{
  Chunk, Buffer, read_size, write_size, chunk_at, segment, create, reserve, advance, consume,
}
use multicore_programming_la.Buffer.Reserve.{fill}
use multicore_programming_la.IoManager.{
  Task, Descriptor, new_descriptor, set_up_calls, read_when_ready, write_when_ready, Event,
  dispatch,
}

abbrev pub Bytes : Type 0
Bytes = List ℕ

-- The upcalls of a connection.
abbrev pub do_read_task : Task
do_read_task = 0

abbrev pub do_write_task : Task
do_write_task = 1

abbrev pub do_connect_task : Task
do_connect_task = 2

pub data ReadResult : Type 0 where
  received : Bytes → ReadResult
  read_again read_interrupted read_failed : ReadResult

pub data WriteResult : Type 0 where
  written : ℕ → WriteResult
  write_again write_interrupted write_failed : WriteResult

-- `sent` is what the socket has taken, `deleted` whether the object is gone, and `over_released` that
-- `refs_` went below zero.
pub record Connection : Type 0 where
  pub in_ : Buffer
  pub writing : Bool
  pub out_ : Buffer
  pub closed : Bool
  pub io_desc : Option Descriptor
  pub in_error : Bool
  pub refs : ℕ
  pub deleted : Bool
  pub over_released : Bool
  pub queued : List Task
  pub sent : Bytes

-- `Connection(io_manager, client_fd)` and `Connection(io_manager)`
abbrev pub new_passive : Chunk → ℕ → Connection
new_passive raw fd = record {
  in_ = create raw;
  writing = false;
  out_ = create raw;
  closed = false;
  io_desc = some (new_descriptor fd (some do_read_task) (some do_write_task));
  in_error = false;
  refs = 0;
  deleted = false;
  over_released = false;
  queued = [];
  sent = [];
}

abbrev pub new_active : Chunk → Connection
new_active raw = record (new_passive raw 0) { closed = true; io_desc = none }

unfoldable pub acquire : Connection → Connection
acquire c = record c { refs = c.refs + 1 }

unfoldable pub release : Connection → Connection
release c =
    if c.refs == 0
    then record c { over_released = true }
    else record c { refs = c.refs - 1; deleted = c.refs == 1 }

-- `acquire(); io_desc_->readWhenReady();`, and the same for writing
unfoldable pub wait_read : Connection → Option Connection
wait_read c = elim c.io_desc [
  | none ↦ none
  | some d ↦
      let (d', tasks) = read_when_ready d in
      some (record (acquire c) { io_desc = some d'; queued = c.queued ++ tasks })
]

unfoldable pub wait_write : Connection → Option Connection
wait_write c = elim c.io_desc [
  | none ↦ none
  | some d ↦
      let (d', tasks) = write_when_ready d in
      some (record (acquire c) { io_desc = some d'; queued = c.queued ++ tasks })
]

unfoldable pub start_read : Connection → Option Connection
start_read = wait_read

-- Behind a write that took `n` bytes of `size`: done, or another round.
abbrev pub all_written : ℕ → ℕ → Buffer → Bool
all_written size n out = size == n && read_size out == 0

module _ (raw : Chunk) where
  -- `in_.reserve(1024)`
  abbrev pub reserve_in : Connection → Connection
  reserve_in c = record c { in_ = (reserve raw 1024 c.in_).1 }

  -- `read` puts at most `writeSize()` bytes at `writePtr()`, and `advance` counts them.
  abbrev pub take_in : Bytes → Connection → Connection
  take_in bytes c =
      let got = take (write_size c.in_) bytes in
      record c { in_ = (advance (length got) (fill raw got c.in_)).1 }

  module _ (read_done : Connection → Connection × Bool) where
    -- The loop of `doRead`, behind `reserve`; `socketRead` repeats a call that was interrupted.
    unfoldable pub read_rounds : List ReadResult → Connection → Option Connection
    read_rounds [] c = wait_read c
    read_rounds (read_again ∷ rs) c = wait_read c
    read_rounds (read_interrupted ∷ rs) c = read_rounds rs c
    read_rounds (read_failed ∷ rs) c = some c
    read_rounds (received bytes ∷ rs) c = elim (length bytes == 0) [
      | true ↦ some c
      | false ↦
          let (c', good) = read_done (take_in bytes c) in
          elim good [ true ↦ read_rounds rs (reserve_in c') | false ↦ some c' ]
    ]

    unfoldable pub do_read : List ReadResult → Connection → Option Connection
    do_read rs c = Option.map release (read_rounds rs (reserve_in c))

  -- What `readPtr()` and `readSize()` show.
  abbrev pub chunk_data : Buffer → Bytes
  chunk_data b = segment (chunk_at raw b b.rpos.idx) b.rpos.off (read_size b)

  -- The loop of `doWrite`; `write` takes at most the bytes that it is shown.
  unfoldable pub write_rounds : List WriteResult → Connection → Option Connection
  write_rounds [] c = wait_write c
  write_rounds (write_again ∷ rs) c = wait_write c
  write_rounds (write_interrupted ∷ rs) c = write_rounds rs c
  write_rounds (write_failed ∷ rs) c = some c
  write_rounds (written k ∷ rs) c =
      let size = read_size c.out_ in
      let n = min k size in
      elim (n == 0) [
        | true ↦ some c
        | false ↦ elim (consume n c.out_) [
          | none ↦ none
          | some out ↦
              let c' = record c { out_ = out; sent = c.sent ++ take n (chunk_data c.out_) } in
              elim (all_written size n out) [
                | true ↦ some (record c' { writing = false })
                | false ↦ write_rounds rs c'
              ]
        ]
      ]

  unfoldable pub do_write : List WriteResult → Connection → Option Connection
  do_write rs c = Option.map release (write_rounds rs c)

  unfoldable pub start_write : List WriteResult → Connection → Option Connection
  unfolding do_write
  start_write rs c = elim c.writing [
    | true ↦ some c
    | false ↦ do_write rs (acquire (record c { writing = true }))
  ]

-- What `socket` and `connect` answer.
pub data ConnectResult : Type 0 where
  no_socket connected in_progress refused : ConnectResult

module _ (conn_done : Connection → Connection) where
  -- `doConnect`; the flag is that SO_ERROR shows an error.
  unfoldable pub do_connect : Bool → Connection → Option Connection
  do_connect failed c = elim c.in_error [
    | true ↦ some (release (conn_done c))
    | false ↦ elim failed [
      | true ↦ some (release (conn_done (record c { in_error = true })))
      | false ↦ elim c.io_desc [
        | none ↦ none
        | some d ↦
            let d' = set_up_calls (some do_read_task) (some do_write_task) d in
            some (release (conn_done (record c { closed = false; io_desc = some d' })))
      ]
    ]
  ]

  unfoldable pub start_connect : ℕ → ConnectResult → Bool → Connection → Option Connection
  unfolding do_connect
  start_connect fd no_socket failed c = some (record c { in_error = true })
  start_connect fd connected failed c = do_connect failed (acquire c)
  start_connect fd refused failed c = do_connect failed (record (acquire c) { in_error = true })
  start_connect fd in_progress failed c =
      wait_connect
        (record (acquire c) { io_desc = some (new_descriptor fd none (some do_connect_task)) })
    where
      wait_connect : Connection → Option Connection
      wait_connect c = elim c.io_desc [
        | none ↦ none
        | some d ↦
            let (d', tasks) = write_when_ready d in
            some (record c { io_desc = some d'; queued = c.queued ++ tasks })
      ]

-- The poller reports an event of the descriptor.
unfoldable pub poll_event : Event → Connection → Connection
poll_event e c = elim c.io_desc [
  | none ↦ c
  | some d ↦
      let (d', tasks) = dispatch e d in record c { io_desc = some d'; queued = c.queued ++ tasks }
]

-- A worker takes a task that is queued.
unfoldable pub remove_task : Task → List Task → Option (List Task)
remove_task t [] = none
remove_task t (u ∷ us) =
    let rest = Option.map (λ l. u ∷ l) (remove_task t us) in if u == t then some us else rest

-- What can happen to a passive connection behind `startRead`. A worker that finds no such task does
-- nothing; a caller of `startWrite`, which has put bytes into `out_`, holds a connection that is there.
pub data Activity : Type 0 where
  event : Event → Activity
  run_read : List ReadResult → Activity
  run_write : List WriteResult → Activity
  more_output : Buffer → List WriteResult → Activity

module _ (raw : Chunk) (read_done : Connection → Connection × Bool) where
  unfoldable pub act : Activity → Connection → Option Connection
  act (event e) c = some (poll_event e c)
  act (run_read rs) c = elim (remove_task do_read_task c.queued) [
    | none ↦ some c
    | some tasks ↦ do_read raw read_done rs (record c { queued = tasks })
  ]
  act (run_write rs) c = elim (remove_task do_write_task c.queued) [
    | none ↦ some c
    | some tasks ↦ do_write raw rs (record c { queued = tasks })
  ]
  act (more_output out rs) c = elim c.deleted [
    | true ↦ some c
    | false ↦ start_write raw rs (record c { out_ = out })
  ]

  unfoldable pub act_all : List Activity → Connection → Option Connection
  act_all [] c = some c
  act_all (a ∷ as_) c = elim (act a c) [ none ↦ none | some c' ↦ act_all as_ c' ]
