-- ===== src/Connection/Counting.antt =====
-- The reference count of connection.cpp: one for each upcall that is to come or runs.
use mathlib.Core.Option
use mathlib.Core.Option.{some-injective}
use multicore_programming_la.Common.{
  ℕ, suc, ◌+◌, ◌≤◌, ◌≡◌, ◌≢◌, refl, sym, ap, ◌∙◌, inl, inr, Bool, true, false, Option, none, some,
  List, [], ◌∷◌, ◌++◌, arith, ◌==◌, length, take, min, no_result, Bool-cases, Option-cases,
}
use multicore_programming_la.Buffer.{Chunk, Buffer, read_size, consume}
use multicore_programming_la.Buffer.Valid.{IsValid, create-IsValid}
use multicore_programming_la.Buffer.Consume.{Consumed, consume-Consumed}
use multicore_programming_la.IoManager.{
  Task, Descriptor, read_when_ready, Event, Signal, want_read, want_write, polled, signal,
}
use multicore_programming_la.IoManager.Wakes.{
  Side, reading, writing, upcall, waiting, one, count, count-append, issues, signal-Moves,
  issued-eq,
}
use multicore_programming_la.Connection.{
  Bytes, ReadResult, received, read_again, read_interrupted, read_failed, WriteResult, written,
  write_again, write_interrupted, write_failed, reserve_in, take_in, read_rounds, do_read,
  all_written, chunk_data, write_rounds, do_write, start_write, Activity, act, act_all, remove_task,
  event, run_read, run_write, more_output, do_read_task, do_write_task, Connection, acquire,
  release, wait_read, wait_write, start_read, new_passive, poll_event,
}

abbrev waits : Side → Option Descriptor → ℕ
waits side none = 0
waits side (some d) = one (waiting side d)

abbrev task_of : Side → Task
task_of reading = do_read_task
task_of writing = do_write_task

-- The upcalls of a side that wait for the socket or for a worker.
abbrev pub to_come : Side → Connection → ℕ
to_come side c = count (task_of side) c.queued + waits side c.io_desc

-- The upcalls that are to come, `r` and `w` of each side that run, and `n` other holders have a
-- reference each; a side has one upcall at a time, the writing one only while `writing_` is set.
pub record Counts (n r w : ℕ) (c : Connection) : Type 0 where
  pub refs : c.refs ≡ n + r + w + to_come reading c + to_come writing c
  pub one_read : r + to_come reading c ≤ 1
  pub one_write : w + to_come writing c ≤ one c.writing
  pub none_below : c.over_released ≡ false
  pub output : IsValid c.out_
  pub gone : c.deleted ≡ (c.refs == 0)
  pub desc :
      (d : Descriptor) × (c.io_desc ≡ some d)
      × (upcall reading d ≡ some do_read_task)
      × (upcall writing d ≡ some do_write_task)

acquire-Counts :
    (n r w : ℕ) (c : Connection)
    → c.deleted ≡ false
    → Counts n r w c
    → Counts (n + 1) r w (acquire c)
unfolding acquire
acquire-Counts n r w c alive h = record {
  refs = omega (arith, h.refs);
  one_read = h.one_read;
  one_write = h.one_write;
  none_below = h.none_below;
  output = h.output;
  gone = ground arith;
  desc = h.desc;
}

release-Counts : (n r w : ℕ) (c : Connection) → Counts (n + 1) r w c → Counts n r w (release c)
unfolding release
release-Counts n r w c h =
    let e : (c.refs == 0) ≡ false = ground (arith, h.refs) in
    rw e (record {
      refs = omega (arith, h.refs);
      one_read = h.one_read;
      one_write = h.one_write;
      none_below = h.none_below;
      output = h.output;
      gone = ground (arith, h.refs);
      desc = h.desc;
    })

one-le : (b : Bool) → one b ≤ 1
one-le b = ground arith

-- A request for the upcall of a side that has none to come.
signal_desc :
    (s : Signal) (c : Connection) (d : Descriptor)
    → c.io_desc ≡ some d
    → upcall reading d ≡ some do_read_task
    → upcall writing d ≡ some do_write_task
    → let c' = record c { io_desc = some (signal s d).0; queued = c.queued ++ (signal s d).1 } in
      (to_come reading c'
        ≡ count do_read_task c.queued
          + one (issues reading s d)
          + one (waiting reading (signal s d).0))
      × (to_come writing c'
          ≡ count do_write_task c.queued
            + one (issues writing s d)
            + one (waiting writing (signal s d).0))
      × (upcall reading (signal s d).0 ≡ some do_read_task)
      × (upcall writing (signal s d).0 ≡ some do_write_task)
signal_desc s c d e r w =
    let m = signal-Moves reading s d in
    (
      omega (
        arith,
        count-append do_read_task c.queued (signal s d).1,
        issued-eq reading do_read_task s d r (λ f. apart (sym w ∙ f)),
      ),
      omega (
        arith,
        count-append do_write_task c.queued (signal s d).1,
        issued-eq writing do_write_task s d w (λ f. apart (sym f ∙ r)),
      ),
      m.same_upcall reading ∙ r,
      m.same_upcall writing ∙ w,
    )
  where
    apart : some do_write_task ≡ some do_read_task → ⊥
    apart f = ground arith

-- A connection that a step leads to.
abbrev Leads : (Connection → Type 0) → Option Connection → Type 0
Leads P o = (c : Connection) × (o ≡ some c) × P c

wait_read-Counts :
    (n w : ℕ) (c : Connection) → Counts n 1 w c → Leads (Counts (n + 1) 0 w) (wait_read c)
unfolding wait_read acquire signal
wait_read-Counts n w c h =
    let (d, e, r, wr) = h.desc in
    let (tr, tw, r', w') = signal_desc want_read c d e r wr in
    let mr = signal-Moves reading want_read d in
    let mw = signal-Moves writing want_read d in
    let before : waits reading c.io_desc ≡ one d.waiting_read = ap (waits reading) e in
    let before' : waits writing c.io_desc ≡ one d.waiting_write = ap (waits writing) e in
    rw (e, wait_read)
      (
        _,
        refl,
        record {
          refs = omega (
            arith, h.refs, h.one_read, tr, tw, mr.takes_wait, mr.answers_wait, mw.keeps_wait,
            mw.answers_wait, before, before',
          );
          one_read = omega (arith, h.one_read, tr, mr.takes_wait, mr.answers_wait, before);
          one_write = omega (arith, h.one_write, tw, mw.keeps_wait, mw.answers_wait, before');
          none_below = h.none_below;
          output = h.output;
          gone = ground (arith, h.refs, h.gone);
          desc = (_, refl, r', w');
        },
      )

wait_write-Counts :
    (n r : ℕ) (c : Connection) → Counts n r 1 c → Leads (Counts (n + 1) r 0) (wait_write c)
unfolding wait_write acquire signal
wait_write-Counts n r c h =
    let (d, e, rd, wr) = h.desc in
    let (tr, tw, r', w') = signal_desc want_write c d e rd wr in
    let mr = signal-Moves reading want_write d in
    let mw = signal-Moves writing want_write d in
    let before : waits reading c.io_desc ≡ one d.waiting_read = ap (waits reading) e in
    let before' : waits writing c.io_desc ≡ one d.waiting_write = ap (waits writing) e in
    rw (e, wait_write)
      (
        _,
        refl,
        record {
          refs = omega (
            arith,
            one-le c.writing,
            h.refs,
            h.one_write,
            tr,
            tw,
            mw.takes_wait,
            mw.answers_wait,
            mr.keeps_wait,
            mr.answers_wait,
            before,
            before',
          );
          one_read = omega (arith, h.one_read, tr, mr.keeps_wait, mr.answers_wait, before);
          one_write =
              omega
                (arith, one-le c.writing, h.one_write, tw, mw.takes_wait, mw.answers_wait, before');
          none_below = h.none_below;
          output = h.output;
          gone = ground (arith, h.refs, h.gone);
          desc = (_, refl, r', w');
        },
      )

poll_event-Counts :
    (e : Event) (n r w : ℕ) (c : Connection) → Counts n r w c → Counts n r w (poll_event e c)
unfolding poll_event signal
poll_event-Counts ev n r w c h =
    let (d, e, rd, wr) = h.desc in
    let (tr, tw, r', w') = signal_desc (polled ev) c d e rd wr in
    let mr = signal-Moves reading (polled ev) d in
    let mw = signal-Moves writing (polled ev) d in
    let before : waits reading c.io_desc ≡ one d.waiting_read = ap (waits reading) e in
    let before' : waits writing c.io_desc ≡ one d.waiting_write = ap (waits writing) e in
    rw (e, poll_event)
      (record {
        refs = omega (
          arith, h.refs, tr, tw, mr.keeps_wait, mr.answers_wait, mw.keeps_wait, mw.answers_wait,
          before, before',
        );
        one_read = omega (arith, h.one_read, tr, mr.keeps_wait, mr.answers_wait, before);
        one_write = omega (arith, h.one_write, tw, mw.keeps_wait, mw.answers_wait, before');
        none_below = h.none_below;
        output = h.output;
        gone = h.gone;
        desc = (_, refl, r', w');
      })

-- A method readDone keeps the count while doRead runs.
abbrev pub KeepsCount : (Connection → Connection × Bool) → Type 0
KeepsCount read_done = (c : Connection) (n w : ℕ) → Counts n 1 w c → Counts n 1 w (read_done c).0

-- The buffers do not matter.
re_in :
    (b : Buffer) (n r w : ℕ) (c : Connection) → Counts n r w c → Counts n r w (record c { in_ = b })
re_in b n r w c h = record {
  refs = h.refs;
  one_read = h.one_read;
  one_write = h.one_write;
  none_below = h.none_below;
  output = h.output;
  gone = h.gone;
  desc = h.desc;
}

re_out :
    (b : Buffer) (sent : Bytes) (n r w : ℕ) (c : Connection)
    → IsValid b
    → Counts n r w c
    → Counts n r w (record c { out_ = b; sent = sent })
re_out b sent n r w c valid h = record {
  refs = h.refs;
  one_read = h.one_read;
  one_write = h.one_write;
  none_below = h.none_below;
  output = valid;
  gone = h.gone;
  desc = h.desc;
}

-- A side that has run is a holder that will let go.
as_holder : (n w : ℕ) (c : Connection) → Counts n 1 w c → Counts (n + 1) 0 w c
as_holder n w c h = record {
  refs = omega (arith, h.refs);
  one_read = omega (arith, h.one_read);
  one_write = h.one_write;
  none_below = h.none_below;
  output = h.output;
  gone = h.gone;
  desc = h.desc;
}

write_as_holder : (n r : ℕ) (c : Connection) → Counts n r 1 c → Counts (n + 1) r 0 c
write_as_holder n r c h = record {
  refs = omega (arith, h.refs);
  one_read = h.one_read;
  one_write = omega (arith, h.one_write);
  none_below = h.none_below;
  output = h.output;
  gone = h.gone;
  desc = h.desc;
}

module _ (raw : Chunk) where
  module _ (read_done : Connection → Connection × Bool) (keeps : KeepsCount read_done) where
    read_rounds-Counts :
        (rs : List ReadResult) (n w : ℕ) (c : Connection)
        → Counts n 1 w c
        → Leads (Counts (n + 1) 0 w) (read_rounds raw read_done rs c)
    unfolding read_rounds
    read_rounds-Counts [] n w c h = wait_read-Counts n w c h
    read_rounds-Counts (read_again ∷ rs) n w c h = wait_read-Counts n w c h
    read_rounds-Counts (read_interrupted ∷ rs) n w c h = read_rounds-Counts rs n w c h
    read_rounds-Counts (read_failed ∷ rs) n w c h = (c, refl, as_holder n w c h)
    read_rounds-Counts (received bytes ∷ rs) n w c h = elim (Bool-cases (length bytes == 0)) [
      | inl e ↦ rw (e, read_rounds) (c, refl, as_holder n w c h)
      | inr e ↦
          let c1 = take_in raw bytes c in
          let k = keeps c1 n w (re_in (take_in raw bytes c).in_ n 1 w c h) in
          elim (Bool-cases (read_done c1).1) [
            | inl t ↦
                rw (e, read_rounds, t)
                  (read_rounds-Counts rs n w (reserve_in raw (read_done c1).0)
                    (re_in (reserve_in raw (read_done c1).0).in_ n 1 w (read_done c1).0 k))
            | inr t ↦
                rw (e, read_rounds, t) ((read_done c1).0, refl, as_holder n w (read_done c1).0 k)
          ]
    ]

    do_read-Counts :
        (rs : List ReadResult) (n w : ℕ) (c : Connection)
        → Counts n 1 w c
        → Leads (Counts n 0 w) (do_read raw read_done rs c)
    unfolding do_read
    do_read-Counts rs n w c h =
        let (c', e, k) =
          read_rounds-Counts rs n w (reserve_in raw c) (re_in (reserve_in raw c).in_ n 1 w c h) in
        (release c', ap (Option.map release) e, release-Counts n 0 w c' k)

  write_rounds-Counts :
      (rs : List WriteResult) (n r : ℕ) (c : Connection)
      → Counts n r 1 c
      → Leads (Counts (n + 1) r 0) (write_rounds raw rs c)
  unfolding write_rounds
  write_rounds-Counts [] n r c h = wait_write-Counts n r c h
  write_rounds-Counts (write_again ∷ rs) n r c h = wait_write-Counts n r c h
  write_rounds-Counts (write_interrupted ∷ rs) n r c h = write_rounds-Counts rs n r c h
  write_rounds-Counts (write_failed ∷ rs) n r c h = (c, refl, write_as_holder n r c h)
  write_rounds-Counts (written k ∷ rs) n r c h = elim (Bool-cases (m == 0)) [
    | inl z ↦ rw (z, write_rounds) (c, refl, write_as_holder n r c h)
    | inr z ↦ elim (Bool-cases (all_written (read_size c.out_) m used.result)) [
      | inl e ↦
          rw (z, write_rounds, used.ends, e)
            (record c' { writing = false }, refl, finished (write_as_holder n r c' k'))
      | inr e ↦ rw (z, write_rounds, used.ends, e) (write_rounds-Counts rs n r c' k')
    ]
  ]
    where
      m : ℕ
      m = min k (read_size c.out_)

      used : Consumed m c.out_ (consume m c.out_)
      used = consume-Consumed m h.output

      c' : Connection
      c' = record c { out_ = used.result; sent = c.sent ++ take m (chunk_data raw c.out_) }

      k' : Counts n r 1 c'
      k' = re_out used.result c'.sent n r 1 c used.still_valid h

      finished : Counts (n + 1) r 0 c' → Counts (n + 1) r 0 (record c' { writing = false })
      finished g = record {
        refs = g.refs;
        one_read = g.one_read;
        one_write = omega (arith, one-le c.writing, k'.one_write);
        none_below = g.none_below;
        output = g.output;
        gone = g.gone;
        desc = g.desc;
      }

  do_write-Counts :
      (rs : List WriteResult) (n r : ℕ) (c : Connection)
      → Counts n r 1 c
      → Leads (Counts n r 0) (do_write raw rs c)
  unfolding do_write
  do_write-Counts rs n r c h =
      let (c', e, k) = write_rounds-Counts rs n r c h in
      (release c', ap (Option.map release) e, release-Counts n r 0 c' k)

  start_write-Counts :
      (rs : List WriteResult) (n r : ℕ) (c : Connection)
      → c.deleted ≡ false
      → Counts n r 0 c
      → Leads (Counts n r 0) (start_write raw rs c)
  unfolding start_write acquire
  start_write-Counts rs n r c alive h = elim (Bool-cases c.writing) [
    | inl e ↦ rw (e, start_write) (c, refl, h)
    | inr e ↦
        rw (e, start_write)
          (do_write-Counts rs n r (acquire (record c { writing = true })) (begins e))
  ]
    where
      begins : c.writing ≡ false → Counts n r 1 (acquire (record c { writing = true }))
      begins e = record {
        refs = omega (arith, h.refs);
        one_read = h.one_read;
        one_write = omega (arith, h.one_write, ap one e);
        none_below = h.none_below;
        output = h.output;
        gone = ground arith;
        desc = h.desc;
      }

remove_task_count :
    (t : Task) (us : List Task) (vs : List Task)
    → remove_task t us ≡ some vs
    → (count t us ≡ suc (count t vs)) × ((u : Task) → u ≢ t → count u us ≡ count u vs)
unfolding remove_task
remove_task_count t [] vs e = absurd (no_result e)
remove_task_count t (x ∷ us) vs e = elim (Bool-cases (x == t)) [
  | inl f ↦
      let same : us ≡ vs = some-injective _ _ (rw f at e) in
      rw (f, same) (omega arith, λ u ne. ground arith)
  | inr f ↦ elim (Option-cases (remove_task t us)) [
    | inl none_left ↦ absurd (no_result (rw (f, none_left) at e))
    | inr (ws, left) ↦
        let same : x ∷ ws ≡ vs = some-injective _ _ (rw (f, left) at e) in
        let (here, others) = remove_task_count t us ws left in
        rw (f, ← same) (rw f (omega (arith, here)), λ u ne. rw (others u ne) refl)
  ]
]

-- The buffers that callers of `startWrite` leave are valid.
abbrev pub AllValid : List Activity → Type 0
AllValid [] = Unit
AllValid (event e ∷ as_) = AllValid as_
AllValid (run_read rs ∷ as_) = AllValid as_
AllValid (run_write rs ∷ as_) = AllValid as_
AllValid (more_output out rs ∷ as_) = IsValid out × AllValid as_

module _ (raw : Chunk) (read_done : Connection → Connection × Bool)
    (keeps : KeepsCount read_done) where
  run_read-Counts :
      (rs : List ReadResult) (c : Connection)
      → Counts 0 0 0 c
      → Leads (Counts 0 0 0) (act raw read_done (run_read rs) c)
  unfolding act
  run_read-Counts rs c h = elim (Option-cases (remove_task do_read_task c.queued)) [
    | inl e ↦ rw (e, act) (c, refl, h)
    | inr (tasks, e) ↦
        let (one_less, others) = remove_task_count do_read_task c.queued tasks e in
        let other = others do_write_task (λ f. ground arith) in
        rw (e, act)
          (do_read-Counts raw read_done keeps rs 0 0 (record c { queued = tasks })
            (record {
              refs = omega (arith, h.refs, one_less, other);
              one_read = omega (arith, h.one_read, one_less);
              one_write = omega (arith, h.one_write, other);
              none_below = h.none_below;
              output = h.output;
              gone = h.gone;
              desc = h.desc;
            }))
  ]

  run_write-Counts :
      (rs : List WriteResult) (c : Connection)
      → Counts 0 0 0 c
      → Leads (Counts 0 0 0) (act raw read_done (run_write rs) c)
  unfolding act
  run_write-Counts rs c h = elim (Option-cases (remove_task do_write_task c.queued)) [
    | inl e ↦ rw (e, act) (c, refl, h)
    | inr (tasks, e) ↦
        let (one_less, others) = remove_task_count do_write_task c.queued tasks e in
        let other = others do_read_task (λ f. ground arith) in
        rw (e, act)
          (do_write-Counts raw rs 0 0 (record c { queued = tasks })
            (record {
              refs = omega (arith, h.refs, one_less, other);
              one_read = omega (arith, h.one_read, other);
              one_write = omega (arith, h.one_write, one_less);
              none_below = h.none_below;
              output = h.output;
              gone = h.gone;
              desc = h.desc;
            }))
  ]

  act_all-Counts :
      (as_ : List Activity) (c : Connection)
      → AllValid as_
      → Counts 0 0 0 c
      → Leads (Counts 0 0 0) (act_all raw read_done as_ c)
  unfolding act_all act
  act_all-Counts [] c valid h = (c, refl, h)
  act_all-Counts (event e ∷ as_) c valid h =
      act_all-Counts as_ (poll_event e c) valid (poll_event-Counts e 0 0 0 c h)
  act_all-Counts (run_read rs ∷ as_) c valid h =
      let (c', e, k) = run_read-Counts rs c h in rw (e, act_all) (act_all-Counts as_ c' valid k)
  act_all-Counts (run_write rs ∷ as_) c valid h =
      let (c', e, k) = run_write-Counts rs c h in rw (e, act_all) (act_all-Counts as_ c' valid k)
  act_all-Counts (more_output out rs ∷ as_) c (valid_out, valid) h = elim (Bool-cases c.deleted) [
    | inl e ↦ rw (e, act_all) (act_all-Counts as_ c valid h)
    | inr e ↦
        let (c', f, k) =
          start_write-Counts raw rs 0 0 (record c { out_ = out }) e
            (re_out out c.sent 0 0 0 c valid_out h) in
        rw (e, f, act_all) (act_all-Counts as_ c' valid k)
  ]

  start_read-Counts : (fd : ℕ) → Leads (Counts 0 0 0) (start_read (new_passive raw fd))
  unfolding start_read wait_read acquire read_when_ready
  start_read-Counts fd = (
    _,
    refl,
    record {
      refs = refl;
      one_read = omega arith;
      one_write = omega arith;
      none_below = refl;
      output = create-IsValid raw;
      gone = refl;
      desc = (_, refl, refl, refl);
    },
  )

  -- For a passive connection whose readDone keeps the count, after startRead and any sequence of
  -- events of its descriptor, runs of queued upcalls and calls of startWrite behind valid output:
  -- the reference count is the number of upcalls that wait for the socket or for a worker, it was
  -- not released below zero, and the object is deleted exactly where no upcall is to come.
  pub refs_count_upcalls :
      (fd : ℕ) (as_ : List Activity)
      → AllValid as_
      → (c : Connection) × (c' : Connection) × (start_read (new_passive raw fd) ≡ some c)
        × (act_all raw read_done as_ c ≡ some c')
        × (c'.refs ≡ to_come reading c' + to_come writing c')
        × (c'.over_released ≡ false)
        × (c'.deleted ≡ (to_come reading c' + to_come writing c' == 0))
  refs_count_upcalls fd as_ valid =
      let (c, e, h) = start_read-Counts fd in
      let (c', f, k) = act_all-Counts as_ c valid h in
      let sum : c'.refs ≡ to_come reading c' + to_come writing c' = omega (arith, k.refs) in
      (c, c', e, f, sum, k.none_below, k.gone ∙ ap (λ x. x == 0) sum)
