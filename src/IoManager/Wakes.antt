-- ===== src/IoManager/Wakes.antt =====
-- The upcalls that a descriptor of io_manager.cpp issues, in whatever order requests and events come.
-- The two directions, reading and writing, are the two sides of a descriptor.
use multicore_programming_la.Common.{
  ℕ, ◌+◌, ◌≤◌, ◌≡◌, ◌≢◌, refl, sym, ap, ◌∙◌, inl, inr, ◌⊎◌, Bool, true, false, ◌||◌, Option, none,
  some, List, [], ◌∷◌, ◌++◌, append-nil, arith, ◌==◌, if◌then◌else◌, Bool-cases,
}
use multicore_programming_la.IoManager.{
  Task, Descriptor, new_descriptor, scheduled, read_when_ready, write_when_ready, read_if_waiting,
  write_if_waiting, dispatch, Signal, want_read, want_write, polled, signal, signals,
}

pub data Side : Type 0 where
  reading writing : Side

abbrev pub wants : Side → Signal → Bool
wants reading want_read = true
wants writing want_write = true
wants _ _ = false

abbrev pub ready : Side → Signal → Bool
ready reading (polled e) = e.error || e.read_ready
ready writing (polled e) = e.error || e.write_ready
ready _ _ = false

abbrev pub upcall : Side → Descriptor → Option Task
upcall reading d = d.read_cb
upcall writing d = d.write_cb

abbrev pub other : Side → Side
other reading = writing
other writing = reading

abbrev pub can : Side → Descriptor → Bool
can reading d = d.can_read
can writing d = d.can_write

abbrev pub waiting : Side → Descriptor → Bool
waiting reading d = d.waiting_read
waiting writing d = d.waiting_write

abbrev pub one : Bool → ℕ
one b = if b then 1 else 0

abbrev pub count : Task → List Task → ℕ
count t [] = 0
count t (u ∷ us) = one (u == t) + count t us

pub count-append : (t : Task) (us vs : List Task) → count t (us ++ vs) ≡ count t us + count t vs
count-append t [] vs = omega arith
count-append t (u ∷ us) vs = omega (arith, count-append t us vs)

count-scheduled :
    (t : Task) (cb : Option Task) (now : Bool) → cb ≡ some t → count t (scheduled cb now) ≡ one now
count-scheduled t none now e = cc
count-scheduled t (some u) true e = ground arith
count-scheduled t (some u) false e = refl

count-scheduled_ne :
    (t : Task) (cb : Option Task) (now : Bool) → cb ≢ some t → count t (scheduled cb now) ≡ 0
count-scheduled_ne t none now ne = refl
count-scheduled_ne t (some u) true ne = elim (Bool-cases (u == t)) [
  | inl e ↦ absurd (ne (ap some (ground arith)))
  | inr e ↦ rw e refl
]
count-scheduled_ne t (some u) false ne = refl

scheduled_not : (cb : Option Task) → scheduled cb false ≡ []
scheduled_not none = refl
scheduled_not (some t) = refl

-- Whether a call issues the upcall of a side.
abbrev pub issues : Side → Signal → Descriptor → Bool
issues reading want_read d = d.can_read
issues writing want_write d = d.can_write
issues reading (polled e) d = if e.error || e.read_ready then d.waiting_read else false
issues writing (polled e) d = if e.error || e.write_ready then d.waiting_write else false
issues _ _ d = false

signal-issues :
    (s : Signal) (d : Descriptor)
    → (signal s d).1
      ≡ scheduled d.read_cb (issues reading s d) ++ scheduled d.write_cb (issues writing s d)
unfolding signal dispatch read_when_ready write_when_ready read_if_waiting write_if_waiting
signal-issues want_read d =
    ground (arith, scheduled_not d.write_cb, append-nil (scheduled d.read_cb d.can_read))
signal-issues want_write d = ground (arith, scheduled_not d.read_cb)
signal-issues (polled e) d = ground (arith, scheduled_not d.read_cb, scheduled_not d.write_cb)

-- How a call moves the flags of a side.
pub record Moves (side : Side) (s : Signal) (d : Descriptor) : Type 0 where
  pub answers_wait :
      one (issues side s d) + one (waiting side (signal s d).0)
      ≤ one (waiting side d) + one (wants side s)
  pub answers_ready :
      one (issues side s d) + one (can side (signal s d).0) ≤ one (can side d) + one (ready side s)
  pub keeps_wait : one (waiting side d) ≤ one (issues side s d) + one (waiting side (signal s d).0)
  pub keeps_ready : one (can side d) ≤ one (issues side s d) + one (can side (signal s d).0)
  pub takes_wait : one (wants side s) ≤ one (issues side s d) + one (waiting side (signal s d).0)
  pub takes_ready : one (ready side s) ≤ one (issues side s d) + one (can side (signal s d).0)
  pub ends_wait : one (waiting side d) + one (ready side s) ≤ one (issues side s d) + 1
  pub ends_ready : one (can side d) + one (wants side s) ≤ one (issues side s d) + 1
  pub same_upcall : (any : Side) → upcall any (signal s d).0 ≡ upcall any d

pub signal-Moves : (side : Side) (s : Signal) (d : Descriptor) → Moves side s d
unfolding signal dispatch read_when_ready write_when_ready read_if_waiting write_if_waiting
signal-Moves reading want_read d = ground arith
signal-Moves reading want_write d = ground arith
signal-Moves reading (polled e) d = ground arith
signal-Moves writing want_read d = ground arith
signal-Moves writing want_write d = ground arith
signal-Moves writing (polled e) d = ground arith

module _ (side : Side) (t : Task) where
  issued-le :
      (s : Signal) (d : Descriptor)
      → upcall side d ≡ some t
      → one (issues side s d) ≤ count t (signal s d).1
  issued-le s d e =
      rw
        (
          signal-issues s d,
          count-append t (scheduled d.read_cb (issues reading s d))
              (scheduled d.write_cb (issues writing s d)),
        )
        (cases side e)
    where
      cases :
          (side : Side)
          → upcall side d ≡ some t
          → one (issues side s d)
            ≤ count t (scheduled d.read_cb (issues reading s d))
              + count t (scheduled d.write_cb (issues writing s d))
      cases reading e = omega (arith, count-scheduled t d.read_cb (issues reading s d) e)
      cases writing e = omega (arith, count-scheduled t d.write_cb (issues writing s d) e)

  pub issued-eq :
      (s : Signal) (d : Descriptor)
      → upcall side d ≡ some t
      → upcall (other side) d ≢ some t
      → count t (signal s d).1 ≡ one (issues side s d)
  issued-eq s d e ne =
      rw
        (
          signal-issues s d,
          count-append t (scheduled d.read_cb (issues reading s d))
              (scheduled d.write_cb (issues writing s d)),
        )
        (cases side e ne)
    where
      cases :
          (side : Side)
          → upcall side d ≡ some t
          → upcall (other side) d ≢ some t
          → count t (scheduled d.read_cb (issues reading s d))
              + count t (scheduled d.write_cb (issues writing s d))
            ≡ one (issues side s d)
      cases reading e ne = omega (
        arith,
        count-scheduled t d.read_cb (issues reading s d) e,
        count-scheduled_ne t d.write_cb (issues writing s d) ne,
      )
      cases writing e ne = omega (
        arith,
        count-scheduled t d.write_cb (issues writing s d) e,
        count-scheduled_ne t d.read_cb (issues reading s d) ne,
      )

  -- A request, or readiness, that is not answered stays.
  stays :
      (ss : List Signal) (d : Descriptor)
      → upcall side d ≡ some t
      → (one (waiting side d) ≤ count t (signals ss d).1 + one (waiting side (signals ss d).0))
        × (one (can side d) ≤ count t (signals ss d).1 + one (can side (signals ss d).0))
        × (upcall side (signals ss d).0 ≡ some t)
  unfolding signals
  stays [] d e = (omega arith, omega arith, e)
  stays (s ∷ ss) d e =
      let m = signal-Moves side s d in
      let (a, b, c) = stays ss (signal s d).0 (m.same_upcall side ∙ e) in
      let n = count-append t (signal s d).1 (signals ss (signal s d).0).1 in
      (
        omega (arith, a, n, m.keeps_wait, issued-le s d e),
        omega (arith, b, n, m.keeps_ready, issued-le s d e),
        c,
      )

  signals-append :
      (ss : List Signal) (s : Signal) (d : Descriptor)
      → count t (signals (ss ++ s ∷ []) d).1
        ≡ count t (signals ss d).1 + count t (signal s (signals ss d).0).1
  unfolding signals
  signals-append [] s d = rw (append-nil (signal s d).1) (omega arith)
  signals-append (u ∷ ss) s d = omega (
    arith,
    count-append t (signal u d).1 (signals (ss ++ s ∷ []) (signal u d).0).1,
    count-append t (signal u d).1 (signals ss (signal u d).0).1,
    signals-append ss s (signal u d).0,
  )

  -- Where a callback stands for a side of a descriptor: in any sequence of calls from a request of
  -- that side to an event that makes it ready, or from such an event to a request, the callback is
  -- given to the worker pool at least once, whatever flags the descriptor had and whatever happens
  -- in between.
  pub upcall_follows :
      (first last : Signal) (ss : List Signal) (d : Descriptor)
      → upcall side d ≡ some t
      → ((wants side first ≡ true) × (ready side last ≡ true))
        ⊎ ((ready side first ≡ true) × (wants side last ≡ true))
      → 1 ≤ count t (signals (first ∷ (ss ++ last ∷ [])) d).1
  unfolding signals
  upcall_follows first last ss d e which =
      let m = signal-Moves side first d in
      let d' = (signal first d).0 in
      let (a, b, c) = stays ss d' (m.same_upcall side ∙ e) in
      let m' = signal-Moves side last (signals ss d').0 in
      let n = count-append t (signal first d).1 (signals (ss ++ last ∷ []) d').1 in
      let n' = signals-append ss last d' in
      let k = issued-le first d e in
      let k' = issued-le last (signals ss d').0 c in
      elim which [
        | inl (w, r) ↦
            omega (arith, a, n, n', k, k', m.takes_wait, m'.ends_wait, ap one w, ap one r)
        | inr (r, w) ↦
            omega (arith, b, n, n', k, k', m.takes_ready, m'.ends_ready, ap one w, ap one r)
      ]

  abbrev pub requests : List Signal → ℕ
  requests [] = 0
  requests (s ∷ ss) = one (wants side s) + requests ss

  abbrev pub events : List Signal → ℕ
  events [] = 0
  events (s ∷ ss) = one (ready side s) + events ss

  answered :
      (ss : List Signal) (d : Descriptor)
      → upcall side d ≡ some t
      → upcall (other side) d ≢ some t
      → (count t (signals ss d).1 ≤ one (waiting side d) + requests ss)
        × (count t (signals ss d).1 ≤ one (can side d) + events ss)
  unfolding signals
  answered [] d e ne = (omega arith, omega arith)
  answered (s ∷ ss) d e ne =
      let m = signal-Moves side s d in
      let (a, b) =
        answered ss (signal s d).0 (m.same_upcall side ∙ e)
          (λ f. ne (sym (m.same_upcall (other side)) ∙ f)) in
      let n = count-append t (signal s d).1 (signals ss (signal s d).0).1 in
      let k = issued-eq s d e ne in
      (omega (arith, a, n, k, m.answers_wait), omega (arith, b, n, k, m.answers_ready))

  -- A new descriptor whose two callbacks differ gives the callback of a side to the worker pool,
  -- in any sequence of requests and events, at most as often as that side was asked for, and at
  -- most as often as it became ready.
  pub upcalls_answer :
      (ss : List Signal) (fd : ℕ) (read_cb write_cb : Option Task)
      → upcall side (new_descriptor fd read_cb write_cb) ≡ some t
      → upcall (other side) (new_descriptor fd read_cb write_cb) ≢ some t
      → let n = count t (signals ss (new_descriptor fd read_cb write_cb)).1 in
        (n ≤ requests ss) × (n ≤ events ss)
  upcalls_answer ss fd read_cb write_cb e ne =
      let (a, b) = answered ss (new_descriptor fd read_cb write_cb) e ne in
      (omega (arith, a, idle side), omega (arith, b, idle side))
    where
      idle :
          (side : Side)
          → one (waiting side (new_descriptor fd read_cb write_cb))
              + one (can side (new_descriptor fd read_cb write_cb))
            ≡ 0
      idle reading = refl
      idle writing = refl
