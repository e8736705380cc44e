-- ===== src/IoManager/Timers.antt =====
-- The timer queue of io_manager.cpp: `addTimer`, and the part of a polling round that runs it.
use multicore_programming_la.Common.{
  ℕ, suc, ◌≤◌, ◌<◌, ◌≡◌, refl, sym, ap, ap₂, ◌∙◌, inl, inr, false, List, [], ◌∷◌, ◌++◌, map,
  append_assoc, append-nil, arith, ◌==◌, leb, ltb, if◌then◌else◌, Bool-cases,
}
use multicore_programming_la.IoManager.{
  Task, Timer, insert_timer, issue_due, IoManager, add_timer, run_timers,
}

-- The entries that are not before a time, and those that are not behind it.
abbrev pub AllFrom : ℕ → List Timer → Type 0
AllFrom x [] = Unit
AllFrom x (t ∷ ts) = (x ≤ t.at) × AllFrom x ts

abbrev pub AllUntil : ℕ → List Timer → Type 0
AllUntil x [] = Unit
AllUntil x (t ∷ ts) = (t.at ≤ x) × AllUntil x ts

abbrev pub IsAscending : List Timer → Type 0
IsAscending [] = Unit
IsAscending (t ∷ ts) = AllFrom t.at ts × IsAscending ts

-- The entries for one time, in their order.
abbrev pub at_time : ℕ → List Timer → List Timer
at_time x [] = []
at_time x (t ∷ ts) = let rest = at_time x ts in if t.at == x then t ∷ rest else rest

AllFrom-le : (ts : List Timer) (x y : ℕ) → x ≤ y → AllFrom y ts → AllFrom x ts
AllFrom-le [] x y h all = tt
AllFrom-le (t ∷ ts) x y h (a, all) = (omega arith, AllFrom-le ts x y h all)

at_time_none : (ts : List Timer) (x y : ℕ) → x < y → AllFrom y ts → at_time x ts ≡ []
at_time_none [] x y h all = refl
at_time_none (t ∷ ts) x y h (a, all) =
    let e : (t.at == x) ≡ false = ground arith in rw e (at_time_none ts x y h all)

at_time-append : (x : ℕ) (ts us : List Timer) → at_time x (ts ++ us) ≡ at_time x ts ++ at_time x us
at_time-append x [] us = refl
at_time-append x (t ∷ ts) us = elim (Bool-cases (t.at == x)) [
  | inl e ↦ rw e (ap (λ l. t ∷ l) (at_time-append x ts us))
  | inr e ↦ rw e (at_time-append x ts us)
]

insert_timer-AllFrom :
    (t : Timer) (us : List Timer) (x : ℕ) → x ≤ t.at → AllFrom x us → AllFrom x (insert_timer t us)
unfolding insert_timer
insert_timer-AllFrom t [] x h all = (h, tt)
insert_timer-AllFrom t (u ∷ us) x h (a, all) = elim (Bool-cases (leb u.at t.at)) [
  | inl e ↦ rw e (a, insert_timer-AllFrom t us x h all)
  | inr e ↦ rw e (h, (a, all))
]

insert_timer-IsAscending :
    (t : Timer) (us : List Timer) → IsAscending us → IsAscending (insert_timer t us)
unfolding insert_timer
insert_timer-IsAscending t [] h = (tt, tt)
insert_timer-IsAscending t (u ∷ us) (from, h) = elim (Bool-cases (leb u.at t.at)) [
  | inl e ↦
      rw e (insert_timer-AllFrom t us u.at (ground arith) from, insert_timer-IsAscending t us h)
  | inr e ↦ rw e ((ground arith, AllFrom-le us t.at u.at (ground arith) from), (from, h))
]

-- A new entry stands behind those for the same time.
insert_timer-at_time :
    (t : Timer) (us : List Timer) (x : ℕ)
    → IsAscending us
    → at_time x (insert_timer t us) ≡ at_time x us ++ at_time x (t ∷ [])
unfolding insert_timer
insert_timer-at_time t [] x h = refl
insert_timer-at_time t (u ∷ us) x (from, h) = elim (Bool-cases (leb u.at t.at)) [
  | inl e ↦ rw e (
      at_time-append x (u ∷ []) (insert_timer t us)
      ∙ ap (λ l. at_time x (u ∷ []) ++ l) (insert_timer-at_time t us x h)
      ∙ sym (append_assoc (at_time x (u ∷ [])) (at_time x us) (at_time x (t ∷ [])))
      ∙ ap (λ l. l ++ at_time x (t ∷ [])) (sym (at_time-append x (u ∷ []) us)))
  | inr e ↦ rw e (elim (Bool-cases (t.at == x)) [
    | inl f ↦ rw (f, at_time_none (u ∷ us) x u.at (ground arith) (omega arith, from)) refl
    | inr f ↦ rw (f, append-nil (at_time x (u ∷ us))) refl
  ])
]

-- Calls of `addTimer`, one after another.
abbrev pub add_timers : List Timer → IoManager → IoManager
add_timers [] m = m
add_timers (t ∷ ts) m = add_timers ts (add_timer t.at t.task m)

add_timers-IsAscending :
    (ts : List Timer) (m : IoManager)
    → IsAscending m.timer_queue
    → IsAscending (add_timers ts m).timer_queue
unfolding add_timer
add_timers-IsAscending [] m h = h
add_timers-IsAscending (t ∷ ts) m h =
    add_timers-IsAscending ts (add_timer t.at t.task m) (insert_timer-IsAscending t m.timer_queue h)

add_timers-at_time :
    (ts : List Timer) (m : IoManager) (x : ℕ)
    → IsAscending m.timer_queue
    → at_time x (add_timers ts m).timer_queue ≡ at_time x m.timer_queue ++ at_time x ts
unfolding add_timer
add_timers-at_time [] m x h = sym (append-nil (at_time x m.timer_queue))
add_timers-at_time (t ∷ ts) m x h =
    add_timers-at_time ts (add_timer t.at t.task m) x (insert_timer-IsAscending t m.timer_queue h)
    ∙ ap (λ l. l ++ at_time x ts) (insert_timer-at_time t m.timer_queue x h)
    ∙ append_assoc (at_time x m.timer_queue) (at_time x (t ∷ [])) (at_time x ts)
    ∙ ap (λ l. at_time x m.timer_queue ++ l) (sym (at_time-append x (t ∷ []) ts))

add_timers-added : (ts : List Timer) (m : IoManager) → (add_timers ts m).added ≡ m.added
unfolding add_timer
add_timers-added [] m = refl
add_timers-added (t ∷ ts) m = add_timers-added ts (add_timer t.at t.task m)

-- The queue is split at the time that the clock shows.
pub record Due (now : ℕ) (queue : List Timer) (tasks : List Task) (rest : List Timer) : Type 0 where
  pub due : List Timer
  pub tasks_due : tasks ≡ map (λ (t : Timer). t.task) due
  pub split : due ++ rest ≡ queue
  pub early : AllUntil now due
  pub late : AllFrom (suc now) rest

issue_due-Due :
    (now : ℕ) (q : List Timer) → IsAscending q → Due now q (issue_due now q).0 (issue_due now q).1
unfolding issue_due
issue_due-Due now [] h = record { due = []; tasks_due = refl; split = refl; early = tt; late = tt }
issue_due-Due now (t ∷ ts) (from, h) = elim (Bool-cases (ltb now t.at)) [
  | inl e ↦ rw e (record {
    due = [];
    tasks_due = refl;
    split = refl;
    early = tt;
    late = (ground arith, AllFrom-le ts (suc now) t.at (ground arith) from);
  })
  | inr e ↦
      let d = issue_due-Due now ts h in
      rw e (record {
        due = t ∷ d.due;
        tasks_due = ap (λ l. t.task ∷ l) d.tasks_due;
        split = ap (λ l. t ∷ l) d.split;
        early = (ground arith, d.early);
        late = d.late;
      })
]

-- What the next round adds for timers, and what it leaves in the queue.
pub record Ran (now : ℕ) (before : List Task) (ts : List Timer) (m : IoManager) : Type 0 where
  pub due : List Timer
  pub added_due : m.added ≡ before ++ map (λ (t : Timer). t.task) due
  pub early : AllUntil now due
  pub late : AllFrom (suc now) m.timer_queue
  pub ascending : IsAscending (due ++ m.timer_queue)
  pub same_entries : (x : ℕ) → at_time x (due ++ m.timer_queue) ≡ at_time x ts

-- For a manager without timers and any sequence of calls of addTimer: the next round adds the
-- callbacks of the entries that are due, and no other, in the order of their times and, at one
-- time, of the calls; the entries that are not due stay in the queue, in that order too.
pub run_timers-Ran :
    (ts : List Timer) (now : ℕ) (m : IoManager)
    → m.timer_queue ≡ []
    → Ran now m.added ts (run_timers now (add_timers ts m))
unfolding run_timers
run_timers-Ran ts now m e =
    let none_yet : IsAscending m.timer_queue = rw e tt in
    let sorted = add_timers-IsAscending ts m none_yet in
    let d = issue_due-Due now (add_timers ts m).timer_queue sorted in
    record {
      due = d.due;
      added_due = ap₂ (λ x y. x ++ y) (add_timers-added ts m) d.tasks_due;
      early = d.early;
      late = d.late;
      ascending = rw d.split sorted;
      same_entries = λ x.
          rw d.split (add_timers-at_time ts m x none_yet ∙ ap (λ q. at_time x q ++ at_time x ts) e);
    }
