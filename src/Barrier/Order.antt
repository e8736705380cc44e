-- ===== src/Barrier/Order.antt =====
-- The order of arrivals and departures at the barrier of thread_barrier.hpp.
use multicore_programming_la.Common.{
  Bool, true, ◌&&◌, ℕ, suc, ◌*◌, ◌<◌, ◌≤◌, ◌≡◌, ◌≢◌, refl, none, some, List, ltb, if◌then◌else◌,
  Bool-cases, inl, inr, ◌⊎◌, arith,
}
use native.Mathlib.Nat.{mul-le-mul_left, lt_of_mul-lt-mul_left}
use multicore_programming_la.Barrier.{
  Barrier, create, Action, enter, count_in, post_in, leave, count_out, post_out, step, run,
}
use multicore_programming_la.Barrier.Rounds.{InRound, run-InRound, create-InRound, mul_next}

-- Multiples of the number of participants are ordered as the numbers of the rounds are.
multiple_le : (n r s : ℕ) → n * r < n * suc s → n * r ≤ n * s
multiple_le n r s h =
    mul-le-mul_left n (omega (arith, lt_of_mul-lt-mul_left n {m = r} {n = suc s} h))

multiple_lt : (n r s : ℕ) → n * r < n * s → n * suc r ≤ n * s
multiple_lt n r s h = mul-le-mul_left n (lt_of_mul-lt-mul_left n {m = r} {n = s} h)

module _ (n : ℕ) (actions : List Action) (b : Barrier) (pos : 0 < n)
    (reached : run actions (create n) ≡ some b) (r : ℕ) where
  now : InRound n b
  now = run-InRound actions pos (create-InRound n pos) reached

  -- For a barrier of n participants (n above 0) and any sequence of steps of threads that can be
  -- taken: once more than n * r threads have departed, at least n * (r + 1) have arrived, so that
  -- all participants of round r arrive before one of them departs.
  pub all_arrive_first : n * r < b.departed → n * suc r ≤ b.arrived
  all_arrive_first h = elim now.phase [
    | inl s ↦ omega (arith, s.come, multiple_lt n r now.rounds (omega (arith, s.gone, h)))
    | inr s ↦ omega (
      arith,
      s.come,
      mul_next n r,
      multiple_le n r now.rounds (omega (arith, mul_next n now.rounds, s.gone, h)),
    )
  ]

  -- For a barrier of n participants (n above 0) and any sequence of steps of threads that can be
  -- taken: once more than n * r threads have arrived, at least n * r have departed, so that the
  -- rounds before round r are over before it begins.
  all_depart_first : n * r < b.arrived → n * r ≤ b.departed
  all_depart_first h = elim now.phase [
    | inl s ↦ omega (
      arith,
      s.gone,
      multiple_le n r now.rounds
          (omega (arith, mul_next n now.rounds, s.come, s.count, s.room, s.lock, h)),
    )
    | inr s ↦ omega (
      arith,
      s.gone,
      s.not_all,
      multiple_le n r now.rounds (omega (arith, mul_next n now.rounds, s.come, h)),
    )
  ]

-- The steps that a thread inside `wait` can take.
unfoldable pub can_step : Action → Barrier → Bool
can_step enter b = ltb 0 b.arrival
can_step count_in b = ltb 0 b.entered
can_step post_in b = ltb 0 b.counted_in
can_step leave b = ltb 0 b.departure && ltb 0 b.between
can_step count_out b = ltb 0 b.departing
can_step post_out b = ltb 0 b.counted_out

taken :
    (x : Barrier) (test : Bool)
    → test ≡ true
    → (b' : Barrier) × ((if test then some x else none) ≡ some b')
taken x test e = (x, rw e refl)

step_of_can :
    (a : Action) (b : Barrier) → can_step a b ≡ true → (b' : Barrier) × (step a b ≡ some b')
unfolding step can_step
step_of_can enter b e = taken _ (ltb 0 b.arrival) e
step_of_can count_in b e = taken _ (ltb 0 b.entered) e
step_of_can post_in b e = taken _ (ltb 0 b.counted_in) e
step_of_can leave b e = taken _ (ltb 0 b.departure && ltb 0 b.between) e
step_of_can count_out b e = taken _ (ltb 0 b.departing) e
step_of_can post_out b e = taken _ (ltb 0 b.counted_out) e

-- For a barrier of n participants (n above 0) and any sequence of steps of threads that can be
-- taken: fewer than n participants are counted and the barrier lets the next one in, or a thread
-- inside of wait can take a step.
pub never_stuck :
    (n : ℕ) (actions : List Action) (b : Barrier)
    → 0 < n
    → run actions (create n) ≡ some b
    → ((0 < b.arrival) × (b.counter < n))
      ⊎ ((a : Action) × (b' : Barrier) × (a ≢ enter) × (step a b ≡ some b'))
unfolding can_step
never_stuck n actions b pos e =
    let k = run-InRound actions pos (create-InRound n pos) e in
    elim k.phase [
      | inl s ↦ elim (Bool-cases (ltb 0 b.entered)) [
        | inl f ↦ let (b', g) = step_of_can count_in b f in inr (count_in, b', (λ x. cc), g)
        | inr f ↦ elim (Bool-cases (ltb 0 b.counted_in)) [
          | inl g ↦ let (b', h) = step_of_can post_in b g in inr (post_in, b', (λ x. cc), h)
          | inr g ↦ inl (ground (arith, s.lock), ground (arith, s.count, s.room))
        ]
      ]
      | inr s ↦ elim (Bool-cases (ltb 0 b.departing)) [
        | inl f ↦ let (b', g) = step_of_can count_out b f in inr (count_out, b', (λ x. cc), g)
        | inr f ↦ elim (Bool-cases (ltb 0 b.counted_out)) [
          | inl g ↦ let (b', h) = step_of_can post_out b g in inr (post_out, b', (λ x. cc), h)
          | inr g ↦
              let (b', h) = step_of_can leave b (ground (arith, s.lock, s.count, s.some_left)) in
              inr (leave, b', (λ x. cc), h)
        ]
      ]
    ]
