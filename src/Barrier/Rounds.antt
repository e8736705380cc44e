-- ===== src/Barrier/Rounds.antt =====
-- The two phases of a round of the barrier, and that every step keeps to them.
use multicore_programming_la.Common.{
  no_result, guarded, subst, ◌&&◌, ℕ, suc, ◌+◌, ◌*◌, ◌<◌, ◌≤◌, ◌≡◌, refl, sym, some, List, [], ◌∷◌,
  ltb, Bool-cases, Option-cases, inl, inr, ◌⊎◌, arith,
}
use mathlib.Core.Option.{some-injective}
use mathlib.Core.Option
use multicore_programming_la.Barrier.{
  Barrier, create, Action, enter, count_in, post_in, leave, count_out, post_out, step, run,
}

-- While the participants of a round arrive. `base` have arrived, and departed, in the rounds before.
pub record Arriving (n base : ℕ) (b : Barrier) : Type 0 where
  pub closed : b.departure + b.departing + b.counted_out ≡ 0
  pub lock : b.arrival + b.entered + b.counted_in ≡ 1
  pub count : b.counter ≡ b.between + b.counted_in
  pub come : b.arrived ≡ base + b.counter
  pub gone : b.departed ≡ base
  pub room : b.between < n

-- While they depart.
pub record Leaving (n base : ℕ) (b : Barrier) : Type 0 where
  pub closed : b.arrival + b.entered + b.counted_in ≡ 0
  pub lock : b.departure + b.departing + b.counted_out ≡ 1
  pub count : b.counter ≡ b.between + b.departing
  pub come : b.arrived ≡ base + n
  pub gone : b.departed + b.counter ≡ base + n
  pub some_left : 0 < b.counter + b.counted_out
  pub not_all : b.counter ≤ n

-- The state in a round.
pub record InRound (n : ℕ) (b : Barrier) : Type 0 where
  pub participants_kept : b.participants ≡ n
  pub rounds : ℕ
  pub phase : Arriving n (n * rounds) b ⊎ Leaving n (n * rounds) b

module _ {n base : ℕ} {b b' : Barrier} (p : b.participants ≡ n) where
  -- A step while participants arrive: the last of them opens the way out.
  step-Arriving :
      (a : Action)
      → Arriving n base b
      → step a b ≡ some b'
      → (b'.participants ≡ n) × (Arriving n base b' ⊎ Leaving n base b')
  unfolding step
  step-Arriving enter k e =
      guarded (ltb 0 b.arrival) (λ x. (x.participants ≡ n) × (Arriving n base x ⊎ Leaving n base x))
        e
        (λ t. (
          p,
          inl (record {
            closed = k.closed;
            lock = ground (arith, k.lock);
            count = k.count;
            come = k.come;
            gone = k.gone;
            room = k.room;
          }),
        ))
  step-Arriving count_in k e =
      guarded (ltb 0 b.entered) (λ x. (x.participants ≡ n) × (Arriving n base x ⊎ Leaving n base x))
        e
        (λ t. (
          p,
          inl (record {
            closed = k.closed;
            lock = ground (arith, k.lock);
            count = ground (arith, k.lock, k.count);
            come = ground (arith, k.come);
            gone = k.gone;
            room = k.room;
          }),
        ))
  step-Arriving post_in k e =
      guarded (ltb 0 b.counted_in)
        (λ x. (x.participants ≡ n) × (Arriving n base x ⊎ Leaving n base x)) e
        (λ t. elim (Bool-cases (ltb b.counter b.participants)) [
          | inl f ↦ rw f (
            p,
            inl (record {
              closed = k.closed;
              lock = ground (arith, k.lock);
              count = ground (arith, k.lock, k.count);
              come = k.come;
              gone = k.gone;
              room = ground (arith, k.count, k.lock, p);
            }),
          )
          | inr f ↦ rw f (
            p,
            inr (record {
              closed = ground (arith, k.lock);
              lock = ground (arith, k.closed);
              count = ground (arith, k.count, k.lock, k.closed);
              come = ground (arith, k.come, k.count, k.lock, k.room, p);
              gone = ground (arith, k.gone, k.count, k.lock, k.room, p);
              some_left = ground (arith, k.count, k.lock);
              not_all = ground (arith, k.count, k.lock, k.room);
            }),
          )
        ])
  step-Arriving leave k e =
      guarded (ltb 0 b.departure && ltb 0 b.between)
        (λ x. (x.participants ≡ n) × (Arriving n base x ⊎ Leaving n base x)) e
        (λ t. absurd (ground (arith, k.closed)))
  step-Arriving count_out k e =
      guarded (ltb 0 b.departing)
        (λ x. (x.participants ≡ n) × (Arriving n base x ⊎ Leaving n base x)) e
        (λ t. absurd (ground (arith, k.closed)))
  step-Arriving post_out k e =
      guarded (ltb 0 b.counted_out)
        (λ x. (x.participants ≡ n) × (Arriving n base x ⊎ Leaving n base x)) e
        (λ t. absurd (ground (arith, k.closed)))

  -- A step while they depart: the last of them opens the way in.
  step-Leaving :
      (a : Action)
      → 0 < n
      → Leaving n base b
      → step a b ≡ some b'
      → (b'.participants ≡ n) × (Leaving n base b' ⊎ Arriving n (base + n) b')
  unfolding step
  step-Leaving leave pos k e =
      guarded (ltb 0 b.departure && ltb 0 b.between)
        (λ x. (x.participants ≡ n) × (Leaving n base x ⊎ Arriving n (base + n) x)) e
        (λ t. (
          p,
          inl (record {
            closed = k.closed;
            lock = ground (arith, k.lock);
            count = ground (arith, k.count);
            come = k.come;
            gone = k.gone;
            some_left = k.some_left;
            not_all = k.not_all;
          }),
        ))
  step-Leaving count_out pos k e =
      guarded (ltb 0 b.departing)
        (λ x. (x.participants ≡ n) × (Leaving n base x ⊎ Arriving n (base + n) x)) e
        (λ t. (
          p,
          inl (record {
            closed = k.closed;
            lock = ground (arith, k.lock);
            count = ground (arith, k.count, k.lock);
            come = k.come;
            gone = ground (arith, k.gone, k.count);
            some_left = ground arith;
            not_all = ground (arith, k.not_all);
          }),
        ))
  step-Leaving post_out pos k e =
      guarded (ltb 0 b.counted_out)
        (λ x. (x.participants ≡ n) × (Leaving n base x ⊎ Arriving n (base + n) x)) e
        (λ t. elim (Bool-cases (ltb 0 b.counter)) [
          | inl f ↦ rw f (
            p,
            inl (record {
              closed = k.closed;
              lock = ground (arith, k.lock);
              count = k.count;
              come = k.come;
              gone = k.gone;
              some_left = ground arith;
              not_all = k.not_all;
            }),
          )
          | inr f ↦ rw f (
            p,
            inr (record {
              closed = ground (arith, k.lock);
              lock = ground (arith, k.closed);
              count = ground (arith, k.count, k.closed);
              come = ground (arith, k.come);
              gone = ground (arith, k.gone);
              room = ground (arith, k.count);
            }),
          )
        ])
  step-Leaving enter pos k e =
      guarded (ltb 0 b.arrival)
        (λ x. (x.participants ≡ n) × (Leaving n base x ⊎ Arriving n (base + n) x)) e
        (λ t. absurd (ground (arith, k.closed)))
  step-Leaving count_in pos k e =
      guarded (ltb 0 b.entered)
        (λ x. (x.participants ≡ n) × (Leaving n base x ⊎ Arriving n (base + n) x)) e
        (λ t. absurd (ground (arith, k.closed)))
  step-Leaving post_in pos k e =
      guarded (ltb 0 b.counted_in)
        (λ x. (x.participants ≡ n) × (Leaving n base x ⊎ Arriving n (base + n) x)) e
        (λ t. absurd (ground (arith, k.closed)))

pub mul_next : (n r : ℕ) → n * suc r ≡ n * r + n
mul_next n r = omega arith

step-InRound :
    {n : ℕ} (a : Action) {b b' : Barrier} → 0 < n → InRound n b → step a b ≡ some b' → InRound n b'
step-InRound {n} a {b} {b'} pos k e = elim k.phase [
  | inl s ↦
      let (p, q) = step-Arriving k.participants_kept a s e in
      record { participants_kept = p; rounds = k.rounds; phase = q }
  | inr s ↦
      let (p, q) = step-Leaving k.participants_kept a pos s e in
      elim q [
        | inl l ↦ record { participants_kept = p; rounds = k.rounds; phase = inr l }
        | inr r ↦ record {
          participants_kept = p;
          rounds = suc k.rounds;
          phase = inl (subst (λ x. Arriving n x b') (sym (mul_next n k.rounds)) r);
        }
      ]
]

pub run-InRound :
    {n : ℕ} (actions : List Action) {b b' : Barrier}
    → 0 < n
    → InRound n b
    → run actions b ≡ some b'
    → InRound n b'
unfolding run Option.bind
run-InRound {n} [] pos k e = subst (InRound n) (some-injective _ _ e) k
run-InRound (a ∷ rest) {b} pos k e = elim (Option-cases (step a b)) [
  | inl f ↦ absurd (no_result (rw f at e))
  | inr (b1, f) ↦ run-InRound rest pos (step-InRound a pos k f) (rw f at e)
]

pub create-InRound : (n : ℕ) → 0 < n → InRound n (create n)
unfolding create
create-InRound n pos = record {
  participants_kept = refl;
  rounds = 0;
  phase = inl (record {
    closed = refl;
    lock = refl;
    count = refl;
    come = omega arith;
    gone = omega arith;
    room = pos;
  });
}
