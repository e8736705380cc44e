-- ===== src/CircularBuffer/Refine.antt =====
-- A run of the operations of circular_buffer.cpp against a run of the queue of Spec.
use multicore_programming_la.Common.{ℕ, ◌≡◌, refl, ap₂, subst, ◌∙◌, List, [], ◌∷◌, ℤ, drop}
use multicore_programming_la.CircularBuffer.{CircularBuffer, create, slots_of, write, read, clear}
use multicore_programming_la.CircularBuffer.Spec.{
  Queue, Op, put, get, reset, push, run, NeverReadsEmpty,
}
use multicore_programming_la.CircularBuffer.Represents.{Represents}
use multicore_programming_la.CircularBuffer.Steps.{
  write-Represents, read-Represents, clear-Represents, create-Represents,
}

slots-write : (v : ℤ) (b : CircularBuffer) → (write v b).slots ≡ b.slots
unfolding write
slots-write v b = refl

slots-read : (b : CircularBuffer) → (read b).1.slots ≡ b.slots
unfolding read
slots-read b = refl

slots-clear : (b : CircularBuffer) → (clear b).slots ≡ b.slots
unfolding clear
slots-clear b = refl

-- A client's calls in order, with what its reads return.
unfoldable pub run_ops : CircularBuffer → List Op → List ℤ
run_ops b [] = []
run_ops b (put v ∷ ops) = run_ops (write v b) ops
run_ops b (get ∷ ops) = let (v, b') = read b in v ∷ run_ops b' ops
run_ops b (reset ∷ ops) = run_ops (clear b) ops

run_ops_at :
    (ops : List Op) (b : CircularBuffer) (q : Queue) (room : ℕ)
    → b.slots ≡ room
    → Represents b q
    → NeverReadsEmpty room q ops
    → run_ops b ops ≡ run room q ops
unfolding run_ops run
run_ops_at [] b q room e rep allowed = refl
run_ops_at (put v ∷ ops) b q room e rep allowed =
    run_ops_at ops (write v b) (push room v q) room (slots-write v b ∙ e)
      (subst (λ c. Represents (write v b) (push c v q)) e (write-Represents rep v)) allowed
run_ops_at (get ∷ ops) b q room e rep allowed =
    let (v, rep') = read-Represents rep allowed.0 in
    ap₂ ◌∷◌ v (run_ops_at ops (read b).1 (drop 1 q) room (slots-read b ∙ e) rep' allowed.1)
run_ops_at (reset ∷ ops) b q room e rep allowed =
    run_ops_at ops (clear b) [] room (slots-clear b ∙ e) (clear-Represents rep) allowed

-- A new buffer, used by any sequence of writes, reads and clears in which no read meets an empty
-- queue, returns from its reads what the queue of Spec returns, for any number of slots asked for
-- (10 slots where that is not positive).
pub run_ops_refines :
    (junk : ℕ → ℤ) (n : ℤ) (ops : List Op)
    → NeverReadsEmpty (slots_of n) [] ops
    → run_ops (create junk n) ops ≡ run (slots_of n) [] ops
unfolding create
run_ops_refines junk n ops allowed =
    run_ops_at ops (create junk n) [] (slots_of n) refl (create-Represents junk n) allowed
