-- ===== src/CircularBuffer/Spec.antt =====
-- What circular_buffer.hpp promises: a queue of at most `cap` integers in which a write to a full
-- queue drops the oldest one.
use multicore_programming_la.Common.{
  ℕ, List, [], ◌∷◌, ◌++◌, ◌≢◌, ℤ, negsuc, ◌==◌, if◌then◌else◌, length, drop,
}

abbrev pub Queue : Type 0
Queue = List ℤ

-- A call of a client.
pub data Op : Type 0 where
  put : ℤ → Op
  get : Op
  reset : Op

unfoldable pub push : ℕ → ℤ → Queue → Queue
push cap v q = if length q == cap then drop 1 q ++ (v ∷ []) else q ++ (v ∷ [])

-- The next value, or -1 where there is none.
unfoldable pub front : Queue → ℤ
front [] = negsuc 0
front (v ∷ q) = v

-- The values that the reads of a client return.
unfoldable pub run : ℕ → Queue → List Op → List ℤ
run cap q [] = []
run cap q (put v ∷ ops) = run cap (push cap v q) ops
run cap q (get ∷ ops) = front q ∷ run cap (drop 1 q) ops
run cap q (reset ∷ ops) = run cap [] ops

-- No call of the client reads from an empty queue.
abbrev pub NeverReadsEmpty : ℕ → Queue → List Op → Type 0
NeverReadsEmpty cap q [] = Unit {0}
NeverReadsEmpty cap q (put v ∷ ops) = NeverReadsEmpty cap (push cap v q) ops
NeverReadsEmpty cap q (get ∷ ops) = (q ≢ []) × NeverReadsEmpty cap (drop 1 q) ops
NeverReadsEmpty cap q (reset ∷ ops) = NeverReadsEmpty cap [] ops
