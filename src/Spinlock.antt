-- ===== src/Spinlock.antt =====
-- spinlock.hpp: a spinning lock. A state holds the word `locked_` and where each thread stands in
-- `lock` or behind it; a step is one access of a thread to that word, and a schedule is the list of
-- the threads in the order of their steps.
pub mod Mutex
pub mod Alone
mod Tests
use multicore_programming_la.Common.{
  ℕ, zero, suc, List, [], ◌∷◌, Bool, true, false, ◌==◌, if◌then◌else◌,
}

-- Where a thread stands: outside of the lock; behind a load of `locked_` that found it false; in the
-- loop that waits, with its counter; in the loop that sleeps; with the lock.
pub data Pc : Type 0 where
  outside fast : Pc
  spinning : ℕ → Pc
  sleeping holding : Pc

pub record Spinlock : Type 0 where
  pub locked : Bool
  pub pc : ℕ → Pc

unfoldable pub create : Spinlock
create = record { locked = false; pc = λ i. outside }

-- `int wait = 1000`
abbrev pub max_wait : ℕ
max_wait = 1000

-- Where a thread goes, and what it leaves in `locked_`: a load, or a test-and-set, or at last the
-- release of `unlock`.
unfoldable pub access : Pc → Bool → Bool × Pc
access outside false = (false, fast)
access outside true = (true, spinning max_wait)
access fast false = (true, holding)
access fast true = (true, spinning max_wait)
access (spinning zero) l = (l, sleeping)
access (spinning (suc n)) false = (false, sleeping)
access (spinning (suc n)) true = (true, spinning n)
access sleeping false = (true, holding)
access sleeping true = (true, sleeping)
access holding l = (false, outside)

unfoldable pub step : ℕ → Spinlock → Spinlock
step i s =
    let (l, p) = access (s.pc i) s.locked in
    record { locked = l; pc = λ j. if j == i then p else s.pc j }

unfoldable pub run : List ℕ → Spinlock → Spinlock
run [] s = s
run (i ∷ is) s = run is (step i s)
