-- ===== src/Spinlock/Tests.antt =====
-- Runs of the spinlock, and its theorems at them.
use multicore_programming_la.Common.{ℕ, ◌≡◌, refl, List, [], ◌∷◌}
use multicore_programming_la.Spinlock.{spinning, holding, create, access, step, run}
use multicore_programming_la.Spinlock.Mutex.{IsExclusive, mutual_exclusion}

-- Two threads load the word before one of them gets the lock.
abbrev race : List ℕ
race = 0 ∷ 1 ∷ 0 ∷ 1 ∷ []

race-run : ((run race create).pc 0 ≡ holding) × ((run race create).pc 1 ≡ spinning 1000)
unfolding run step create access
race-run = (refl, refl)

mutual_exclusion_example : IsExclusive (run race create)
mutual_exclusion_example = mutual_exclusion race
