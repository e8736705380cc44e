-- ===== src/CircularBuffer/Tests.antt =====
-- Runs of the circular buffer, some of them those of circular_buffer_test.cpp, and its theorems at
-- concrete inputs.
use multicore_programming_la.Common.{ℕ, ◌≡◌, refl, List, [], ◌∷◌, ℤ, pos, negsuc}
use multicore_programming_la.CircularBuffer.{CircularBuffer, create, slots_of, write, read, clear}
use multicore_programming_la.CircularBuffer.Spec.{Op, put, get, reset, push, run}
use multicore_programming_la.CircularBuffer.Represents.{Represents}
use multicore_programming_la.CircularBuffer.Refine.{run_ops, run_ops_refines}
use multicore_programming_la.CircularBuffer.Steps.{create-Represents}

abbrev zeros : ℕ → ℤ
zeros i = pos 0

abbrev empty_three : CircularBuffer
empty_three = create zeros (pos 3)

-- Four writes into three slots, two reads, a clear and a read of what came after it.
abbrev script : List Op
script =
    put (pos 6)
    ∷ put (pos 7)
    ∷ put (pos 8)
    ∷ put (pos 9)
    ∷ get
    ∷ get
    ∷ reset
    ∷ put (pos 1)
    ∷ get
    ∷ []

script_result : run_ops empty_three script ≡ pos 7 ∷ pos 8 ∷ pos 1 ∷ []
unfolding run_ops create write read clear
script_result = refl

-- The constructor's default of ten slots: the eleventh write drops the first value.
default_slots : slots_of (negsuc 0) ≡ 10
default_slots = refl

empty_three-Represents : Represents empty_three []
empty_three-Represents = create-Represents zeros (pos 3)

run_ops_refines_example : run_ops empty_three script ≡ run 3 [] script
unfolding push
run_ops_refines_example =
    run_ops_refines zeros (pos 3) script ((λ e. cc), ((λ e. cc), ((λ e. cc), tt)))
