-- ===== src/LockFreeList/Tests.antt =====
-- Runs of the list by two threads, and its theorems at concrete schedules.
use multicore_programming_la.Common.{ℕ, ◌≡◌, ◌≢◌, refl, true, false, some, List, [], ◌∷◌}
use multicore_programming_la.MarkablePointer.{unmark}
use multicore_programming_la.LockFreeList.{
  Node, node_of, inserting, removing, looking, finished, Move, begin, go, move, advance, load,
  store, cas, empty_list, move_thread, run_moves, ascends, check_integrity,
}
use multicore_programming_la.LockFreeList.Ordered.{LeadsOn}
use multicore_programming_la.LockFreeList.Reached.{list_stays_ordered}
use multicore_programming_la.LockFreeList.Marks.{marked_stays}

abbrev goes : ℕ → List (ℕ × Move) → List (ℕ × Move)
goes i ms = (i, go) ∷ (i, go) ∷ (i, go) ∷ ms

-- Thread 0 inserts 5, and then 3; thread 1 inserts 8.
abbrev three_inserts : List (ℕ × Move)
three_inserts =
    (0, begin inserting 5)
    ∷ goes 0 (
        (0, begin inserting 3)
        ∷ goes 0 (goes 0 ((1, begin inserting 8) ∷ goes 1 (goes 1 (goes 1 [])))))

three_ordered : check_integrity 9 (run_moves three_inserts empty_list).shared ≡ some true
unfolding run_moves move_thread move advance load store cas node_of check_integrity ascends
three_ordered = refl

list_stays_ordered_example :
    (check_integrity 9 (run_moves three_inserts empty_list).shared ≢ some false)
    × ((w : ℕ) (n : Node)
        → node_of (run_moves three_inserts empty_list).shared w ≡ some n
        → LeadsOn (run_moves three_inserts empty_list).shared n.data_ (unmark n.next))
list_stays_ordered_example = list_stays_ordered three_inserts 9

-- Thread 1 has marked the node of 5, and has not unlinked it.
abbrev half_removed : List (ℕ × Move)
half_removed =
    (0, begin inserting 5) ∷ goes 0 ((1, begin removing 5) ∷ goes 1 ((1, go) ∷ (1, go) ∷ []))

-- Thread 0 looks for 5, unlinks the node and does not find it.
abbrev then_looked : List (ℕ × Move)
then_looked = (0, begin looking 5) ∷ goes 0 (goes 0 [])

not_found_any_more :
    ((run_moves then_looked (run_moves half_removed empty_list)).threads 0).pc ≡ finished false
unfolding run_moves move_thread move advance load store cas node_of
not_found_any_more = refl

marked_stays_example :
    node_of (run_moves then_looked (run_moves half_removed empty_list)).shared 2
    ≡ some (record { data_ = 5; next = 1 })
unfolding run_moves move_thread move advance load store cas node_of
marked_stays_example =
    marked_stays half_removed then_looked 2 (record { data_ = 5; next = 1 }) refl refl
