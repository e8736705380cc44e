-- ===== src/HazardPointers/Tests.antt =====
-- Runs of the hazard pointers, after hazard_pointers_test.cpp, and their theorems at concrete states.
use multicore_programming_la.Common.{
  ℕ, zero, suc, ◌≤◌, ◌≡◌, ◌⊎◌, refl, none, some, [], ◌∷◌, length, arith, true,
}
use multicore_programming_la.HazardPointers.{
  HazardPointers, create, copies, set_hp, retire_node, maybe_free_nodes, sweep, active_list,
  active_in, contains,
}
use multicore_programming_la.HazardPointers.Counting.{distinct}
use multicore_programming_la.HazardPointers.Snapshot.{total}
use multicore_programming_la.HazardPointers.Reclaim.{
  Swept, maybe_free_nodes-Swept, retired_of, retire_node-bounded,
}

-- Two threads; the second uses node 5, the first has retired 4 and 5.
abbrev two_threads : HazardPointers
two_threads = record {
  max_retired = 1;
  hp_recs = (none ∷ none ∷ []) ∷ (some 5 ∷ none ∷ []) ∷ [];
  retired_lists = (4 ∷ 5 ∷ []) ∷ [] ∷ [];
  deleted = [];
}

only_four :
    ((maybe_free_nodes 0 two_threads).1.deleted ≡ 4 ∷ []) × ((maybe_free_nodes 0 two_threads).0 ≡ 1)
unfolding maybe_free_nodes sweep active_list active_in contains
only_four = (refl, refl)

-- A new set of hazard pointers, used by the second thread.
used :
    (set_hp 1 0 (some 5) (create 1 ((none ∷ none ∷ []) ∷ (none ∷ none ∷ []) ∷ []) 2)).hp_recs
    ≡ two_threads.hp_recs
unfolding set_hp create copies
used = refl

maybe_free_nodes-Swept_example : Swept two_threads 0 (maybe_free_nodes 0 two_threads)
maybe_free_nodes-Swept_example = maybe_free_nodes-Swept 0 two_threads (omega arith)

two_threads-distinct : (i : ℕ) → distinct (retired_of i two_threads) ≡ true
unfolding distinct contains
two_threads-distinct zero = refl
two_threads-distinct (suc zero) = refl
two_threads-distinct (suc (suc i)) = refl

retire_node-bounded_example :
    (length (retired_of 0 (retire_node 0 9 two_threads).1) ≤ 1)
    ⊎ (length (retired_of 0 (retire_node 0 9 two_threads).1) ≤ 4)
unfolding total
retire_node-bounded_example = retire_node-bounded 0 9 two_threads (omega arith) two_threads-distinct
