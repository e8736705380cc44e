-- ===== src/HazardPointers.antt =====
-- hazard_pointers.hpp: the pointers that threads hold on nodes, and the nodes that wait to be deleted.
-- A node is its address, `none` is NULL. A `RetiredList` or an active list is an `unordered_set`: a
-- list without repetition, whose order stands for the iteration order of the set. `deleted` records
-- the calls of `delete`.
pub mod Counting
pub mod Snapshot
pub mod Reclaim
mod Tests
use multicore_programming_la.Common.{
  ℕ, zero, suc, ◌+◌, Bool, true, false, ◌||◌, Option, none, some, List, [], ◌∷◌, ◌++◌, ltb, ◌==◌,
  if◌then◌else◌, length, get_or, set,
}

pub record HazardPointers : Type 0 where
  pub max_retired : ℕ
  pub hp_recs : List (List (Option ℕ))
  pub retired_lists : List (List ℕ)
  pub deleted : List ℕ

-- `find(node) != end()`
unfoldable pub contains : ℕ → List ℕ → Bool
contains x [] = false
contains x (y ∷ l) = y == x || contains x l

-- `unordered_set::insert`
abbrev pub insert : ℕ → List ℕ → List ℕ
insert x l = if contains x l then l else x ∷ l

-- `n` copies of a value, for the arrays of the constructor.
unfoldable pub copies {ℓ} : {A : Type ℓ} → ℕ → A → List A
copies zero x = []
copies (suc n) x = x ∷ copies n x

-- `HazardPointers(int num_threads)`. The pointers are not initialised: `memory` is what the records
-- hold, one for each thread. MAX_RETIRED_NODES_PER_THREAD can be set.
unfoldable pub create : ℕ → List (List (Option ℕ)) → ℕ → HazardPointers
create max_retired memory num_threads = record {
  max_retired = max_retired;
  hp_recs = memory;
  retired_lists = copies num_threads [];
  deleted = [];
}

-- `getHPRec(thread)[j] = p`, by the thread itself.
unfoldable pub set_hp : ℕ → ℕ → Option ℕ → HazardPointers → HazardPointers
set_hp thread j p h = record h {
  hp_recs = set h.hp_recs thread (set (get_or h.hp_recs thread []) j p);
}

-- The snapshot of the nodes in use: the loop over one record, and that over all.
unfoldable pub active_in : List (Option ℕ) → List ℕ → List ℕ
active_in [] active = active
active_in (none ∷ ps) active = active_in ps active
active_in (some x ∷ ps) active = active_in ps (insert x active)

unfoldable pub active_list : List (List (Option ℕ)) → List ℕ → List ℕ
active_list [] active = active
active_list (r ∷ rs) active = active_list rs (active_in r active)

-- The loop over a retired list: the nodes that stay in it, and those that are deleted.
unfoldable pub sweep : List ℕ → List ℕ → List ℕ × List ℕ
sweep active [] = ([], [])
sweep active (x ∷ l) =
    let r = sweep active l in if contains x active then (x ∷ r.0, r.1) else (r.0, x ∷ r.1)

unfoldable pub maybe_free_nodes : ℕ → HazardPointers → ℕ × HazardPointers
maybe_free_nodes thread h =
    let r = sweep (active_list h.hp_recs []) (get_or h.retired_lists thread []) in
    (
      length r.1,
      record h { retired_lists = set h.retired_lists thread r.0; deleted = h.deleted ++ r.1 },
    )

-- A node put into a retired list.
abbrev pub retired : ℕ → ℕ → HazardPointers → HazardPointers
retired thread node h = record h {
  retired_lists = set h.retired_lists thread (insert node (get_or h.retired_lists thread []));
}

unfoldable pub retire_node : ℕ → ℕ → HazardPointers → ℕ × HazardPointers
retire_node thread node h =
    let h1 = retired thread node h in
    let r = maybe_free_nodes thread h1 in
    if ltb h1.max_retired (length (get_or h1.retired_lists thread [])) then r else (0, h1)
