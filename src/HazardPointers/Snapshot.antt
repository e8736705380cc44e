-- ===== src/HazardPointers/Snapshot.antt =====
-- The snapshot of the nodes in use that `maybeFreeNodes` of hazard_pointers.hpp takes.
use multicore_programming_la.Common.{
  ℕ, suc, ◌+◌, ◌≤◌, ◌≡◌, refl, ap, ◌∙◌, Bool, true, false, ◌||◌, Option, none, some, List, [], ◌∷◌,
  ◌==◌, length, arith, Bool-cases, inl, inr,
}
use multicore_programming_la.HazardPointers.{contains, insert, active_in, active_list}
use multicore_programming_la.HazardPointers.Counting.{distinct}

-- Some thread has a hazard pointer on the node.
unfoldable pub holds : ℕ → List (Option ℕ) → Bool
holds x [] = false
holds x (none ∷ ps) = holds x ps
holds x (some y ∷ ps) = y == x || holds x ps

unfoldable pub is_hazardous : ℕ → List (List (Option ℕ)) → Bool
is_hazardous x [] = false
is_hazardous x (r ∷ rs) = holds x r || is_hazardous x rs

-- All the hazard pointers that there are.
unfoldable pub total : List (List (Option ℕ)) → ℕ
total [] = 0
total (r ∷ rs) = length r + total rs

pub contains-insert : (x y : ℕ) (l : List ℕ) → contains x (insert y l) ≡ (y == x || contains x l)
unfolding contains
contains-insert x y l = elim (Bool-cases (contains y l)) [
  | inl e ↦ rw e (same x y l e)
  | inr e ↦ rw e refl
]
  where
    same : (x y : ℕ) (l : List ℕ) → contains y l ≡ true → contains x l ≡ (y == x || contains x l)
    same x y [] h = absurd cc
    same x y (z ∷ l) h = ground (arith, same x y l)

pub length-insert : (y : ℕ) (l : List ℕ) → length (insert y l) ≤ suc (length l)
length-insert y l = ground arith

pub distinct-insert : (y : ℕ) (l : List ℕ) → distinct l ≡ true → distinct (insert y l) ≡ true
unfolding distinct
distinct-insert y l h = ground arith

contains-active_in :
    (x : ℕ) (ps : List (Option ℕ)) (l : List ℕ)
    → contains x (active_in ps l) ≡ (holds x ps || contains x l)
unfolding active_in holds
contains-active_in x [] l = refl
contains-active_in x (none ∷ ps) l = contains-active_in x ps l
contains-active_in x (some y ∷ ps) l =
    contains-active_in x ps (insert y l)
    ∙ ap (λ b. holds x ps || b) (contains-insert x y l)
    ∙ ground arith

pub contains-active_list :
    (x : ℕ) (rs : List (List (Option ℕ))) (l : List ℕ)
    → contains x (active_list rs l) ≡ (is_hazardous x rs || contains x l)
unfolding active_list is_hazardous
contains-active_list x [] l = refl
contains-active_list x (r ∷ rs) l =
    contains-active_list x rs (active_in r l)
    ∙ ap (λ b. is_hazardous x rs || b) (contains-active_in x r l)
    ∙ ground arith

length-active_in :
    (ps : List (Option ℕ)) (l : List ℕ) → length (active_in ps l) ≤ length ps + length l
unfolding active_in
length-active_in [] l = omega arith
length-active_in (none ∷ ps) l = omega (arith, length-active_in ps l)
length-active_in (some y ∷ ps) l =
    omega (arith, length-active_in ps (insert y l), length-insert y l)

pub length-active_list :
    (rs : List (List (Option ℕ))) (l : List ℕ) → length (active_list rs l) ≤ total rs + length l
unfolding active_list total
length-active_list [] l = omega arith
length-active_list (r ∷ rs) l =
    omega (arith, length-active_list rs (active_in r l), length-active_in r l)
