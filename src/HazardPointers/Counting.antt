-- ===== src/HazardPointers/Counting.antt =====
-- Sets as lists without repetition: how many nodes a set can have that is part of another.
use multicore_programming_la.Common.{
  ℕ, suc, ◌≤◌, ◌≡◌, refl, ap, Bool, true, false, not, ◌&&◌, List, [], ◌∷◌, ◌==◌, if◌then◌else◌,
  length, arith, Bool-cases, inl, inr,
}
use multicore_programming_la.HazardPointers.{contains}

unfoldable pub distinct : List ℕ → Bool
distinct [] = true
distinct (x ∷ l) = not (contains x l) && distinct l

-- A list without the first occurrence of a node.
erase : ℕ → List ℕ → List ℕ
erase x [] = []
erase x (y ∷ l) = if y == x then l else y ∷ erase x l

length-erase : (x : ℕ) (l : List ℕ) → contains x l ≡ true → length l ≡ suc (length (erase x l))
unfolding contains erase
length-erase x [] h = absurd cc
length-erase x (y ∷ l) h = elim (Bool-cases (y == x)) [
  | inl e ↦ rw e refl
  | inr e ↦ rw e (ap suc (length-erase x l (rw e at h)))
]

contains-erase :
    (x z : ℕ) (l : List ℕ) → contains z l ≡ true → (x == z) ≡ false → contains z (erase x l) ≡ true
unfolding contains erase
contains-erase x z [] h ne = h
contains-erase x z (y ∷ l) h ne = elim (Bool-cases (y == x)) [
  | inl e ↦ rw e (ground arith)
  | inr e ↦ rw e (ground (arith, contains-erase x z l))
]

contains_ne : (x z : ℕ) (l : List ℕ) → contains x l ≡ false → contains z l ≡ true → (x == z) ≡ false
unfolding contains
contains_ne x z [] h k = absurd cc
contains_ne x z (y ∷ l) h k = ground (arith, contains_ne x z l)

-- A set that is part of another list has at most as many nodes.
pub length-part :
    (l m : List ℕ)
    → distinct l ≡ true
    → ((x : ℕ) → contains x l ≡ true → contains x m ≡ true)
    → length l ≤ length m
unfolding distinct contains
length-part [] m d part = omega arith
length-part (x ∷ l) m d part =
    let fewer =
      length-part l (erase x m) (ground arith) (λ z h.
        contains-erase x z m (part z (ground arith)) (contains_ne x z l (ground arith) h)) in
    omega (arith, fewer, length-erase x m (part x (ground arith)))
