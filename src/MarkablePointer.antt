-- ===== src/MarkablePointer.antt =====
-- markable_pointer.hpp: the lowest bit of a pointer is a mark. A pointer is a word; NULL is 0, and the
-- address of a node is even.
use multicore_programming_la.Common.{ℕ, ◌+◌, ◌-◌, ◌%◌, ◌≡◌, Bool, true, false, ◌==◌, arith}

abbrev pub mark : ℕ → ℕ
mark p = p - p % 2 + 1

abbrev pub unmark : ℕ → ℕ
unmark p = p - p % 2

abbrev pub is_marked : ℕ → Bool
is_marked p = p % 2 == 1

-- Marking is seen, and undone by unmark, which changes no pointer that has no mark.
mark-unmark :
    (p : ℕ)
    → (is_marked (mark p) ≡ true)
      × (is_marked (unmark p) ≡ false)
      × (unmark (mark p) ≡ unmark p)
      × (is_marked p ≡ false → unmark p ≡ p)
mark-unmark p = ground arith
