-- ===== src/ListSet/Sorted.antt =====
-- What a sorted chain is after a cell is put in or taken out, and where a value stands in it.
use multicore_programming_la.Common.{
  ℕ, ◌≡◌, refl, Bool, true, false, not, ◌&&◌, ◌||◌, List, [], ◌∷◌, ◌++◌, ℤ, ltb_ℤ, eqb_ℤ, arith,
  inl, inr, Bool-cases, ◌==◌,
}
use multicore_programming_la.ListSet.Chain.{Cell, member, above, sorted, has_addr, distinct}
use multicore_programming_la.ListSet.Scan.{before, after, before-after}

pub above_trans :
    (u v : ℤ) (cs : List Cell) → above v cs ≡ true → ltb_ℤ u v ≡ true → above u cs ≡ true
unfolding above
above_trans u v [] h k = refl
above_trans u v ((a, w) ∷ cs) h k = ground (arith, above_trans u v cs)

-- A value below all of a chain, or equal to one below them, is not in it.
pub above-absent :
    (u v : ℤ) (cs : List Cell) → above v cs ≡ true → ltb_ℤ v u ≡ false → member u cs ≡ false
unfolding above member
above-absent u v [] h k = refl
above-absent u v ((a, w) ∷ cs) h k = ground (arith, above-absent u v cs)

-- A cell more, or one less, in the middle.
pub has_addr-insert :
    (i a : ℕ) (v : ℤ) (xs ys : List Cell)
    → has_addr i (xs ++ (a, v) ∷ ys) ≡ (a == i || has_addr i (xs ++ ys))
unfolding has_addr
has_addr-insert i a v [] ys = refl
has_addr-insert i a v ((b, w) ∷ xs) ys = ground (arith, has_addr-insert i a v xs ys)

pub member-insert :
    (u : ℤ) (a : ℕ) (v : ℤ) (xs ys : List Cell)
    → member u (xs ++ (a, v) ∷ ys) ≡ (eqb_ℤ v u || member u (xs ++ ys))
unfolding member
member-insert u a v [] ys = refl
member-insert u a v ((b, w) ∷ xs) ys = ground (arith, member-insert u a v xs ys)

above-insert :
    (u : ℤ) (a : ℕ) (v : ℤ) (xs ys : List Cell)
    → above u (xs ++ (a, v) ∷ ys) ≡ (ltb_ℤ u v && above u (xs ++ ys))
unfolding above
above-insert u a v [] ys = refl
above-insert u a v ((b, w) ∷ xs) ys = ground (arith, above-insert u a v xs ys)

pub distinct-insert :
    (a : ℕ) (v : ℤ) (xs ys : List Cell)
    → distinct (xs ++ (a, v) ∷ ys) ≡ (not (has_addr a (xs ++ ys)) && distinct (xs ++ ys))
unfolding distinct has_addr
distinct-insert a v [] ys = refl
distinct-insert a v ((b, w) ∷ xs) ys =
    ground (arith, distinct-insert a v xs ys, has_addr-insert b a v xs ys)

pub sorted-remove :
    (a : ℕ) (v : ℤ) (xs ys : List Cell)
    → sorted (xs ++ (a, v) ∷ ys) ≡ true
    → sorted (xs ++ ys) ≡ true
unfolding sorted
sorted-remove a v [] ys h = ground arith
sorted-remove a v ((b, w) ∷ xs) ys h =
    ground (arith, sorted-remove a v xs ys, above-insert w a v xs ys)

-- A value that was taken out is not there any more.
pub sorted-absent :
    (a : ℕ) (v : ℤ) (xs ys : List Cell)
    → sorted (xs ++ (a, v) ∷ ys) ≡ true
    → member v (xs ++ ys) ≡ false
unfolding sorted member
sorted-absent a v [] ys h = ground (arith, above-absent v v ys)
sorted-absent a v ((b, w) ∷ xs) ys h =
    ground (arith, sorted-absent a v xs ys, above-insert w a v xs ys)

-- Whether the first cell holds a value.
abbrev pub starts_with : ℤ → List Cell → Bool
starts_with v [] = false
starts_with v ((a, w) ∷ cs) = eqb_ℤ w v

module _ (v : ℤ) where
  abbrev smaller : ℤ → Bool
  smaller w = ltb_ℤ w v

  -- A loop that stops behind the smaller values stops where the value would be.
  pub member-sorted :
      (cs : List Cell) → sorted cs ≡ true → member v cs ≡ starts_with v (after smaller cs)
  unfolding sorted member after
  member-sorted [] h = refl
  member-sorted ((a, w) ∷ cs) h = elim (Bool-cases (ltb_ℤ w v)) [
    | inl e ↦ rw (e, after) (ground (arith, member-sorted cs))
    | inr e ↦ rw (e, after) (ground (arith, above-absent v w cs))
  ]

  pub sorted-insert :
      (a : ℕ) (cs : List Cell)
      → sorted cs ≡ true
      → member v cs ≡ false
      → sorted (before smaller cs ++ (a, v) ∷ after smaller cs) ≡ true
  unfolding sorted member before after above
  sorted-insert a [] h k = refl
  sorted-insert a ((b, w) ∷ cs) h k = elim (Bool-cases (ltb_ℤ w v)) [
    | inl e ↦
        rw (e, before, after)
          (ground (
            arith,
            sorted-insert a cs,
            above-insert w a v (before smaller cs) (after smaller cs),
            before-after smaller cs,
          ))
    | inr e ↦ rw (e, before, after) (ground (arith, above_trans v w cs))
  ]

  abbrev other : ℤ → Bool
  other w = not (eqb_ℤ w v)

  -- A loop that stops on the value stops on it where it is there, and else at the end.
  pub member-found : (cs : List Cell) → member v cs ≡ starts_with v (after other cs)
  unfolding member after
  member-found [] = refl
  member-found ((a, w) ∷ cs) = elim (Bool-cases (eqb_ℤ w v)) [
    | inl e ↦ rw (e, after) (ground arith)
    | inr e ↦ rw (e, after) (ground (arith, member-found cs))
  ]
