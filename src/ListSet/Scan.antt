-- ===== src/ListSet/Scan.antt =====
-- Where the loops over the nodes of a chain stop.
use multicore_programming_la.Common.{
  ℕ, zero, suc, ◌<◌, ◌≡◌, refl, ap, Bool, true, false, Option, none, some, List, [], ◌∷◌, ◌++◌, ℤ,
  arith, ◌⊎◌, inl, inr, Bool-cases, length,
}
use multicore_programming_la.ListSet.{Memory, scan}
use multicore_programming_la.ListSet.Chain.{Cell, entry, Linked, last_addr}

module _ (more : ℤ → Bool) where
  -- The cells that a loop passes, and those it does not.
  unfoldable pub before : List Cell → List Cell
  before [] = []
  before ((a, v) ∷ cs) = elim (more v) [ true ↦ (a, v) ∷ before cs | false ↦ [] ]

  unfoldable pub after : List Cell → List Cell
  after [] = []
  after ((a, v) ∷ cs) = elim (more v) [ true ↦ after cs | false ↦ (a, v) ∷ cs ]

  pub before-after : (cs : List Cell) → before cs ++ after cs ≡ cs
  unfolding before after
  before-after [] = refl
  before-after ((a, v) ∷ cs) = elim (Bool-cases (more v)) [
    | inl e ↦ rw (e, before, after) (ap (λ xs. (a, v) ∷ xs) (before-after cs))
    | inr e ↦ rw (e, before, after) refl
  ]

  -- The loop ends, with enough fuel, between the two.
  pub scan_lem :
      (fuel : ℕ) (mem : Memory) (prev : Option ℕ) (cs : List Cell)
      → Linked mem cs none
      → length cs < fuel
      → scan more fuel mem prev (entry cs none)
        ≡ some (record { prev = last_addr prev (before cs); current = entry (after cs) none })
  unfolding scan before after Linked entry last_addr
  scan_lem zero mem prev cs l h = absurd (omega arith)
  scan_lem (suc fuel) mem prev [] l h = refl
  scan_lem (suc fuel) mem prev ((a, v) ∷ cs) (at, l) h = elim (Bool-cases (more v)) [
    | inl e ↦ rw (at, e, before, after) (scan_lem fuel mem (some a) cs l (omega arith))
    | inr e ↦ rw (at, e, before, after) refl
  ]

  -- The loop stops at the end, or on a value that does not pass its test.
  pub after-cases :
      (cs : List Cell)
      → (after cs ≡ [])
        ⊎ ((a : ℕ) × (v : ℤ) × (ys : List Cell) × (after cs ≡ (a, v) ∷ ys) × (more v ≡ false))
  unfolding after
  after-cases [] = inl refl
  after-cases ((a, v) ∷ cs) = elim (Bool-cases (more v)) [
    | inl e ↦ rw (e, after) (after-cases cs)
    | inr e ↦ inr (a, v, cs, rw (e, after) refl, e)
  ]
