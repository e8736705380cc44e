-- ===== src/HashTable/Parent.antt =====
-- `GET_PARENT` of lock_free_hash_table.cpp.
use multicore_programming_la.Common.{
  leb, ltb, if◌then◌else◌, ℕ, zero, suc, ◌+◌, ◌-◌, ◌/◌, ◌%◌, ◌^◌, ◌<◌, ◌≤◌, ◌≡◌, refl, ap, subst,
  ◌∙◌, true, false, lt→ltb, some, arith, inl, inr, ◌==◌, Bool-cases,
}
use native.Mathlib.Nat.{add-mod_right, mod-eq_of_lt}
use multicore_programming_la.HashTable.{count_halves, masked, get_parent}

double : (k : ℕ) → 2 ^ suc k ≡ 2 ^ k + 2 ^ k
double k = omega arith

-- The loop ends for numbers of as many bits as it has fuel, and finds the highest bit.
count_halves_lem :
    (fuel x : ℕ)
    → 0 < x
    → x < 2 ^ fuel
    → (c : ℕ) × (count_halves fuel x ≡ some c) × (2 ^ c ≤ x) × (x < 2 ^ suc c)
unfolding count_halves
count_halves_lem zero x pos h = absurd (omega arith)
count_halves_lem (suc fuel) x pos h = elim (Bool-cases (x / 2 == 0)) [
  | inl e ↦ (0, rw e refl, omega arith, ground arith)
  | inr e ↦
      let (c, f, lo, hi) =
        count_halves_lem fuel (x / 2) (ground (arith, e)) (omega (arith, double fuel, h)) in
      let same : c + 1 ≡ suc c = omega arith in
      (
        suc c,
        rw (e, f) (ap some same),
        omega (arith, double c, lo),
        omega (arith, double (suc c), double c, hi),
      )
]

once : (x p : ℕ) → p ≤ x → x < p + p → x % p + p ≡ x
once x p lo hi = ap (λ k. k % p + p) split ∙ ap (λ k. k + p) low ∙ omega (arith, lo)
  where
    split : x ≡ (x - p) + p
    split = omega (arith, lo)

    low : ((x - p) + p) % p ≡ x - p
    low = add-mod_right (x - p) p ∙ mod-eq_of_lt (omega (arith, hi, lo))

only_bit : (x p : ℕ) → p ≤ x → x < p + p → x / p ≡ 1
only_bit x p lo hi = grind arith

pow_mono : (a k : ℕ) → 2 ^ a ≤ 2 ^ (k + a)
pow_mono a zero = let e : 0 + a ≡ a = omega arith in rw e (omega arith)
pow_mono a (suc k) =
    let e : suc k + a ≡ suc (k + a) = omega arith in
    rw e (omega (arith, pow_mono a k, double (k + a)))

-- What the mask leaves of a number whose highest bit is the one at `c`.
masked_lem :
    (c index : ℕ)
    → 2 ^ c ≤ index
    → index < 2 ^ suc c
    → masked c index ≡ (if ltb index (2 ^ 54) then index - 2 ^ c else 2 ^ c)
masked_lem c index lo hi = elim (Bool-cases (leb c 53)) [
  | inl e ↦
      let k : (53 - c) + suc c ≡ 54 = ground arith in
      let top : 2 ^ suc c ≤ 2 ^ 54 = subst (λ n. 2 ^ suc c ≤ 2 ^ n) k (pow_mono (suc c) (53 - c)) in
      let f : ltb index (2 ^ 54) ≡ true = lt→ltb index (2 ^ 54) (omega (arith, top, hi)) in
      rw (e, f) (omega (arith, once index (2 ^ c) lo (omega (arith, double c, hi))))
  | inr e ↦
      let k : (c - 54) + 54 ≡ c = ground arith in
      let low : 2 ^ 54 ≤ 2 ^ c = subst (λ n. 2 ^ 54 ≤ 2 ^ n) k (pow_mono 54 (c - 54)) in
      let f : ltb index (2 ^ 54) ≡ false = not_ltb index (2 ^ 54) (omega (arith, low, lo)) in
      let one : index / 2 ^ c ≡ 1 = only_bit index (2 ^ c) lo (omega (arith, double c, hi)) in
      rw (e, f, one) (omega arith)
]
  where
    not_ltb : (a b : ℕ) → b ≤ a → ltb a b ≡ false
    not_ltb a b h = ground arith

-- For a bucket number from 1 to below 2^64, whose highest bit is that at c: GET_PARENT ends. For a
-- number below 2^54 it returns the number without that bit, and from 2^54 on, where pow(2, c) - 1
-- is rounded, that bit alone.
pub get_parent-clears :
    (index : ℕ)
    → 0 < index
    → index < 2 ^ 64
    → (c : ℕ) × (2 ^ c ≤ index)
      × (index < 2 ^ suc c)
      × (get_parent index ≡ some (if ltb index (2 ^ 54) then index - 2 ^ c else 2 ^ c))
unfolding get_parent
get_parent-clears index pos h =
    let (c, e, lo, hi) = count_halves_lem 64 index pos h in
    (c, lo, hi, rw e (ap some (masked_lem c index lo hi)))
