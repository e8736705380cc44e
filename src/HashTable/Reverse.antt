-- ===== src/HashTable/Reverse.antt =====
-- `reverse` of lock_free_hash_table.cpp, against the mirrored bits of a number.
use multicore_programming_la.Common.{
  ℕ, zero, suc, ◌+◌, ◌*◌, ◌/◌, ◌%◌, ◌^◌, ◌<◌, ◌≤◌, ◌≡◌, refl, ap, ◌∙◌, arith, ◌⊎◌, inl, inr,
  if◌then◌else◌, ◌==◌, Bool-cases,
}
use native.Mathlib.Nat.{mul-add, add-mul, mul_assoc, le-mul_of_pos_right}
use multicore_programming_la.HashTable.{reverse_loop, reverse}

-- A bit at a place.
unfoldable pub place : ℕ → ℕ → ℕ
place k bit = if bit == 0 then 0 else 2 ^ k

-- The low `k` bits of a number, mirrored.
unfoldable pub mirror : ℕ → ℕ → ℕ
mirror zero x = 0
mirror (suc k) x = place k (x % 2) + mirror k (x / 2)

double : (k : ℕ) → 2 ^ suc k ≡ 2 ^ k + 2 ^ k
double k = omega arith

some_power : (k : ℕ) → 0 < 2 ^ k
some_power zero = omega arith
some_power (suc k) = omega (arith, double k, some_power k)

place-cases :
    (k x : ℕ) → ((x % 2 ≡ 0) × (place k (x % 2) ≡ 0)) ⊎ ((x % 2 ≡ 1) × (place k (x % 2) ≡ 2 ^ k))
unfolding place
place-cases k x = elim (Bool-cases (x % 2 == 0)) [
  | inl e ↦ inl (ground arith, rw e refl)
  | inr e ↦ inr (ground arith, rw e refl)
]

place_next : (k bit : ℕ) → place (suc k) bit ≡ 2 * place k bit
unfolding place
place_next k bit = elim (Bool-cases (bit == 0)) [
  | inl e ↦ rw e refl
  | inr e ↦ rw e (omega (arith, double k))
]

pub mirror_bound : (k x : ℕ) → mirror k x < 2 ^ k
unfolding mirror
mirror_bound zero x = omega arith
mirror_bound (suc k) x = elim (place-cases k x) [
  | inl (e, p) ↦ omega (arith, p, double k, mirror_bound k (x / 2))
  | inr (e, p) ↦ omega (arith, p, double k, mirror_bound k (x / 2))
]

pub mirror-suc : (k x : ℕ) → mirror (suc k) x ≡ place k (x % 2) + mirror k (x / 2)
unfolding mirror
mirror-suc k x = refl

-- A highest bit comes out as the lowest.
mirror_low_zero : (y : ℕ) → y < 1 → mirror 1 y ≡ 2 * mirror 0 y
unfolding mirror place
mirror_low_zero y l = let z : y ≡ 0 = omega arith in rw z refl

mirror_high_zero : (y : ℕ) → y < 1 → mirror 1 (1 + y) ≡ 2 * mirror 0 y + 1
unfolding mirror place
mirror_high_zero y l = let z : y ≡ 0 = omega arith in rw z refl

pub mirror_low : (k y : ℕ) → y < 2 ^ k → mirror (suc k) y ≡ 2 * mirror k y
mirror_low zero y l = mirror_low_zero y l
mirror_low (suc k) y l = omega (
  arith,
  mirror-suc (suc k) y,
  mirror-suc k y,
  place_next k (y % 2),
  mirror_low k (y / 2) (omega (arith, double k, l)),
)

pub mirror_high : (k y : ℕ) → y < 2 ^ k → mirror (suc k) (2 ^ k + y) ≡ 2 * mirror k y + 1
mirror_high zero y l = mirror_high_zero y l
mirror_high (suc k) y l =
    let e1 : (2 ^ suc k + y) % 2 ≡ y % 2 = omega (arith, double k) in
    let e2 : (2 ^ suc k + y) / 2 ≡ 2 ^ k + y / 2 = omega (arith, double k) in
    rw (mirror-suc (suc k) (2 ^ suc k + y), e1, e2)
      (omega (
        arith,
        mirror-suc k y,
        place_next k (y % 2),
        mirror_high k (y / 2) (omega (arith, double k, l)),
      ))

-- Mirrored twice, a number of `k` bits is itself again.
pub mirror-mirror : (k x : ℕ) → x < 2 ^ k → mirror k (mirror k x) ≡ x
mirror-mirror zero x h = zero_lem
  where
    zero_lem : mirror 0 (mirror 0 x) ≡ x
    zero_lem = omega (arith, mirror_bound 0 (mirror 0 x), h)
mirror-mirror (suc k) x h =
    let again = mirror-mirror k (x / 2) (omega (arith, double k, h)) in
    elim (place-cases k x) [
      | inl (e, p) ↦
          let q : place k (x % 2) + mirror k (x / 2) ≡ mirror k (x / 2) = omega (arith, p) in
          rw (mirror-suc k x, q)
            (mirror_low k (mirror k (x / 2)) (mirror_bound k (x / 2)) ∙ omega (arith, e, again))
      | inr (e, p) ↦
          rw (mirror-suc k x, p)
            (mirror_high k (mirror k (x / 2)) (mirror_bound k (x / 2)) ∙ omega (arith, e, again))
    ]

-- The place behind a number is worth twice as much.
shifted : (n ret : ℕ) → ret * 2 ^ suc n ≡ 2 * (ret * 2 ^ n)
shifted n ret = ap (λ p. ret * p) (double n) ∙ mul-add ret (2 ^ n) (2 ^ n) ∙ omega arith

shifted_bit : (n ret : ℕ) → (2 * ret + 1) * 2 ^ n ≡ 2 * (ret * 2 ^ n) + 2 ^ n
shifted_bit n ret = add-mul (2 * ret) 1 (2 ^ n) ∙ omega (arith, mul_assoc 2 ret (2 ^ n))

-- A bit shifted in behind a number.
shifted_in : (n ret num : ℕ) → (2 * ret + num % 2) * 2 ^ n ≡ 2 * (ret * 2 ^ n) + place n (num % 2)
shifted_in n ret num = elim (place-cases n num) [
  | inl (e, p) ↦
      ap (λ b. (2 * ret + b) * 2 ^ n) e
      ∙ ap (λ b. b * 2 ^ n) even
      ∙ mul_assoc 2 ret (2 ^ n)
      ∙ omega (arith, p)
  | inr (e, p) ↦ ap (λ b. (2 * ret + b) * 2 ^ n) e ∙ shifted_bit n ret ∙ omega (arith, p)
]
  where
    even : 2 * ret + 0 ≡ 2 * ret
    even = omega arith

-- The loop shifts the mirrored bits in behind those that it has.
loop_lem :
    (n ret num : ℕ)
    → ret * 2 ^ n + 2 ^ n ≤ 2 ^ 32
    → reverse_loop n ret num ≡ ret * 2 ^ n + mirror n num
unfolding reverse_loop
loop_lem zero ret num h = omega (arith, mirror_bound 0 num)
loop_lem (suc n) ret num h = rw small (
    loop_lem n (2 * ret + num % 2) (num / 2) fits
    ∙ omega (arith, shifted_in n ret num, shifted n ret, mirror-suc n num))
  where
    small : (2 * ret) % 2 ^ 32 ≡ 2 * ret
    small =
        omega (arith, h, shifted n ret, le-mul_of_pos_right ret (some_power n), some_power (suc n))

    fits : (2 * ret + num % 2) * 2 ^ n + 2 ^ n ≤ 2 ^ 32
    fits = elim (place-cases n num) [
      | inl (e, p) ↦ omega (arith, p, shifted_in n ret num, shifted n ret, double n, h)
      | inr (e, p) ↦ omega (arith, p, shifted_in n ret num, shifted n ret, double n, h)
    ]

-- `reverse` mirrors the 32 bits of a number.
pub reverse-mirror : (num : ℕ) → reverse num ≡ mirror 32 num
unfolding reverse
reverse-mirror num = loop_lem 32 0 num (omega arith) ∙ omega arith
