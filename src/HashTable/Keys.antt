-- ===== src/HashTable/Keys.antt =====
-- The keys of the nodes of the hash table: those of the values, and those of the buckets.
use multicore_programming_la.Common.{ℕ, ◌+◌, ◌*◌, ◌%◌, ◌^◌, ◌<◌, ◌≡◌, ◌↔◌, sym, ap, ◌∙◌, arith}
use multicore_programming_la.HashTable.{reverse, with_high_bit, so_regularkey, so_dummykey}
use multicore_programming_la.HashTable.Reverse.{
  mirror, mirror-mirror, reverse-mirror, mirror_low, mirror_high,
}

-- Reversed twice, a number below 2^32 is itself again.
pub reverse-reverse : (num : ℕ) → num < 2 ^ 32 → reverse (reverse num) ≡ num
reverse-reverse num h =
    rw (reverse-mirror num, reverse-mirror (mirror 32 num)) (mirror-mirror 32 num h)

reverse_injective : (a b : ℕ) → a < 2 ^ 32 → b < 2 ^ 32 → reverse a ≡ reverse b → a ≡ b
reverse_injective a b h k e = sym (reverse-reverse a h) ∙ ap reverse e ∙ reverse-reverse b k

-- The nodes of two values have the same key in the list exactly where the keys of the values agree
-- in their low 31 bits.
pub so_regularkey-collision :
    (a b : ℕ) → (so_regularkey a ≡ so_regularkey b) ↔ (a % 2 ^ 31 ≡ b % 2 ^ 31)
unfolding so_regularkey
so_regularkey-collision a b = (
  (λ e.
      omega (
        arith,
        reverse_injective (with_high_bit a) (with_high_bit b) (omega arith) (omega arith) e,
      )),
  (λ e. ap (λ k. reverse (k + 2 ^ 31)) e),
)

-- The node key of any value is odd, and that of a bucket with a number below 2^31 is even.
keys_apart :
    (key index : ℕ) → index < 2 ^ 31 → (so_regularkey key % 2 ≡ 1) × (so_dummykey index % 2 ≡ 0)
unfolding so_regularkey so_dummykey
keys_apart key index h = (
  rw (reverse-mirror (with_high_bit key)) (odd (mirror_high 31 (key % 2 ^ 31) (omega arith))),
  rw (reverse-mirror index) (omega (arith, mirror_low 31 index h)),
)
  where
    odd :
        mirror 32 (2 ^ 31 + key % 2 ^ 31) ≡ 2 * mirror 31 (key % 2 ^ 31) + 1
        → mirror 32 (with_high_bit key) % 2 ≡ 1
    odd e = ap (λ n. mirror 32 n % 2) (omega arith) ∙ ap (λ n. n % 2) e ∙ omega arith
