-- ===== src/HashTable.antt =====
-- The keys and buckets of lock_free_hash_table.cpp: the order of the nodes in the list that all
-- buckets share (split order), and the parent of a bucket. Keys are of type uint32_t, bucket numbers
-- of type size_t.
pub mod Reverse
pub mod Keys
pub mod Parent
mod Tests
use mathlib.Core.Option
use multicore_programming_la.Common.{
  leb, ℕ, zero, suc, ◌+◌, ◌*◌, ◌/◌, ◌%◌, ◌^◌, Option, none, some, ◌==◌, if◌then◌else◌,
}

-- `n` rounds of the loop of `reverse`: `ret <<= 1; ret |= Num & 1; Num >>= 1`. The low bit of
-- `ret << 1` is 0, so that `|` adds.
unfoldable pub reverse_loop : ℕ → ℕ → ℕ → ℕ
reverse_loop zero ret num = ret
reverse_loop (suc n) ret num = reverse_loop n ((2 * ret) % 2 ^ 32 + num % 2) (num / 2)

unfoldable pub reverse : ℕ → ℕ
reverse num = reverse_loop 32 0 num

-- `key_t | 0x80000000`: the high bit is set, the others stay.
abbrev pub with_high_bit : ℕ → ℕ
with_high_bit key = key % 2 ^ 31 + 2 ^ 31

unfoldable pub so_regularkey : ℕ → ℕ
so_regularkey key = reverse (with_high_bit key)

unfoldable pub so_dummykey : ℕ → ℕ
so_dummykey key = reverse key

-- The loop of `GET_PARENT`: how often `temp` can be halved before it is 1 or 0; `none` is fuel that
-- ran out.
unfoldable pub count_halves : ℕ → ℕ → Option ℕ
count_halves zero temp = none
count_halves (suc fuel) temp =
    if temp / 2 == 0 then some 0 else Option.map (λ c. c + 1) (count_halves fuel (temp / 2))

-- `index & temp` for `temp = pow(2, count) - 1`, which is a double: from 54 on the difference is rounded
-- to 2^count, whose only bit is the one at `count`.
abbrev pub masked : ℕ → ℕ → ℕ
masked count index = if leb count 53 then index % 2 ^ count else (index / 2 ^ count) % 2 * 2 ^ count

unfoldable pub get_parent : ℕ → Option ℕ
get_parent index = Option.map (λ c. masked c index) (count_halves 64 index)
