-- ===== src/HashTable/Tests.antt =====
-- Keys and buckets at concrete numbers, and the theorems there.
use multicore_programming_la.Common.{
  suc, ltb, if◌then◌else◌, ◌-◌, ◌≤◌, ℕ, ◌+◌, ◌%◌, ◌^◌, ◌<◌, ◌≡◌, ◌↔◌, refl, some, arith, ltb, true,
}
use multicore_programming_la.HashTable.{
  reverse, reverse_loop, so_regularkey, so_dummykey, get_parent, count_halves,
}
use multicore_programming_la.HashTable.Keys.{so_regularkey-collision}
use multicore_programming_la.HashTable.Parent.{get_parent-clears}

reverse_six : reverse 6 ≡ 1610612736
unfolding reverse reverse_loop
reverse_six = refl

-- Here the difference is rounded.
parent_rounded : get_parent (2 ^ 54 + 5) ≡ some (2 ^ 54)
unfolding get_parent count_halves
parent_rounded = refl

parent_of_ten : get_parent 10 ≡ some 2
unfolding get_parent count_halves
parent_of_ten = refl

-- With 10000 buckets, key 10016 is in bucket 16, but the node of the bucket comes behind that of the
-- key.
behind_its_key : ltb (so_regularkey 10016) (so_dummykey (10016 % 10000)) ≡ true
unfolding so_regularkey so_dummykey reverse reverse_loop
behind_its_key = refl

so_regularkey-collision_example :
    (so_regularkey 5 ≡ so_regularkey 2147483653) ↔ (5 % 2 ^ 31 ≡ 2147483653 % 2 ^ 31)
so_regularkey-collision_example = so_regularkey-collision 5 2147483653

get_parent-clears_example :
    (c : ℕ) × (2 ^ c ≤ 10)
    × (10 < 2 ^ suc c)
    × (get_parent 10 ≡ some (if ltb 10 (2 ^ 54) then 10 - 2 ^ c else 2 ^ c))
get_parent-clears_example = get_parent-clears 10 (omega arith) (omega arith)
