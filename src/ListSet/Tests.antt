-- ===== src/ListSet/Tests.antt =====
-- Runs of the set, after list_set_test.cpp, and its theorems at a concrete set.
use multicore_programming_la.Common.{
  ◌≡◌, refl, true, false, none, some, Option, [], ◌∷◌, pos, negsuc, arith, Bool,
}
use mathlib.Core.Option
use multicore_programming_la.ListSet.{
  ListBasedSet, create, insert, insert_at, remove, remove_at, lookup, scan, value_at, store,
  set_next,
}
use multicore_programming_la.ListSet.Chain.{
  entry, Linked, has_addr, distinct, sorted, above, member,
}
use multicore_programming_la.ListSet.Represents.{Represents, create-Represents}
use multicore_programming_la.ListSet.Insert.{Inserted, insert-Inserted}
use multicore_programming_la.ListSet.Remove.{Removed, remove-Removed}
use multicore_programming_la.ListSet.Query.{lookup-member}

-- The set of 5.
abbrev five : Inserted create [] (pos 5) (insert 9 (pos 5) create)
five = insert-Inserted 9 [] create-Represents (pos 5) (omega arith)

insert-Inserted_example : Inserted create [] (pos 5) (insert 9 (pos 5) create)
insert-Inserted_example = insert-Inserted 9 [] create-Represents (pos 5) (omega arith)

abbrev one_node : ListBasedSet
one_node = record {
  head = some 0;
  memory = store 0 (some (record { value = pos 5; next = none })) (λ a. none);
  fresh = 1;
}

one_node-Represents : Represents one_node ((0, pos 5) ∷ [])
unfolding store Linked entry has_addr distinct sorted above
one_node-Represents = record {
  starts = refl;
  linked = (refl, tt);
  ordered = refl;
  apart = refl;
  no_other = λ i k. ground arith;
  below = λ i k. ground arith;
}

remove-Removed_example : Removed one_node ((0, pos 5) ∷ []) (pos 5) (remove 2 (pos 5) one_node)
remove-Removed_example =
    remove-Removed 2 ((0, pos 5) ∷ []) one_node-Represents (pos 5) (omega arith)

lookup-member_example : lookup 2 (negsuc 2) one_node ≡ some false
unfolding member
lookup-member_example =
    lookup-member 2 ((0, pos 5) ∷ []) one_node-Represents (negsuc 2) (omega arith)

-- 5, then -3 before it and 9 behind it; 5 once more; 5 taken out.
abbrev script : Option (Bool × Bool × Bool × Option Bool)
script = Option.bind (insert 9 (pos 5) create) (λ r0. Option.bind (insert 9 (negsuc 2) r0.1) (λ r1.
    Option.bind (insert 9 (pos 9) r1.1) (λ r2. Option.bind (insert 9 (pos 5) r2.1) (λ r3.
      Option.bind (remove 9 (pos 5) r3.1) (λ r4. some (r2.0, r3.0, r4.0, lookup 9 (pos 9) r4.1))))))

script_result : script ≡ some (true, false, true, some true)
unfolding insert insert_at remove remove_at lookup create scan value_at store set_next Option.bind
script_result = refl
