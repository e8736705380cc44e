-- ===== src/ListSet.antt =====
-- list_set.hpp and list_set.cpp: a set of integers as a sorted chain of nodes. The nodes live at
-- addresses; `none` is NULL. Every operation but `clear` runs under the mutex `m`, so that calls
-- follow each other: an operation is a function of the state. The result `none` of an operation is
-- the use of a node that is not there (or a loop that its fuel did not end).
pub mod Chain
mod Scan
mod Tests
pub mod Remove
pub mod Query
pub mod Insert
pub mod Represents
mod Sorted
use mathlib.Core.Option
use multicore_programming_la.Common.{
  ℕ, zero, suc, Bool, true, false, not, Option, none, some, ℤ, ltb_ℤ, eqb_ℤ, ◌==◌, if◌then◌else◌,
}

-- `struct Node`
pub record Node : Type 0 where
  pub value : ℤ
  pub next : Option ℕ

abbrev pub Memory : Type 0
Memory = ℕ → Option Node

-- `Head`, with the memory that the nodes are in; no address from `fresh` on was ever given out.
pub record ListBasedSet : Type 0 where
  pub head : Option ℕ
  pub memory : Memory
  pub fresh : ℕ

-- An assignment to what an address holds; `delete` leaves nothing there.
unfoldable pub store : ℕ → Option Node → Memory → Memory
store a n mem i = if i == a then n else mem i

abbrev pub delete : ℕ → ListBasedSet → ListBasedSet
delete a s = record s { memory = store a none s.memory }

-- `node->next = to`
unfoldable pub set_next : Option ℕ → Option ℕ → ListBasedSet → Option ListBasedSet
set_next none to s = none
set_next (some a) to s = elim (s.memory a) [
  | none ↦ none
  | some n ↦ some (record s { memory = store a (some (record n { next = to })) s.memory })
]

-- The value of a node, for a test of it.
unfoldable pub value_at : Memory → ℕ → Option ℤ
value_at mem a = elim (mem a) [ none ↦ none | some n ↦ some n.value ]

pub record Cursor : Type 0 where
  pub prev : Option ℕ
  pub current : Option ℕ

-- `while (currentNode != NULL && more(currentNode->value)) { prevNode = currentNode; ... }`
unfoldable pub scan : (ℤ → Bool) → ℕ → Memory → Option ℕ → Option ℕ → Option Cursor
scan more zero mem prev current = none
scan more (suc fuel) mem prev none = some (record { prev = prev; current = none })
scan more (suc fuel) mem prev (some a) = elim (mem a) [
  | none ↦ none
  | some n ↦ elim (more n.value) [
    | true ↦ scan more fuel mem (some a) n.next
    | false ↦ some (record { prev = prev; current = some a })
  ]
]

unfoldable pub create : ListBasedSet
create = record { head = none; memory = λ a. none; fresh = zero }

-- `new struct Node()`, with the value and a `next` of NULL.
abbrev pub new_node : ℤ → ListBasedSet → ListBasedSet
new_node value s = record s {
  memory = store s.fresh (some (record { value = value; next = none })) s.memory;
  fresh = suc s.fresh;
}

-- `insert` behind its loop: at the end, on the value itself, or in the middle.
unfoldable pub insert_at : ℤ → ℕ → Cursor → ListBasedSet → Option (Bool × ListBasedSet)
insert_at value new at s = elim at.current [
  | none ↦ Option.map (λ s'. (true, s')) (set_next at.prev (some new) s)
  | some a ↦ elim (value_at s.memory a) [
    | none ↦ none
    | some v ↦ elim (eqb_ℤ v value) [
      | true ↦ some (false, delete new s)
      | false ↦
          Option.bind (set_next at.prev (some new) s)
            (λ s'. Option.map (λ s2. (true, s2)) (set_next (some new) (some a) s'))
    ]
  ]
]

unfoldable pub insert : ℕ → ℤ → ListBasedSet → Option (Bool × ListBasedSet)
insert fuel value s =
    let new = s.fresh in
    let s1 = new_node value s in
    elim s.head [
      | none ↦ some (true, record s1 { head = some new })
      | some a ↦ elim (value_at s1.memory a) [
        | none ↦ none
        | some v ↦ elim (ltb_ℤ value v) [
          | true ↦
              Option.map (λ s2. (true, s2))
                (set_next (some new) (some a) (record s1 { head = some new }))
          | false ↦
              Option.bind (scan (λ w. ltb_ℤ w value) fuel s1.memory none (some a))
                (λ at. insert_at value new at s1)
        ]
      ]
    ]

-- `currentNode == Head`
abbrev pub is_head : ListBasedSet → ℕ → Bool
is_head s a = elim s.head [ none ↦ false | some h ↦ a == h ]

-- `remove` behind its loop.
unfoldable pub remove_at : Cursor → ListBasedSet → Option (Bool × ListBasedSet)
remove_at at s = elim at.current [
  | none ↦ some (false, s)
  | some a ↦ elim (s.memory a) [
    | none ↦ none
    | some n ↦ elim (is_head s a) [
      | true ↦ some (true, delete a (record s { head = n.next }))
      | false ↦ Option.map (λ s'. (true, delete a s')) (set_next at.prev n.next s)
    ]
  ]
]

unfoldable pub remove : ℕ → ℤ → ListBasedSet → Option (Bool × ListBasedSet)
remove fuel value s = elim s.head [
  | none ↦ some (false, s)
  | some h ↦
      Option.bind (scan (λ w. not (eqb_ℤ w value)) fuel s.memory none (some h))
        (λ at. remove_at at s)
]

unfoldable pub lookup : ℕ → ℤ → ListBasedSet → Option Bool
lookup fuel value s = elim s.head [
  | none ↦ some false
  | some h ↦ Option.bind (scan (λ w. ltb_ℤ w value) fuel s.memory none (some h)) (λ at.
      elim at.current [
        | none ↦ some false
        | some a ↦ Option.map (λ v. not (ltb_ℤ value v)) (value_at s.memory a)
      ])
]

-- The loop of `clear` and of the destructor.
unfoldable pub delete_all : ℕ → Option ℕ → Memory → Option Memory
delete_all zero current mem = none
delete_all (suc fuel) none mem = some mem
delete_all (suc fuel) (some a) mem = elim (mem a) [
  | none ↦ none
  | some n ↦ delete_all fuel n.next (store a none mem)
]

unfoldable pub clear : ℕ → ListBasedSet → Option ListBasedSet
clear fuel s =
    Option.map (λ mem. record s { head = none; memory = mem }) (delete_all fuel s.head s.memory)

-- The loop of `checkIntegrity`: the value of `prevNode`, and `currentNode`.
unfoldable pub ascends : ℕ → Memory → ℤ → Option ℕ → Option Bool
ascends zero mem before current = none
ascends (suc fuel) mem before none = some true
ascends (suc fuel) mem before (some a) = elim (mem a) [
  | none ↦ none
  | some n ↦ elim (ltb_ℤ before n.value) [
    | true ↦ ascends fuel mem n.value n.next
    | false ↦ some false
  ]
]

unfoldable pub check_integrity : ℕ → ListBasedSet → Option Bool
check_integrity fuel s = elim s.head [
  | none ↦ some true
  | some h ↦ elim (s.memory h) [ none ↦ none | some n ↦ ascends fuel s.memory n.value n.next ]
]
