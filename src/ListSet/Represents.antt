-- ===== src/ListSet/Represents.antt =====
-- The invariant of a set: its nodes are a sorted chain, and nothing else is in memory.
use multicore_programming_la.Common.{
  both_values, ℕ, suc, ◌<◌, ◌≡◌, refl, sym, ap, ◌∙◌, true, false, Option, none, some, List, [], ◌∷◌,
  ◌++◌, ℤ, arith, inl, inr, Bool-cases, ◌==◌, ==_iff,
}
use multicore_programming_la.ListSet.{Node, Memory, store, ListBasedSet, create, new_node, delete}
use multicore_programming_la.ListSet.Chain.{
  Cell, entry, Linked, sorted, has_addr, distinct, Linked-agree, Linked-append, Linked-split,
  store_self, store_ne, has_addr-append, entry-append,
}
use multicore_programming_la.ListSet.Sorted.{has_addr-insert, distinct-insert}

-- The set holds its values in the nodes at `cs`, and no other node: none is lost.
pub record Represents (s : ListBasedSet) (cs : List Cell) : Type 0 where
  pub starts : s.head ≡ entry cs none
  pub linked : Linked s.memory cs none
  pub ordered : sorted cs ≡ true
  pub apart : distinct cs ≡ true
  pub no_other : (i : ℕ) → has_addr i cs ≡ false → s.memory i ≡ none
  pub below : (i : ℕ) → has_addr i cs ≡ true → i < s.fresh

pub create-Represents : Represents create []
unfolding create Linked entry sorted distinct has_addr
create-Represents = record {
  starts = refl;
  linked = tt;
  ordered = refl;
  apart = refl;
  no_other = λ i h. refl;
  below = λ i h. absurd (cc);
}

-- A chain in two memories that differ at one address, which is not of the chain.
pub Linked-store :
    (mem : Memory) (cs : List Cell) (q : Option ℕ) (a : ℕ) (n : Option Node)
    → has_addr a cs ≡ false
    → Linked mem cs q
    → Linked (store a n mem) cs q
Linked-store mem cs q a n h l =
    Linked-agree mem (store a n mem) cs q (λ i k. store_ne a i n mem (ground (arith, h, k))) l

module _ {s : ListBasedSet} {cs : List Cell} (rep : Represents s cs) where
  open rep use {starts, linked, ordered, apart, no_other, below}

  -- No node stands at the address that `new` gives.
  pub fresh_apart : has_addr s.fresh cs ≡ false
  fresh_apart = elim (Bool-cases (has_addr s.fresh cs)) [
    | inl e ↦ absurd (omega (arith, below s.fresh e))
    | inr e ↦ e
  ]

  -- A new node that is deleted again leaves the set as it was.
  pub deleted-Represents : (v : ℤ) → Represents (delete s.fresh (new_node v s)) cs
  deleted-Represents v = record {
    starts = starts;
    linked =
        Linked-store _ cs none s.fresh none fresh_apart
          (Linked-store s.memory cs none s.fresh _ fresh_apart linked);
    ordered = ordered;
    apart = apart;
    no_other = λ i h. elim (Bool-cases (i == s.fresh)) [
      | inl e ↦ ground (arith, store_self s.fresh none (new_node v s).memory)
      | inr e ↦
          store_ne s.fresh i none (new_node v s).memory e
          ∙ store_ne s.fresh i _ s.memory e
          ∙ no_other i h
    ];
    below = λ i h. omega (arith, below i h);
  }

-- An address of the second part of a chain is not in the first.
pub distinct-apart :
    (i : ℕ) (xs ys : List Cell)
    → distinct (xs ++ ys) ≡ true
    → has_addr i ys ≡ true
    → has_addr i xs ≡ false
unfolding distinct has_addr
distinct-apart i [] ys d h = refl
distinct-apart i ((a, v) ∷ xs) ys d h =
    ground (arith, distinct-apart i xs ys, has_addr-append a xs ys)

pub distinct-left : (xs ys : List Cell) → distinct (xs ++ ys) ≡ true → distinct xs ≡ true
unfolding distinct
distinct-left [] ys d = refl
distinct-left ((a, v) ∷ xs) ys d = ground (arith, distinct-left xs ys, has_addr-append a xs ys)

-- The address of a new node is in neither part, where it is not in the chain.
pub absent_parts :
    (i : ℕ) (xs ys : List Cell)
    → has_addr i (xs ++ ys) ≡ false
    → (has_addr i xs ≡ false) × (has_addr i ys ≡ false)
absent_parts i xs ys h = ground (arith, has_addr-append i xs ys)

pub has_addr_ne :
    (i j : ℕ) (ys : List Cell) → has_addr i ys ≡ true → has_addr j ys ≡ false → (i == j) ≡ false
has_addr_ne i j ys h k = elim (Bool-cases (i == j)) [
  | inl e ↦ absurd (both_values (sym h ∙ ap (λ x. has_addr x ys) ((==_iff i j).0 e) ∙ k))
  | inr e ↦ e
]

-- A new node between the cells `xs` and `ys`, and everything else as it was.
module _ {s : ListBasedSet} (xs ys : List Cell) (v : ℤ) (rep : Represents s (xs ++ ys)) where
  open rep use {starts, linked, ordered, apart, no_other, below}

  -- The cells behind the new node are still linked.
  linked_behind :
      (mem : Memory)
      → ((i : ℕ) → (i == s.fresh) ≡ false → has_addr i xs ≡ false → mem i ≡ s.memory i)
      → Linked mem ys none
  linked_behind mem same =
      Linked-agree s.memory mem ys none
        (λ i h.
          same i (has_addr_ne i s.fresh ys h (absent_parts s.fresh xs ys (fresh_apart rep)).1)
            (distinct-apart i xs ys apart h))
        (Linked-split s.memory xs ys none linked).1

  pub grown-Represents :
      (s' : ListBasedSet)
      → s'.head ≡ entry xs (some s.fresh)
      → s'.fresh ≡ suc s.fresh
      → Linked s'.memory xs (some s.fresh)
      → s'.memory s.fresh ≡ some (record { value = v; next = entry ys none })
      → ((i : ℕ) → (i == s.fresh) ≡ false → has_addr i xs ≡ false → s'.memory i ≡ s.memory i)
      → sorted (xs ++ (s.fresh, v) ∷ ys) ≡ true
      → Represents s' (xs ++ (s.fresh, v) ∷ ys)
  unfolding Linked entry
  grown-Represents s' h f l at same o = record {
    starts = h ∙ sym (entry-append xs _ none);
    linked =
        Linked-append s'.memory xs ((s.fresh, v) ∷ ys) none l (at, linked_behind s'.memory same);
    ordered = o;
    apart = ground (arith, distinct-insert s.fresh v xs ys, fresh_apart rep, apart);
    no_other = λ i k.
        let (k1, k2) = not_there i k in same i k1 (absent_parts i xs ys k2).0 ∙ no_other i k2;
    below = λ i k. ground (arith, below i, has_addr-insert i s.fresh v xs ys);
  }
    where
      not_there :
          (i : ℕ)
          → has_addr i (xs ++ (s.fresh, v) ∷ ys) ≡ false
          → ((i == s.fresh) ≡ false) × (has_addr i (xs ++ ys) ≡ false)
      not_there i k = ground (arith, has_addr-insert i s.fresh v xs ys)
