-- ===== src/ListSet/Remove.antt =====
-- `remove` of list_set.cpp.
use multicore_programming_la.Common.{
  ℕ, ◌<◌, ◌≡◌, refl, sym, ap, subst, ◌∙◌, Bool, true, false, not, ◌&&◌, Option, none, some, List,
  [], ◌∷◌, ◌++◌, ℤ, eqb_ℤ, arith, inl, inr, Bool-cases, length, ◌==◌, ==_iff,
}
use mathlib.Core.Option
use multicore_programming_la.ListSet.{
  Cursor, ListBasedSet, delete, set_next, scan, remove, remove_at, is_head,
}
use multicore_programming_la.ListSet.Chain.{
  Cell, entry, Linked, last_addr, member, has_addr, distinct, Linked-agree, Linked-append,
  Linked-split, store_self, store_ne, Relinked, set_next-Relinked, entry-append, member-same,
}
use multicore_programming_la.ListSet.Scan.{before, after, before-after, after-cases, scan_lem}
use multicore_programming_la.ListSet.Sorted.{
  has_addr-insert, distinct-insert, member-insert, sorted-remove, sorted-absent, member-found,
}
use multicore_programming_la.ListSet.Represents.{
  Represents, Linked-store, distinct-left, distinct-apart, absent_parts, has_addr_ne,
}

-- What `remove` of `v` gives, of a set that holds `cs`.
pub record Removed (s : ListBasedSet) (cs : List Cell) (v : ℤ) (r : Option (Bool × ListBasedSet))
    : Type 0 where
  pub set_after : ListBasedSet
  pub cells : List Cell
  pub returns : r ≡ some (member v cs, set_after)
  pub holds : Represents set_after cells
  pub members : (w : ℤ) → member w cells ≡ (member w cs && not (eqb_ℤ v w))

-- The node between the cells `xs` and `ys` taken out, and everything else as it was.
module _ {s : ListBasedSet} (xs ys : List Cell) (b : ℕ) (u : ℤ)
    (rep : Represents s (xs ++ (b, u) ∷ ys)) where
  open rep use {starts, linked, ordered, apart, no_other, below}

  apart_rest : (has_addr b (xs ++ ys) ≡ false) × (distinct (xs ++ ys) ≡ true)
  apart_rest = ground (arith, distinct-insert b u xs ys, apart)

  linked_rest :
      Linked s.memory xs (some b)
      × (s.memory b ≡ some (record { value = u; next = entry ys none }))
      × Linked s.memory ys none
  unfolding Linked entry
  linked_rest = let (l, k) = Linked-split s.memory xs ((b, u) ∷ ys) none linked in (l, k.0, k.1)

  pub shrunk-Represents :
      (s' : ListBasedSet)
      → s'.head ≡ entry xs (entry ys none)
      → s'.fresh ≡ s.fresh
      → Linked s'.memory xs (entry ys none)
      → s'.memory b ≡ none
      → ((i : ℕ) → (i == b) ≡ false → has_addr i xs ≡ false → s'.memory i ≡ s.memory i)
      → Represents s' (xs ++ ys)
  shrunk-Represents s' h f l at same = record {
    starts = h ∙ sym (entry-append xs ys none);
    linked = Linked-append s'.memory xs ys none l (
        Linked-agree s.memory s'.memory ys none
          (λ i k.
            same i (has_addr_ne i b ys k (absent_parts b xs ys apart_rest.0).1)
              (distinct-apart i xs ys apart_rest.1 k))
          linked_rest.2);
    ordered = sorted-remove b u xs ys ordered;
    apart = apart_rest.1;
    no_other = λ i k. elim (Bool-cases (i == b)) [
      | inl e ↦ ap s'.memory ((==_iff i b).0 e) ∙ at
      | inr e ↦
          same i e (absent_parts i xs ys k).0
          ∙ no_other i (ground (arith, has_addr-insert i b u xs ys))
    ];
    below = λ i k. omega (arith, f, below i (ground (arith, has_addr-insert i b u xs ys)));
  }

  -- `s'` is the set without the node, when `v` is its value.
  pub shrunk :
      (v : ℤ) (r : Option (Bool × ListBasedSet)) (s' : ListBasedSet)
      → eqb_ℤ u v ≡ true
      → r ≡ some (true, s')
      → Represents s' (xs ++ ys)
      → Removed s (xs ++ (b, u) ∷ ys) v r
  shrunk v r s' e f k = record {
    set_after = s';
    cells = xs ++ ys;
    returns = rw (member-insert v b u xs ys, e) f;
    holds = k;
    members = λ w. ground (
      arith,
      member-insert w b u xs ys,
      sorted-absent b u xs ys ordered,
      member-same u v (xs ++ ys) e,
      member-same v w (xs ++ ys),
    );
  }

  -- `prevNode->next = currentNode->next; delete currentNode`
  pub unlinked :
      (a : ℕ) (w : ℤ) (zs : List Cell)
      → xs ≡ (a, w) ∷ zs
      → (s2 : ListBasedSet) × (set_next (last_addr none xs) (entry ys none) s ≡ some s2)
        × Represents (delete b s2) (xs ++ ys)
  unfolding last_addr entry
  unlinked a w zs e =
      let (s2, f, k) : (s2 : ListBasedSet) × (set_next (last_addr none xs) (entry ys none) s
            ≡ some s2)
          × Relinked s s2 xs (entry ys none) =
        rw e (
          set_next-Relinked s a w zs (some b) (entry ys none) (rw e at linked_rest.0)
            (rw e at (distinct-left xs ys apart_rest.1))) in
      let gone = (absent_parts b xs ys apart_rest.0).0 in
      (
        s2,
        f,
        shrunk-Represents (delete b s2)
            (k.head_kept ∙ starts ∙ entry-append xs ((b, u) ∷ ys) none ∙ rw e refl) k.fresh_kept
            (Linked-store s2.memory xs _ b none gone k.linked) (store_self b none s2.memory)
            (λ i h m. store_ne b i none s2.memory h ∙ k.others_kept i m),
      )

module _ (fuel : ℕ) {s : ListBasedSet} (v : ℤ) (h : ℕ) (w : ℤ) (cs : List Cell)
    (rep : Represents s ((h, w) ∷ cs)) (enough : length ((h, w) ∷ cs) < fuel) where
  abbrev other : ℤ → Bool
  other u = not (eqb_ℤ u v)

  abbrev all : List Cell
  all = (h, w) ∷ cs

  abbrev found : Cursor
  found = record {
    prev = last_addr none (before other all);
    current = entry (after other all) none;
  }

  scanned : scan other fuel s.memory none (some h) ≡ some found
  unfolding entry
  scanned = scan_lem other fuel s.memory none all rep.linked enough

  remove_scanned : remove fuel v s ≡ remove_at found s
  unfolding remove entry Option.bind
  remove_scanned =
      rw (rep.starts, entry, remove, scanned, Option.bind)
        (ap (λ x. remove_at found (record s { head = x })) rep.starts)

  -- The value is not there.
  remove_absent : after other all ≡ [] → Removed s all v (remove fuel v s)
  unfolding remove_at entry
  remove_absent z =
      let absent : member v all ≡ false = member-found v all ∙ rw z refl in
      record {
        set_after = s;
        cells = all;
        returns = rw absent (remove_scanned ∙ rw z refl);
        holds = rep;
        members = λ u. ground (arith, member-same v u all);
      }

  module _ (b : ℕ) (u : ℤ) (ys : List Cell) (z : after other all ≡ (b, u) ∷ ys)
      (eq : eqb_ℤ u v ≡ true) where
    abbrev xs : List Cell
    xs = before other all

    parts : xs ++ (b, u) ∷ ys ≡ all
    parts = ap (λ l. xs ++ l) (sym z) ∙ before-after other all

    rep_parts : Represents s (xs ++ (b, u) ∷ ys)
    rep_parts = rw parts rep

    abbrev rest :
        Linked s.memory xs (some b)
        × (s.memory b ≡ some (record { value = u; next = entry ys none }))
        × Linked s.memory ys none
    rest = linked_rest xs ys b u rep_parts

    -- The value is in the node at `b`.
    at_value :
        (s' : ListBasedSet)
        → remove_at found s ≡ some (true, s')
        → Represents s' (xs ++ ys)
        → Removed s all v (remove fuel v s)
    at_value s' e k =
        subst (λ l. Removed s l v (remove fuel v s)) parts
          (shrunk xs ys b u rep_parts v _ s' eq (remove_scanned ∙ e) k)

    -- It is the first node.
    remove_first : xs ≡ [] → Removed s all v (remove fuel v s)
    unfolding remove_at entry has_addr Linked
    remove_first e =
        let at_head : s.head ≡ some b = rep_parts.starts ∙ rw e refl in
        let is : is_head s b ≡ true = rw at_head (ground arith) in
        at_value (delete b (record s { head = entry ys none }))
          (rw (z, entry, remove_at, rest.1, is) refl)
          (shrunk-Represents xs ys b u rep_parts _ (rw e refl) refl
            (Linked-store s.memory xs _ b none (rw (e, has_addr) refl) (rw (e, Linked) tt))
            (store_self b none s.memory) (λ i k m. store_ne b i none s.memory k))

    -- It is a later node.
    remove_later : (zs : List Cell) → xs ≡ (h, w) ∷ zs → Removed s all v (remove fuel v s)
    unfolding remove_at entry has_addr
    remove_later zs e =
        let at_head : s.head ≡ some h = rep_parts.starts ∙ rw e refl in
        let apart : has_addr b ((h, w) ∷ zs) ≡ false =
          rw e at ((absent_parts b xs ys (apart_rest xs ys b u rep_parts).0).0) in
        let is : is_head s b ≡ false = rw at_head (ground arith) in
        let (s2, f, k) = unlinked xs ys b u rep_parts h w zs e in
        at_value (delete b s2) (rw (z, entry, remove_at, rest.1, is, f) refl) k

  remove_present :
      (b : ℕ) (u : ℤ) (ys : List Cell)
      → after other all ≡ (b, u) ∷ ys
      → eqb_ℤ u v ≡ true
      → Removed s all v (remove fuel v s)
  unfolding before
  remove_present b u ys z eq = elim (Bool-cases (eqb_ℤ w v)) [
    | inl e ↦ remove_first b u ys z eq (rw (e, before) refl)
    | inr e ↦ remove_later b u ys z eq (before other cs) (rw (e, before) refl)
  ]

-- For a set that represents a sorted chain of cells, and fuel above their number, remove ends,
-- returns whether the value was there, and leaves a set that represents a chain with exactly the
-- other values; no other node is left in memory.
pub remove-Removed :
    (fuel : ℕ) {s : ListBasedSet} (cs : List Cell)
    → Represents s cs
    → (v : ℤ) → length cs < fuel
    → Removed s cs v (remove fuel v s)
unfolding remove entry member
remove-Removed fuel {s} [] rep v h = record {
  set_after = s;
  cells = [];
  returns =
      rw (rep.starts, entry, remove) (ap (λ x. some (false, record s { head = x })) rep.starts);
  holds = rep;
  members = λ w. refl;
}
remove-Removed fuel ((a, w) ∷ cs) rep v h =
    elim (after-cases (λ u. not (eqb_ℤ u v)) ((a, w) ∷ cs)) [
      | inl z ↦ remove_absent fuel v a w cs rep h z
      | inr (b, u, ys, z, t) ↦ remove_present fuel v a w cs rep h b u ys z (ground arith)
    ]
