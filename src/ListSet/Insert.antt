-- ===== src/ListSet/Insert.antt =====
-- `insert` of list_set.cpp.
use multicore_programming_la.Common.{
  ℕ, suc, ◌<◌, ◌≡◌, refl, sym, ap, subst, ◌∙◌, Bool, true, false, not, ◌||◌, Option, none, some,
  List, [], ◌∷◌, ◌++◌, ℤ, ltb_ℤ, eqb_ℤ, arith, inl, inr, Bool-cases, length, ◌==◌,
}
use mathlib.Core.Option
use multicore_programming_la.ListSet.{
  Cursor, ListBasedSet, new_node, delete, set_next, scan, insert, insert_at, value_at,
}
use multicore_programming_la.ListSet.Chain.{
  Cell, entry, Linked, last_addr, member, has_addr, distinct, Linked-agree, Linked-split,
  store_self, store_ne, Relinked, set_next-Relinked, entry-append, member-same, has_addr-single,
}
use multicore_programming_la.ListSet.Scan.{before, after, before-after, after-cases, scan_lem}
use multicore_programming_la.ListSet.Sorted.{member-sorted, sorted-insert, member-insert}
use multicore_programming_la.ListSet.Represents.{
  Represents, fresh_apart, Linked-store, distinct-left, absent_parts, has_addr_ne,
  deleted-Represents, grown-Represents,
}

-- What `insert` of `v` gives, of a set that holds `cs`.
pub record Inserted (s : ListBasedSet) (cs : List Cell) (v : ℤ) (r : Option (Bool × ListBasedSet))
    : Type 0 where
  pub set_after : ListBasedSet
  pub cells : List Cell
  pub returns : r ≡ some (not (member v cs), set_after)
  pub holds : Represents set_after cells
  pub members : (w : ℤ) → member w cells ≡ (eqb_ℤ v w || member w cs)

module _ {s : ListBasedSet} {cs : List Cell} (rep : Represents s cs) (v : ℤ) where
  abbrev xs : List Cell
  xs = before (λ w. ltb_ℤ w v) cs

  abbrev ys : List Cell
  ys = after (λ w. ltb_ℤ w v) cs

  abbrev s1 : ListBasedSet
  s1 = new_node v s

  rep_parts : Represents s (xs ++ ys)
  rep_parts = rw (before-after (λ w. ltb_ℤ w v) cs) rep

  -- The parts of the chain, in a memory that has the new node too.
  linked_parts : Linked s1.memory xs (entry ys none) × Linked s1.memory ys none
  linked_parts =
      Linked-split s1.memory xs ys none
        (Linked-store s.memory (xs ++ ys) none s.fresh _ (fresh_apart rep_parts) rep_parts.linked)

  -- The new node in place.
  grown :
      (s2 : ListBasedSet) (r : Option (Bool × ListBasedSet))
      → member v cs ≡ false
      → r ≡ some (true, s2)
      → s2.head ≡ entry xs (some s.fresh)
      → s2.fresh ≡ suc s.fresh
      → Linked s2.memory xs (some s.fresh)
      → s2.memory s.fresh ≡ some (record { value = v; next = entry ys none })
      → ((i : ℕ) → (i == s.fresh) ≡ false → has_addr i xs ≡ false → s2.memory i ≡ s.memory i)
      → Inserted s cs v r
  unfolding Linked entry
  grown s2 r absent e h f l at same = record {
    set_after = s2;
    cells = xs ++ (s.fresh, v) ∷ ys;
    returns = rw absent e;
    holds =
        grown-Represents xs ys v rep_parts s2 h f l at same
          (sorted-insert v s.fresh cs rep.ordered absent);
    members = λ w.
        member-insert w s.fresh v xs ys
        ∙ ap (λ c. eqb_ℤ v w || member w c) (before-after (λ w. ltb_ℤ w v) cs);
  }

  -- A value that is there already.
  kept :
      (r : Option (Bool × ListBasedSet))
      → member v cs ≡ true
      → r ≡ some (false, delete s.fresh s1)
      → Inserted s cs v r
  kept r present e = record {
    set_after = delete s.fresh s1;
    cells = cs;
    returns = rw present e;
    holds = deleted-Represents rep v;
    members = λ w. ground (arith, member-same v w cs);
  }

  -- The new node behind all smaller ones, which are there: `prevNode->next = newNode`.
  behind :
      (a : ℕ) (w : ℤ) (zs : List Cell)
      → xs ≡ (a, w) ∷ zs
      → (s2 : ListBasedSet) × (set_next (last_addr none xs) (some s.fresh) s1 ≡ some s2)
        × Relinked s1 s2 xs (some s.fresh)
  unfolding last_addr
  behind a w zs e = rw e (
      set_next-Relinked s1 a w zs (entry ys none) (some s.fresh) (rw e at linked_parts.0)
        (rw e at (distinct-left xs ys rep_parts.apart)))

  fresh_not_before : has_addr s.fresh xs ≡ false
  fresh_not_before = (absent_parts s.fresh xs ys (fresh_apart rep_parts)).0

  -- The node behind the smaller ones holds what it held.
  value_behind : (b : ℕ) (u : ℤ) (zs : List Cell) → ys ≡ (b, u) ∷ zs → value_at s1.memory b ≡ some u
  unfolding value_at Linked
  value_behind b u zs e = let l = rw e at linked_parts.1 in rw (l.0, value_at) refl

  -- `newNode->next = currentNode`
  before_rest :
      (s2 : ListBasedSet) (q : Option ℕ)
      → s2.memory s.fresh ≡ some (record { value = v; next = none })
      → (s3 : ListBasedSet) × (set_next (some s.fresh) q s2 ≡ some s3)
        × Relinked s2 s3 ((s.fresh, v) ∷ []) q
  unfolding Linked entry distinct has_addr last_addr
  before_rest s2 q at = set_next-Relinked s2 s.fresh v [] none q (at, tt) refl

  same_entry :
      (a : ℕ) (w : ℤ) (zs : List Cell) → xs ≡ (a, w) ∷ zs → s.head ≡ entry xs (some s.fresh)
  unfolding entry
  same_entry a w zs e = rep_parts.starts ∙ entry-append xs ys none ∙ rw e refl

  -- The loop has passed the first node: what follows it.
  at_cursor :
      (a : ℕ) (w : ℤ) (zs : List Cell)
      → xs ≡ (a, w) ∷ zs
      → Inserted s cs v
          (insert_at v s.fresh (record { prev = last_addr none xs; current = entry ys none }) s1)
  unfolding insert_at entry Linked Option.bind before_rest
  at_cursor a w zs e =
      let (s2, e2, k) = behind a w zs e in
      let at : s2.memory s.fresh ≡ some (record { value = v; next = none }) =
        k.others_kept s.fresh fresh_not_before ∙ store_self s.fresh _ s.memory in
      elim (after-cases (λ w. ltb_ℤ w v) cs) [
        | inl z ↦
            grown s2 _ (member-sorted v cs rep.ordered ∙ rw z refl) (rw (z, e2) refl)
              (k.head_kept ∙ same_entry a w zs e) k.fresh_kept k.linked (rw z at)
              (λ i h m. k.others_kept i m ∙ store_ne s.fresh i _ s.memory h)
        | inr (b, u, ys', z, t) ↦ elim (Bool-cases (eqb_ℤ u v)) [
          | inl f ↦
              kept _ (member-sorted v cs rep.ordered ∙ rw z f)
                (rw (z, entry, insert_at, value_behind b u ys' z, f) refl)
          | inr f ↦
              let (s3, e3, k3) = before_rest s2 (some b) at in
              grown s3 _ (member-sorted v cs rep.ordered ∙ rw z f)
                (rw (z, entry, insert_at, value_behind b u ys' z, f, e2, e3) refl)
                (k3.head_kept ∙ k.head_kept ∙ same_entry a w zs e) (k3.fresh_kept ∙ k.fresh_kept)
                (Linked-agree s2.memory s3.memory xs (some s.fresh)
                  (λ i m.
                    k3.others_kept i
                      (has_addr-single i s.fresh v (has_addr_ne i s.fresh xs m fresh_not_before)))
                  k.linked)
                (rw z k3.linked.0)
                (λ i h m.
                  k3.others_kept i (has_addr-single i s.fresh v h)
                  ∙ k.others_kept i m
                  ∙ store_ne s.fresh i _ s.memory h)
        ]
      ]

insert_nil :
    (fuel : ℕ) {s : ListBasedSet} (rep : Represents s []) (v : ℤ)
    → Inserted s [] v (insert fuel v s)
unfolding insert before after Linked entry member
insert_nil fuel {s} rep v =
    grown rep v (record (new_node v s) { head = some s.fresh }) _ refl (rw rep.starts refl) refl
      refl tt (store_self s.fresh _ s.memory) (λ i h k. store_ne s.fresh i _ s.memory h)

module _ (fuel : ℕ) {s : ListBasedSet} (v : ℤ) (a : ℕ) (w : ℤ) (cs : List Cell)
    (rep : Represents s ((a, w) ∷ cs)) where
  first_at : (new_node v s).memory a ≡ some (record { value = w; next = entry cs none })
  unfolding Linked
  first_at = (Linked-store s.memory ((a, w) ∷ cs) none s.fresh _ (fresh_apart rep) rep.linked).0

  insert_first : ltb_ℤ v w ≡ true → Inserted s ((a, w) ∷ cs) v (insert fuel v s)
  unfolding insert value_at entry before after Linked
  insert_first f =
      let g : ltb_ℤ w v ≡ false = ground arith in
      let (s3, e3, k3) =
        before_rest rep v (record (new_node v s) { head = some s.fresh }) (some a)
          (store_self s.fresh _ s.memory) in
      grown rep v s3 _ (member-sorted v ((a, w) ∷ cs) rep.ordered ∙ rw (g, after) (ground arith))
        (rw (rep.starts, entry, insert, value_at, first_at, f, e3) refl)
        (rw (g, before) k3.head_kept) k3.fresh_kept (rw (g, before) tt) (rw (g, after) k3.linked.0)
        (λ i h m.
          k3.others_kept i (has_addr-single i s.fresh v h) ∙ store_ne s.fresh i _ s.memory h)

  abbrev found : Cursor
  found = record {
    prev = last_addr none (before (λ u. ltb_ℤ u v) ((a, w) ∷ cs));
    current = entry (after (λ u. ltb_ℤ u v) ((a, w) ∷ cs)) none;
  }

  -- The loop, with the new node in memory.
  scan_new :
      length ((a, w) ∷ cs) < fuel
      → scan (λ u. ltb_ℤ u v) fuel (new_node v s).memory none (some a) ≡ some found
  unfolding entry
  scan_new h =
      scan_lem (λ u. ltb_ℤ u v) fuel (new_node v s).memory none ((a, w) ∷ cs)
        (Linked-store s.memory ((a, w) ∷ cs) none s.fresh _ (fresh_apart rep) rep.linked) h

  -- Behind its loop, `insert` goes on from the node that the loop found.
  insert_scanned :
      ltb_ℤ v w ≡ false
      → length ((a, w) ∷ cs) < fuel
      → insert fuel v s ≡ insert_at v s.fresh found (new_node v s)
  unfolding insert value_at entry Option.bind
  insert_scanned f h =
      rw (rep.starts, entry, insert, value_at, first_at, f, scan_new h, Option.bind)
        (ap (λ x. insert_at v s.fresh (found) (record (new_node v s) { head = x })) rep.starts)

  insert_equal :
      ltb_ℤ v w ≡ false
      → ltb_ℤ w v ≡ false
      → length ((a, w) ∷ cs) < fuel
      → Inserted s ((a, w) ∷ cs) v (insert fuel v s)
  unfolding insert_at value_at entry member after
  insert_equal f g h =
      let e : eqb_ℤ w v ≡ true = ground arith in
      kept rep v _ (rw e refl)
        (insert_scanned f h ∙ rw (g, after, insert_at, value_at, first_at, e) refl)

  insert_past :
      ltb_ℤ v w ≡ false
      → ltb_ℤ w v ≡ true
      → length ((a, w) ∷ cs) < fuel
      → Inserted s ((a, w) ∷ cs) v (insert fuel v s)
  unfolding insert value_at entry before
  insert_past f g h =
      subst (λ r. Inserted s ((a, w) ∷ cs) v r) (sym (insert_scanned f h))
        (at_cursor rep v a w (before (λ u. ltb_ℤ u v) cs) (rw (g, before) refl))

-- For a set that represents a sorted chain of cells, and fuel above their number, insert ends,
-- returns whether the value was absent, and leaves a set that represents a chain with exactly the
-- old values and the new one; no other node is left in memory.
pub insert-Inserted :
    (fuel : ℕ) {s : ListBasedSet} (cs : List Cell)
    → Represents s cs
    → (v : ℤ) → length cs < fuel
    → Inserted s cs v (insert fuel v s)
insert-Inserted fuel [] rep v h = insert_nil fuel rep v
insert-Inserted fuel {s} ((a, w) ∷ cs) rep v h = elim (Bool-cases (ltb_ℤ v w)) [
  | inl f ↦ insert_first fuel v a w cs rep f
  | inr f ↦ elim (Bool-cases (ltb_ℤ w v)) [
    | inl g ↦ insert_past fuel v a w cs rep f g h
    | inr g ↦ insert_equal fuel v a w cs rep f g h
  ]
]
