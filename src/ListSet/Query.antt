-- ===== src/ListSet/Query.antt =====
-- `lookup`, `checkIntegrity` and `clear` of list_set.cpp.
use multicore_programming_la.Common.{
  both_values, ℕ, zero, suc, ◌<◌, ◌≤◌, ◌≡◌, refl, sym, ap, ◌∙◌, true, false, ◌&&◌, none, some, List,
  [], ◌∷◌, ℤ, ltb_ℤ, arith, inl, inr, Bool-cases, length,
}
use mathlib.Core.Option
use multicore_programming_la.ListSet.{
  Memory, store, ListBasedSet, lookup, clear, delete_all, ascends, check_integrity, value_at,
}
use multicore_programming_la.ListSet.Chain.{
  Cell, entry, Linked, member, above, sorted, has_addr, distinct, Linked-split, store_self,
  store_ne, distinct-cons, has_addr-tail,
}
use multicore_programming_la.ListSet.Scan.{before, after, before-after, after-cases, scan_lem}
use multicore_programming_la.ListSet.Sorted.{member-sorted, above_trans}
use multicore_programming_la.ListSet.Represents.{Represents, Linked-store}

-- `checkIntegrity` returns whether the values ascend, for any chain of nodes.
ascends_lem :
    (fuel : ℕ) (mem : Memory) (v : ℤ) (cs : List Cell)
    → Linked mem cs none
    → length cs < fuel
    → ascends fuel mem v (entry cs none) ≡ some (above v cs && sorted cs)
unfolding ascends Linked entry above sorted
ascends_lem zero mem v cs l h = absurd (omega arith)
ascends_lem (suc fuel) mem v [] l h = refl
ascends_lem (suc fuel) mem v ((a, w) ∷ cs) (at, l) h = elim (Bool-cases (ltb_ℤ v w)) [
  | inl e ↦
      rw (at, e)
        (ascends_lem fuel mem w cs l (omega arith) ∙ ap some (ground (arith, above_trans v w cs)))
  | inr e ↦ rw (at, e) refl
]

-- For any chain of nodes that Head starts, sorted or not, and fuel not below their number,
-- checkIntegrity returns whether their values ascend.
check_integrity-sorted :
    (fuel : ℕ) (s : ListBasedSet) (cs : List Cell)
    → s.head ≡ entry cs none
    → Linked s.memory cs none
    → length cs ≤ fuel
    → check_integrity fuel s ≡ some (sorted cs)
unfolding check_integrity Linked entry sorted
check_integrity-sorted fuel s [] e l h = rw (e, entry, check_integrity) refl
check_integrity-sorted fuel s ((a, w) ∷ cs) e (at, l) h =
    rw (e, entry, check_integrity, at) (ascends_lem fuel s.memory w cs l (omega arith))

-- For a set that represents a sorted chain of cells, and fuel above their number, lookup returns
-- whether the value is in it.
pub lookup-member :
    (fuel : ℕ) {s : ListBasedSet} (cs : List Cell)
    → Represents s cs
    → (v : ℤ) → length cs < fuel
    → lookup fuel v s ≡ some (member v cs)
unfolding lookup entry Option.bind value_at member Linked
lookup-member fuel [] rep v h = rw (rep.starts, entry, lookup) refl
lookup-member fuel {s} ((a, w) ∷ cs) rep v h =
    let e = scan_lem (λ u. ltb_ℤ u v) fuel s.memory none ((a, w) ∷ cs) rep.linked h in
    elim (after-cases (λ u. ltb_ℤ u v) ((a, w) ∷ cs)) [
      | inl z ↦
          rw (member-sorted v ((a, w) ∷ cs) rep.ordered, z)
            (rw (rep.starts, entry, lookup, e, Option.bind, z) refl)
      | inr (b, u, ys, z, t) ↦
          let l =
            Linked-split s.memory (before (λ u. ltb_ℤ u v) ((a, w) ∷ cs))
              (after (λ u. ltb_ℤ u v) ((a, w) ∷ cs)) none
              (rw (before-after (λ u. ltb_ℤ u v) ((a, w) ∷ cs)) rep.linked) in
          let at = (rw z at (l.1)).0 in
          rw (member-sorted v ((a, w) ∷ cs) rep.ordered, z)
            (rw (rep.starts, entry, lookup, e, Option.bind, z, entry, value_at, at)
              (ap some (ground arith)))
    ]

delete_all_lem :
    (fuel : ℕ) (mem : Memory) (cs : List Cell)
    → Linked mem cs none
    → distinct cs ≡ true
    → length cs < fuel
    → (mem' : Memory) × (delete_all fuel (entry cs none) mem ≡ some mem')
      × ((i : ℕ) → has_addr i cs ≡ true → mem' i ≡ none)
      × ((i : ℕ) → has_addr i cs ≡ false → mem' i ≡ mem i)
unfolding delete_all Linked entry distinct has_addr
delete_all_lem zero mem cs l d h = absurd (omega arith)
delete_all_lem (suc fuel) mem [] l d h = (mem, refl, (λ i k. absurd cc), (λ i k. refl))
delete_all_lem (suc fuel) mem ((a, v) ∷ cs) (at, l) d h =
    let (mem', e, gone, kept) =
      delete_all_lem fuel (store a none mem) cs
        (Linked-store mem cs none a none (distinct-cons a v cs d).0 l) (distinct-cons a v cs d).1
        (omega arith) in
    (
      mem',
      rw at e,
      (λ i k. elim (Bool-cases (has_addr i cs)) [
        | inl m ↦ gone i m
        | inr m ↦ kept i m ∙ ap (store a none mem) (ground arith) ∙ store_self a none mem
      ]),
      (λ i k. kept i (has_addr-tail i a v cs k) ∙ store_ne a i none mem (ground arith)),
    )

-- For a set that represents a chain of cells, and fuel above their number, clear ends and leaves a
-- set that represents the empty chain, without any node in memory.
clear-empties :
    (fuel : ℕ) {s : ListBasedSet} (cs : List Cell)
    → Represents s cs
    → length cs < fuel
    → (s' : ListBasedSet) × (clear fuel s ≡ some s') × Represents s' []
unfolding clear Linked entry sorted distinct has_addr
clear-empties fuel {s} cs rep h =
    let (mem', e, gone, kept) = delete_all_lem fuel s.memory cs rep.linked rep.apart h in
    (
      record s { head = none; memory = mem' },
      rw (rep.starts, e) refl,
      record {
        starts = refl;
        linked = tt;
        ordered = refl;
        apart = refl;
        no_other = λ i k. elim (Bool-cases (has_addr i cs)) [
          | inl m ↦ gone i m
          | inr m ↦ kept i m ∙ rep.no_other i m
        ];
        below = λ i k. absurd (both_values (sym k));
      },
    )
