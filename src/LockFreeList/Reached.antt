-- ===== src/LockFreeList/Reached.antt =====
-- What every schedule of lock_free_list.hpp leaves.
use multicore_programming_la.Common.{
  ℕ, zero, suc, ◌≡◌, ◌≢◌, refl, sym, ap, ◌∙◌, inl, inr, false, ◌||◌, some, no_result, List, [], ◌∷◌,
  leb, ◌==◌, arith, Bool-cases, Option-cases,
}
use mathlib.Core.Option.{some-injective}
use multicore_programming_la.MarkablePointer.{unmark, is_marked}
use multicore_programming_la.LockFreeList.{
  Node, Shared, node_of, Thread, Move, begin, go, has_ended, move, System, empty_list, move_thread,
  run_moves, ascends, check_integrity,
}
use multicore_programming_la.LockFreeList.Ordered.{node_of-word, LeadsOn, IsOrdered}
use multicore_programming_la.LockFreeList.Steps.{Knows, Knows-Extends, Kept}
use multicore_programming_la.LockFreeList.Advance.{advance-Kept}

-- The links are in order, and each thread knows what its place says.
pub record IsSound (y : System) : Type 0 where
  pub ordered : IsOrdered y.shared
  pub knows : (i : ℕ) → Knows y.shared (y.threads i) (y.threads i).pc

pub move-Kept :
    (m : Move) (t : Thread) (s : Shared) → IsOrdered s → Knows s t t.pc → Kept s (move m t s)
unfolding move
move-Kept (begin op key) t s h k = elim (Bool-cases (has_ended t.pc)) [
  | inl e ↦ rw e (record { ordered = h; extends = λ w k key. key; knows = tt })
  | inr e ↦ rw e (record { ordered = h; extends = λ w k key. key; knows = k })
]
move-Kept go t s h k = advance-Kept t.pc t s refl h k

pub move_thread-IsSound : (i : ℕ) (m : Move) (y : System) → IsSound y → IsSound (move_thread i m y)
unfolding move_thread
move_thread-IsSound i m y h =
    let k = move-Kept m (y.threads i) y.shared h.ordered (h.knows i) in
    record {
      ordered = k.ordered;
      knows = λ j. elim (Bool-cases (j == i)) [
        | inl e ↦ rw e k.knows
        | inr e ↦ rw e (Knows-Extends y.shared _ (y.threads j) _ k.extends (h.knows j))
      ];
    }

pub run_moves-IsSound : (ms : List (ℕ × Move)) (y : System) → IsSound y → IsSound (run_moves ms y)
unfolding run_moves
run_moves-IsSound [] y h = h
run_moves-IsSound ((i, m) ∷ ms) y h =
    run_moves-IsSound ms (move_thread i m y) (move_thread-IsSound i m y h)

pub empty_list-IsSound : IsSound empty_list
unfolding node_of
empty_list-IsSound = record {
  ordered = record { first = inl refl; edges = λ w n e. absurd (nothing w e) };
  knows = λ i. tt;
}
  where
    nothing : {n : Node} (w : ℕ) → node_of (record { head = 0; nodes = [] }) w ≡ some n → ⊥
    nothing w e = elim (Bool-cases (w == 0 || is_marked w)) [
      | inl f ↦ no_result (rw f at e)
      | inr f ↦ no_result (rw f at e)
    ]

-- A link in order is followed to a greater key.
ascends_if_ordered :
    (fuel before w : ℕ) (s : Shared)
    → IsOrdered s
    → LeadsOn s before (unmark w)
    → ascends fuel before w s ≢ some false
unfolding ascends
ascends_if_ordered zero before w s h on e = no_result e
ascends_if_ordered (suc fuel) before w s h on e = elim (Bool-cases (w == 0)) [
  | inl z ↦ ground (arith, rw (z, ascends) at e)
  | inr z ↦ elim (Option-cases (node_of s w)) [
    | inl gone ↦ no_result (rw (z, gone, ascends) at e)
    | inr (n, f) ↦
        let greater : (leb n.data_ before) ≡ false = above n f on in
        ascends_if_ordered fuel n.data_ n.next s h (h.edges w n f)
          (rw (z, f, greater, ascends) at e)
  ]
]
  where
    above :
        (n : Node) → node_of s w ≡ some n → LeadsOn s before (unmark w) → leb n.data_ before ≡ false
    above n f (inl z) = let (word, _) = node_of-word s w n f in ground arith
    above n f (inr (m, (x, at, d), lt)) =
        let (word, _) = node_of-word s w n f in
        let plain : unmark w ≡ w = ground arith in
        let same : x.data_ ≡ n.data_ =
          ap (λ y. y.data_) (some-injective _ _ (sym at ∙ ap (node_of s) plain ∙ f)) in
        ground arith

-- After any schedule of insertions, removals and lookups by any threads on a new list, as long as
-- no node that was retired is freed: checkIntegrity, for any fuel, does not return false, and the
-- link of every node, marked or not, leads to nothing or to a node with a greater key.
pub list_stays_ordered :
    (ms : List (ℕ × Move)) (fuel : ℕ)
    → let s = (run_moves ms empty_list).shared in
      (check_integrity fuel s ≢ some false)
      × ((w : ℕ) (n : Node) → node_of s w ≡ some n → LeadsOn s n.data_ (unmark n.next))
unfolding check_integrity
list_stays_ordered ms fuel =
    let h = (run_moves-IsSound ms empty_list empty_list-IsSound).ordered in
    (λ e. checked (run_moves ms empty_list).shared h e, h.edges)
  where
    checked : (s : Shared) → IsOrdered s → check_integrity fuel s ≢ some false
    checked s h e = elim (Bool-cases (s.head == 0)) [
      | inl z ↦ ground (arith, rw (z, check_integrity) at e)
      | inr z ↦ elim (Option-cases (node_of s s.head)) [
        | inl gone ↦ no_result (rw (z, gone, check_integrity) at e)
        | inr (n, f) ↦
            ascends_if_ordered fuel n.data_ n.next s h (h.edges s.head n f)
              (rw (z, f, check_integrity) at e)
      ]
    ]
