-- ===== src/LockFreeList/Marks.antt =====
-- A mark of lock_free_list.hpp is never taken away, and what is marked is not changed.
use multicore_programming_la.Common.{
  ℕ, ◌≡◌, sym, ap, subst, ◌∙◌, inl, inr, Bool, true, false, some, List, [], ◌∷◌, ◌==◌,
  if◌then◌else◌, length, get_elem?, arith, Bool-cases, Option-cases,
}
use mathlib.Core.Option.{some-injective}
use multicore_programming_la.MarkablePointer.{mark, unmark, is_marked}
use multicore_programming_la.LockFreeList.{
  Node, Shared, address, place_of, node_of, Place, at_head, next_of, link, load, store, cas,
  with_node, Pc, try_again, testing, reading, unlinking, rechecking, publishing, marking,
  unlinking_marked, finished, Thread, advance, Move, begin, go, has_ended, move, System, empty_list,
  move_thread, run_moves,
}
use multicore_programming_la.LockFreeList.Ordered.{
  node_of-word, node_of_at, get_elem?-set, get_elem?-append_some, node_of-store_head, HasKey,
  LeadsOn,
}
use multicore_programming_la.LockFreeList.Steps.{Knows, HasKey-unmark, cas_cases}
use multicore_programming_la.LockFreeList.Reached.{
  IsSound, move_thread-IsSound, run_moves-IsSound, empty_list-IsSound,
}

-- Nodes that are marked stay as they are.
abbrev Frozen : Shared → Shared → Type 0
Frozen s s' =
    (w : ℕ) (n : Node) → node_of s w ≡ some n → is_marked n.next ≡ true → node_of s' w ≡ some n

Frozen-self : (s : Shared) → Frozen s s
Frozen-self s w n e m = e

-- A store where there was no mark.
store-Frozen :
    (s : Shared) (at : Place) (w : ℕ) → is_marked (load at s) ≡ false → Frozen s (store at w s)
unfolding load
store-Frozen s at_head w plain v n e m = node_of-store_head s w v ∙ e
store-Frozen s (next_of p) w plain v n e m = elim (Option-cases (node_of s p)) [
  | inl gone ↦ unfold store in rw (gone, store) e
  | inr (x, f) ↦
      let (word, at) = node_of-word s v n e in
      let (_, at_p) = node_of-word s p x f in
      let g = get_elem?-set s.nodes (place_of p) (place_of v) x (record x { next = w }) at_p in
      elim (Bool-cases (place_of v == place_of p)) [
        | inl same ↦
            let place : place_of v ≡ place_of p = ground arith in
            let eq : n ≡ x = some-injective _ _ (sym at ∙ ap (get_elem? s.nodes) place ∙ at_p) in
            absurd (clash eq (subst (λ o. is_marked (link o) ≡ false) f plain))
        | inr other ↦ unfold store in rw (f, store) (node_of_at _ v n word (g ∙ rw other at))
      ]
]
  where
    clash : {x : Node} → n ≡ x → is_marked x.next ≡ false → ⊥
    clash eq k = ground (arith, ap (λ y. y.next) eq)

cas-Frozen :
    (s : Shared) (at : Place) (old new : ℕ) → is_marked old ≡ false → Frozen s (cas at old new s).1
cas-Frozen s at old new plain = elim (cas_cases at old new s) [
  | inl (e, f) ↦
      subst (λ r. Frozen s r.1) (sym f)
        (store-Frozen s at new (subst (λ x. is_marked x ≡ false) (sym e) plain))
  | inr f ↦ subst (λ r. Frozen s r.1) (sym f) (Frozen-self s)
]

with_node-Frozen : (s : Shared) (key x : ℕ) → Frozen s (with_node key x s)
with_node-Frozen s key x v n e m =
    let (word, at) = node_of-word s v n e in
    node_of_at _ v n word (get_elem?-append_some s.nodes _ n (place_of v) at)

plain_of_key : (s : Shared) (w k : ℕ) → HasKey s w k → is_marked w ≡ false
plain_of_key s w k key = let (plain, _) = HasKey-unmark s w k key in ground arith

plain_of_on : (s : Shared) (k w : ℕ) → LeadsOn s k w → is_marked w ≡ false
plain_of_on s k w (inl z) = ground arith
plain_of_on s k w (inr (m, key, lt)) = plain_of_key s w m key

-- A step that stores what a compare-and-swap leaves, or nothing.
or_not :
    (s s' : Shared) (done : Bool) (a b : Thread)
    → Frozen s s'
    → let r : Thread × Shared = if done then (a, s') else (b, s) in Frozen s r.1
or_not s s' true a b h = h
or_not s s' false a b h = Frozen-self s

advance-Frozen : (p : Pc) (t : Thread) (s : Shared) → Knows s t p → Frozen s (advance p t s).1
unfolding advance
advance-Frozen try_again t s k = Frozen-self s
advance-Frozen testing t s k = elim (Bool-cases (t.cur == 0)) [
  | inl e ↦ rw e (Frozen-self s)
  | inr e ↦ elim (Bool-cases (load t.prev s == t.cur)) [
    | inl f ↦ rw (e, f) (Frozen-self s)
    | inr f ↦ rw (e, f) (Frozen-self s)
  ]
]
advance-Frozen reading t s k = Frozen-self s
advance-Frozen unlinking t s l =
    or_not s _ (cas t.prev t.cur (unmark t.next) s).0 _ _
      (cas-Frozen s t.prev t.cur (unmark t.next) (plain_of_key s t.cur l.cur_key l.at_cur))
advance-Frozen rechecking t s k = elim (Bool-cases (load t.prev s == t.cur)) [
  | inl e ↦ rw e (Frozen-self s)
  | inr e ↦ rw e (Frozen-self s)
]
advance-Frozen publishing t s (placed, on) =
    or_not s _ (cas t.prev t.cur (address (length s.nodes)) (with_node t.key t.cur s)).0 _ _
      (λ w n e m.
        cas-Frozen (with_node t.key t.cur s) t.prev t.cur (address (length s.nodes))
          (plain_of_on s t.key t.cur on) w n (with_node-Frozen s t.key t.cur w n e m) m)
advance-Frozen marking t s (l, plain) =
    or_not s _ (cas (next_of t.cur) t.next (mark t.next) s).0 _ _
      (cas-Frozen s (next_of t.cur) t.next (mark t.next) plain)
advance-Frozen unlinking_marked t s (l, plain) =
    or_not s _ (cas t.prev t.cur t.next s).0 _ _
      (cas-Frozen s t.prev t.cur t.next (plain_of_key s t.cur l.cur_key l.at_cur))
advance-Frozen (finished found) t s k = Frozen-self s

move-Frozen : (m : Move) (t : Thread) (s : Shared) → Knows s t t.pc → Frozen s (move m t s).1
unfolding move
move-Frozen (begin op key) t s k = elim (Bool-cases (has_ended t.pc)) [
  | inl e ↦ rw e (Frozen-self s)
  | inr e ↦ rw e (Frozen-self s)
]
move-Frozen go t s k = advance-Frozen t.pc t s k

run_moves-Frozen :
    (ms : List (ℕ × Move)) (y : System) → IsSound y → Frozen y.shared (run_moves ms y).shared
unfolding run_moves move_thread
run_moves-Frozen [] y h = Frozen-self y.shared
run_moves-Frozen ((i, m) ∷ ms) y h = λ w n e marked.
    run_moves-Frozen ms (move_thread i m y) (move_thread-IsSound i m y h) w n
      (move-Frozen m (y.threads i) y.shared (h.knows i) w n e marked) marked

-- As long as no node that was retired is freed: after any schedule, a node whose link is marked
-- has the same key and the same marked link after any further schedule.
pub marked_stays :
    (ms later : List (ℕ × Move)) (w : ℕ) (n : Node)
    → node_of (run_moves ms empty_list).shared w ≡ some n
    → is_marked n.next ≡ true
    → node_of (run_moves later (run_moves ms empty_list)).shared w ≡ some n
marked_stays ms later w n e marked =
    run_moves-Frozen later (run_moves ms empty_list)
      (run_moves-IsSound ms empty_list empty_list-IsSound) w n e marked
