-- ===== src/LockFreeList/Advance.antt =====
-- Each step of a thread of lock_free_list.hpp keeps the links in order.
use multicore_programming_la.Common.{
  ℕ, ◌<◌, ◌≡◌, refl, sym, subst, ◌∙◌, inl, inr, ◌⊎◌, true, false, leb, ◌==◌, length, arith,
  Bool-cases,
}
use multicore_programming_la.MarkablePointer.{mark, unmark, is_marked}
use multicore_programming_la.LockFreeList.{
  Shared, address, node_of, Place, at_head, next_of, link, load, store, with_node, Op, inserting,
  removing, looking, cleaning, Pc, try_again, testing, reading, unlinking, rechecking, publishing,
  marking, unlinking_marked, finished, Thread, goto, protect, exchange, retire, after_lookup,
  key_of, advance,
}
use multicore_programming_la.LockFreeList.Ordered.{
  HasKey, LeadsOn, LeadsTo, IsOrdered, Extends, LeadsTo-Extends, store-Extends, MayStand,
  store-IsOrdered, with_node-Extends, with_node-HasKey, with_node-IsOrdered,
}
use multicore_programming_la.LockFreeList.Steps.{
  Placed, Looked, Knows, Placed-Extends, Looked-Extends, Kept, same_key, HasKey-unmark, cas_cases,
  may_stand,
}

-- A step that reads shared memory only.
reads-Kept : (s : Shared) (t : Thread) → IsOrdered s → Knows s t t.pc → Kept s (t, s)
reads-Kept s t h knows = record { ordered = h; extends = λ w k key. key; knows = knows }

-- A step that stores a link that may stand there.
stores-Kept :
    (s : Shared) (at : Place) (w : ℕ) (t : Thread)
    → IsOrdered s
    → MayStand s at w
    → (Extends s (store at w s) → Knows (store at w s) t t.pc)
    → Kept s (t, store at w s)
stores-Kept s at w t h may knows = record {
  ordered = store-IsOrdered s at w h may;
  extends = store-Extends s at w;
  knows = knows (store-Extends s at w);
}

-- Where a thread stands is not part of what it knows.
Placed-goto : (s : Shared) (t : Thread) (q : Pc) → Placed s t → Placed s (goto q t)
Placed-goto s t q h = record { before = h.before; here = h.here }

Looked-goto : (s : Shared) (t : Thread) (q : Pc) → Looked s t → Looked s (goto q t)
Looked-goto s t q h = record {
  placed = Placed-goto s t q h.placed;
  cur_key = h.cur_key;
  at_cur = h.at_cur;
  on = h.on;
}

not_found :
    (s : Shared) (t : Thread)
    → Placed s t
    → LeadsOn s t.key t.cur
    → Knows s (goto (after_lookup t.op false) t) (after_lookup t.op false)
not_found s t placed on = by_op t.op
  where
    by_op : (op : Op) → Knows s (goto (after_lookup op false) t) (after_lookup op false)
    by_op inserting = (Placed-goto s t publishing placed, on)
    by_op removing = tt
    by_op looking = tt
    by_op cleaning = tt

found :
    (s : Shared) (t : Thread)
    → Looked s t
    → is_marked t.next ≡ false
    → Knows s (goto (after_lookup t.op true) t) (after_lookup t.op true)
found s t looked plain = by_op t.op
  where
    by_op : (op : Op) → Knows s (goto (after_lookup op true) t) (after_lookup op true)
    by_op inserting = tt
    by_op removing = (Looked-goto s t marking looked, plain)
    by_op looking = tt
    by_op cleaning = tt

link_at :
    (s : Shared) (w k : ℕ) → IsOrdered s → HasKey s w k → LeadsOn s k (unmark (link (node_of s w)))
link_at s w k h (n, e, d) = rw (e, ← d) (h.edges w n e)

testing-Kept : (t : Thread) (s : Shared) → IsOrdered s → Placed s t → Kept s (advance testing t s)
unfolding advance
testing-Kept t s h placed = elim (Bool-cases (t.cur == 0)) [
  | inl e ↦ rw e (
      reads-Kept s (goto (after_lookup t.op false) t) h (not_found s t placed (inl (ground arith))))
  | inr e ↦ elim (Bool-cases (load t.prev s == t.cur)) [
    | inl f ↦
        rw (e, f)
          (reads-Kept s (goto reading (protect t)) h
            (Placed-goto s (protect t) reading protected, there e placed.here))
    | inr f ↦ rw (e, f) (reads-Kept s (goto try_again (protect t)) h tt)
  ]
]
  where
    protected : Placed s (protect t)
    protected = record { before = placed.before; here = placed.here }

    there : (t.cur == 0) ≡ false → LeadsTo s t.cur → (k : ℕ) × HasKey s t.cur k
    there e (inl z) = absurd (ground arith)
    there e (inr key) = key

reading-Kept :
    (t : Thread) (s : Shared)
    → IsOrdered s
    → Placed s t
    → (k : ℕ) → HasKey s t.cur k
    → Kept s (advance reading t s)
unfolding advance
reading-Kept t s h placed k key = elim (Bool-cases (is_marked (link (node_of s t.cur)))) [
  | inl e ↦
      rw e (reads-Kept s (record t { next = link (node_of s t.cur); pc = unlinking }) h looked)
  | inr e ↦
      rw e
        (reads-Kept s (record t { next = link (node_of s t.cur); pc = rechecking }) h (looked, e))
]
  where
    looked : {p : Pc} → Looked s (record t { next = link (node_of s t.cur); pc = p })
    looked = record {
      placed = record { before = placed.before; here = placed.here };
      cur_key = k;
      at_cur = key;
      on = link_at s t.cur k h key;
    }

unlinking-Kept :
    (t : Thread) (s : Shared) → IsOrdered s → Looked s t → Kept s (advance unlinking t s)
unfolding advance
unlinking-Kept t s h l = elim (cas_cases t.prev t.cur (unmark t.next) s) [
  | inl (e, f) ↦ rw f (
      stores-Kept s t.prev (unmark t.next) (record (retire t) { cur = unmark t.next; pc = testing })
        h (may_stand s t t.prev (unmark t.next) h e l.cur_key l.at_cur l.on (ground arith))
        (λ ext. record {
          before = (Placed-Extends s _ t ext l.placed).before;
          here = LeadsTo-Extends s _ ext (unmark t.next) (forget l.on);
        }))
  | inr f ↦ rw f (reads-Kept s (goto try_again t) h tt)
]
  where
    forget : {k : ℕ} → LeadsOn s k (unmark t.next) → LeadsTo s (unmark t.next)
    forget (inl z) = inl z
    forget (inr (m, key, lt)) = inr (m, key)

rechecking-Kept :
    (t : Thread) (s : Shared)
    → IsOrdered s
    → Looked s t
    → is_marked t.next ≡ false
    → Kept s (advance rechecking t s)
unfolding advance
rechecking-Kept t s h l plain = elim (Bool-cases (load t.prev s == t.cur)) [
  | inr e ↦ rw e (reads-Kept s (goto try_again t) h tt)
  | inl e ↦ elim (Bool-cases (leb t.key (key_of (node_of s t.cur)))) [
    | inr f ↦
        rw (e, f)
          (reads-Kept s (record (exchange t) { prev = next_of t.cur; cur = t.next; pc = testing }) h
            (record {
              before = inr (t.cur, l.cur_key, refl, l.at_cur, ground (arith, key_read));
              here = further l.on;
            }))
    | inl f ↦ elim (Bool-cases (key_of (node_of s t.cur) == t.key)) [
      | inl g ↦ rw (e, f, g) (reads-Kept s (goto (after_lookup t.op true) t) h (found s t l plain))
      | inr g ↦
          rw (e, f, g)
            (reads-Kept s (goto (after_lookup t.op false) t) h
              (not_found s t l.placed (inr (l.cur_key, l.at_cur, ground (arith, key_read)))))
    ]
  ]
]
  where
    key_read : key_of (node_of s t.cur) ≡ l.cur_key
    key_read = let (n, e, d) = l.at_cur in rw e d

    same : unmark t.next ≡ t.next
    same = ground arith

    further : {k : ℕ} → LeadsOn s k (unmark t.next) → LeadsTo s t.next
    further (inl z) = inl (sym same ∙ z)
    further (inr (m, key, lt)) = inr (m, subst (λ w. HasKey s w m) same key)

marking-Kept :
    (t : Thread) (s : Shared)
    → IsOrdered s
    → Looked s t
    → is_marked t.next ≡ false
    → Kept s (advance marking t s)
unfolding advance
marking-Kept t s h l plain = elim (cas_cases (next_of t.cur) t.next (mark t.next) s) [
  | inl (e, f) ↦ rw f (
      stores-Kept s (next_of t.cur) (mark t.next) (goto unlinking_marked t) h
        (λ n at.
          let e : unmark (mark t.next) ≡ unmark t.next = ground arith in
          let d = same_key s t.cur l.cur_key n l.at_cur at in rw (e, d) l.on)
        (λ ext. (Looked-goto _ t unlinking_marked (Looked-Extends s _ t ext l), plain)))
  | inr f ↦ rw f (reads-Kept s (goto try_again t) h tt)
]

unlinking_marked-Kept :
    (t : Thread) (s : Shared)
    → IsOrdered s
    → Looked s t
    → is_marked t.next ≡ false
    → Kept s (advance unlinking_marked t s)
unfolding advance
unlinking_marked-Kept t s h l plain = elim (cas_cases t.prev t.cur t.next s) [
  | inl (e, f) ↦ rw f (
      stores-Kept s t.prev t.next (goto (finished true) (retire t)) h
        (may_stand s t t.prev t.next h e l.cur_key l.at_cur (subst (LeadsOn s l.cur_key) same l.on)
          same)
        (λ ext. tt))
  | inr f ↦ rw f (reads-Kept s (record t { op = cleaning; pc = try_again }) h tt)
]
  where
    same : unmark t.next ≡ t.next
    same = ground arith

publishing-Kept :
    (t : Thread) (s : Shared)
    → IsOrdered s
    → Placed s t
    → LeadsOn s t.key t.cur
    → Kept s (advance publishing t s)
unfolding advance
publishing-Kept t s h placed on = elim (cas_cases t.prev t.cur (address (length s.nodes)) s1) [
  | inl (e, f) ↦ rw f (record {
    ordered =
        store-IsOrdered s1 t.prev (address (length s.nodes)) ordered (may t.prev placed.before);
    extends = λ w k key.
        store-Extends s1 t.prev (address (length s.nodes)) w k
          (with_node-Extends s t.key t.cur w k key);
    knows = tt;
  })
  | inr f ↦ rw f (reads-Kept s (goto try_again t) h tt)
]
  where
    s1 : Shared
    s1 = with_node t.key t.cur s

    plain : (unmark t.cur ≡ t.cur)
    plain = elim on [ inl z ↦ ground arith | inr (m, key, lt) ↦ (HasKey-unmark s t.cur m key).0 ]

    ordered : IsOrdered s1
    ordered = with_node-IsOrdered s t.key t.cur h (subst (LeadsOn s t.key) (sym plain) on)

    new_key : HasKey s1 (address (length s.nodes)) t.key
    new_key = with_node-HasKey s t.key t.cur

    new_plain : unmark (address (length s.nodes)) ≡ address (length s.nodes)
    new_plain = (HasKey-unmark s1 _ t.key new_key).0

    may :
        (at : Place)
        → (at ≡ at_head) ⊎ ((p : ℕ) × (k : ℕ) × (at ≡ next_of p) × HasKey s p k × (k < t.key))
        → MayStand s1 at (address (length s.nodes))
    may at_head before = inr (t.key, new_key)
    may (next_of p) (inl e) = absurd cc
    may (next_of p) (inr (p', k, e, key, lt)) = λ n there.
        let same_p : p' ≡ p = ground arith in
        let d : n.data_ ≡ k =
          same_key s1 p k n
            (with_node-Extends s t.key t.cur p k (subst (λ x. HasKey s x k) same_p key)) there in
        subst (LeadsOn s1 n.data_) (sym new_plain) (inr (t.key, new_key, omega arith))

try_again-Kept : (t : Thread) (s : Shared) → IsOrdered s → Kept s (advance try_again t s)
unfolding advance load
try_again-Kept t s h =
    reads-Kept s (record t { prev = at_head; cur = s.head; pc = testing }) h
      (record { before = inl refl; here = h.first })

pub advance-Kept :
    (p : Pc) (t : Thread) (s : Shared)
    → t.pc ≡ p
    → IsOrdered s
    → Knows s t p
    → Kept s (advance p t s)
unfolding advance
advance-Kept try_again t s e h k = try_again-Kept t s h
advance-Kept testing t s e h k = testing-Kept t s h k
advance-Kept reading t s e h (placed, (k, key)) = reading-Kept t s h placed k key
advance-Kept unlinking t s e h k = unlinking-Kept t s h k
advance-Kept rechecking t s e h (l, plain) = rechecking-Kept t s h l plain
advance-Kept publishing t s e h (placed, on) = publishing-Kept t s h placed on
advance-Kept marking t s e h (l, plain) = marking-Kept t s h l plain
advance-Kept unlinking_marked t s e h (l, plain) = unlinking_marked-Kept t s h l plain
advance-Kept (finished found) t s e h k = reads-Kept s t h (rw e tt)
