-- ===== src/LockFreeList/Steps.antt =====
-- What a thread knows at each point of lock_free_list.hpp, and that its steps keep the links in order.
use multicore_programming_la.Common.{
  ℕ, ◌<◌, ◌≡◌, ◌≢◌, refl, sym, ap, subst, ◌∙◌, inl, inr, ◌⊎◌, true, false, some, ◌==◌, arith,
  Bool-cases, ==_iff,
}
use mathlib.Core.Option.{some-injective}
use multicore_programming_la.MarkablePointer.{unmark, is_marked}
use multicore_programming_la.LockFreeList.{
  Node, Shared, node_of, Place, at_head, next_of, link, load, store, cas, Pc, try_again, testing,
  reading, unlinking, rechecking, publishing, marking, unlinking_marked, finished, Thread,
}
use multicore_programming_la.LockFreeList.Ordered.{
  node_of-word, HasKey, LeadsOn, LeadsTo, IsOrdered, Extends, LeadsOn-Extends, LeadsTo-Extends,
  MayStand,
}

-- `prev` stands before the key, and `cur` is NULL or a node.
pub record Placed (s : Shared) (t : Thread) : Type 0 where
  pub before :
      (t.prev ≡ at_head) ⊎ ((p : ℕ) × (k : ℕ) × (t.prev ≡ next_of p) × HasKey s p k × (k < t.key))
  pub here : LeadsTo s t.cur

-- `next` was read from the node `cur`.
pub record Looked (s : Shared) (t : Thread) : Type 0 where
  pub placed : Placed s t
  pub cur_key : ℕ
  pub at_cur : HasKey s t.cur cur_key
  pub on : LeadsOn s cur_key (unmark t.next)

abbrev pub Knows : Shared → Thread → Pc → Type 0
Knows s t try_again = Unit
Knows s t testing = Placed s t
Knows s t reading = Placed s t × ((k : ℕ) × HasKey s t.cur k)
Knows s t unlinking = Looked s t
Knows s t rechecking = Looked s t × (is_marked t.next ≡ false)
Knows s t publishing = Placed s t × LeadsOn s t.key t.cur
Knows s t marking = Looked s t × (is_marked t.next ≡ false)
Knows s t unlinking_marked = Looked s t × (is_marked t.next ≡ false)
Knows s t (finished found) = Unit

pub Placed-Extends : (s s' : Shared) (t : Thread) → Extends s s' → Placed s t → Placed s' t
Placed-Extends s s' t ext h = record {
  before = elim h.before [
    | inl e ↦ inl e
    | inr (p, k, e, key, lt) ↦ inr (p, k, e, ext p k key, lt)
  ];
  here = LeadsTo-Extends s s' ext t.cur h.here;
}

pub Looked-Extends : (s s' : Shared) (t : Thread) → Extends s s' → Looked s t → Looked s' t
Looked-Extends s s' t ext h = record {
  placed = Placed-Extends s s' t ext h.placed;
  cur_key = h.cur_key;
  at_cur = ext t.cur h.cur_key h.at_cur;
  on = LeadsOn-Extends s s' ext h.cur_key (unmark t.next) h.on;
}

-- What a thread knows is not undone by others.
pub Knows-Extends :
    (s s' : Shared) (t : Thread) (p : Pc) → Extends s s' → Knows s t p → Knows s' t p
Knows-Extends s s' t try_again ext h = tt
Knows-Extends s s' t testing ext h = Placed-Extends s s' t ext h
Knows-Extends s s' t reading ext (h, (k, key)) = (Placed-Extends s s' t ext h, (k, ext t.cur k key))
Knows-Extends s s' t unlinking ext h = Looked-Extends s s' t ext h
Knows-Extends s s' t rechecking ext (h, m) = (Looked-Extends s s' t ext h, m)
Knows-Extends s s' t publishing ext (h, on) =
    (Placed-Extends s s' t ext h, LeadsOn-Extends s s' ext t.key t.cur on)
Knows-Extends s s' t marking ext (h, m) = (Looked-Extends s s' t ext h, m)
Knows-Extends s s' t unlinking_marked ext (h, m) = (Looked-Extends s s' t ext h, m)
Knows-Extends s s' t (finished found) ext h = tt

pub record Kept (s : Shared) (r : Thread × Shared) : Type 0 where
  pub ordered : IsOrdered r.1
  pub extends : Extends s r.1
  pub knows : Knows r.1 r.0 r.0.pc

pub same_key : (s : Shared) (w k : ℕ) (n : Node) → HasKey s w k → node_of s w ≡ some n → n.data_ ≡ k
same_key s w k n (m, e, d) f = ap (λ x. x.data_) (some-injective _ _ (sym f ∙ e)) ∙ d

pub HasKey-unmark : (s : Shared) (w k : ℕ) → HasKey s w k → (unmark w ≡ w) × (w ≢ 0)
HasKey-unmark s w k (n, e, d) =
    let (word, _) = node_of-word s w n e in (ground arith, λ z. ground arith)

pub cas_cases :
    (at : Place) (old new : ℕ) (s : Shared)
    → ((load at s ≡ old) × (cas at old new s ≡ (true, store at new s)))
      ⊎ (cas at old new s ≡ (false, s))
unfolding cas
cas_cases at old new s = elim (Bool-cases (load at s == old)) [
  | inl e ↦ inl ((==_iff _ _).0 e, rw e refl)
  | inr e ↦ inr (rw e refl)
]

-- Where `*prev` is `cur`, a link from behind `cur` may stand there.
pub may_stand :
    (s : Shared) (t : Thread) (at : Place) (w : ℕ)
    → IsOrdered s
    → load at s ≡ t.cur
    → (k : ℕ) → HasKey s t.cur k
    → LeadsOn s k w
    → unmark w ≡ w
    → MayStand s at w
unfolding load
may_stand s t at_head w h e k key (inl z) u = inl z
may_stand s t at_head w h e k key (inr (m, at, lt)) u = inr (m, at)
may_stand s t (next_of p) w h e k key on u = λ n f.
    let next : n.next ≡ t.cur = ap link (sym f) ∙ e in
    let (plain, not_null) = HasKey-unmark s t.cur k key in
    let edge : LeadsOn s n.data_ t.cur =
      subst (LeadsOn s n.data_) (ap unmark next ∙ plain) (h.edges p n f) in
    subst (LeadsOn s n.data_) (sym u) (elim edge [
      | inl z ↦ absurd (not_null z)
      | inr (m, (x, at, d), lt) ↦
          let m_k : x.data_ ≡ k = same_key s t.cur k x key at in
          elim on [ inl z ↦ inl z | inr (l, there, lt') ↦ inr (l, there, omega arith) ]
    ])
