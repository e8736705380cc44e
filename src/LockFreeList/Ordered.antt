-- ===== src/LockFreeList/Ordered.antt =====
-- The order of the links of lock_free_list.hpp, whatever the threads do to them.
use multicore_programming_la.Common.{
  ℕ, zero, suc, ◌<◌, ◌≡◌, refl, sym, ap, subst, ◌∙◌, inl, inr, ◌⊎◌, Bool, true, false, ◌||◌, some,
  no_result, List, [], ◌∷◌, ◌++◌, ◌==◌, if◌then◌else◌, length, get_elem?, set,
  get_elem?-append_length, arith, Bool-cases, Option-cases,
}
use mathlib.Core.Option.{some-injective}
use multicore_programming_la.MarkablePointer.{unmark, is_marked}
use multicore_programming_la.LockFreeList.{
  Node, Shared, address, place_of, node_of, Place, at_head, next_of, store, with_node,
}

pub get_elem?-set :
    (xs : List Node) (i j : ℕ) (x v : Node)
    → get_elem? xs i ≡ some x
    → get_elem? (set xs i v) j ≡ (if j == i then some v else get_elem? xs j)
get_elem?-set [] i j x v e = absurd (no_result e)
get_elem?-set (y ∷ xs) zero zero x v e = refl
get_elem?-set (y ∷ xs) zero (suc j) x v e = let f : (suc j == 0) ≡ false = ground arith in rw f refl
get_elem?-set (y ∷ xs) (suc i) zero x v e = let f : (0 == suc i) ≡ false = ground arith in rw f refl
get_elem?-set (y ∷ xs) (suc i) (suc j) x v e = elim (Bool-cases (j == i)) [
  | inl f ↦
      let g : (suc j == suc i) ≡ true = ground arith in
      rw g (get_elem?-set xs i j x v e ∙ rw f refl)
  | inr f ↦
      let g : (suc j == suc i) ≡ false = ground arith in
      rw g (get_elem?-set xs i j x v e ∙ rw f refl)
]

get_elem?-append_cases :
    (xs : List Node) (y m : Node) (j : ℕ)
    → get_elem? (xs ++ y ∷ []) j ≡ some m
    → (get_elem? xs j ≡ some m) ⊎ (y ≡ m)
get_elem?-append_cases [] y m zero e = inr (some-injective _ _ e)
get_elem?-append_cases [] y m (suc j) e = absurd (no_result e)
get_elem?-append_cases (x ∷ xs) y m zero e = inl e
get_elem?-append_cases (x ∷ xs) y m (suc j) e = get_elem?-append_cases xs y m j e

pub get_elem?-append_some :
    (xs : List Node) (y m : Node) (j : ℕ)
    → get_elem? xs j ≡ some m
    → get_elem? (xs ++ y ∷ []) j ≡ some m
get_elem?-append_some [] y m j e = absurd (no_result e)
get_elem?-append_some (x ∷ xs) y m zero e = e
get_elem?-append_some (x ∷ xs) y m (suc j) e = get_elem?-append_some xs y m j e

-- A word at which there can be no node.
abbrev no_node : ℕ → Bool
no_node w = w == 0 || is_marked w

pub node_of-word :
    (s : Shared) (w : ℕ) (n : Node)
    → node_of s w ≡ some n
    → (no_node w ≡ false) × (get_elem? s.nodes (place_of w) ≡ some n)
unfolding node_of
node_of-word s w n e = elim (Bool-cases (no_node w)) [
  | inl f ↦ absurd (no_result (rw f at e))
  | inr f ↦ (f, rw f at e)
]

pub node_of_at :
    (s : Shared) (w : ℕ) (n : Node)
    → no_node w ≡ false
    → get_elem? s.nodes (place_of w) ≡ some n
    → node_of s w ≡ some n
unfolding node_of
node_of_at s w n f e = rw f e

-- The node at an address has a key; a link of a node with key `k` leads to nothing or to a greater key.
abbrev pub HasKey : Shared → ℕ → ℕ → Type 0
HasKey s w k = (n : Node) × (node_of s w ≡ some n) × (n.data_ ≡ k)

abbrev pub LeadsOn : Shared → ℕ → ℕ → Type 0
LeadsOn s k w = (w ≡ 0) ⊎ ((m : ℕ) × HasKey s w m × (k < m))

abbrev pub LeadsTo : Shared → ℕ → Type 0
LeadsTo s w = (w ≡ 0) ⊎ ((m : ℕ) × HasKey s w m)

pub record IsOrdered (s : Shared) : Type 0 where
  pub first : LeadsTo s s.head
  pub edges : (w : ℕ) (n : Node) → node_of s w ≡ some n → LeadsOn s n.data_ (unmark n.next)

-- Nodes stay, with their keys.
abbrev pub Extends : Shared → Shared → Type 0
Extends s s' = (w k : ℕ) → HasKey s w k → HasKey s' w k

pub LeadsOn-Extends : (s s' : Shared) → Extends s s' → (k w : ℕ) → LeadsOn s k w → LeadsOn s' k w
LeadsOn-Extends s s' ext k w (inl e) = inl e
LeadsOn-Extends s s' ext k w (inr (m, h, lt)) = inr (m, ext w m h, lt)

pub LeadsTo-Extends : (s s' : Shared) → Extends s s' → (w : ℕ) → LeadsTo s w → LeadsTo s' w
LeadsTo-Extends s s' ext w (inl e) = inl e
LeadsTo-Extends s s' ext w (inr (m, h)) = inr (m, ext w m h)

-- A store into a node: the other nodes are as they were.
pub node_of-store :
    (s : Shared) (p w : ℕ) (n : Node)
    → node_of s p ≡ some n
    → (v : ℕ) (m : Node) → node_of (store (next_of p) w s) v ≡ some m
    → (old : Node) × (node_of s v ≡ some old)
      × (m.data_ ≡ old.data_)
      × ((m.next ≡ old.next) ⊎ ((m.next ≡ w) × (node_of s p ≡ some old)))
unfolding store
node_of-store s p w n e v m f =
    let f' : node_of (record s { nodes = set s.nodes (place_of p) (record n { next = w }) }) v
        ≡ some m =
      rw (e, store) at f in
    let (word, at) = node_of-word _ v m f' in
    let (_, at_p) = node_of-word s p n e in
    let g =
      sym (get_elem?-set s.nodes (place_of p) (place_of v) n (record n { next = w }) at_p) ∙ at in
    elim (Bool-cases (place_of v == place_of p)) [
      | inl same ↦
          let h : record n { next = w } ≡ m = some-injective _ _ (rw same at g) in
          let place : place_of v ≡ place_of p = ground arith in
          (
            n,
            node_of_at s v n word (ap (get_elem? s.nodes) place ∙ at_p),
            ap (λ x. x.data_) (sym h),
            inr (ap (λ x. x.next) (sym h), e),
          )
      | inr other ↦
          let h : get_elem? s.nodes (place_of v) ≡ some m = rw other at g in
          (m, node_of_at s v m word h, refl, inl refl)
    ]

pub store-Extends : (s : Shared) (at : Place) (w : ℕ) → Extends s (store at w s)
unfolding store
store-Extends s at_head w v k (n, e, d) =
    (n, node_of_at _ v n (node_of-word s v n e).0 (node_of-word s v n e).1, d)
store-Extends s (next_of p) w v k (m, e, d) = elim (Option-cases (node_of s p)) [
  | inl none_there ↦ rw (none_there, store) (m, e, d)
  | inr (n, f) ↦
      let (word, at) = node_of-word s v m e in
      let (_, at_p) = node_of-word s p n f in
      let g = get_elem?-set s.nodes (place_of p) (place_of v) n (record n { next = w }) at_p in
      elim (Bool-cases (place_of v == place_of p)) [
        | inl same ↦
            let place : place_of v ≡ place_of p = ground arith in
            let eq : m ≡ n = some-injective _ _ (sym at ∙ ap (get_elem? s.nodes) place ∙ at_p) in
            rw (f, store)
              (
                record n { next = w },
                node_of_at _ v _ word (g ∙ rw same refl),
                ap (λ x. x.data_) (sym eq) ∙ d,
              )
        | inr other ↦ rw (f, store) (m, node_of_at _ v m word (g ∙ rw other at), d)
      ]
]

-- A store of a link that may stand there.
abbrev pub MayStand : Shared → Place → ℕ → Type 0
MayStand s at_head w = LeadsTo s w
MayStand s (next_of p) w = (n : Node) → node_of s p ≡ some n → LeadsOn s n.data_ (unmark w)

pub node_of-store_head : (s : Shared) (w v : ℕ) → node_of (store at_head w s) v ≡ node_of s v
unfolding node_of store
node_of-store_head s w v = refl

head-store : (s : Shared) (p w : ℕ) → (store (next_of p) w s).head ≡ s.head
unfolding store
head-store s p w = elim (Option-cases (node_of s p)) [
  | inl e ↦ rw (e, store) refl
  | inr (n, e) ↦ rw (e, store) refl
]

pub store-IsOrdered :
    (s : Shared) (at : Place) (w : ℕ) → IsOrdered s → MayStand s at w → IsOrdered (store at w s)
store-IsOrdered s at_head w h may = record {
  first = unfold store in LeadsTo-Extends s _ (store-Extends s at_head w) w may;
  edges = λ v n e.
      LeadsOn-Extends s _ (store-Extends s at_head w) n.data_ (unmark n.next)
        (h.edges v n (sym (node_of-store_head s w v) ∙ e));
}
store-IsOrdered s (next_of p) w h may = elim (Option-cases (node_of s p)) [
  | inl none_there ↦ unfold store in rw (none_there, store) h
  | inr (n, f) ↦ record {
    first =
        subst (LeadsTo (store (next_of p) w s)) (sym (head-store s p w))
          (LeadsTo-Extends s _ (store-Extends s (next_of p) w) s.head h.first);
    edges = λ v m e.
        let (old, there, same, which) = node_of-store s p w n f v m e in
        LeadsOn-Extends s _ (store-Extends s (next_of p) w) m.data_ (unmark m.next)
          (edge v m old there same which);
  }
]
  where
    edge :
        (v : ℕ) (m old : Node)
        → node_of s v ≡ some old
        → m.data_ ≡ old.data_
        → (m.next ≡ old.next) ⊎ ((m.next ≡ w) × (node_of s p ≡ some old))
        → LeadsOn s m.data_ (unmark m.next)
    edge v m old there same (inl e) = rw (same, e) (h.edges v old there)
    edge v m old there same (inr (e, at)) = rw (same, e) (may old at)

-- A private node becomes one of the list's.
pub with_node-Extends : (s : Shared) (key x : ℕ) → Extends s (with_node key x s)
with_node-Extends s key x v k (n, e, d) =
    let (word, at) = node_of-word s v n e in
    (n, node_of_at _ v n word (get_elem?-append_some s.nodes _ n (place_of v) at), d)

pub with_node-HasKey :
    (s : Shared) (key x : ℕ) → HasKey (with_node key x s) (address (length s.nodes)) key
with_node-HasKey s key x = (
  record { data_ = key; next = x },
  node_of_at _ (address (length s.nodes)) _ (ground arith)
      (get_elem?-append_length s.nodes _ (place_of (address (length s.nodes))) (omega arith)),
  refl,
)

pub with_node-IsOrdered :
    (s : Shared) (key x : ℕ)
    → IsOrdered s
    → LeadsOn s key (unmark x)
    → IsOrdered (with_node key x s)
with_node-IsOrdered s key x h on = record {
  first = LeadsTo-Extends s _ (with_node-Extends s key x) s.head h.first;
  edges = λ v m e.
      let (word, at) = node_of-word _ v m e in
      elim (get_elem?-append_cases s.nodes _ m (place_of v) at) [
        | inl old ↦
            LeadsOn-Extends s _ (with_node-Extends s key x) m.data_ (unmark m.next)
              (h.edges v m (node_of_at s v m word old))
        | inr new ↦
            subst (λ n. LeadsOn (with_node key x s) n.data_ (unmark n.next)) new
              (LeadsOn-Extends s _ (with_node-Extends s key x) key (unmark x) on)
      ];
}
