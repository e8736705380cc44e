-- ===== src/HazardPointers/Reclaim.antt =====
-- What `maybeFreeNodes` deletes, and how long a retired list can get.
use multicore_programming_la.Common.{
  ℕ, ◌+◌, ◌<◌, ◌≤◌, ◌≡◌, ◌≢◌, ◌⊎◌, refl, sym, ap, ◌∙◌, true, not, ◌&&◌, List, [], ◌∷◌, ◌++◌, ltb,
  ◌==◌, ==_iff, length, get_or, get_or-set_self, get_or-set_ne, set, length-set, arith, Bool-cases,
  inl, inr,
}
use multicore_programming_la.HazardPointers.{
  HazardPointers, contains, insert, active_list, sweep, maybe_free_nodes, retired, retire_node,
}
use multicore_programming_la.HazardPointers.Counting.{distinct, length-part}
use multicore_programming_la.HazardPointers.Snapshot.{
  is_hazardous, total, contains-active_list, length-active_list, distinct-insert,
}

-- What a sweep keeps and what it deletes.
module _ (active : List ℕ) where
  same_in : (x y : ℕ) → (y == x) ≡ true → contains y active ≡ contains x active
  same_in x y e = ap (λ z. contains z active) ((==_iff y x).0 e)

  sweep_keeps :
      (x : ℕ) (l : List ℕ) → contains x (sweep active l).0 ≡ (contains x l && contains x active)
  unfolding sweep contains
  sweep_keeps x [] = refl
  sweep_keeps x (y ∷ l) = elim (Bool-cases (contains y active)) [
    | inl e ↦ rw e (ground (arith, sweep_keeps x l, same_in x y))
    | inr e ↦ rw e (ground (arith, sweep_keeps x l, same_in x y))
  ]

  sweep_deletes :
      (x : ℕ) (l : List ℕ)
      → contains x (sweep active l).1 ≡ (contains x l && not (contains x active))
  unfolding sweep contains
  sweep_deletes x [] = refl
  sweep_deletes x (y ∷ l) = elim (Bool-cases (contains y active)) [
    | inl e ↦ rw e (ground (arith, sweep_deletes x l, same_in x y))
    | inr e ↦ rw e (ground (arith, sweep_deletes x l, same_in x y))
  ]

  length-sweep : (l : List ℕ) → length (sweep active l).0 + length (sweep active l).1 ≡ length l
  unfolding sweep
  length-sweep [] = refl
  length-sweep (y ∷ l) = elim (Bool-cases (contains y active)) [
    | inl e ↦ rw e (omega (arith, length-sweep l))
    | inr e ↦ rw e (omega (arith, length-sweep l))
  ]

  distinct-sweep : (l : List ℕ) → distinct l ≡ true → distinct (sweep active l).0 ≡ true
  unfolding sweep distinct
  distinct-sweep [] d = refl
  distinct-sweep (y ∷ l) d = elim (Bool-cases (contains y active)) [
    | inl e ↦ rw e (ground (arith, distinct-sweep l, sweep_keeps y l))
    | inr e ↦ rw e (ground (arith, distinct-sweep l))
  ]

-- The nodes in the retired list of a thread.
abbrev pub retired_of : ℕ → HazardPointers → List ℕ
retired_of thread h = get_or h.retired_lists thread []

-- Every retired list is a set.
abbrev pub IsValid : HazardPointers → Type 0
IsValid h = (i : ℕ) → distinct (retired_of i h) ≡ true

-- A sweep of the retired list of `thread`, which returns the number of nodes it deletes.
pub record Swept (h : HazardPointers) (thread : ℕ) (r : ℕ × HazardPointers) : Type 0 where
  pub gone : List ℕ
  pub recorded : r.1.deleted ≡ h.deleted ++ gone
  pub counted : r.0 + length (retired_of thread r.1) ≡ length (retired_of thread h)
  pub reclaimed :
      (x : ℕ)
      → contains x gone ≡ (contains x (retired_of thread h) && not (is_hazardous x h.hp_recs))
  pub kept :
      (x : ℕ)
      → contains x (retired_of thread r.1)
        ≡ (contains x (retired_of thread h) && is_hazardous x h.hp_recs)
  pub others : (i : ℕ) → i ≢ thread → retired_of i r.1 ≡ retired_of i h
  pub pointers_kept : r.1.hp_recs ≡ h.hp_recs

in_snapshot :
    (x : ℕ) (h : HazardPointers) → contains x (active_list h.hp_recs []) ≡ is_hazardous x h.hp_recs
unfolding contains
in_snapshot x h = contains-active_list x h.hp_recs [] ∙ ground arith

-- For a thread that has a retired list, maybeFreeNodes deletes exactly the nodes of that list that
-- no hazard pointer holds, keeps the others in it, returns how many it deleted, and changes
-- neither the lists of other threads nor the hazard pointers.
pub maybe_free_nodes-Swept :
    (thread : ℕ) (h : HazardPointers)
    → thread < length h.retired_lists
    → Swept h thread (maybe_free_nodes thread h)
unfolding maybe_free_nodes
maybe_free_nodes-Swept thread h there =
    let active = active_list h.hp_recs [] in
    let now =
      get_or-set_self h.retired_lists thread (sweep active (retired_of thread h)).0 [] there in
    record {
      gone = (sweep active (retired_of thread h)).1;
      recorded = refl;
      counted = rw now (omega (arith, length-sweep active (retired_of thread h)));
      reclaimed = λ x.
          sweep_deletes active x _
          ∙ ap (λ b. contains x (retired_of thread h) && not b) (in_snapshot x h);
      kept = λ x. rw now (
          sweep_keeps active x _
          ∙ ap (λ b. contains x (retired_of thread h) && b) (in_snapshot x h));
      others = λ i ne. get_or-set_ne h.retired_lists thread i _ [] (λ e. ne (sym e));
      pointers_kept = refl;
    }

module _ (thread node : ℕ) (h : HazardPointers) (there : thread < length h.retired_lists)
    (valid : IsValid h) where
  abbrev active : List ℕ
  active = active_list h.hp_recs []

  abbrev before : List ℕ
  before = insert node (retired_of thread h)

  before_at : retired_of thread (retired thread node h) ≡ before
  before_at = get_or-set_self h.retired_lists thread before [] there

  swept_at :
      retired_of thread (maybe_free_nodes thread (retired thread node h)).1
      ≡ (sweep active before).0
  unfolding maybe_free_nodes
  swept_at =
      get_or-set_self (set h.retired_lists thread before) thread _ []
        (omega (arith, there, length-set h.retired_lists thread before))
      ∙ ap (λ l. (sweep active l).0) before_at

  -- Only hazardous nodes stay, and each of them once.
  swept_few : length (sweep active before).0 ≤ total h.hp_recs
  swept_few = omega (
    arith,
    length-part (sweep active before).0 active
        (distinct-sweep active before (distinct-insert node (retired_of thread h) (valid thread)))
        (λ x k. part x (sym (sweep_keeps active x before) ∙ k)),
    length-active_list h.hp_recs [],
  )
    where
      part : (x : ℕ) → (contains x before && contains x active) ≡ true → contains x active ≡ true
      part x k = ground arith

  -- For a thread that has a retired list, where retired lists have no repetition: after retireNode
  -- that list has at most MAX_RETIRED_NODES_PER_THREAD nodes, or at most as many as there are
  -- hazard pointers.
  pub retire_node-bounded :
      (length (retired_of thread (retire_node thread node h).1) ≤ h.max_retired)
      ⊎ (length (retired_of thread (retire_node thread node h).1) ≤ total h.hp_recs)
  unfolding retire_node
  retire_node-bounded =
      elim (Bool-cases (ltb h.max_retired (length (retired_of thread (retired thread node h))))) [
        | inl e ↦ rw (e, swept_at) (inr swept_few)
        | inr e ↦ rw e (inl (ground arith))
      ]
