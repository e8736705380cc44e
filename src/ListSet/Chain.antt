-- ===== src/ListSet/Chain.antt =====
-- Chains of nodes in memory, and what an assignment to one address leaves of them.
use multicore_programming_la.Common.{
  ℕ, ◌≡◌, refl, ◌∙◌, Bool, true, false, not, ◌&&◌, Option, some, List, [], ◌∷◌, ◌++◌, ℤ, ltb_ℤ,
  eqb_ℤ, arith, ◌==◌, ◌||◌,
}
use multicore_programming_la.ListSet.{Node, Memory, store, ListBasedSet, set_next}

-- An address with the value that is stored there.
abbrev pub Cell : Type 0
Cell = ℕ × ℤ

-- The first address of a chain, or what comes behind it.
unfoldable pub entry : List Cell → Option ℕ → Option ℕ
entry [] q = q
entry ((a, v) ∷ cs) q = some a

-- The nodes at `cs` follow each other, and behind the last one comes `q`.
unfoldable pub Linked : Memory → List Cell → Option ℕ → Type 0
Linked mem [] q = Unit {0}
Linked mem ((a, v) ∷ cs) q =
    (mem a ≡ some (record { value = v; next = entry cs q })) × Linked mem cs q

-- The last address of a chain, or what comes before it.
unfoldable pub last_addr : Option ℕ → List Cell → Option ℕ
last_addr prev [] = prev
last_addr prev ((a, v) ∷ cs) = last_addr (some a) cs

unfoldable pub has_addr : ℕ → List Cell → Bool
has_addr a [] = false
has_addr a ((b, v) ∷ cs) = b == a || has_addr a cs

unfoldable pub distinct : List Cell → Bool
distinct [] = true
distinct ((a, v) ∷ cs) = not (has_addr a cs) && distinct cs

unfoldable pub above : ℤ → List Cell → Bool
above v [] = true
above v ((a, w) ∷ cs) = ltb_ℤ v w && above v cs

unfoldable pub sorted : List Cell → Bool
sorted [] = true
sorted ((a, v) ∷ cs) = above v cs && sorted cs

pub store_self : (a : ℕ) (n : Option Node) (mem : Memory) → store a n mem a ≡ n
unfolding store
store_self a n mem = ground arith

pub store_ne :
    (a i : ℕ) (n : Option Node) (mem : Memory) → (i == a) ≡ false → store a n mem i ≡ mem i
unfolding store
store_ne a i n mem h = ground arith

unfoldable pub member : ℤ → List Cell → Bool
member w [] = false
member w ((a, v) ∷ cs) = eqb_ℤ v w || member w cs

-- Memories that agree on the addresses of a chain hold the same chain.
pub Linked-agree :
    (mem mem' : Memory) (cs : List Cell) (q : Option ℕ)
    → ((i : ℕ) → has_addr i cs ≡ true → mem' i ≡ mem i)
    → Linked mem cs q
    → Linked mem' cs q
unfolding Linked has_addr
Linked-agree mem mem' [] q same l = l
Linked-agree mem mem' ((a, v) ∷ cs) q same (at, l) =
    (same a (ground arith) ∙ at, Linked-agree mem mem' cs q (λ i h. same i (ground arith)) l)

pub entry-append : (xs ys : List Cell) (q : Option ℕ) → entry (xs ++ ys) q ≡ entry xs (entry ys q)
unfolding entry
entry-append [] ys q = refl
entry-append ((a, v) ∷ xs) ys q = refl

pub Linked-append :
    (mem : Memory) (xs ys : List Cell) (q : Option ℕ)
    → Linked mem xs (entry ys q)
    → Linked mem ys q
    → Linked mem (xs ++ ys) q
unfolding Linked
Linked-append mem [] ys q l k = k
Linked-append mem ((a, v) ∷ xs) ys q (at, l) k =
    (rw (entry-append xs ys q) at, Linked-append mem xs ys q l k)

pub Linked-split :
    (mem : Memory) (xs ys : List Cell) (q : Option ℕ)
    → Linked mem (xs ++ ys) q
    → Linked mem xs (entry ys q) × Linked mem ys q
unfolding Linked
Linked-split mem [] ys q l = (tt, l)
Linked-split mem ((a, v) ∷ xs) ys q (at, l) =
    let (k1, k2) = Linked-split mem xs ys q l in ((rw (← entry-append xs ys q) at, k1), k2)

pub has_addr-append :
    (i : ℕ) (xs ys : List Cell) → has_addr i (xs ++ ys) ≡ (has_addr i xs || has_addr i ys)
unfolding has_addr
has_addr-append i [] ys = refl
has_addr-append i ((a, v) ∷ xs) ys = ground (arith, has_addr-append i xs ys)

pub member-append : (w : ℤ) (xs ys : List Cell) → member w (xs ++ ys) ≡ (member w xs || member w ys)
unfolding member
member-append w [] ys = refl
member-append w ((a, v) ∷ xs) ys = ground (arith, member-append w xs ys)

-- `s'` is `s` with what comes behind the nodes at `cs` changed to `q`.
pub record Relinked (s s' : ListBasedSet) (cs : List Cell) (q : Option ℕ) : Type 0 where
  pub head_kept : s'.head ≡ s.head
  pub fresh_kept : s'.fresh ≡ s.fresh
  pub linked : Linked s'.memory cs q
  pub others_kept : (i : ℕ) → has_addr i cs ≡ false → s'.memory i ≡ s.memory i

pub has_addr-tail :
    (i a : ℕ) (v : ℤ) (cs : List Cell) → has_addr i ((a, v) ∷ cs) ≡ false → has_addr i cs ≡ false
unfolding has_addr
has_addr-tail i a v cs h = ground arith

pub distinct-cons :
    (a : ℕ) (v : ℤ) (cs : List Cell)
    → distinct ((a, v) ∷ cs) ≡ true
    → (has_addr a cs ≡ false) × (distinct cs ≡ true)
unfolding distinct
distinct-cons a v cs h = ground arith

-- An assignment to the `next` of the last node.
pub set_next-Relinked :
    (s : ListBasedSet) (a : ℕ) (v : ℤ) (cs : List Cell) (q r : Option ℕ)
    → Linked s.memory ((a, v) ∷ cs) q
    → distinct ((a, v) ∷ cs) ≡ true
    → (s' : ListBasedSet) × (set_next (last_addr (some a) cs) r s ≡ some s')
      × Relinked s s' ((a, v) ∷ cs) r
unfolding set_next Linked distinct has_addr last_addr entry
set_next-Relinked s a v [] q r (at, l) d = (
  record s { memory = store a (some (record { value = v; next = r })) s.memory },
  rw at refl,
  record {
    head_kept = refl;
    fresh_kept = refl;
    linked = (store_self a _ s.memory, tt);
    others_kept = λ i h. store_ne a i _ s.memory (ground arith);
  },
)
set_next-Relinked s a v ((b, w) ∷ cs) q r (at, l) d =
    let (apart, d') = distinct-cons a v ((b, w) ∷ cs) d in
    let (s', e, k) = set_next-Relinked s b w cs q r l d' in
    (
      s',
      e,
      record {
        head_kept = k.head_kept;
        fresh_kept = k.fresh_kept;
        linked = (k.others_kept a apart ∙ at, k.linked);
        others_kept = λ i h. k.others_kept i (has_addr-tail i a v ((b, w) ∷ cs) h);
      },
    )

-- Equal values are in the same chains.
pub member-same : (v w : ℤ) (cs : List Cell) → eqb_ℤ v w ≡ true → member v cs ≡ member w cs
unfolding member
member-same v w [] h = refl
member-same v w ((a, u) ∷ cs) h = ground (arith, member-same v w cs)

pub has_addr-single : (i a : ℕ) (v : ℤ) → (i == a) ≡ false → has_addr i ((a, v) ∷ []) ≡ false
unfolding has_addr
has_addr-single i a v h = ground arith
