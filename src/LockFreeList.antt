-- ===== src/LockFreeList.antt =====
-- lock_free_list.hpp: a sorted list that threads change by compare-and-swap only, with the marks of
-- MarkablePointer on the links of nodes that are removed.
--
-- Keys are numbers. The nodes that were ever linked are a list, and the address of the one at place i
-- is 2 * (i + 1). A thread keeps its hazard pointers and the list of the nodes that it retired, but no
-- retired node is freed here, so no address is reused and nothing reads the hazard pointers: a write of
-- them is part of the step that it belongs to. A new node is private until a compare-and-swap links
-- it, so it gets its address then. Apart from the hazard pointers each step of a thread has at most one
-- access to shared memory; a schedule is a list of moves.
pub mod Ordered
pub mod Advance
mod Tests
pub mod Marks
pub mod Reached
pub mod Steps
use multicore_programming_la.Common.{
  ℕ, zero, suc, ◌+◌, ◌-◌, ◌*◌, ◌/◌, ◌%◌, Bool, true, false, not, ◌&&◌, ◌||◌, Option, none, some,
  List, [], ◌∷◌, ◌++◌, leb, ◌==◌, if◌then◌else◌, length, get_elem?, set,
}
use multicore_programming_la.MarkablePointer.{mark, unmark, is_marked}

pub record Node : Type 0 where
  pub data_ : ℕ
  pub next : ℕ

pub record Shared : Type 0 where
  pub head : ℕ
  pub nodes : List Node

abbrev pub address : ℕ → ℕ
address i = 2 * (i + 1)

abbrev pub place_of : ℕ → ℕ
place_of w = w / 2 - 1

-- The node at an address; NULL and marked pointers have none.
unfoldable pub node_of : Shared → ℕ → Option Node
node_of s w = if w == 0 || is_marked w then none else get_elem? s.nodes (place_of w)

-- A `Node**`: `&head_`, or the `next` of a node.
pub data Place : Type 0 where
  at_head : Place
  next_of : ℕ → Place

abbrev pub link : Option Node → ℕ
link none = 0
link (some n) = n.next

unfoldable pub load : Place → Shared → ℕ
load at_head s = s.head
load (next_of p) s = link (node_of s p)

unfoldable pub store : Place → ℕ → Shared → Shared
store at_head w s = record s { head = w }
store (next_of p) w s = elim (node_of s p) [
  | none ↦ s
  | some n ↦ record s { nodes = set s.nodes (place_of p) (record n { next = w }) }
]

-- `__sync_bool_compare_and_swap`
unfoldable pub cas : Place → ℕ → ℕ → Shared → Bool × Shared
cas at old new s = if load at s == old then (true, store at new s) else (false, s)

pub data Op : Type 0 where
  inserting removing looking cleaning : Op

-- Where a thread stands in `lookupInternal` and the operation around it.
pub data Pc : Type 0 where
  try_again testing reading unlinking rechecking : Pc
  publishing marking unlinking_marked : Pc
  finished : Bool → Pc

pub record Thread : Type 0 where
  pub op : Op
  pub key : ℕ
  pub prev : Place
  pub cur : ℕ
  pub next : ℕ
  pub pc : Pc
  pub hp0 : ℕ
  pub hp1 : ℕ
  pub retired : List ℕ

abbrev pub goto : Pc → Thread → Thread
goto pc t = record t { pc = pc }

-- `hp[0] = cur;`, the exchange of the two hazard pointers, which the code does in two writes, and
-- `retireNode`, by which the node gets into the list of the thread.
abbrev pub protect : Thread → Thread
protect t = record t { hp0 = t.cur }

abbrev pub exchange : Thread → Thread
exchange t = record t { hp0 = t.hp1; hp1 = t.hp0 }

abbrev pub retire : Thread → Thread
retire t = record t { retired = t.retired ++ t.cur ∷ [] }

-- What an operation does with the result of `lookupInternal`.
abbrev pub after_lookup : Op → Bool → Pc
after_lookup inserting true = finished false
after_lookup inserting false = publishing
after_lookup removing true = marking
after_lookup removing false = finished false
after_lookup looking found = finished found
after_lookup cleaning found = finished true

-- `if (cur_key >= key) return (cur_key == key);`, or a node on
abbrev pub compare_key : ℕ → Thread → Thread
compare_key cur_key t =
    if leb t.key cur_key
    then goto (after_lookup t.op (cur_key == t.key)) t
    else record (exchange t) { prev = next_of t.cur; cur = t.next; pc = testing }

abbrev pub key_of : Option Node → ℕ
key_of none = 0
key_of (some n) = n.data_

-- A link of a new node, at the end of the nodes.
abbrev pub with_node : ℕ → ℕ → Shared → Shared
with_node key next s = record s { nodes = s.nodes ++ (record { data_ = key; next = next }) ∷ [] }

unfoldable pub advance : Pc → Thread → Shared → Thread × Shared
advance try_again t s = (record t { prev = at_head; cur = load at_head s; pc = testing }, s)
advance testing t s =
    if t.cur == 0
    then (goto (after_lookup t.op false) t, s)
    else if load t.prev s == t.cur
    then (goto reading (protect t), s)
    else (goto try_again (protect t), s)
advance reading t s =
    let next = link (node_of s t.cur) in
    (record t { next = next; pc = if is_marked next then unlinking else rechecking }, s)
advance unlinking t s =
    let (done, s') = cas t.prev t.cur (unmark t.next) s in
    if done
    then (record (retire t) { cur = unmark t.next; pc = testing }, s')
    else (goto try_again t, s)
advance rechecking t s =
    if load t.prev s == t.cur
    then (compare_key (key_of (node_of s t.cur)) t, s)
    else (goto try_again t, s)
advance publishing t s =
    let (done, s') = cas t.prev t.cur (address (length s.nodes)) (with_node t.key t.cur s) in
    if done then (goto (finished true) t, s') else (goto try_again t, s)
advance marking t s =
    let (done, s') = cas (next_of t.cur) t.next (mark t.next) s in
    if done then (goto unlinking_marked t, s') else (goto try_again t, s)
advance unlinking_marked t s =
    let (done, s') = cas t.prev t.cur t.next s in
    if done
    then (goto (finished true) (retire t), s')
    else (record t { op = cleaning; pc = try_again }, s)
advance (finished found) t s = (t, s)

-- A thread begins an operation when it has none, or goes on with its own.
pub data Move : Type 0 where
  begin : Op → ℕ → Move
  go : Move

abbrev pub has_ended : Pc → Bool
has_ended (finished found) = true
has_ended _ = false

unfoldable pub move : Move → Thread → Shared → Thread × Shared
move (begin op key) t s =
    if has_ended t.pc then (record t { op = op; key = key; pc = try_again }, s) else (t, s)
move go t s = advance t.pc t s

pub record System : Type 0 where
  pub shared : Shared
  pub threads : ℕ → Thread

-- `LockFreeList(num_threads)`, and threads that have done nothing.
abbrev pub empty_list : System
empty_list = record {
  shared = record { head = 0; nodes = [] };
  threads = λ i. record {
    op = looking;
    key = 0;
    prev = at_head;
    cur = 0;
    next = 0;
    pc = finished false;
    hp0 = 0;
    hp1 = 0;
    retired = [];
  };
}

unfoldable pub move_thread : ℕ → Move → System → System
move_thread i m y =
    let (t, s) = move m (y.threads i) y.shared in
    record { shared = s; threads = λ j. if j == i then t else y.threads j }

unfoldable pub run_moves : List (ℕ × Move) → System → System
run_moves [] y = y
run_moves ((i, m) ∷ ms) y = run_moves ms (move_thread i m y)

-- `checkIntegrity`: the loop behind its first node. `none` is fuel that ran out, or a marked pointer
-- that is followed.
unfoldable pub ascends : ℕ → ℕ → ℕ → Shared → Option Bool
ascends zero before w s = none
ascends (suc fuel) before w s = elim (w == 0) [
  | true ↦ some true
  | false ↦ elim (node_of s w) [
    | none ↦ none
    | some n ↦ elim (leb n.data_ before) [
      | true ↦ some false
      | false ↦ ascends fuel n.data_ n.next s
    ]
  ]
]

unfoldable pub check_integrity : ℕ → Shared → Option Bool
unfolding ascends
check_integrity fuel s = elim (s.head == 0) [
  | true ↦ some true
  | false ↦ elim (node_of s s.head) [ none ↦ none | some n ↦ ascends fuel n.data_ n.next s ]
]
