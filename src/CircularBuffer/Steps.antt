-- ===== src/CircularBuffer/Steps.antt =====
-- Each operation of circular_buffer.cpp against that of the queue of Spec.
use multicore_programming_la.Common.{
  ℕ, suc, ◌-◌, ◌≤◌, ◌<◌, ◌≡◌, ◌≢◌, refl, Bool, true, false, ◌&&◌, inl, inr, [], ◌∷◌, ◌++◌, ℤ,
  negsuc, arith, ◌==◌, if◌then◌else◌, Bool-cases, ==_iff, length, get_elem?, set, drop,
  length-append, length-set, get_elem?-set_self, get_elem?-set_ne, get_elem?-lt, get_elem?-ge,
  get_elem?-append_lt, get_elem?-append_length,
}
use multicore_programming_la.CircularBuffer.{
  CircularBuffer, Element, is_read, unread, is_unread, value_of, create, slots_of, next_slot, write,
  read, clear,
}
use multicore_programming_la.CircularBuffer.Spec.{Queue, push, front}
use multicore_programming_la.CircularBuffer.Represents.{
  Represents, slot_at, length-fresh_elements, length-mark_read, is_unread-fresh_elements,
  is_unread-mark_read, slots_of_pos, slot_at-lt,
}

abbrev cell : ℤ → Element
cell v = record { value = v; status = unread }

length-drop_one : (q : Queue) → length (drop 1 q) ≡ length q - 1
length-drop_one [] = omega arith
length-drop_one (v ∷ q) = omega arith

get_elem?-drop_one : (q : Queue) (k : ℕ) → get_elem? (drop 1 q) k ≡ get_elem? q (suc k)
get_elem?-drop_one [] k = refl
get_elem?-drop_one (v ∷ q) k = refl

module _ {b : CircularBuffer} {q : Queue} (rep : Represents b q) where
  open b use {slots, elements, read_ptr, write_ptr}
  open rep use {size, some_slot, read_in, fits, write_at, filled, idle}

  write_in : write_ptr < slots
  write_in = ground (arith, write_at, slot_at-lt slots read_ptr (length q))

  -- The test of `write`: every slot is unread and the two pointers meet.
  abbrev full : Bool
  full = is_unread (get_elem? elements (next_slot slots write_ptr)) && write_ptr == read_ptr

  is_unread_at :
      (k : ℕ) → k < length q → is_unread (get_elem? elements (slot_at slots read_ptr k)) ≡ true
  is_unread_at k h = let (v, e) = get_elem?-lt q k h in rw (filled k v e)

  full_of_length : length q ≡ slots → full ≡ true
  full_of_length e = ground (arith, is_unread_at 0, is_unread_at 1)

  not_full_of_length : length q < slots → full ≡ false
  not_full_of_length h = ground (arith, idle 0, idle 1)

  -- A write where a slot is free.
  grow :
      (v : ℤ)
      → length q < slots
      → Represents
          (record b {
            elements = set elements write_ptr (cell v);
            write_ptr = next_slot slots write_ptr;
          })
          (q ++ (v ∷ []))
  grow v h = record {
    size = ground (arith, length-set elements write_ptr (cell v));
    some_slot = some_slot;
    read_in = read_in;
    fits = ground (arith, length-append q (v ∷ []));
    write_at = ground (arith, length-append q (v ∷ []));
    filled = λ k w e. ground (
      arith,
      size,
      write_in,
      filled k w,
      get_elem?-append_lt q (v ∷ []) k,
      get_elem?-append_length q v k,
      get_elem?-ge (q ++ (v ∷ [])) k,
      length-append q (v ∷ []),
      get_elem?-set_self elements write_ptr (cell v),
      get_elem?-set_ne elements write_ptr (slot_at slots read_ptr k) (cell v),
    );
    idle = λ k l m. ground (
      arith,
      idle k,
      length-append q (v ∷ []),
      get_elem?-set_ne elements write_ptr (slot_at slots read_ptr k) (cell v),
    );
  }

  -- A write where every slot is taken: the oldest value goes.
  overwrite :
      (v : ℤ)
      → length q ≡ slots
      → Represents
          (record b {
            read_ptr = next_slot slots read_ptr;
            elements = set elements write_ptr (cell v);
            write_ptr = next_slot slots write_ptr;
          })
          (drop 1 q ++ (v ∷ []))
  overwrite v h = record {
    size = ground (arith, length-set elements write_ptr (cell v));
    some_slot = some_slot;
    read_in = ground arith;
    fits = ground (arith, length-append (drop 1 q) (v ∷ []), length-drop_one q);
    write_at = ground (arith, length-append (drop 1 q) (v ∷ []), length-drop_one q);
    filled = λ k w e. ground (
      arith,
      size,
      write_in,
      filled (suc k) w,
      get_elem?-drop_one q k,
      length-drop_one q,
      get_elem?-append_lt (drop 1 q) (v ∷ []) k,
      get_elem?-append_length (drop 1 q) v k,
      get_elem?-ge (drop 1 q ++ (v ∷ [])) k,
      length-append (drop 1 q) (v ∷ []),
      get_elem?-set_self elements write_ptr (cell v),
      get_elem?-set_ne elements write_ptr (slot_at slots (next_slot slots read_ptr) k) (cell v),
    );
    idle = λ k l m. absurd (omega (arith, length-append (drop 1 q) (v ∷ []), length-drop_one q));
  }

  -- For a buffer that represents a queue, write leaves one that represents that queue with the
  -- value behind it, without the oldest value where every slot was unread.
  pub write-Represents : (v : ℤ) → Represents (write v b) (push slots v q)
  unfolding write push
  write-Represents v = elim (Bool-cases (length q == slots)) [
    | inl e ↦ rw (e, full_of_length ((==_iff _ _).0 e)) (overwrite v ((==_iff _ _).0 e))
    | inr e ↦ rw (e, not_full_of_length (ground arith)) (grow v (ground arith))
  ]

  -- Whatever it returns, `read` marks the slot at the read pointer and goes on to the next.
  abbrev after_read : CircularBuffer
  after_read = record b {
    elements =
        set elements read_ptr
          (record { value = value_of (get_elem? elements read_ptr); status = is_read });
    read_ptr = next_slot slots read_ptr;
  }

  read-cons-Represents : (v : ℤ) (q' : Queue) → q ≡ v ∷ q' → Represents after_read q'
  read-cons-Represents v q' c = record {
    size = ground (
      arith,
      length-set elements read_ptr
          (record { value = value_of (get_elem? elements read_ptr); status = is_read }),
    );
    some_slot = some_slot;
    read_in = ground arith;
    fits = ground arith;
    write_at = ground arith;
    filled = λ k w e. ground (
      arith,
      filled (suc k) w,
      get_elem?-ge q (suc k),
      get_elem?-set_ne elements read_ptr (slot_at slots (next_slot slots read_ptr) k)
          (record { value = value_of (get_elem? elements read_ptr); status = is_read }),
    );
    idle = λ k l m. ground (
      arith,
      idle (suc k),
      get_elem?-set_self elements read_ptr
          (record { value = value_of (get_elem? elements read_ptr); status = is_read }),
      get_elem?-set_ne elements read_ptr (slot_at slots (next_slot slots read_ptr) k)
          (record { value = value_of (get_elem? elements read_ptr); status = is_read }),
    );
  }

  -- A read of a non-empty buffer returns the oldest value and takes it out.
  pub read-Represents : q ≢ [] → ((read b).0 ≡ front q) × Represents (read b).1 (drop 1 q)
  unfolding read front
  read-Represents ne = split q refl
    where
      split :
          (p : Queue)
          → q ≡ p
          → ((if is_unread (get_elem? elements read_ptr)
                then value_of (get_elem? elements read_ptr)
                else negsuc 0)
              ≡ front p)
            × Represents after_read (drop 1 p)
      split [] e = absurd (ne e)
      split (v ∷ q') e = (ground (arith, filled 0 v), read-cons-Represents v q' e)

  -- A read of an empty buffer returns -1.
  pub read_empty : q ≡ [] → (read b).0 ≡ negsuc 0
  unfolding read
  read_empty e = ground (arith, idle 0)

  pub clear-Represents : Represents (clear b) []
  unfolding clear
  clear-Represents = record {
    size = ground (arith, length-mark_read elements);
    some_slot = some_slot;
    read_in = write_in;
    fits = omega arith;
    write_at = ground (arith, write_in);
    filled = λ k v e. cc;
    idle = λ k l m. is_unread-mark_read elements _;
  }

  -- For a buffer of at least two slots that represents the empty queue: after a read, the next
  -- value written is skipped by the read behind it, which returns -1.
  read_empty_skips : q ≡ [] → 2 ≤ slots → (v : ℤ) → (read (write v (read b).1)).0 ≡ negsuc 0
  unfolding read write
  read_empty_skips e h v = ground (
    arith,
    size,
    idle 0,
    idle 1,
    get_elem?-set_self elements read_ptr
        (record { value = value_of (get_elem? elements read_ptr); status = is_read }),
    get_elem?-set_ne elements read_ptr (next_slot slots read_ptr)
        (record { value = value_of (get_elem? elements read_ptr); status = is_read }),
    get_elem?-set_ne
        (set elements read_ptr
          (record { value = value_of (get_elem? elements read_ptr); status = is_read }))
        read_ptr (next_slot slots read_ptr) (cell v),
  )

-- The constructor gives an empty queue.
pub create-Represents : (junk : ℕ → ℤ) (n : ℤ) → Represents (create junk n) []
unfolding create
create-Represents junk n = record {
  size = length-fresh_elements (slots_of n) junk;
  some_slot = slots_of_pos n;
  read_in = slots_of_pos n;
  fits = omega arith;
  write_at = ground (arith, slots_of_pos n);
  filled = λ k v e. cc;
  idle = λ k l m. is_unread-fresh_elements (slots_of n) junk _;
}
