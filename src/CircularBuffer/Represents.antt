-- ===== src/CircularBuffer/Represents.antt =====
-- When a circular buffer holds a queue: the unread slots are those from the read pointer on, in
-- order, going round at the end of the array, and the write pointer stands just behind them.
use multicore_programming_la.Common.{
  ℕ, zero, suc, ◌+◌, ◌-◌, ◌≤◌, ◌<◌, ◌≡◌, ◌≢◌, refl, false, List, [], ◌∷◌, some, ℤ, pos, negsuc,
  arith, ltb, if◌then◌else◌, length, get_elem?,
}
use multicore_programming_la.CircularBuffer.{
  CircularBuffer, Element, unread, is_unread, fresh_elements, slots_of, next_slot, mark_read,
}
use multicore_programming_la.CircularBuffer.Spec.{Queue}

-- The slot that lies `k` places after the slot `r`.
abbrev pub slot_at : ℕ → ℕ → ℕ → ℕ
slot_at slots r k = if ltb (r + k) slots then r + k else r + k - slots

pub record Represents (b : CircularBuffer) (q : Queue) : Type 0 where
  pub size : length b.elements ≡ b.slots
  pub some_slot : 0 < b.slots
  pub read_in : b.read_ptr < b.slots
  pub fits : length q ≤ b.slots
  pub write_at : b.write_ptr ≡ slot_at b.slots b.read_ptr (length q)
  pub filled :
      (k : ℕ) (v : ℤ)
      → get_elem? q k ≡ some v
      → get_elem? b.elements (slot_at b.slots b.read_ptr k)
        ≡ some (record { value = v; status = unread })
  pub idle :
      (k : ℕ)
      → length q ≤ k
      → k < b.slots
      → is_unread (get_elem? b.elements (slot_at b.slots b.read_ptr k)) ≡ false

pub length-fresh_elements : (n : ℕ) (junk : ℕ → ℤ) → length (fresh_elements n junk) ≡ n
length-fresh_elements zero junk = refl
length-fresh_elements (suc n) junk = omega (arith, length-fresh_elements n junk)

pub length-mark_read : (es : List Element) → length (mark_read es) ≡ length es
length-mark_read [] = refl
length-mark_read (e ∷ es) = omega (arith, length-mark_read es)

pub is_unread-fresh_elements :
    (n : ℕ) (junk : ℕ → ℤ) (i : ℕ) → is_unread (get_elem? (fresh_elements n junk) i) ≡ false
is_unread-fresh_elements zero junk i = refl
is_unread-fresh_elements (suc n) junk zero = refl
is_unread-fresh_elements (suc n) junk (suc i) = is_unread-fresh_elements n junk i

pub is_unread-mark_read :
    (es : List Element) (i : ℕ) → is_unread (get_elem? (mark_read es) i) ≡ false
is_unread-mark_read [] i = refl
is_unread-mark_read (e ∷ es) zero = refl
is_unread-mark_read (e ∷ es) (suc i) = is_unread-mark_read es i

pub slots_of_pos : (n : ℤ) → 0 < slots_of n
slots_of_pos (pos zero) = omega arith
slots_of_pos (pos (suc n)) = omega arith
slots_of_pos (negsuc n) = omega arith

pub slot_at-lt : (slots r k : ℕ) → r < slots → k ≤ slots → slot_at slots r k < slots
slot_at-lt slots r k h l = ground arith

pub next_slot-slot_at :
    (slots r k : ℕ)
    → r < slots
    → k < slots
    → next_slot slots (slot_at slots r k) ≡ slot_at slots r (suc k)
next_slot-slot_at slots r k h l = ground arith

pub slot_at-next_slot :
    (slots r k : ℕ)
    → r < slots
    → k < slots
    → slot_at slots (next_slot slots r) k ≡ slot_at slots r (suc k)
slot_at-next_slot slots r k h l = ground arith

pub slot_at-ne :
    (slots r k j : ℕ)
    → r < slots
    → k < slots
    → j < slots
    → k ≢ j
    → slot_at slots r k ≢ slot_at slots r j
slot_at-ne slots r k j h l m ne = ground arith
