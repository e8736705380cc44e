-- ===== src/CircularBuffer.antt =====
-- circular_buffer.hpp and circular_buffer.cpp: a fixed-size ring of integers, with the read status
-- of each slot. A pointer into `elements` is the index of the slot that it points to.
pub mod Steps
pub mod Spec
pub mod Represents
pub mod Refine
mod Tests
use multicore_programming_la.Common.{
  ℕ, zero, suc, ◌+◌, ◌-◌, Bool, List, [], ◌∷◌, Option, none, some, ◌&&◌, ℤ, pos, negsuc, ◌==◌,
  if◌then◌else◌, get_elem?, set,
}

-- `enum readOrNot`
pub data ReadStatus : Type 0 where
  is_read unread : ReadStatus

-- `struct bufferElement`
pub record Element : Type 0 where
  pub value : ℤ
  pub status : ReadStatus

pub record CircularBuffer : Type 0 where
  pub slots : ℕ
  pub elements : List Element
  pub read_ptr : ℕ
  pub write_ptr : ℕ

abbrev pub is_unread : Option Element → Bool
is_unread none = Bool.false
is_unread (some e) = elim (e.status) [ unread ↦ Bool.true | is_read ↦ Bool.false ]

-- What `value` reads: the slot is in range wherever the code reads it.
abbrev pub value_of : Option Element → ℤ
value_of none = negsuc 0
value_of (some e) = e.value

-- A slot of `new bufferElement[n]` after the loop of the constructor: `value` is not initialised.
abbrev pub fresh_elements : ℕ → (ℕ → ℤ) → List Element
fresh_elements zero junk = []
fresh_elements (suc n) junk = record { value = junk n; status = is_read } ∷ fresh_elements n junk

abbrev pub slots_of : ℤ → ℕ
slots_of (pos zero) = 10
slots_of (pos (suc n)) = suc n
slots_of (negsuc n) = 10

-- `CircularBuffer(int slots)`
unfoldable pub create : (ℕ → ℤ) → ℤ → CircularBuffer
create junk slots = record {
  slots = slots_of slots;
  elements = fresh_elements (slots_of slots) junk;
  read_ptr = 0;
  write_ptr = 0;
}

-- `(p - elements == bufferSlots - 1) ? elements : p + 1`
abbrev pub next_slot : ℕ → ℕ → ℕ
next_slot slots i = if i == slots - 1 then 0 else i + 1

unfoldable pub write : ℤ → CircularBuffer → CircularBuffer
write v b =
    let temp_ptr = next_slot b.slots b.write_ptr in
    let full = is_unread (get_elem? b.elements temp_ptr) && b.write_ptr == b.read_ptr in
    record b {
      read_ptr = if full then next_slot b.slots b.read_ptr else b.read_ptr;
      elements = set b.elements b.write_ptr (record { value = v; status = unread });
      write_ptr = temp_ptr;
    }

unfoldable pub read : CircularBuffer → ℤ × CircularBuffer
read b =
    let cell = get_elem? b.elements b.read_ptr in
    let temp = if is_unread cell then value_of cell else negsuc 0 in
    (
      temp,
      record b {
        elements = set b.elements b.read_ptr (record { value = value_of cell; status = is_read });
        read_ptr = next_slot b.slots b.read_ptr;
      },
    )

abbrev pub mark_read : List Element → List Element
mark_read [] = []
mark_read (e ∷ es) = record e { status = is_read } ∷ mark_read es

unfoldable pub clear : CircularBuffer → CircularBuffer
clear b = record b { elements = mark_read b.elements; read_ptr = b.write_ptr }
