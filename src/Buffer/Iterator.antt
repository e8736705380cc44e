-- ===== src/Buffer/Iterator.antt =====
-- `Buffer::Iterator` of buffer.hpp and buffer.cpp: it peeks at the unread bytes one after another.
pub mod Walk
use multicore_programming_la.Common.{
  ℕ, zero, suc, ◌+◌, ◌-◌, Bool, true, false, ◌&&◌, Option, none, some, List, [], ◌∷◌, ltb, ◌==◌,
  if◌then◌else◌, get_or,
}
use mathlib.Core.Option
use multicore_programming_la.Buffer.{
  Chunk, Buffer, Position, same_position, sub_size, add_size, read_size, byte_count, chunk_at,
}

pub record Iterator : Type 0 where
  pub buffer : Buffer
  pub pos : Position
  pub bytes_read : ℕ
  pub bytes_total : ℕ
  pub budget : ℕ
  pub chunk_start : Chunk

-- `getBudget`
abbrev pub get_budget : Buffer → Position → ℕ
get_budget b p = sub_size (get_or b.sizes p.idx 0) p.off

-- `*(chunk_start_ + pos_.off)`
unfoldable pub get_char : Iterator → ℕ
get_char it = it.chunk_start it.pos.off

unfoldable pub eob : Iterator → Bool
eob it = if ltb 0 it.budget then false else same_position it.pos it.buffer.wpos

module _ (raw : Chunk) where
  -- `begin()`; the constructor has the same position.
  unfoldable pub begin : Buffer → Iterator
  begin b = record {
    buffer = b;
    pos = b.rpos;
    bytes_read = 0;
    bytes_total = byte_count b;
    budget = get_budget b b.rpos;
    chunk_start = chunk_at raw b b.rpos.idx;
  }

  -- One position on in the chunk.
  abbrev pub step_off : Iterator → Iterator
  step_off it = record it {
    pos = record { idx = it.pos.idx; off = add_size it.pos.off 1 };
    bytes_read = add_size it.bytes_read 1;
  }

  -- "fell off chunk or remainder of the chunk is empty?"
  abbrev pub step_chunk : Iterator → Iterator
  step_chunk it =
      if it.pos.off == get_or it.buffer.sizes it.pos.idx 0 && ltb it.pos.idx it.buffer.wpos.idx
      then record it {
        pos = record { idx = it.pos.idx + 1; off = 0 };
        chunk_start = chunk_at raw it.buffer (it.pos.idx + 1);
      }
      else it

  abbrev pub refill : Iterator → Iterator
  refill it = record it { budget = get_budget it.buffer it.pos }

  unfoldable pub slow_next : Iterator → Iterator
  slow_next it =
      if ltb it.pos.off (get_or it.buffer.sizes it.pos.idx 0)
      then refill (step_chunk (step_off it))
      else it

  unfoldable pub next : Iterator → Iterator
  unfolding slow_next
  next it =
      if ltb 1 it.budget then record (step_off it) { budget = it.budget - 1 } else slow_next it

  -- A client's loop, `while (!it.eob()) { it.getChar(); it.next(); }`, with the bytes that it sees.
  unfoldable pub walk : ℕ → Iterator → Option (List ℕ)
  walk zero it = none
  walk (suc fuel) it = elim (eob it) [
    | true ↦ some []
    | false ↦ Option.map (λ l. get_char it ∷ l) (walk fuel (next it))
  ]
