-- ===== src/Buffer/Join.antt =====
-- `maybeRemoveLastChunk`, `appendFrom` and `copyFrom` of buffer.cpp. A buffer that was consumed is
-- refused with a FATAL message, which ends the process: that is `none`.
pub mod Trim
pub mod PopBack
mod Open
pub mod Append
pub mod Copy
use multicore_programming_la.Common.{
  ℕ, zero, suc, ◌+◌, ◌-◌, Bool, true, false, ◌||◌, Option, none, some, List, [], ◌∷◌, ◌++◌, ltb,
  ◌==◌, if◌then◌else◌, length, get_or,
}
use multicore_programming_la.Buffer.{
  Chunk, Buffer, Position, block_size, read_size, write_size, is_consumed, segment, chunk_at,
  add_chunk, next_chunk, store,
}

-- `deque::pop_back`
abbrev pub pop_back {ℓ} : {A : Type ℓ} → List A → List A
pop_back [] = []
pop_back (x ∷ []) = []
pop_back (x ∷ y ∷ ys) = x ∷ pop_back (y ∷ ys)

-- `deque::back`, of a deque that is not empty.
abbrev pub back : List ℕ → ℕ
back xs = get_or xs (length xs - 1) 0

-- A chunk and its size put at the end, with the write pointer left alone.
abbrev pub push_chunk : Chunk → ℕ → Buffer → Buffer
push_chunk c s b = record b { chunks = b.chunks ++ (c ∷ []); sizes = b.sizes ++ (s ∷ []) }

-- "adjust pointer if it was on eob before"
abbrev pub adjust_read : Buffer → Buffer
adjust_read b =
    if read_size b == 0 then record b { rpos = record { idx = b.rpos.idx + 1; off = 0 } } else b

-- "adjust write pointer to new ending chunk"
abbrev pub adjust_write : Buffer → Buffer
adjust_write b = record b { wpos = record { idx = length b.chunks - 1; off = back b.sizes } }

module _ (raw : Chunk) where
  unfoldable pub maybe_remove_last_chunk : Buffer → Option Chunk × Buffer
  maybe_remove_last_chunk b =
      if get_or b.sizes b.wpos.idx 0 == 0
      then (
        some (chunk_at raw b b.wpos.idx),
        record b { chunks = pop_back b.chunks; sizes = pop_back b.sizes },
      )
      else (none, b)

  -- A full last chunk is followed by an empty one, the one that was removed if there is one.
  abbrev pub close_last : Option Chunk → Buffer → Buffer
  close_last last b =
      if back b.sizes == block_size
      then elim last [ none ↦ push_chunk raw 0 b | some c ↦ push_chunk c 0 b ]
      else b

  -- "adjust other's state": with its last chunk back in place the write pointer is not set anew.
  abbrev pub emptied : Option Chunk → Buffer → Buffer
  emptied last other =
      let cleared = record other { chunks = []; sizes = [] } in
      let b : Buffer = elim last [
        | none ↦ next_chunk raw cleared
        | some c ↦ push_chunk c 0 cleared
      ] in
      record b { rpos = b.wpos }

  -- `this` and `other` after the call.
  unfoldable pub append_from : Buffer → Buffer → Option (Buffer × Buffer)
  unfolding maybe_remove_last_chunk
  append_from b other =
      if is_consumed other
      then none
      else if read_size other == 0
      then some (b, other)
      else let (last, b1) = maybe_remove_last_chunk b in
        let (other_last, o1) = maybe_remove_last_chunk other in
        let b2 = record b1 { chunks = b1.chunks ++ o1.chunks; sizes = b1.sizes ++ o1.sizes } in
        some (adjust_write (adjust_read (close_last last b2)), emptied other_last o1)

  -- The loop of `copyFrom`, from the chunk `i` of `other` on.
  unfoldable pub copy_chunks : ℕ → List Chunk → List ℕ → Buffer → Buffer
  copy_chunks i [] ss b = b
  copy_chunks i (c ∷ cs) [] b = b
  copy_chunks i (c ∷ cs) (len ∷ ss) b =
      let b1 = if ltb 0 i || ltb (write_size b) len then next_chunk raw b else b in
      copy_chunks (suc i) cs ss (store raw (segment c 0 len) b1)

  -- `this` after the call; `other` stays as it is.
  unfoldable pub copy_from : Buffer → Buffer → Option Buffer
  copy_from b other =
      if is_consumed other
      then none
      else if read_size other == 0
      then some b
      else let b1 = copy_chunks 0 other.chunks other.sizes b in
        some (if b1.wpos.off == block_size then next_chunk raw b1 else b1)
