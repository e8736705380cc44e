-- ===== src/Buffer.antt =====
-- buffer.hpp and buffer.cpp, without the iterator: a streaming buffer of fixed-size chunks.
--
-- A chunk is the memory of a `new char[BlockSize]`, a function from offsets to bytes; `raw` is what
-- a chunk holds before anything is written to it. `Chunks` and `Sizes` are lists. Sizes and offsets
-- are `size_t`, with the wrap of their additions and subtractions written out. The subtractions on
-- chunk numbers in `dropChunks` never go below zero: its callers have moved both positions past the
-- chunks that they drop.
mod Overcount
pub mod Bytes
pub mod Valid
pub mod Reserve
pub mod Write
pub mod Consume
pub mod Join
pub mod Count
pub mod ReadPointer
pub mod Iterator
mod Tests
use mathlib.Core.Option
use multicore_programming_la.Common.{
  ℕ, zero, suc, ◌+◌, ◌-◌, ◌%◌, ◌^◌, min, Bool, true, false, ◌&&◌, ◌||◌, Option, none, some, List,
  [], ◌∷◌, ◌++◌, ltb, leb, ◌==◌, if◌then◌else◌, length, get_or, set, take, drop,
}

-- `a + b` and `a - b` at type `size_t`.
unfoldable pub add_size : ℕ → ℕ → ℕ
add_size a b = (a + b) % 2 ^ 64

unfoldable pub sub_size : ℕ → ℕ → ℕ
sub_size a b = (a + 2 ^ 64 - b) % 2 ^ 64

abbrev pub block_size : ℕ
block_size = 4096

abbrev pub Chunk : Type 0
Chunk = ℕ → ℕ

-- `struct Position`
pub record Position : Type 0 where
  pub idx : ℕ
  pub off : ℕ

-- `Position::operator==`
abbrev pub same_position : Position → Position → Bool
same_position p q = p.idx == q.idx && p.off == q.off

pub record Buffer : Type 0 where
  pub chunks : List Chunk
  pub sizes : List ℕ
  pub wpos : Position
  pub rpos : Position

-- The byte loop of `write`, and `memcpy`: the bytes go to successive offsets.
unfoldable pub poke : Chunk → ℕ → List ℕ → Chunk
poke c off [] = c
poke c off (x ∷ xs) = poke (λ i. if i == off then x else c i) (suc off) xs

-- The `n` bytes from an offset on.
unfoldable pub segment : Chunk → ℕ → ℕ → List ℕ
segment c off zero = []
segment c off (suc n) = c off ∷ segment c (suc off) n

-- `size_t writeSize() const`
abbrev pub write_size : Buffer → ℕ
write_size b = sub_size block_size b.wpos.off

-- `size_t readSize() const`
abbrev pub read_size : Buffer → ℕ
read_size b = sub_size (get_or b.sizes b.rpos.idx 0) b.rpos.off

abbrev pub is_consumed : Buffer → Bool
is_consumed b = ltb 0 b.rpos.idx || ltb 0 b.rpos.off

-- The memory at `writePtr()` receives `data`, and size and offset go up, as `write` and `copyFrom`
-- have it.
abbrev pub size_grown : ℕ → Buffer → Buffer
size_grown n b = record b {
  sizes = set b.sizes b.wpos.idx (add_size (get_or b.sizes b.wpos.idx 0) n);
  wpos = record { idx = b.wpos.idx; off = add_size b.wpos.off n };
}

unfoldable pub drop_chunks : ℕ → Buffer → Buffer
drop_chunks n b = if n == 0 then b else record {
  chunks = drop n b.chunks;
  sizes = drop n b.sizes;
  wpos = record { idx = b.wpos.idx - n; off = b.wpos.off };
  rpos = record { idx = b.rpos.idx - n; off = b.rpos.off };
}

-- `advance`: nothing to do, or no room, is `false`.
unfoldable pub advance : ℕ → Buffer → Bool × Buffer
advance bytes b =
    if bytes == 0
    then (false, b)
    else if leb bytes (write_size b)
    then (true, size_grown bytes b)
    else (false, b)

module _ (raw : Chunk) where
  abbrev pub chunk_at : Buffer → ℕ → Chunk
  chunk_at b i = get_or b.chunks i raw

  -- `addChunk`: the new buffer, and the position that is returned.
  abbrev pub add_chunk : Buffer → Buffer × Position
  add_chunk b = (
    record b { chunks = b.chunks ++ (raw ∷ []); sizes = b.sizes ++ (0 ∷ []) },
    record { idx = length (b.chunks ++ (raw ∷ [])) - 1; off = 0 },
  )

  -- `wpos_ = addChunk()`
  unfoldable pub next_chunk : Buffer → Buffer
  next_chunk b = let (b', p) = add_chunk b in record b' { wpos = p }

  -- `Buffer()`: `wpos_(addChunk()), rpos_(wpos_)`
  unfoldable pub create : Buffer
  create = record {
    chunks = raw ∷ [];
    sizes = 0 ∷ [];
    wpos = record { idx = 0; off = 0 };
    rpos = record { idx = 0; off = 0 };
  }

  unfoldable pub reserve : ℕ → Buffer → Bool × Buffer
  reserve bytes b =
      if ltb block_size bytes then (false, b) else if leb bytes (write_size b) then (true, b) else (
        true,
        let b' = next_chunk b in
            if same_position b.rpos b.wpos
            then drop_chunks 1 (record b' { rpos = b'.wpos })
            else b',
      )

  -- Bytes stored at the write pointer, which moves behind them.
  unfoldable pub store : List ℕ → Buffer → Buffer
  store bytes b =
      let i = b.wpos.idx in
      size_grown (length bytes)
        (record b { chunks = set b.chunks i (poke (chunk_at b i) b.wpos.off bytes) })

  -- One round of the loop of `write`, with `bytes` left: what is left after it, and the buffer.
  unfoldable pub write_round : List ℕ → Buffer → List ℕ × Buffer
  write_round bytes b =
      let n = min (write_size b) (length bytes) in
      let left = drop n bytes in
      let b' = store (take n bytes) b in
      (left, if ltb 0 (length left) || b'.wpos.off == block_size then next_chunk b' else b')

  -- `while (bytes_left > 0)`; `none` is fuel that ran out.
  unfoldable pub write_loop : ℕ → List ℕ → Buffer → Option Buffer
  write_loop zero bytes b = none
  write_loop (suc fuel) [] b = some b
  write_loop (suc fuel) (x ∷ xs) b = let r = write_round (x ∷ xs) b in write_loop fuel r.0 r.1

  unfoldable pub write : List ℕ → Buffer → Option Buffer
  write bytes b = write_loop (length bytes + 2) bytes b

-- One round of the loop of `consume`: bytes still to consume, chunks to drop, the buffer.
pub record Consuming : Type 0 where
  pub left : ℕ
  pub to_drop : ℕ
  pub buffer : Buffer

-- `min(bytes_to_consume, readSize())` bytes of the chunk that is read are consumed.
abbrev pub consume_chunk : Consuming → Consuming
consume_chunk s =
    let b = s.buffer in
    let n = min s.left (read_size b) in
    record s {
      left = s.left - n;
      buffer = record b { rpos = record { idx = b.rpos.idx; off = add_size b.rpos.off n } };
    }

unfoldable pub consume_round : Consuming → Consuming
consume_round s =
    let t = consume_chunk s in
    let b = t.buffer in
    if read_size b == 0
    then record {
      left = t.left;
      to_drop = t.to_drop + 1;
      buffer = record b { rpos = record { idx = b.rpos.idx + 1; off = 0 } };
    }
    else t

-- `while ((bytes_to_consume > 0) && (rpos_.idx < wpos_.idx))`
unfoldable pub consume_loop : ℕ → Consuming → Option Consuming
consume_loop zero s = none
consume_loop (suc fuel) s = elim (ltb 0 s.left && ltb s.buffer.rpos.idx s.buffer.wpos.idx) [
  | true ↦ consume_loop fuel (consume_round s)
  | false ↦ some s
]

abbrev consume_end : Consuming → Buffer
consume_end s =
    let t = if ltb 0 s.left then consume_chunk s else s in drop_chunks t.to_drop t.buffer

unfoldable pub consume : ℕ → Buffer → Option Buffer
consume bytes b =
    Option.map consume_end
      (consume_loop (length b.sizes + 1) (record { left = bytes; to_drop = 0; buffer = b }))

-- `byteCount`: the chunk that is read, and all from the second on.
abbrev pub sum_sizes : List ℕ → ℕ → ℕ
sum_sizes [] count = count
sum_sizes (s ∷ ss) count = sum_sizes ss (add_size count s)

unfoldable pub byte_count : Buffer → ℕ
byte_count b = sum_sizes (drop 1 b.sizes) (read_size b)
