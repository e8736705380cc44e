-- ===== src/Buffer/Join/Append.antt =====
-- `appendFrom` of buffer.cpp: what it appends, and what it leaves of the other buffer.
use multicore_programming_la.Common.{
  ◌≤◌, ◌<◌, ◌≡◌, ◌≢◌, refl, sym, true, false, inl, inr, some, [], ◌++◌, append-nil, arith, length,
  Bool-cases, ◌==◌, ==_iff,
}
use multicore_programming_la.Buffer.{Chunk, Buffer, read_size, is_consumed, next_chunk, create}
use multicore_programming_la.Buffer.Valid.{
  IsValid, contents, size_at, create-IsValid, contents-create, read_size_lem,
}
use multicore_programming_la.Buffer.Join.{
  maybe_remove_last_chunk, close_last, adjust_read, adjust_write, emptied, append_from,
}
use multicore_programming_la.Buffer.Join.Copy.{nothing_to_read}
use multicore_programming_la.Buffer.Join.Trim.{maybe_remove-Trimmed, joined, appended}

module _ (raw : Chunk) {b other : Buffer} (valid : IsValid b) (valid' : IsValid other)
    (fresh : is_consumed other ≡ false) where
  -- `this` and `other` after a call that moves something.
  abbrev pub this_after : Buffer
  this_after = adjust_write (
      adjust_read (
        close_last raw (maybe_remove_last_chunk raw b).0
          (joined (maybe_remove_last_chunk raw b).1 (maybe_remove_last_chunk raw other).1)))

  abbrev pub other_after : Buffer
  other_after =
      emptied raw (maybe_remove_last_chunk raw other).0 (maybe_remove_last_chunk raw other).1

  pub append_from_moves :
      read_size other ≢ 0 → append_from raw b other ≡ some (this_after, other_after)
  unfolding append_from
  append_from_moves ne = let e : (read_size other == 0) ≡ false = ground arith in rw (fresh, e)

  nothing_moves : read_size other ≡ 0 → append_from raw b other ≡ some (b, other)
  unfolding append_from
  nothing_moves z = let e : (read_size other == 0) ≡ true = ground arith in rw (fresh, e)

  other_after_fresh : size_at other other.wpos.idx ≢ 0 → other_after ≡ create raw
  unfolding maybe_remove_last_chunk next_chunk create
  other_after_fresh last =
      let e : (size_at other other.wpos.idx == 0) ≡ false = ground arith in rw e

  other_after_dangles :
      size_at other other.wpos.idx ≡ 0
      → (length other_after.chunks ≡ 1) × (other_after.wpos.idx ≡ other.wpos.idx)
  unfolding maybe_remove_last_chunk
  other_after_dangles last =
      let e : (size_at other other.wpos.idx == 0) ≡ true = ground arith in rw e (refl, refl)

  pub first_not_empty : read_size other ≢ 0 → 0 < size_at other 0
  first_not_empty ne = ground (arith, read_size_lem valid')

  pub this_after_lem :
      read_size other ≢ 0
      → IsValid this_after × (contents this_after ≡ contents b ++ contents other)
  this_after_lem ne =
      appended raw valid valid' (maybe_remove-Trimmed raw valid) (maybe_remove-Trimmed raw valid')
        fresh (first_not_empty ne) (maybe_remove_last_chunk raw b).0

  -- For valid buffers, the other one not consumed, appendFrom ends and leaves a valid buffer that
  -- holds what it held and then what the other buffer held.
  pub append_from-appends :
      (r : Buffer × Buffer) × (append_from raw b other ≡ some r)
      × IsValid r.0
      × (contents r.0 ≡ contents b ++ contents other)
  append_from-appends = elim (Bool-cases (read_size other == 0)) [
    | inl e ↦ (
      (b, other),
      nothing_moves ((==_iff _ _).0 e),
      valid,
      rw (nothing_to_read valid' fresh ((==_iff _ _).0 e)) (sym (append-nil _)),
    )
    | inr e ↦
        let done = this_after_lem (ground arith) in
        ((this_after, other_after), append_from_moves (ground arith), done.0, done.1)
  ]

  -- For valid buffers, the other one not consumed, with something to read and bytes in its last
  -- chunk, appendFrom ends and leaves the other buffer valid and empty.
  append_from_empties :
      read_size other ≢ 0
      → size_at other other.wpos.idx ≢ 0
      → (r : Buffer × Buffer) × (append_from raw b other ≡ some r)
        × IsValid r.1
        × (contents r.1 ≡ [])
  append_from_empties ne last = (
    (this_after, other_after),
    append_from_moves ne,
    rw (other_after_fresh last) (create-IsValid raw),
    rw (other_after_fresh last) (contents-create raw),
  )

  -- For valid buffers, the other one not consumed, with something to read and an empty last chunk,
  -- appendFrom ends and leaves the other buffer with one chunk and a write pointer into a chunk
  -- behind it.
  append_from_dangles :
      read_size other ≢ 0
      → size_at other other.wpos.idx ≡ 0
      → (r : Buffer × Buffer) × (append_from raw b other ≡ some r)
        × (length r.1.chunks ≡ 1)
        × (1 ≤ r.1.wpos.idx)
  append_from_dangles ne last = (
    (this_after, other_after),
    append_from_moves ne,
    (other_after_dangles last).0,
    ground (arith, first_not_empty ne, other_after_dangles last),
  )
