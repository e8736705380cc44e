-- ===== src/Buffer/Overcount.antt =====
-- The read pointer of a buffer whose bytes were all read, after `appendFrom` of buffer.cpp.
use multicore_programming_la.Common.{
  ℕ, suc, ◌+◌, ◌-◌, ◌≤◌, ◌<◌, ◌^◌, ◌≡◌, ◌≢◌, refl, sym, ap, subst, inl, inr, ◌∙◌, false, Option,
  none, some, ◌++◌, arith, length, Bool-cases, get_or, ◌==◌, get_or-append, get_or-append_ge,
  get_or-append_default,
}
use multicore_programming_la.Buffer.{Chunk, Buffer, block_size, read_size, is_consumed, byte_count}
use multicore_programming_la.Buffer.Valid.{IsValid, contents, size_at, sub_size_lem}
use multicore_programming_la.Buffer.Reserve.{contents_at_end}
use multicore_programming_la.Buffer.Count.{byte_count_twice}
use multicore_programming_la.Buffer.Join.{
  append_from, maybe_remove_last_chunk, push_chunk, back, close_last, adjust_read, adjust_write,
}
use multicore_programming_la.Buffer.Join.Append.{
  this_after, other_after, append_from_moves, this_after_lem,
}
use multicore_programming_la.Buffer.Join.Trim.{maybe_remove-Trimmed, joined}

-- `appendFrom` moves the read pointer on, and the sizes of the chunks stay.
module _ (raw : Chunk) where
  size_at-close_last :
      (last : Option Chunk) (b : Buffer) (i : ℕ)
      → (size_at (close_last raw last b) i ≡ size_at b i) × ((close_last raw last b).rpos ≡ b.rpos)
  size_at-close_last last b i = elim (Bool-cases (back b.sizes == block_size)) [
    | inl e ↦ rw e (pushed last)
    | inr e ↦ rw e (refl, refl)
  ]
    where
      pushed :
          (l : Option Chunk)
          → let b' : Buffer = elim l [ none ↦ push_chunk raw 0 b | some c ↦ push_chunk c 0 b ] in
            (size_at b' i ≡ size_at b i) × (b'.rpos ≡ b.rpos)
      pushed none = (get_or-append_default b.sizes i 0, refl)
      pushed (some c) = (get_or-append_default b.sizes i 0, refl)

size_at-adjust_read : (b : Buffer) (i : ℕ) → size_at (adjust_read b) i ≡ size_at b i
size_at-adjust_read b i = ground arith

-- A read pointer at the end of its chunk goes to the next one.
moves_on :
    (raw : Chunk) (last : Option Chunk) (b : Buffer)
    → b.rpos.off ≡ size_at b b.rpos.idx
    → size_at b b.rpos.idx ≤ block_size
    → (adjust_read (close_last raw last b)).rpos.idx ≡ b.rpos.idx + 1
moves_on raw last b e h =
    let (s, p) = size_at-close_last raw last b b.rpos.idx in
    let z : read_size (close_last raw last b) ≡ 0 = rw p (
      rw (s, e)
        (sub_size_lem _ (size_at b b.rpos.idx) (omega arith) (omega arith) ∙ omega arith)) in
    rw z (ap (λ q. q.idx + 1) p)

maybe_remove-full :
    (raw : Chunk) (b : Buffer)
    → size_at b b.wpos.idx ≢ 0
    → maybe_remove_last_chunk raw b ≡ (none, b)
unfolding maybe_remove_last_chunk
maybe_remove-full raw b h = let e : (size_at b b.wpos.idx == 0) ≡ false = ground arith in rw e

module _ (raw : Chunk) {b other : Buffer} (valid : IsValid b) (valid' : IsValid other)
    (fresh : is_consumed other ≡ false) (all_read : b.rpos ≡ b.wpos) (first : b.wpos.idx ≡ 0)
    (some_read : b.wpos.off ≢ 0) (more : read_size other ≢ 0) where
  abbrev after : Buffer
  after = this_after raw valid valid' fresh

  joined_sizes :
      (size_at (joined b (maybe_remove_last_chunk raw other).1) 0 ≡ size_at b 0)
      × (size_at (joined b (maybe_remove_last_chunk raw other).1) 1 ≡ size_at other 0)
  joined_sizes = (
    get_or-append b.sizes _ 0 0 (omega (arith, valid.write_last)),
    get_or-append_ge b.sizes _ 1 0 (omega (arith, valid.write_last))
        ∙ ap (λ k. get_or (maybe_remove_last_chunk raw other).1.sizes (1 - k) 0)
            (valid.write_last ∙ ap suc first)
        ∙ (maybe_remove-Trimmed raw valid').sizes_kept 0,
  )

  -- The chunk of `other` that comes first is the second one afterwards, and is the one that is read.
  second_is_read : (after.rpos.idx ≡ 1) × (size_at after 1 ≡ size_at other 0)
  second_is_read =
      subst
        (λ r.
          let a =
            adjust_write (
              adjust_read
                (close_last raw r.0 (joined r.1 (maybe_remove_last_chunk raw other).1))) in
          (a.rpos.idx ≡ 1) × (size_at a 1 ≡ size_at other 0))
        (sym (maybe_remove-full raw b (ground (arith, valid.write_off))))
        (
          moves_on raw none j at_end
                (omega (arith, sym at_end, all_read_off, valid.small b.rpos.idx))
              ∙ omega (arith, start),
          size_at-adjust_read (close_last raw none j) 1
              ∙ (size_at-close_last raw none j 1).0
              ∙ joined_sizes.1,
        )
    where
      j : Buffer
      j = joined b (maybe_remove_last_chunk raw other).1

      start : b.rpos.idx ≡ 0
      start = ap (λ p. p.idx) all_read ∙ first

      all_read_off : b.rpos.off ≡ size_at b 0
      all_read_off = ap (λ p. p.off) all_read ∙ valid.write_off ∙ ap (size_at b) first

      at_end : b.rpos.off ≡ size_at j b.rpos.idx
      at_end = all_read_off ∙ sym joined_sizes.0 ∙ ap (size_at j) (sym start)

  -- For valid buffers, the other one not consumed, with something to read, where the first one has
  -- one chunk with bytes, all read: appendFrom ends and leaves a buffer that holds the bytes of
  -- the other one, and whose byteCount is larger by the size of the first chunk of the other one,
  -- while these numbers stay below 2^64.
  append_from_overcounts :
      length (contents other) + size_at other 0 < 2 ^ 64
      → (r : Buffer × Buffer) × (append_from raw b other ≡ some r)
        × (contents r.0 ≡ contents other)
        × (byte_count r.0 ≡ length (contents other) + size_at other 0)
  append_from_overcounts h =
      let (v, c) = this_after_lem raw valid valid' fresh more in
      let (i, s) = second_is_read in
      let c' : contents after ≡ contents other =
        c
        ∙ ap (λ l. l ++ contents other)
            (contents_at_end valid (ap (λ p. p.idx) all_read) (ap (λ p. p.off) all_read)) in
      (
        (after, other_after raw valid valid' fresh),
        append_from_moves raw valid valid' fresh more,
        c',
        byte_count_twice v i (rw (c', s) h) ∙ rw (c', s),
      )
