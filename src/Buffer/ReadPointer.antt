-- ===== src/Buffer/ReadPointer.antt =====
-- The read pointer of a buffer whose bytes were all read, after `copyFrom` of buffer.cpp.
use multicore_programming_la.Common.{
  ℕ, suc, ◌<◌, ◌≡◌, ◌≢◌, refl, sym, ap, subst, inl, inr, ◌∙◌, Bool, true, false, ◌||◌, some, List,
  [], ◌∷◌, ◌++◌, arith, length, Bool-cases, get_or, ltb, lt→ltb, ◌==◌, if◌then◌else◌, length-append,
  length-set, get_or-append_default, get_or-set_ne,
}
use multicore_programming_la.Buffer.{
  Chunk, Buffer, Position, poke, chunk_at, block_size, read_size, write_size, is_consumed, store,
  next_chunk, segment,
}
use multicore_programming_la.Buffer.Valid.{IsValid, contents, size_at, read_size_lem, sub_size_lem}
use mathlib.Core.Option.{some-injective}
use multicore_programming_la.Buffer.Reserve.{contents_at_end}
use multicore_programming_la.Buffer.Join.{copy_from, copy_chunks}
use multicore_programming_la.Buffer.Join.Copy.{copy_from-appends, contents_of_not_consumed}
use multicore_programming_la.Buffer.Bytes.{length-data_of_ge}

-- The read pointer and the size of its chunk are still `r` and `size`, and writes go behind it.
record Behind (r : Position) (size : ℕ) (b : Buffer) : Type 0 where
  rpos_kept : b.rpos ≡ r
  size_kept : size_at b r.idx ≡ size
  behind : r.idx < b.wpos.idx
  in_chunks : b.wpos.idx < length b.chunks

module _ (raw : Chunk) {r : Position} {size : ℕ} where
  store-Behind : (bytes : List ℕ) {b : Buffer} → Behind r size b → Behind r size (store raw bytes b)
  unfolding store
  store-Behind bytes {b} k = record {
    rpos_kept = k.rpos_kept;
    size_kept =
        get_or-set_ne b.sizes b.wpos.idx r.idx _ 0 (λ e. omega (arith, k.behind, e)) ∙ k.size_kept;
    behind = k.behind;
    in_chunks = omega (arith, k.in_chunks, length-set b.chunks b.wpos.idx (chunk_after bytes b));
  }
    where
      chunk_after : List ℕ → Buffer → Chunk
      chunk_after bytes b = poke (chunk_at raw b b.wpos.idx) b.wpos.off bytes

  next_chunk-Behind :
      (b : Buffer)
      → b.rpos ≡ r
      → size_at b r.idx ≡ size
      → r.idx < length b.chunks
      → Behind r size (next_chunk raw b)
  unfolding next_chunk
  next_chunk-Behind b e f h = record {
    rpos_kept = e;
    size_kept = get_or-append_default b.sizes r.idx 0 ∙ f;
    behind = omega (arith, length-append b.chunks (raw ∷ []));
    in_chunks = omega (arith, length-append b.chunks (raw ∷ []));
  }

  next_chunk-Behind_again : {b : Buffer} → Behind r size b → Behind r size (next_chunk raw b)
  next_chunk-Behind_again {b} k =
      next_chunk-Behind b k.rpos_kept k.size_kept (omega (arith, k.behind, k.in_chunks))

  copy_chunks-Behind :
      (i : ℕ) (cs : List Chunk) (ss : List ℕ) {b : Buffer}
      → Behind r size b
      → Behind r size (copy_chunks raw i cs ss b)
  unfolding copy_chunks
  copy_chunks-Behind i [] ss k = k
  copy_chunks-Behind i (c ∷ cs) [] k = k
  copy_chunks-Behind i (c ∷ cs) (len ∷ ss) {b} k =
      copy_chunks-Behind (suc i) cs ss
        (store-Behind (segment c 0 len) (roomy (ltb 0 i || ltb (write_size b) len)))
    where
      roomy : (t : Bool) → Behind r size (if t then next_chunk raw b else b)
      roomy true = next_chunk-Behind_again k
      roomy false = k

  -- A first piece that does not fit goes to a new chunk.
  copy_chunks-Behind_first :
      (cs : List Chunk) (ss : List ℕ) (b : Buffer)
      → length cs ≡ length ss
      → write_size b < get_or ss 0 0
      → b.rpos ≡ r
      → size_at b r.idx ≡ size
      → r.idx < length b.chunks
      → Behind r size (copy_chunks raw 0 cs ss b)
  unfolding copy_chunks
  copy_chunks-Behind_first [] [] b e l f g h = absurd (omega arith)
  copy_chunks-Behind_first [] (len ∷ ss) b e l f g h = absurd (omega arith)
  copy_chunks-Behind_first (c ∷ cs) [] b e l f g h = absurd (omega arith)
  copy_chunks-Behind_first (c ∷ cs) (len ∷ ss) b e l f g h =
      rw (lt→ltb (write_size b) len l)
        (copy_chunks-Behind 1 cs ss (store-Behind (segment c 0 len) (next_chunk-Behind b f g h)))

  copy_from-Behind :
      (b other : Buffer)
      → is_consumed other ≡ false
      → read_size other ≢ 0
      → Behind r size (copy_chunks raw 0 other.chunks other.sizes b)
      → (b' : Buffer) × (copy_from raw b other ≡ some b') × Behind r size b'
  unfolding copy_from
  copy_from-Behind b other fresh ne k =
      let e : (read_size other == 0) ≡ false = ground arith in
      elim (Bool-cases ((copy_chunks raw 0 other.chunks other.sizes b).wpos.off == block_size)) [
        | inl f ↦ (_, rw (fresh, e, f), next_chunk-Behind_again k)
        | inr f ↦ (_, rw (fresh, e, f), k)
      ]

module _ (raw : Chunk) {b other : Buffer} (valid : IsValid b) (valid' : IsValid other)
    (fresh : is_consumed other ≡ false) (all_read : b.rpos ≡ b.wpos) where
  all_read_off : b.rpos.off ≡ size_at b b.rpos.idx
  all_read_off =
      ap (λ p. p.off) all_read ∙ valid.write_off ∙ ap (λ p. get_or b.sizes p.idx 0) (sym all_read)

  -- For valid buffers, the other one not consumed, where all bytes of the first one were read and
  -- the first chunk of the other does not fit its last chunk: copyFrom ends and leaves a buffer
  -- that holds the bytes of the other one, at least one, and whose readSize is 0.
  pub copy_from_stalls :
      write_size b < size_at other 0
      → (b' : Buffer) × (copy_from raw b other ≡ some b')
        × (contents b' ≡ contents other)
        × (0 < length (contents b'))
        × (read_size b' ≡ 0)
  copy_from_stalls h =
      let (b', e, v, c) = copy_from-appends raw valid valid' fresh in
      let (b2, e2, k) =
        copy_from-Behind raw {r = b.rpos} {size = size_at b b.rpos.idx} b other fresh read_ne (
          copy_chunks-Behind_first raw other.chunks other.sizes b valid'.same h refl refl
            (omega (arith, valid.same, valid.write_last, valid.read_before))) in
      let same : b' ≡ b2 = some-injective b' b2 (sym e ∙ e2) in
      let c' : contents b' ≡ contents other =
        c
        ∙ ap (λ l. l ++ contents other)
            (contents_at_end valid (ap (λ p. p.idx) all_read) (ap (λ p. p.off) all_read)) in
      (b', e, c', rw c' some_unread, subst (λ x. read_size x ≡ 0) (sym same) (stalled k))
    where
      read_ne : read_size other ≢ 0
      read_ne z = ground (arith, read_size_lem valid')

      some_unread : 0 < length (contents other)
      some_unread =
          rw (contents_of_not_consumed other fresh)
            (omega (arith, h, length-data_of_ge other.chunks other.sizes valid'.same))

      stalled : {b2 : Buffer} → Behind b.rpos (size_at b b.rpos.idx) b2 → read_size b2 ≡ 0
      stalled {b2} k = rw k.rpos_kept (
          rw (k.size_kept, all_read_off)
            (sub_size_lem (size_at b b.rpos.idx) (size_at b b.rpos.idx) (omega arith)
                (omega (arith, valid.small b.rpos.idx))
              ∙ omega arith))
