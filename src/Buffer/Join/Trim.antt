-- ===== src/Buffer/Join/Trim.antt =====
-- The chunks that `appendFrom` of buffer.cpp puts together: those of both buffers, without an empty
-- last one.
use multicore_programming_la.Common.{
  ℕ, ◌+◌, ◌-◌, ◌≤◌, ◌<◌, ◌≡◌, refl, ap, ◌∙◌, false, inl, inr, Option, ◌++◌, arith, length,
  Bool-cases, get_or, drop, ◌==◌, get_or-append, get_or-append_ge, get_or_ge, length-append,
  length-drop, drop-append, get_or-drop,
}
use native.Mathlib.Decide.{dec_lt}
use multicore_programming_la.Buffer.{Chunk, Buffer, block_size, is_consumed}
use multicore_programming_la.Buffer.Bytes.{data_of, data_of-append, length-data_of_ge}
use multicore_programming_la.Buffer.Valid.{IsValid, contents, size_at}
use multicore_programming_la.Buffer.Join.{
  maybe_remove_last_chunk, close_last, adjust_read, adjust_write,
}
use multicore_programming_la.Buffer.Join.PopBack.{
  length-pop_back, get_or-pop_back_default, data_of-pop_back,
}
use multicore_programming_la.Buffer.Join.Open.{IsOpen, Ready, finish, close_last-Ready}
use multicore_programming_la.Buffer.Join.Copy.{contents_of_not_consumed}

module _ (raw : Chunk) where
  -- Without an empty last chunk, every chunk holds bytes.
  pub record Trimmed (b : Buffer) (r : Option Chunk × Buffer) : Type 0 where
    pub same : length r.1.chunks ≡ length r.1.sizes
    pub sizes_kept : (i : ℕ) → size_at r.1 i ≡ size_at b i
    pub full : (i : ℕ) → i < length r.1.sizes → 0 < size_at b i
    pub held : contents r.1 ≡ contents b
    pub rpos_kept : r.1.rpos ≡ b.rpos
    pub read_in : b.rpos.idx ≤ length r.1.sizes
    pub some_left : 0 < size_at b 0 → 0 < length r.1.sizes

  pub maybe_remove-Trimmed : {b : Buffer} → IsValid b → Trimmed b (maybe_remove_last_chunk raw b)
  unfolding maybe_remove_last_chunk
  maybe_remove-Trimmed {b} valid = elim (Bool-cases (get_or b.sizes b.wpos.idx 0 == 0)) [
    | inl e ↦ rw e (record {
      same = omega (arith, valid.same, length-pop_back b.chunks, length-pop_back b.sizes);
      sizes_kept =
          λ i. get_or-pop_back_default b.sizes b.wpos.idx i 0 valid.write_last (ground arith);
      full = λ i h. valid.inner i (omega (arith, length-pop_back b.sizes, valid.write_last));
      held = ap (drop b.rpos.off) (
          data_of-pop_back raw b.rpos.idx b.chunks b.sizes b.wpos.idx
            (omega (arith, valid.same, valid.write_last)) valid.write_last (ground arith)
            valid.read_before);
      rpos_kept = refl;
      read_in = omega (arith, length-pop_back b.sizes, valid.write_last, valid.read_before);
      some_left = λ h. ground (arith, length-pop_back b.sizes, valid.write_last);
    })
    | inr e ↦ rw e (record {
      same = valid.same;
      sizes_kept = λ i. refl;
      full = λ i h. ground (arith, valid.inner i, valid.write_last);
      held = refl;
      rpos_kept = refl;
      read_in = omega (arith, valid.write_last, valid.read_before);
      some_left = λ h. omega (arith, valid.write_last);
    })
  ]

-- The chunks of `other` behind those of `this`, both without an empty last chunk.
abbrev pub joined : Buffer → Buffer → Buffer
joined b1 o1 = record b1 { chunks = b1.chunks ++ o1.chunks; sizes = b1.sizes ++ o1.sizes }

module _ (raw : Chunk) {b other : Buffer} (valid : IsValid b) (valid' : IsValid other)
    {r o : Option Chunk × Buffer} (t : Trimmed raw b r) (t' : Trimmed raw other o)
    (fresh : is_consumed other ≡ false) (more : 0 < size_at other 0) where
  abbrev j : Buffer
  j = joined r.1 o.1

  size_before : (i : ℕ) → i < length r.1.sizes → size_at j i ≡ size_at b i
  size_before i h = get_or-append r.1.sizes o.1.sizes i 0 h ∙ t.sizes_kept i

  pub size_behind :
      (i : ℕ) → length r.1.sizes ≤ i → size_at j i ≡ size_at other (i - length r.1.sizes)
  size_behind i h =
      get_or-append_ge r.1.sizes o.1.sizes i 0 h ∙ t'.sizes_kept (i - length r.1.sizes)

  length-joined : length j.sizes ≡ length r.1.sizes + length o.1.sizes
  length-joined = length-append r.1.sizes o.1.sizes

  full-joined : (i : ℕ) → i < length j.sizes → 0 < size_at j i
  full-joined i h = elim (dec_lt i (length r.1.sizes)) [
    | yes k ↦ omega (arith, size_before i k, t.full i k)
    | no k ↦ omega (
      arith,
      length-joined,
      size_behind i (omega arith),
      t'.full (i - length r.1.sizes) (omega (arith, length-joined)),
    )
  ]

  small-joined : (i : ℕ) → size_at j i ≤ block_size
  small-joined i = elim (dec_lt i (length r.1.sizes)) [
    | yes k ↦ omega (arith, size_before i k, valid.small i)
    | no k ↦ omega (arith, size_behind i (omega arith), valid'.small (i - length r.1.sizes))
  ]

  -- Where the read pointer is behind all chunks of `this`, it is at the first byte.
  at_first : b.rpos.idx ≡ length r.1.sizes → b.rpos.off ≡ 0
  at_first e = omega (
    arith,
    valid.read_off,
    t.sizes_kept b.rpos.idx,
    get_or_ge r.1.sizes b.rpos.idx 0 (omega arith),
  )

  rpos-joined : (j.rpos.idx ≡ b.rpos.idx) × (j.rpos.off ≡ b.rpos.off)
  rpos-joined = (ap (λ p. p.idx) t.rpos_kept, ap (λ p. p.off) t.rpos_kept)

  contents-joined : contents j ≡ contents b ++ contents other
  contents-joined = rw (
    drop-append r.1.rpos.idx r.1.chunks o.1.chunks (omega (arith, t.same, t.read_in, rpos-joined)),
    drop-append r.1.rpos.idx r.1.sizes o.1.sizes (omega (arith, t.read_in, rpos-joined)),
    data_of-append (drop r.1.rpos.idx r.1.chunks) o.1.chunks (drop r.1.rpos.idx r.1.sizes) o.1.sizes
        same_dropped,
    drop-append r.1.rpos.off (data_of (drop r.1.rpos.idx r.1.chunks) (drop r.1.rpos.idx r.1.sizes))
        (data_of o.1.chunks o.1.sizes) in_data,
    t.held,
    ← contents_of_not_consumed o.1 still_fresh,
    t'.held,
  )
    where
      same_dropped : length (drop r.1.rpos.idx r.1.chunks) ≡ length (drop r.1.rpos.idx r.1.sizes)
      same_dropped =
          omega
            (arith, t.same, length-drop r.1.rpos.idx r.1.chunks, length-drop r.1.rpos.idx r.1.sizes)

      in_data :
          r.1.rpos.off
          ≤ length (data_of (drop r.1.rpos.idx r.1.chunks) (drop r.1.rpos.idx r.1.sizes))
      in_data = omega (
        arith,
        valid.read_off,
        rpos-joined,
        size_first,
        length-data_of_ge (drop r.1.rpos.idx r.1.chunks) (drop r.1.rpos.idx r.1.sizes) same_dropped,
      )
        where
          size_first : get_or (drop r.1.rpos.idx r.1.sizes) 0 0 ≡ size_at b b.rpos.idx
          size_first =
              get_or-drop r.1.rpos.idx r.1.sizes 0 0
              ∙ ap (λ k. get_or r.1.sizes k 0) (omega (arith, rpos-joined))
              ∙ t.sizes_kept b.rpos.idx

      still_fresh : is_consumed o.1 ≡ false
      still_fresh = rw t'.rpos_kept fresh

  joined-IsOpen : IsOpen j
  joined-IsOpen = record {
    same = omega (
      arith,
      length-append r.1.chunks o.1.chunks,
      length-append r.1.sizes o.1.sizes,
      t.same,
      t'.same,
    );
    small = small-joined;
    inner = λ i h. full-joined i (omega arith);
    read_in = omega (arith, length-joined, rpos-joined, t.read_in);
    read_off =
        ground (arith, rpos-joined, t.read_in, at_first, size_before b.rpos.idx, valid.read_off);
  }

  joined-Ready : Ready j
  joined-Ready = record {
    chunks = joined-IsOpen;
    inside = omega (arith, rpos-joined, length-joined, t.read_in, t'.some_left more);
    follows = λ e. elim (dec_lt b.rpos.idx (length r.1.sizes)) [
      | yes h ↦ omega (arith, rpos-joined, length-joined, t'.some_left more)
      | no h ↦ absurd (
          omega (
            arith,
            e,
            rpos-joined,
            t.read_in,
            at_first (omega (arith, t.read_in)),
            full-joined j.rpos.idx
                (omega (arith, rpos-joined, length-joined, t.read_in, t'.some_left more)),
          ))
    ];
  }

  -- What `this` becomes.
  pub appended :
      (last : Option Chunk)
      → let b' = adjust_write (adjust_read (close_last raw last j)) in
        IsValid b' × (contents b' ≡ contents b ++ contents other)
  appended last =
      let (ready, held) = close_last-Ready raw last joined-Ready full-joined in
      let (valid', held') = finish ready in (valid', held' ∙ held ∙ contents-joined)
