-- ===== src/Buffer/Join/Copy.antt =====
-- `copyFrom` of buffer.cpp: what it appends, and where it leaves the read pointer.
use multicore_programming_la.Common.{
  ℕ, suc, ◌+◌, ◌≤◌, ◌<◌, ◌≡◌, refl, sym, ap, ◌∙◌, true, false, ◌||◌, inl, inr, some, List, [], ◌∷◌,
  ◌++◌, append_assoc, append-nil, arith, length, Bool-cases, get_or, ltb, ==_iff, ◌==◌,
  if◌then◌else◌,
}
use multicore_programming_la.Buffer.{
  Chunk, Buffer, block_size, read_size, write_size, is_consumed, segment, next_chunk, store,
}
use multicore_programming_la.Buffer.Bytes.{data_of, length-segment}
use multicore_programming_la.Buffer.Valid.{
  IsValid, contents, size_at, write_size_lem, next_chunk-IsValid, contents-next_chunk,
  store-IsValid, contents-store, read_size_lem,
}
use multicore_programming_la.Buffer.Reserve.{next_chunk_position, contents_at_end}
use multicore_programming_la.Buffer.Write.{wpos-store}
use multicore_programming_la.Buffer.Join.{copy_chunks, copy_from}

-- A buffer that was not consumed is read from its first byte on.
pub contents_of_not_consumed :
    (b : Buffer) → is_consumed b ≡ false → contents b ≡ data_of b.chunks b.sizes
contents_of_not_consumed b h =
    let e : b.rpos.idx ≡ 0 = ground arith in let f : b.rpos.off ≡ 0 = ground arith in rw (e, f)

-- Where its first chunk is empty, the whole buffer is.
pub nothing_to_read :
    {b : Buffer} → IsValid b → is_consumed b ≡ false → read_size b ≡ 0 → contents b ≡ []
nothing_to_read {b} valid h z =
    contents_at_end valid (ground (arith, at_zero, valid.inner 0))
      (ground (arith, at_zero, valid.inner 0, valid.write_off))
  where
    at_zero : (b.rpos.idx ≡ 0) × (b.rpos.off ≡ 0) × (size_at b 0 ≡ 0)
    at_zero = ground (arith, read_size_lem valid)

module _ (raw : Chunk) where
  record Copied (more : List ℕ) (b b' : Buffer) : Type 0 where
    still_valid : IsValid b'
    appended : contents b' ≡ contents b ++ more

  -- The chunk that the next piece goes to, with room for it.
  make_room :
      (i len : ℕ) {b : Buffer}
      → IsValid b
      → len ≤ block_size
      → (0 < i → 0 < b.wpos.off)
      → let b1 = if ltb 0 i || ltb (write_size b) len then next_chunk raw b else b in
        IsValid b1 × (contents b1 ≡ contents b) × (b1.wpos.off + len ≤ block_size)
  make_room i len {b} valid small follows = elim (Bool-cases (ltb 0 i || ltb (write_size b) len)) [
    | inl e ↦ rw e (
      next_chunk-IsValid raw valid (some_written follows e),
      contents-next_chunk raw valid,
      omega (arith, (next_chunk_position raw valid).1),
    )
    | inr e ↦
        rw e (
          valid,
          refl,
          ground (arith, write_size_lem valid, valid.write_off, valid.small b.wpos.idx),
        )
  ]
    where
      some_written :
          (0 < i → 0 < b.wpos.off) → ltb 0 i || ltb (write_size b) len ≡ true → 0 < b.wpos.off
      some_written f e =
          ground (arith, write_size_lem valid, valid.write_off, valid.small b.wpos.idx)

  copy_one :
      (i : ℕ) (c : Chunk) (len : ℕ) {b : Buffer}
      → IsValid b
      → len ≤ block_size
      → (0 < i → 0 < b.wpos.off)
      → Copied (segment c 0 len) b (
          store raw
            (segment c 0 len)
            (if ltb 0 i || ltb (write_size b) len then next_chunk raw b else b))
  copy_one i c len {b} valid small follows = record {
    still_valid = store-IsValid raw fit.0 (segment c 0 len) (rw length-segment fit.2);
    appended =
        contents-store raw fit.0 (segment c 0 len) (rw length-segment fit.2)
        ∙ ap (λ l. l ++ segment c 0 len) fit.1;
  }
    where
      fit :
          let b1 = if ltb 0 i || ltb (write_size b) len then next_chunk raw b else b in
          IsValid b1 × (contents b1 ≡ contents b) × (b1.wpos.off + len ≤ block_size)
      fit = make_room i len valid small follows

  wpos-copy_one :
      (i : ℕ) (c : Chunk) (len : ℕ) {b : Buffer}
      → IsValid b
      → len ≤ block_size
      → (0 < i → 0 < b.wpos.off)
      → 0 < len
      → 0
        < (store raw
            (segment c 0 len)
            (if ltb 0 i || ltb (write_size b) len then next_chunk raw b else b)).wpos.off
  wpos-copy_one i c len {b} valid small follows h = omega (
    arith,
    wpos-store raw (segment c 0 len)
        (if ltb 0 i || ltb (write_size b) len then next_chunk raw b else b)
        (rw length-segment (make_room i len valid small follows).2),
    length-segment c 0 len,
  )

  copy_chunks-Copied :
      (i : ℕ) (cs : List Chunk) (ss : List ℕ) {b : Buffer}
      → IsValid b
      → length cs ≡ length ss
      → ((j : ℕ) → get_or ss j 0 ≤ block_size)
      → ((j : ℕ) → suc j < length ss → 0 < get_or ss j 0)
      → (0 < length cs → 0 < i → 0 < b.wpos.off)
      → Copied (data_of cs ss) b (copy_chunks raw i cs ss b)
  unfolding copy_chunks data_of
  copy_chunks-Copied i [] ss valid e small inner follows = record {
    still_valid = valid;
    appended = sym (append-nil _);
  }
  copy_chunks-Copied i (c ∷ cs) [] valid e small inner follows = absurd (omega arith)
  copy_chunks-Copied i (c ∷ cs) (len ∷ ss) {b} valid e small inner follows =
      let prior : 0 < i → 0 < b.wpos.off = follows (omega arith) in
      let one = copy_one i c len valid (small 0) prior in
      let rest =
        copy_chunks-Copied (suc i) cs ss one.still_valid (omega arith) (λ j. small (suc j))
          (λ j h. inner (suc j) (omega arith))
          (λ h _. wpos-copy_one i c len valid (small 0) prior (inner 0 (omega arith))) in
      record {
        still_valid = rest.still_valid;
        appended = rest.appended ∙ rw (one.appended, append_assoc);
      }

  -- For valid buffers, the other one not consumed, copyFrom ends and leaves a valid buffer that
  -- holds what it held and then what the other buffer holds.
  pub copy_from-appends :
      {b other : Buffer}
      → IsValid b
      → IsValid other
      → is_consumed other ≡ false
      → (b' : Buffer) × (copy_from raw b other ≡ some b')
        × IsValid b'
        × (contents b' ≡ contents b ++ contents other)
  unfolding copy_from
  copy_from-appends {b} {other} valid valid' fresh = elim (Bool-cases (read_size other == 0)) [
    | inl e ↦ (
      b,
      rw (fresh, e),
      valid,
      rw (nothing_to_read valid' fresh ((==_iff _ _).0 e)) (sym (append-nil _)),
    )
    | inr e ↦
        let b1 = copy_chunks raw 0 other.chunks other.sizes b in
        elim (Bool-cases (b1.wpos.off == block_size)) [
          | inl f ↦ (
            next_chunk raw b1,
            rw (fresh, e, f),
            next_chunk-IsValid raw copied.still_valid (ground arith),
            contents-next_chunk raw copied.still_valid ∙ moved,
          )
          | inr f ↦ (b1, rw (fresh, e, f), copied.still_valid, moved)
        ]
  ]
    where
      copied :
          Copied (data_of other.chunks other.sizes) b (copy_chunks raw 0 other.chunks other.sizes b)
      copied =
          copy_chunks-Copied 0 other.chunks other.sizes valid valid'.same valid'.small
            (λ j h. valid'.inner j (omega (arith, valid'.write_last))) (λ _ h. absurd (omega arith))

      moved : contents (copy_chunks raw 0 other.chunks other.sizes b) ≡ contents b ++ contents other
      moved = rw (contents_of_not_consumed other fresh) copied.appended
