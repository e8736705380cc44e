-- ===== src/Buffer/Iterator/Walk.antt =====
-- What a client of the iterator of buffer.cpp sees.
use native.Mathlib.Numerals.{add-one}
use native.Mathlib.Nat.{zero-add}
use multicore_programming_la.Common.{
  ℕ, zero, suc, ◌+◌, ◌-◌, ◌<◌, ◌≡◌, refl, ap, ◌∙◌, true, false, ◌&&◌, inl, inr, some, List, [], ◌∷◌,
  arith, length, Bool-cases, get_or, drop, ltb, lt→ltb, ◌==◌, drop-append,
}
use multicore_programming_la.Buffer.{Chunk, Buffer, add_size, segment, chunk_at}
use multicore_programming_la.Buffer.Bytes.{data_of, length-segment, drop-data_of}
use multicore_programming_la.Buffer.Valid.{IsValid, contents, size_at, read_size_lem, add_size_lem}
use multicore_programming_la.Buffer.Reserve.{contents_at_end}
use multicore_programming_la.Buffer.Iterator.{
  Iterator, get_budget, get_char, eob, begin, step_off, step_chunk, refill, next, walk,
}

-- A byte of a chunk, as the head of what the chunks hold from there on.
segment-cons :
    (c : Chunk) (k n : ℕ) (i : ℕ)
    → i < n
    → drop i (segment c k n) ≡ c (k + i) ∷ drop (suc i) (segment c k n)
unfolding segment
segment-cons c k zero i h = absurd (omega arith)
segment-cons c k (suc n) zero h = let e : k + 0 ≡ k = omega arith in rw e
segment-cons c k (suc n) (suc i) h =
    let e : k + suc i ≡ suc k + i = omega arith in rw e (segment-cons c (suc k) n i (omega arith))

pub data_of-cons :
    (raw : Chunk) (cs : List Chunk) (ss : List ℕ) (i off : ℕ)
    → length cs ≡ length ss
    → i < length ss
    → off < get_or ss i 0
    → drop off (data_of (drop i cs) (drop i ss))
      ≡ get_or cs i raw off ∷ drop (suc off) (data_of (drop i cs) (drop i ss))
unfolding data_of
data_of-cons raw [] [] i off e h k = absurd (omega arith)
data_of-cons raw [] (s ∷ ss) i off e h k = absurd (omega arith)
data_of-cons raw (c ∷ cs) [] i off e h k = absurd (omega arith)
data_of-cons raw (c ∷ cs) (s ∷ ss) zero off e h k = rw (
  drop-append off (segment c 0 s) (data_of cs ss) (omega (arith, length-segment c 0 s)),
  drop-append (suc off) (segment c 0 s) (data_of cs ss) (omega (arith, length-segment c 0 s)),
  segment-cons c 0 s off k,
  zero-add,
)
data_of-cons raw (c ∷ cs) (s ∷ ss) (suc i) off e h k =
    data_of-cons raw cs ss i off (omega arith) (omega arith) k

-- The buffer as the iterator sees it, and the bytes that are still to come.
abbrev pub ahead : Iterator → Buffer
ahead it = record (it.buffer) { rpos = it.pos }

module _ (raw : Chunk) where
  -- The budget and the start of the chunk are those of the position, which stands before a byte
  -- unless it is in the last chunk.
  pub record IsGood (it : Iterator) : Type 0 where
    pub valid : IsValid (ahead it)
    pub left : it.budget ≡ size_at it.buffer it.pos.idx - it.pos.off
    pub start : it.chunk_start ≡ chunk_at raw it.buffer it.pos.idx
    pub front : it.pos.idx < it.buffer.wpos.idx → it.pos.off < size_at it.buffer it.pos.idx

  pub begin-IsGood :
      {b : Buffer}
      → IsValid b
      → (b.rpos.idx < b.wpos.idx → b.rpos.off < size_at b b.rpos.idx)
      → IsGood (begin raw b)
  unfolding begin
  begin-IsGood valid front = record {
    valid = valid;
    left = read_size_lem valid;
    start = refl;
    front = front;
  }

  module _ {it : Iterator} (good : IsGood it) where
    open good use {valid, left, start, front}

    pub eob-true : eob it ≡ true → contents (ahead it) ≡ []
    unfolding eob
    eob-true e = contents_at_end valid (ground arith) (ground arith)

    -- `eob()` once its buffer has become another one, which `consume` leaves.
    pub eob_behind-true :
        (b : Buffer) → eob (record it { buffer = b }) ≡ true → contents (ahead it) ≡ []
    unfolding eob
    eob_behind-true b e =
        contents_at_end valid (ground (arith, left, front, valid.read_before, valid.read_off))
          (ground (arith, left, front, valid.read_before, valid.write_off, valid.read_off))

    pub eob-false : eob it ≡ false → 0 < it.budget
    unfolding eob
    eob-false e = ground (arith, left, front, valid.read_before, valid.write_off, valid.read_off)

    -- Stepping over the byte that is seen.
    passed : Iterator
    passed = step_off raw it

    module _ (h : 0 < it.budget) where
      new_off : add_size it.pos.off 1 ≡ it.pos.off + 1
      new_off = add_size_lem _ _ (omega (arith, valid.read_off, valid.small it.pos.idx))

      contents-step_off : contents (ahead it) ≡ get_char it ∷ contents (ahead (step_off raw it))
      unfolding get_char
      contents-step_off =
          rw (new_off, start, add-one)
            (data_of-cons raw it.buffer.chunks it.buffer.sizes it.pos.idx it.pos.off valid.same
              (omega (arith, valid.write_last, valid.read_before)) (omega (arith, left)))

      step_off-IsValid : IsValid (ahead (step_off raw it))
      step_off-IsValid = record {
        same = valid.same;
        write_last = valid.write_last;
        write_off = valid.write_off;
        small = valid.small;
        inner = valid.inner;
        read_before = valid.read_before;
        read_off = omega (arith, new_off, left);
      }

      next_chunk-IsValid :
          it.pos.idx < it.buffer.wpos.idx
          → IsValid (record (it.buffer) { rpos = record { idx = it.pos.idx + 1; off = 0 } })
      next_chunk-IsValid k = record {
        same = valid.same;
        write_last = valid.write_last;
        write_off = valid.write_off;
        small = valid.small;
        inner = valid.inner;
        read_before = omega arith;
        read_off = omega arith;
      }

      -- Behind the last byte of a chunk stands the first one of the next.
      contents-next_chunk :
          it.pos.off + 1 ≡ size_at it.buffer it.pos.idx
          → contents (ahead (step_off raw it))
            ≡ data_of
                (drop (it.pos.idx + 1) it.buffer.chunks)
                (drop (it.pos.idx + 1) it.buffer.sizes)
      contents-next_chunk e =
          rw (new_off, e, add-one)
            (drop-data_of it.buffer.chunks it.buffer.sizes it.pos.idx
              (omega (arith, valid.same, valid.write_last, valid.read_before))
              (omega (arith, valid.write_last, valid.read_before)))

      slow_next-passes :
          IsGood (refill raw (step_chunk raw (step_off raw it)))
          × (contents (ahead it)
              ≡ get_char it ∷ contents (ahead (refill raw (step_chunk raw (step_off raw it)))))
      slow_next-passes =
          elim (Bool-cases (
            add_size it.pos.off 1 == size_at it.buffer it.pos.idx
            && ltb it.pos.idx it.buffer.wpos.idx)) [
              | inl e ↦ rw e (
                record {
                  valid = next_chunk-IsValid (ground arith);
                  left = read_size_lem (next_chunk-IsValid (ground arith));
                  start = refl;
                  front = λ k. valid.inner (it.pos.idx + 1) k;
                },
                contents-step_off
                    ∙ ap (λ l. get_char it ∷ l) (contents-next_chunk (ground (arith, new_off))),
              )
              | inr e ↦ rw e (
                record {
                  valid = step_off-IsValid;
                  left = read_size_lem step_off-IsValid;
                  start = start;
                  front = λ k. ground (arith, new_off, left);
                },
                contents-step_off,
              )
            ]

      -- `next` passes exactly the byte that `getChar` shows.
      pub next-passes :
          IsGood (next raw it)
          × (contents (ahead it) ≡ get_char it ∷ contents (ahead (next raw it)))
      unfolding next
      next-passes = elim (Bool-cases (ltb 1 it.budget)) [
        | inl e ↦ rw e (
          record {
            valid = step_off-IsValid;
            left = omega (arith, new_off, left);
            start = start;
            front = λ k. ground (arith, new_off, left);
          },
          contents-step_off,
        )
        | inr e ↦
            rw (e, lt→ltb it.pos.off (size_at it.buffer it.pos.idx) (omega (arith, left)))
              slow_next-passes
      ]

  -- The client's loop: it sees the unread bytes, in order, and ends.
  walk-contents :
      (fuel : ℕ) (it : Iterator)
      → IsGood it
      → length (contents (ahead it)) < fuel
      → walk raw fuel it ≡ some (contents (ahead it))
  unfolding walk
  walk-contents zero it good h = absurd (omega arith)
  walk-contents (suc fuel) it good h = elim (Bool-cases (eob it)) [
    | inl e ↦ rw (e, walk, eob-true good e)
    | inr e ↦
        let (good', c) = next-passes good (eob-false good e) in
        rw (e, walk, walk-contents fuel (next raw it) good' (omega (arith, ap length c)), c)
  ]

  -- For a valid buffer whose read pointer is not at the end of a chunk that another one follows, a
  -- loop over the iterator from begin() on sees the unread bytes, in order, and stops behind the
  -- last one.
  pub walk-begin :
      {b : Buffer}
      → IsValid b
      → (b.rpos.idx < b.wpos.idx → b.rpos.off < size_at b b.rpos.idx)
      → walk raw (length (contents b) + 1) (begin raw b) ≡ some (contents b)
  unfolding begin
  walk-begin {b} valid front =
      walk-contents (length (contents b) + 1) (begin raw b) (begin-IsGood valid front) (omega arith)

  -- For a valid buffer whose read pointer is at the end of a chunk that another one follows, the
  -- iterator of begin() is not at the end of the buffer, and next() leaves it where it is.
  next_stalls :
      {b : Buffer}
      → IsValid b
      → b.rpos.idx < b.wpos.idx
      → b.rpos.off ≡ size_at b b.rpos.idx
      → (next raw (begin raw b) ≡ begin raw b) × (eob (begin raw b) ≡ false)
  unfolding next begin eob
  next_stalls {b} valid h e =
      let z : get_budget b b.rpos ≡ 0 = read_size_lem valid ∙ omega arith in
      let f : ltb b.rpos.off (size_at b b.rpos.idx) ≡ false = ground arith in
      rw (z, f) (refl, ground arith)
