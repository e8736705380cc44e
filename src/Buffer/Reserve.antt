-- ===== src/Buffer/Reserve.antt =====
-- Making room and taking it: `reserve`, `advance` and `dropChunks` of buffer.cpp.
use multicore_programming_la.Common.{
  ℕ, suc, ◌+◌, ◌-◌, ◌≤◌, ◌<◌, ◌≡◌, ◌≢◌, refl, sym, ◌∙◌, Bool, true, false, List, [], ◌∷◌, ◌++◌,
  arith, length, Bool-cases, tests, inl, inr, set, length-append, length-drop, drop-drop, drop_all,
  get_or-drop, ltb, leb, ◌==◌,
}
use multicore_programming_la.Buffer.{
  Chunk, Buffer, poke, block_size, write_size, same_position, chunk_at, store, next_chunk,
  drop_chunks, advance, reserve,
}
use multicore_programming_la.Buffer.Bytes.{length-data_of_last}
use multicore_programming_la.Buffer.Valid.{
  IsValid, contents, write_size_lem, sub_size_lem, next_chunk-IsValid, contents-next_chunk,
  store-IsValid, contents-store, store-IsValid, contents-store,
}

-- `memcpy(writePtr(), bytes, n)`, by a producer.
abbrev pub fill : Chunk → List ℕ → Buffer → Buffer
fill raw bytes b = record b {
  chunks = set b.chunks b.wpos.idx (poke (chunk_at raw b b.wpos.idx) b.wpos.off bytes);
}

advance-store :
    (raw : Chunk) (bytes : List ℕ) (b : Buffer)
    → bytes ≢ []
    → length bytes ≤ write_size b
    → advance (length bytes) (fill raw bytes b) ≡ (true, store raw bytes b)
unfolding advance store
advance-store raw [] b ne h = absurd (ne refl)
advance-store raw (x ∷ xs) b ne h = ground arith

module _ {b : Buffer} (valid : IsValid b) where
  open valid use {same, write_last, write_off, small, inner, read_before, read_off}

  -- Chunks that are wholly read can go.
  module _ (n : ℕ) (h : n ≤ b.rpos.idx) where
    back : (i : ℕ) → n ≤ i → n + (i - n) ≡ i
    back i k = omega arith

    pub drop_chunks-IsValid : IsValid (drop_chunks n b)
    unfolding drop_chunks
    drop_chunks-IsValid = elim (Bool-cases (n == 0)) [
      | inl e ↦ rw e valid
      | inr e ↦ rw e (record {
        same = omega (arith, length-drop n b.chunks, length-drop n b.sizes);
        write_last = omega (arith, length-drop n b.sizes);
        write_off = rw (get_or-drop, back b.wpos.idx (omega arith)) write_off;
        small = λ i. rw get_or-drop (small (n + i));
        inner = λ i k. rw get_or-drop (inner (n + i) (omega arith));
        read_before = omega arith;
        read_off = rw (get_or-drop, back b.rpos.idx h) read_off;
      })
    ]

    pub contents-drop_chunks : contents (drop_chunks n b) ≡ contents b
    unfolding drop_chunks
    contents-drop_chunks = elim (Bool-cases (n == 0)) [
      | inl e ↦ rw e
      | inr e ↦ rw (e, drop-drop, drop-drop, back b.rpos.idx h)
    ]

  -- The read pointer may be put where the write pointer is: then nothing is left to read.
  skip-IsValid : IsValid (record b { rpos = b.wpos })
  skip-IsValid = record {
    same = same;
    write_last = write_last;
    write_off = write_off;
    small = small;
    inner = inner;
    read_before = omega arith;
    read_off = omega arith;
  }

  contents-skip : contents (record b { rpos = b.wpos }) ≡ []
  contents-skip =
      drop_all b.wpos.off _
        (omega (arith, length-data_of_last b.chunks b.sizes b.wpos.idx (omega arith) write_last))

  -- Nothing is left to read where the read pointer has come to the write pointer.
  pub contents_at_end : b.rpos.idx ≡ b.wpos.idx → b.rpos.off ≡ b.wpos.off → contents b ≡ []
  contents_at_end e f = rw (e, f) contents-skip

  -- For a valid buffer and some bytes that are put at writePtr(), not more than writeSize(),
  -- advance by their number succeeds and leaves a valid buffer that holds what it held and then
  -- those bytes.
  pub advance-appends :
      (raw : Chunk) (bytes : List ℕ)
      → bytes ≢ []
      → length bytes ≤ write_size b
      → let r = advance (length bytes) (fill raw bytes b) in
        (r.0 ≡ true) × IsValid r.1 × (contents r.1 ≡ contents b ++ bytes)
  advance-appends raw bytes ne h =
      rw (advance-store raw bytes b ne h)
        (refl, store-IsValid raw valid bytes room, contents-store raw valid bytes room)
    where
      room : b.wpos.off + length bytes ≤ block_size
      room = omega (arith, h, write_size_lem valid, write_off, small b.wpos.idx)

wpos-drop_chunks : (n : ℕ) (b : Buffer) → (drop_chunks n b).wpos.off ≡ b.wpos.off
unfolding drop_chunks
wpos-drop_chunks n b = ground arith

module _ (raw : Chunk) {b : Buffer} (valid : IsValid b) where
  open valid use {same, write_last, write_off, small, inner, read_before, read_off}

  pub next_chunk_position :
      ((next_chunk raw b).wpos.idx ≡ suc b.wpos.idx) × ((next_chunk raw b).wpos.off ≡ 0)
  unfolding next_chunk
  next_chunk_position = (omega (arith, length-append b.chunks (raw ∷ [])), refl)

  pub next_chunk-write_size : write_size (next_chunk raw b) ≡ block_size
  next_chunk-write_size =
      sub_size_lem block_size (next_chunk raw b).wpos.off (omega (arith, next_chunk_position.1))
        (omega arith)
      ∙ omega (arith, next_chunk_position.1)

  -- What `reserve` leaves.
  pub record Reserved (n : ℕ) (r : Bool × Buffer) : Type 0 where
    pub result : r.0 ≡ leb n block_size
    pub still_valid : IsValid r.1
    pub kept : contents r.1 ≡ contents b
    pub room : n ≤ block_size → n ≤ write_size r.1

  -- A new chunk, where everything before it is read: the old chunks go.
  restart-Reserved :
      (n : ℕ)
      → n ≤ block_size
      → 0 < b.wpos.off
      → b.rpos.idx ≡ b.wpos.idx
      → b.rpos.off ≡ b.wpos.off
      → Reserved n
          (true, drop_chunks 1 (record (next_chunk raw b) { rpos = (next_chunk raw b).wpos }))
  restart-Reserved n h p e f = record {
    result = ground arith;
    still_valid = drop_chunks-IsValid skipped 1 some_chunk;
    kept =
        contents-drop_chunks skipped 1 some_chunk
        ∙ contents-skip (next_chunk-IsValid raw valid p)
        ∙ sym (contents_at_end valid e f);
    room = λ _. rw (wpos-drop_chunks, next_chunk-write_size) h;
  }
    where
      skipped : IsValid (record (next_chunk raw b) { rpos = (next_chunk raw b).wpos })
      skipped = skip-IsValid (next_chunk-IsValid raw valid p)

      some_chunk : 1 ≤ (next_chunk raw b).wpos.idx
      some_chunk = omega (arith, next_chunk_position.0)

  some_written : (n : ℕ) → n ≤ block_size → leb n (write_size b) ≡ false → 0 < b.wpos.off
  some_written n h e = ground (arith, write_size_lem valid, write_off, small b.wpos.idx)

  -- For a valid buffer, reserve succeeds exactly for at most BlockSize bytes, leaves a valid
  -- buffer with the same unread bytes, and in that case with room for as many as were asked for.
  pub reserve-Reserved : (n : ℕ) → Reserved n (reserve raw n b)
  unfolding reserve
  reserve-Reserved n = elim (Bool-cases (ltb block_size n)) [
    | inl e ↦ rw e (record {
      result = ground arith;
      still_valid = valid;
      kept = refl;
      room = λ h. absurd (omega tests);
    })
    | inr e ↦ rw e (elim (Bool-cases (leb n (write_size b))) [
      | inl f ↦ rw f (record {
        result = ground arith;
        still_valid = valid;
        kept = refl;
        room = λ h. omega tests;
      })
      | inr f ↦ rw f (elim (Bool-cases (same_position b.rpos b.wpos)) [
        | inl g ↦ rw g (
            restart-Reserved n (ground arith) (some_written n (ground arith) f) (ground arith)
              (ground arith))
        | inr g ↦ rw g (record {
          result = ground arith;
          still_valid = next_chunk-IsValid raw valid (some_written n (ground arith) f);
          kept = contents-next_chunk raw valid;
          room = λ h. rw next_chunk-write_size h;
        })
      ])
    ])
  ]
