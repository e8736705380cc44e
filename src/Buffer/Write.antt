-- ===== src/Buffer/Write.antt =====
-- `write` of buffer.cpp: the loop that fills one chunk after another.
use multicore_programming_la.Common.{
  ℕ, zero, suc, ◌+◌, ◌≤◌, ◌<◌, ◌≡◌, ◌≢◌, refl, sym, ◌∙◌, Option, some, no_result, List, [], ◌∷◌,
  ◌++◌, append_assoc, append-nil, arith, length, Bool-cases, inl, inr, ◌||◌, ◌⊎◌, take, drop,
  length-drop, length-take, take-append-drop, ltb, ◌==◌, if◌then◌else◌, min,
}
use multicore_programming_la.Buffer.{
  Chunk, Buffer, block_size, write_size, store, next_chunk, write_round, write_loop, write,
}
use multicore_programming_la.Buffer.Valid.{
  IsValid, contents, write_size_lem, next_chunk-IsValid, contents-next_chunk, store-IsValid,
  contents-store, add_size_lem,
}
use multicore_programming_la.Buffer.Reserve.{next_chunk_position}

-- Bytes left to write, and one more round where the last chunk is full at the start.
abbrev rounds : List ℕ → Buffer → ℕ
rounds bytes b = length bytes + (if b.wpos.off == block_size then 1 else 0)

length_pos : (bytes : List ℕ) → bytes ≢ [] → 0 < length bytes
length_pos [] ne = absurd (ne refl)
length_pos (x ∷ xs) ne = omega arith

module _ (raw : Chunk) where
  pub wpos-store :
      (bytes : List ℕ) (b : Buffer)
      → b.wpos.off + length bytes ≤ block_size
      → (store raw bytes b).wpos.off ≡ b.wpos.off + length bytes
  unfolding store
  wpos-store bytes b h = add_size_lem _ _ (omega arith)

  -- What a round leaves: the bytes taken stand behind those that the buffer held.
  record Round (bytes : List ℕ) (b : Buffer) (r : List ℕ × Buffer) : Type 0 where
    still_valid : IsValid r.1
    moved : contents r.1 ++ r.0 ≡ contents b ++ bytes
    room : r.1.wpos.off < block_size
    fewer : rounds r.0 r.1 < rounds bytes b

  Round-ends :
      (bytes left : List ℕ) (b c : Buffer)
      → IsValid c
      → contents c ++ left ≡ contents b ++ bytes
      → length left ≤ length bytes
      → (left ≢ [] → c.wpos.off ≡ block_size)
      → (length left < length bytes) ⊎ ((b.wpos.off ≡ block_size) × (left ≢ []))
      → Round bytes b
          (left, if ltb 0 (length left) || c.wpos.off == block_size then next_chunk raw c else c)
  Round-ends bytes left b c valid e h full k =
      elim (Bool-cases (ltb 0 (length left) || c.wpos.off == block_size)) [
        | inl t ↦ rw t (record {
          still_valid = next_chunk-IsValid raw valid (ground (arith, length_pos left));
          moved = rw (contents-next_chunk raw valid) e;
          room = omega (arith, (next_chunk_position raw valid).1);
          fewer = ground (arith, (next_chunk_position raw valid).1, length_pos left);
        })
        | inr t ↦ rw t (record {
          still_valid = valid;
          moved = e;
          room = ground (arith, valid.write_off, valid.small c.wpos.idx);
          fewer = ground (arith, length_pos left);
        })
      ]

  write_round-Round :
      (bytes : List ℕ) {b : Buffer}
      → IsValid b
      → bytes ≢ []
      → Round bytes b (write_round raw bytes b)
  unfolding write_round
  write_round-Round bytes {b} valid ne =
      Round-ends bytes left b (store raw now b) (store-IsValid raw valid now room)
        (rw (contents-store raw valid now room, append_assoc, take-append-drop))
        (omega (arith, length-drop n bytes))
        (λ more. omega (
          arith,
          wpos-store now b room,
          length-take n bytes,
          length-drop n bytes,
          length_pos left more,
          write_size_lem valid,
          valid.write_off,
          valid.small b.wpos.idx,
        ))
        (ground (
          arith,
          length-drop n bytes,
          length_pos bytes,
          length_pos left,
          write_size_lem valid,
          valid.write_off,
          valid.small b.wpos.idx,
        ))
    where
      n : ℕ
      n = min (write_size b) (length bytes)

      now : List ℕ
      now = take n bytes

      left : List ℕ
      left = drop n bytes

      room : b.wpos.off + length now ≤ block_size
      room = omega (
        arith,
        length-take n bytes,
        write_size_lem valid,
        valid.write_off,
        valid.small b.wpos.idx,
      )

  -- What `write` gives: it ends, and `bytes` stand behind what the buffer held.
  pub record Written (bytes : List ℕ) (b : Buffer) (r : Option Buffer) : Type 0 where
    pub result : Buffer
    pub ends : r ≡ some result
    pub still_valid : IsValid result
    pub appended : contents result ≡ contents b ++ bytes
    pub room : (bytes ≢ []) ⊎ (b.wpos.off < block_size) → result.wpos.off < block_size

  -- A round, and what the rounds after it write.
  Round-Written :
      (bytes : List ℕ) (b : Buffer) {r : List ℕ × Buffer} {out : Option Buffer}
      → Round bytes b r
      → Written r.0 r.1 out
      → Written bytes b out
  Round-Written bytes b round rest = record {
    result = rest.result;
    ends = rest.ends;
    still_valid = rest.still_valid;
    appended = rest.appended ∙ round.moved;
    room = λ _. rest.room (inr round.room);
  }

  write_loop-Written :
      (fuel : ℕ) (bytes : List ℕ) {b : Buffer}
      → IsValid b
      → rounds bytes b < fuel
      → Written bytes b (write_loop raw fuel bytes b)
  unfolding write_loop
  write_loop-Written zero bytes valid h = absurd (omega arith)
  write_loop-Written (suc fuel) [] {b} valid h = record {
    result = b;
    ends = refl;
    still_valid = valid;
    appended = sym (append-nil (contents b));
    room = elim [ inl ne ↦ absurd (ne refl) | inr h ↦ h ];
  }
  write_loop-Written (suc fuel) (x ∷ xs) {b} valid h =
      let round : Round (x ∷ xs) b (write_round raw (x ∷ xs) b) =
        write_round-Round (x ∷ xs) valid (λ e. cc) in
      Round-Written (x ∷ xs) b round
        (write_loop-Written fuel _ round.still_valid (omega (arith, round.fewer)))

  -- For a valid buffer and any bytes, write ends, leaves a valid buffer that holds what it held
  -- and then the bytes, and leaves room in the last chunk where it wrote something or found room
  -- there.
  pub write-Written :
      (bytes : List ℕ) {b : Buffer} → IsValid b → Written bytes b (write raw bytes b)
  unfolding write
  write-Written bytes {b} valid = write_loop-Written (length bytes + 2) bytes valid (ground arith)

  rpos-write_round : (bytes : List ℕ) (b : Buffer) → (write_round raw bytes b).1.rpos ≡ b.rpos
  unfolding write_round store next_chunk
  rpos-write_round bytes b = ground arith

  -- Writing does not touch the read position.
  rpos-write_loop :
      (fuel : ℕ) (bytes : List ℕ) (b : Buffer) {c : Buffer}
      → write_loop raw fuel bytes b ≡ some c
      → c.rpos ≡ b.rpos
  unfolding write_loop
  rpos-write_loop zero bytes b e = absurd (no_result e)
  rpos-write_loop (suc fuel) [] b e = cc
  rpos-write_loop (suc fuel) (x ∷ xs) b e = rpos-write_loop fuel _ _ e ∙ rpos-write_round (x ∷ xs) b

  pub rpos-write :
      (bytes : List ℕ) (b : Buffer) {c : Buffer} → write raw bytes b ≡ some c → c.rpos ≡ b.rpos
  unfolding write
  rpos-write bytes b e = rpos-write_loop (length bytes + 2) bytes b e
