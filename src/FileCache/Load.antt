-- ===== src/FileCache/Load.antt =====
-- `loadFileToBuffer` of file_cache.cpp, for files that fit one chunk of a buffer and for longer ones.
use multicore_programming_la.Common.{
  ℕ, zero, suc, ◌+◌, ◌<◌, ◌≤◌, ◌^◌, ◌≡◌, ◌≢◌, refl, sym, ap, ◌∙◌, false, some, List, [], ◌∷◌, ◌++◌,
  leb, ◌==◌, length, take, drop, arith, length-take, length-drop, take-append-drop, drop_all,
  append-nil,
}
use multicore_programming_la.Buffer.{
  Chunk, Buffer, block_size, write_size, reserve, advance, create, sub_size, poke,
}
use multicore_programming_la.Buffer.Valid.{
  IsValid, contents, create-IsValid, contents-create, sub_size_lem,
}
use multicore_programming_la.Buffer.Reserve.{fill, advance-appends}
use multicore_programming_la.FileCache.{load_loop, load_file}

module _ (raw : Chunk) where
  -- A buffer that nothing was appended to has room for a chunk.
  reserve_fresh : (c : Chunk) → (reserve raw block_size (create c)).1 ≡ create c
  unfolding reserve create sub_size
  reserve_fresh c = refl

  fill_fresh : (bytes : List ℕ) (c : Chunk) → fill raw bytes (create c) ≡ create (poke c 0 bytes)
  unfolding create
  fill_fresh bytes c = refl

  room_fresh : (c : Chunk) → write_size (create c) ≡ block_size
  unfolding create sub_size
  room_fresh c = refl

  advance_too_long : (c : Chunk) (n : ℕ) → block_size < n → (advance n (create c)).1 ≡ create c
  unfolding advance
  advance_too_long c n h =
      let e : (n == 0) ≡ false = ground arith in
      let f : leb n (write_size (create c)) ≡ false = rw (room_fresh c) (ground arith) in
      rw (e, f) refl

  nothing_read : load_file raw [] ≡ some (create raw)
  unfolding load_file load_loop advance
  nothing_read = refl

  -- The loop reads to the end of the file, and never moves the write pointer.
  load_loop_ends :
      (fuel : ℕ) (rest : List ℕ) (c : Chunk)
      → length rest < fuel
      → length rest < 2 ^ 64
      → (c' : Chunk) × (load_loop raw fuel (length rest) rest (create c) ≡ some (create c'))
  unfolding load_loop
  load_loop_ends zero rest c h k = absurd (omega arith)
  load_loop_ends (suc fuel) [] c h k = (c, refl)
  load_loop_ends (suc fuel) (x ∷ xs) c h k =
      rw (reserve_fresh c, room_fresh c, fill_fresh got c, left)
        (load_loop_ends fuel (drop (length got) (x ∷ xs)) (poke c 0 got)
          (omega (arith, taken, length-drop (length got) (x ∷ xs)))
          (omega (arith, taken, length-drop (length got) (x ∷ xs))))
    where
      got : List ℕ
      got = take block_size (x ∷ xs)

      taken : (0 < length got) × (length got ≤ suc (length xs))
      taken = (
        omega (arith, length-take block_size (x ∷ xs)),
        omega (arith, length-take block_size (x ∷ xs)),
      )

      left : sub_size (suc (length xs)) (length got) ≡ length (drop (length got) (x ∷ xs))
      left =
          sub_size_lem (suc (length xs)) (length got) taken.1 k
          ∙ sym (length-drop (length got) (x ∷ xs))

  -- One round is enough for a file that fits.
  load_loop_short :
      (fuel : ℕ) (bytes : List ℕ) (c : Chunk)
      → bytes ≢ []
      → length bytes ≤ block_size
      → length bytes < fuel
      → load_loop raw fuel (length bytes) bytes (create c) ≡ some (fill raw bytes (create c))
  unfolding load_loop
  load_loop_short fuel [] c ne h k = absurd (ne refl)
  load_loop_short zero (x ∷ xs) c ne h k = absurd (omega arith)
  load_loop_short (suc zero) (x ∷ xs) c ne h k = absurd (omega arith)
  load_loop_short (suc (suc fuel)) (x ∷ xs) c ne h k =
      rw (load_loop, reserve_fresh c, room_fresh c, taken, left, all) refl
    where
      all : take block_size (x ∷ xs) ≡ x ∷ xs
      all =
          sym (append-nil (take block_size (x ∷ xs)))
          ∙ ap (λ l. take block_size (x ∷ xs) ++ l) (sym (drop_all block_size (x ∷ xs) h))
          ∙ take-append-drop block_size (x ∷ xs)

      taken : length (take block_size (x ∷ xs)) ≡ suc (length xs)
      taken = ap length all

      left : sub_size (suc (length xs)) (suc (length xs)) ≡ 0
      left =
          sub_size_lem (suc (length xs)) (suc (length xs)) (omega arith) (omega (arith, h))
          ∙ omega arith

  -- A file of more than BlockSize (and fewer than 2^64) bytes is loaded into a valid buffer that
  -- holds no bytes: the loop reads every block to the same place, and advance behind it fails.
  load_file_long :
      (bytes : List ℕ)
      → block_size < length bytes
      → length bytes < 2 ^ 64
      → (b : Buffer) × (load_file raw bytes ≡ some b) × IsValid b × (contents b ≡ [])
  unfolding load_file
  load_file_long bytes h k =
      let (c, e) = load_loop_ends (length bytes + 1) bytes raw (omega arith) k in
      (create c, rw e (ap some (no_room c)), create-IsValid c, contents-create c)
    where
      no_room : (c : Chunk) → (advance (length bytes) (create c)).1 ≡ create c
      no_room c = advance_too_long c (length bytes) h

  -- A file of at most BlockSize bytes is loaded into a valid buffer that holds exactly its bytes.
  load_file_short :
      (bytes : List ℕ)
      → length bytes ≤ block_size
      → (b : Buffer) × (load_file raw bytes ≡ some b) × IsValid b × (contents b ≡ bytes)
  unfolding load_file load_loop
  load_file_short [] h = (create raw, nothing_read, create-IsValid raw, contents-create raw)
  load_file_short (x ∷ xs) h =
      let (ok, valid, held) =
        advance-appends (create-IsValid raw) raw (x ∷ xs) (λ e. cc) (rw (room_fresh raw) h) in
      (
        (advance (length (x ∷ xs)) (fill raw (x ∷ xs) (create raw))).1,
        rw (load_loop_short (length (x ∷ xs) + 1) (x ∷ xs) raw (λ e. cc) h (omega arith)) refl,
        valid,
        held ∙ ap (λ l. l ++ x ∷ xs) (contents-create raw),
      )
