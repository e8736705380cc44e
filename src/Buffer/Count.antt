-- ===== src/Buffer/Count.antt =====
-- `byteCount` of buffer.cpp: where it is the number of unread bytes, and where it is not.
use multicore_programming_la.Common.{
  ℕ, zero, suc, ◌+◌, ◌<◌, ◌^◌, ◌≡◌, refl, sym, ap, ◌∙◌, List, [], ◌∷◌, arith, length, get_or, drop,
  length-append, length-drop,
}
use multicore_programming_la.Buffer.{Chunk, Buffer, read_size, sum_sizes, byte_count, segment}
use multicore_programming_la.Buffer.Bytes.{data_of, length-segment}
use multicore_programming_la.Buffer.Valid.{IsValid, contents, size_at, read_size_lem, add_size_lem}

abbrev pub total : List ℕ → ℕ
total [] = 0
total (s ∷ ss) = s + total ss

sum_sizes-total :
    (ss : List ℕ) (count : ℕ) → count + total ss < 2 ^ 64 → sum_sizes ss count ≡ count + total ss
sum_sizes-total [] count h = omega arith
sum_sizes-total (s ∷ ss) count h =
    rw (add_size_lem count s (omega arith))
      (sum_sizes-total ss (count + s) (omega arith) ∙ omega arith)

length-data_of :
    (cs : List Chunk) (ss : List ℕ) → length cs ≡ length ss → length (data_of cs ss) ≡ total ss
unfolding data_of
length-data_of [] [] e = refl
length-data_of [] (s ∷ ss) e = absurd (omega arith)
length-data_of (c ∷ cs) [] e = absurd (omega arith)
length-data_of (c ∷ cs) (s ∷ ss) e = omega (
  arith,
  length-append (segment c 0 s) (data_of cs ss),
  length-segment c 0 s,
  length-data_of cs ss (omega arith),
)

total-drop : (ss : List ℕ) (i : ℕ) → total (drop i ss) ≡ get_or ss i 0 + total (drop (suc i) ss)
total-drop [] zero = refl
total-drop [] (suc i) = refl
total-drop (s ∷ ss) zero = refl
total-drop (s ∷ ss) (suc i) = total-drop ss i

module _ {b : Buffer} (valid : IsValid b) where
  pub length-contents : length (contents b) ≡ read_size b + total (drop (suc b.rpos.idx) b.sizes)
  length-contents = omega (
    arith,
    length-drop b.rpos.off (data_of (drop b.rpos.idx b.chunks) (drop b.rpos.idx b.sizes)),
    length-data_of (drop b.rpos.idx b.chunks) (drop b.rpos.idx b.sizes) (
        omega (arith, valid.same, length-drop b.rpos.idx b.chunks, length-drop b.rpos.idx b.sizes)),
    total-drop b.sizes b.rpos.idx,
    read_size_lem valid,
    valid.read_off,
  )

  -- For a valid buffer that is read in its first chunk and holds fewer than 2^64 bytes, byteCount
  -- is the number of unread bytes.
  pub byte_count-contents :
      b.rpos.idx ≡ 0 → length (contents b) < 2 ^ 64 → byte_count b ≡ length (contents b)
  unfolding byte_count
  byte_count-contents e h =
      let f : length (contents b) ≡ read_size b + total (drop 1 b.sizes) =
        length-contents ∙ ap (λ i. read_size b + total (drop (suc i) b.sizes)) e in
      sum_sizes-total (drop 1 b.sizes) (read_size b) (omega (arith, f)) ∙ sym f

  -- While the second chunk is read, the bytes of that chunk are counted once more.
  pub byte_count_twice :
      b.rpos.idx ≡ 1
      → length (contents b) + size_at b 1 < 2 ^ 64
      → byte_count b ≡ length (contents b) + size_at b 1
  unfolding byte_count
  byte_count_twice e h =
      let f : length (contents b) ≡ read_size b + total (drop 2 b.sizes) =
        length-contents ∙ ap (λ i. read_size b + total (drop (suc i) b.sizes)) e in
      sum_sizes-total (drop 1 b.sizes) (read_size b) (omega (arith, f, total-drop b.sizes 1))
      ∙ omega (arith, f, total-drop b.sizes 1)
