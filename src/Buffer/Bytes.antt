-- ===== src/Buffer/Bytes.antt =====
-- The bytes that chunks hold, and what storing some more of them does.
use multicore_programming_la.Common.{
  ℕ, zero, suc, ◌+◌, ◌≤◌, ◌<◌, ◌≡◌, refl, ap, ap₂, ◌∙◌, List, [], ◌∷◌, ◌++◌, append_assoc,
  append-nil, arith, length, sym, drop-append_length, get_or, set, drop, length-append,
}
use native.Mathlib.Nat.{zero-add}
use multicore_programming_la.Buffer.{Chunk, poke, segment}

pub poke-below : (bytes : List ℕ) (c : Chunk) (off i : ℕ) → i < off → poke c off bytes i ≡ c i
unfolding poke
poke-below [] c off i h = refl
poke-below (x ∷ xs) c off i h = poke-below xs _ (suc off) i (omega arith) ∙ ground arith

pub length-segment : (c : Chunk) (off n : ℕ) → length (segment c off n) ≡ n
unfolding segment
length-segment c off zero = refl
length-segment c off (suc n) = ap suc (length-segment c (suc off) n)

segment-poke_below :
    (c : Chunk) (off : ℕ) (bytes : List ℕ) (a n : ℕ)
    → a + n ≤ off
    → segment (poke c off bytes) a n ≡ segment c a n
unfolding segment
segment-poke_below c off bytes a zero h = refl
segment-poke_below c off bytes a (suc n) h =
    ap₂ ◌∷◌ (poke-below bytes c off a (omega arith))
      (segment-poke_below c off bytes (suc a) n (omega arith))

segment-poke :
    (bytes : List ℕ) (c : Chunk) (off : ℕ) → segment (poke c off bytes) off (length bytes) ≡ bytes
unfolding segment poke
segment-poke [] c off = refl
segment-poke (x ∷ xs) c off =
    ap₂ ◌∷◌ (poke-below xs _ (suc off) off (omega arith) ∙ ground arith)
      (segment-poke xs _ (suc off))

segment-append :
    (c : Chunk) (a m n : ℕ) → segment c a (m + n) ≡ segment c a m ++ segment c (a + m) n
unfolding segment
segment-append c a zero n = ap₂ (λ i k. segment c i k) (omega arith) (omega arith)
segment-append c a (suc m) n =
    let e : suc m + n ≡ suc (m + n) = omega arith in
    let f : a + suc m ≡ suc a + m = omega arith in
    rw (e, f) (ap (λ l. c a ∷ l) (segment-append c (suc a) m n))

-- The bytes of a row of chunks, each with the number of its bytes that are filled.
unfoldable pub data_of : List Chunk → List ℕ → List ℕ
data_of [] ss = []
data_of (c ∷ cs) [] = []
data_of (c ∷ cs) (s ∷ ss) = segment c 0 s ++ data_of cs ss

pub data_of-append :
    (cs ds : List Chunk) (ss ts : List ℕ)
    → length cs ≡ length ss
    → data_of (cs ++ ds) (ss ++ ts) ≡ data_of cs ss ++ data_of ds ts
unfolding data_of
data_of-append [] ds [] ts e = refl
data_of-append [] ds (s ∷ ss) ts e = absurd (omega arith)
data_of-append (c ∷ cs) ds [] ts e = absurd (omega arith)
data_of-append (c ∷ cs) ds (s ∷ ss) ts e =
    rw (data_of-append cs ds ss ts (omega arith), append_assoc)

-- Bytes stored behind those of the last chunk come last.
data_of-store :
    (raw : Chunk) (cs : List Chunk) (ss : List ℕ) (i : ℕ) (bytes : List ℕ)
    → length cs ≡ suc i
    → length ss ≡ suc i
    → data_of
        (set cs i (poke (get_or cs i raw) (get_or ss i 0) bytes))
        (set ss i (get_or ss i 0 + length bytes))
      ≡ data_of cs ss ++ bytes
unfolding data_of
data_of-store raw [] ss i bytes e f = absurd (omega arith)
data_of-store raw (c ∷ cs) [] i bytes e f = absurd (omega arith)
data_of-store raw (c ∷ []) (s ∷ []) zero bytes e f = rw (
  append-nil,
  append-nil,
  segment-append,
  segment-poke_below c s bytes 0 s (omega arith),
  zero-add,
  segment-poke,
)
data_of-store raw (c ∷ c' ∷ cs) (s ∷ ss) zero bytes e f = absurd (omega arith)
data_of-store raw (c ∷ []) (s ∷ s' ∷ ss) zero bytes e f = absurd (omega arith)
data_of-store raw (c ∷ cs) (s ∷ ss) (suc i) bytes e f =
    rw (data_of-store raw cs ss i bytes (omega arith) (omega arith), append_assoc)

-- The same, as seen from the chunk `r` on.
pub data_of-store_from :
    (raw : Chunk) (r : ℕ) (cs : List Chunk) (ss : List ℕ) (i : ℕ) (bytes : List ℕ)
    → length cs ≡ suc i
    → length ss ≡ suc i
    → r ≤ i
    → data_of
        (drop r (set cs i (poke (get_or cs i raw) (get_or ss i 0) bytes)))
        (drop r (set ss i (get_or ss i 0 + length bytes)))
      ≡ data_of (drop r cs) (drop r ss) ++ bytes
data_of-store_from raw zero cs ss i bytes e f h = data_of-store raw cs ss i bytes e f
data_of-store_from raw (suc r) [] ss i bytes e f h = absurd (omega arith)
data_of-store_from raw (suc r) (c ∷ cs) [] i bytes e f h = absurd (omega arith)
data_of-store_from raw (suc r) (c ∷ cs) (s ∷ ss) zero bytes e f h = absurd (omega arith)
data_of-store_from raw (suc r) (c ∷ cs) (s ∷ ss) (suc i) bytes e f h =
    data_of-store_from raw r cs ss i bytes (omega arith) (omega arith) (omega arith)

-- The filled bytes of a chunk are among those of the row.
pub length-data_of_ge :
    (cs : List Chunk) (ss : List ℕ) → length cs ≡ length ss → get_or ss 0 0 ≤ length (data_of cs ss)
unfolding data_of
length-data_of_ge [] [] e = omega arith
length-data_of_ge [] (s ∷ ss) e = absurd (omega arith)
length-data_of_ge (c ∷ cs) [] e = absurd (omega arith)
length-data_of_ge (c ∷ cs) (s ∷ ss) e =
    omega (arith, length-append (segment c 0 s) (data_of cs ss), length-segment c 0 s)

pub data_of_fresh : (c : Chunk) → data_of (c ∷ []) (0 ∷ []) ≡ []
unfolding data_of segment
data_of_fresh c = refl

-- From the last chunk on there are the bytes of that chunk.
pub length-data_of_last :
    (cs : List Chunk) (ss : List ℕ) (i : ℕ)
    → length cs ≡ suc i
    → length ss ≡ suc i
    → length (data_of (drop i cs) (drop i ss)) ≡ get_or ss i 0
unfolding data_of
length-data_of_last [] ss i e f = absurd (omega arith)
length-data_of_last (c ∷ cs) [] i e f = absurd (omega arith)
length-data_of_last (c ∷ []) (s ∷ []) zero e f =
    omega (arith, length-append (segment c 0 s) [], length-segment c 0 s)
length-data_of_last (c ∷ c' ∷ cs) (s ∷ ss) zero e f = absurd (omega arith)
length-data_of_last (c ∷ []) (s ∷ s' ∷ ss) zero e f = absurd (omega arith)
length-data_of_last (c ∷ cs) (s ∷ ss) (suc i) e f =
    length-data_of_last cs ss i (omega arith) (omega arith)

-- What comes behind the bytes of the chunk `i` is what the chunks from `suc i` on hold.
pub drop-data_of :
    (cs : List Chunk) (ss : List ℕ) (i : ℕ)
    → i < length cs
    → i < length ss
    → drop (get_or ss i 0) (data_of (drop i cs) (drop i ss))
      ≡ data_of (drop (suc i) cs) (drop (suc i) ss)
unfolding data_of
drop-data_of [] ss i h k = absurd (omega arith)
drop-data_of (c ∷ cs) [] i h k = absurd (omega arith)
drop-data_of (c ∷ cs) (s ∷ ss) zero h k =
    drop-append_length (segment c 0 s) (data_of cs ss) s (sym (length-segment c 0 s))
drop-data_of (c ∷ cs) (s ∷ ss) (suc i) h k = drop-data_of cs ss i (omega arith) (omega arith)
