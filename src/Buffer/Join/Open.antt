-- ===== src/Buffer/Join/Open.antt =====
-- A buffer in the midst of `appendFrom`, and the last steps of that function.
use multicore_programming_la.Common.{
  ℕ, suc, ◌+◌, ◌-◌, ◌≤◌, ◌<◌, ◌≡◌, refl, sym, ap, inl, inr, Option, none, some, [], ◌∷◌, append-nil,
  arith, length, Bool-cases, get_or, drop, ◌==◌, ==_iff, get_or-append_default, length-append,
  length-drop, drop-append,
}
use native.Mathlib.Numerals.{add-one}
use multicore_programming_la.Buffer.{Chunk, Buffer, block_size, read_size}
use multicore_programming_la.Buffer.Bytes.{data_of, data_of-append, data_of_fresh, drop-data_of}
use multicore_programming_la.Buffer.Valid.{IsValid, contents, size_at, sub_size_lem}
use multicore_programming_la.Buffer.Join.{back, push_chunk, close_last, adjust_read, adjust_write}

-- A buffer in the midst of `appendFrom`: all of its chunks but the last hold bytes, its write pointer
-- is not set, and its read pointer stands in a chunk or behind the last one.
pub record IsOpen (b : Buffer) : Type 0 where
  pub same : length b.chunks ≡ length b.sizes
  pub small : (i : ℕ) → size_at b i ≤ block_size
  pub inner : (i : ℕ) → suc i < length b.sizes → 0 < size_at b i
  pub read_in : b.rpos.idx ≤ length b.sizes
  pub read_off : b.rpos.off ≤ size_at b b.rpos.idx

-- The read pointer stands in a chunk, and another chunk follows where it is at the end of its own.
pub record Ready (b : Buffer) : Type 0 where
  pub chunks : IsOpen b
  pub inside : b.rpos.idx < length b.sizes
  pub follows : b.rpos.off ≡ size_at b b.rpos.idx → suc b.rpos.idx < length b.sizes

-- An empty chunk behind chunks that all hold bytes.
module _ {b : Buffer} (c : Chunk) (ready : Ready b)
    (full : (i : ℕ) → i < length b.sizes → 0 < size_at b i) where
  pub push_chunk-Ready : Ready (push_chunk c 0 b)
  push_chunk-Ready = record {
    chunks = record {
      same = omega (
        arith,
        ready.chunks.same,
        length-append b.chunks (c ∷ []),
        length-append b.sizes (0 ∷ []),
      );
      small = λ i. rw get_or-append_default (ready.chunks.small i);
      inner =
          λ i h. rw get_or-append_default (full i (omega (arith, length-append b.sizes (0 ∷ []))));
      read_in = omega (arith, ready.inside, length-append b.sizes (0 ∷ []));
      read_off = rw get_or-append_default ready.chunks.read_off;
    };
    inside = omega (arith, ready.inside, length-append b.sizes (0 ∷ []));
    follows = λ e. omega (arith, ready.inside, length-append b.sizes (0 ∷ []));
  }

  pub contents-push_chunk : contents (push_chunk c 0 b) ≡ contents b
  contents-push_chunk = rw (
    drop-append b.rpos.idx b.chunks (c ∷ []) (omega (arith, ready.chunks.same, ready.inside)),
    drop-append b.rpos.idx b.sizes (0 ∷ []) (omega (arith, ready.inside)),
    data_of-append (drop b.rpos.idx b.chunks) (c ∷ []) (drop b.rpos.idx b.sizes) (0 ∷ []) (
        omega (
          arith,
          ready.chunks.same,
          length-drop b.rpos.idx b.chunks,
          length-drop b.rpos.idx b.sizes,
        )),
    data_of_fresh,
    append-nil,
  )

pub close_last-Ready :
    (raw : Chunk) (last : Option Chunk) {b : Buffer}
    → Ready b
    → ((i : ℕ) → i < length b.sizes → 0 < size_at b i)
    → Ready (close_last raw last b) × (contents (close_last raw last b) ≡ contents b)
close_last-Ready raw last {b} ready full = elim (Bool-cases (back b.sizes == block_size)) [
  | inl e ↦ rw e (closed last)
  | inr e ↦ rw e (ready, refl)
]
  where
    closed :
        (l : Option Chunk)
        → let b' : Buffer = elim l [ none ↦ push_chunk raw 0 b | some c ↦ push_chunk c 0 b ] in
          Ready b' × (contents b' ≡ contents b)
    closed none = (push_chunk-Ready raw ready full, contents-push_chunk raw ready full)
    closed (some c) = (push_chunk-Ready c ready full, contents-push_chunk c ready full)

-- The last steps: both pointers are set.
pub finish :
    {b : Buffer}
    → Ready b
    → IsValid (adjust_write (adjust_read b))
      × (contents (adjust_write (adjust_read b)) ≡ contents b)
finish {b} ready = elim (Bool-cases (read_size b == 0)) [
  | inl e ↦ rw e (
    record {
      same = ready.chunks.same;
      write_last = omega (arith, ready.chunks.same, ready.inside);
      write_off = ap (λ k. get_or b.sizes (k - 1) 0) (sym ready.chunks.same);
      small = ready.chunks.small;
      inner = λ i k. ready.chunks.inner i (omega (arith, ready.chunks.same, ready.inside));
      read_before = omega (arith, ready.follows (at_end ((==_iff _ _).0 e)), ready.chunks.same);
      read_off = omega arith;
    },
    passed (at_end ((==_iff _ _).0 e)),
  )
  | inr e ↦ rw e (
    record {
      same = ready.chunks.same;
      write_last = omega (arith, ready.chunks.same, ready.inside);
      write_off = ap (λ k. get_or b.sizes (k - 1) 0) (sym ready.chunks.same);
      small = ready.chunks.small;
      inner = λ i k. ready.chunks.inner i (omega (arith, ready.chunks.same, ready.inside));
      read_before = omega (arith, ready.chunks.same, ready.inside);
      read_off = ready.chunks.read_off;
    },
    refl,
  )
]
  where
    at_end : read_size b ≡ 0 → b.rpos.off ≡ size_at b b.rpos.idx
    at_end e = omega (
      arith,
      sub_size_lem (size_at b b.rpos.idx) b.rpos.off ready.chunks.read_off
          (omega (arith, ready.chunks.small b.rpos.idx)),
      ready.chunks.read_off,
    )

    passed :
        b.rpos.off ≡ size_at b b.rpos.idx
        → data_of (drop (b.rpos.idx + 1) b.chunks) (drop (b.rpos.idx + 1) b.sizes) ≡ contents b
    passed e =
        rw (add-one, e)
          (sym (
            drop-data_of b.chunks b.sizes b.rpos.idx
              (omega (arith, ready.chunks.same, ready.inside)) ready.inside))
