-- ===== src/Buffer/Valid.antt =====
-- The representation invariant of a buffer, the bytes that it holds, and size arithmetic.
use multicore_programming_la.Common.{
  ℕ, zero, suc, ◌+◌, ◌-◌, ◌≤◌, ◌<◌, ◌^◌, ◌≡◌, refl, ap, List, [], ◌∷◌, ◌++◌, append-nil, arith,
  length, get_or, set, drop, length-append, length-drop, length-set, drop-append, get_or-drop,
  get_or_ge, get_or-append_default, get_or-set_self, get_or-set_ne,
}
use multicore_programming_la.Buffer.{
  Chunk, Buffer, add_size, sub_size, block_size, write_size, read_size, store, next_chunk, create,
}
use multicore_programming_la.Buffer.Bytes.{
  data_of, data_of-append, data_of-store_from, length-data_of_ge, data_of_fresh,
}

pub add_size_lem : (a b : ℕ) → a + b < 2 ^ 64 → add_size a b ≡ a + b
unfolding add_size
add_size_lem a b h = omega arith

pub sub_size_lem : (a b : ℕ) → b ≤ a → a < 2 ^ 64 → sub_size a b ≡ a - b
unfolding sub_size
sub_size_lem a b h k = omega arith

abbrev pub size_at : Buffer → ℕ → ℕ
size_at b i = get_or b.sizes i 0

-- The unread bytes.
abbrev pub contents : Buffer → List ℕ
contents b = drop b.rpos.off (data_of (drop b.rpos.idx b.chunks) (drop b.rpos.idx b.sizes))

-- The read pointer is not behind the last byte of a chunk that another one follows.
abbrev pub HasFront : Buffer → Type 0
HasFront b = b.rpos.idx < b.wpos.idx → b.rpos.off < size_at b b.rpos.idx

-- The write pointer stands behind the last byte of the last chunk, and the read pointer does not
-- stand behind it; no chunk holds more than its size, and none but the last is empty.
pub record IsValid (b : Buffer) : Type 0 where
  pub same : length b.chunks ≡ length b.sizes
  pub write_last : length b.sizes ≡ suc b.wpos.idx
  pub write_off : b.wpos.off ≡ size_at b b.wpos.idx
  pub small : (i : ℕ) → size_at b i ≤ block_size
  pub inner : (i : ℕ) → i < b.wpos.idx → 0 < size_at b i
  pub read_before : b.rpos.idx ≤ b.wpos.idx
  pub read_off : b.rpos.off ≤ size_at b b.rpos.idx

module _ {b : Buffer} (valid : IsValid b) where
  open valid use {same, write_last, write_off, small, inner, read_before, read_off}

  pub write_size_lem : write_size b ≡ block_size - b.wpos.off
  write_size_lem = sub_size_lem _ _ (omega (arith, small b.wpos.idx)) (omega arith)

  pub read_size_lem : read_size b ≡ size_at b b.rpos.idx - b.rpos.off
  read_size_lem = sub_size_lem _ _ read_off (omega (arith, small b.rpos.idx))

  -- The chunk that is read holds its bytes from the read pointer on.
  pub read_off-le :
      b.rpos.off ≤ length (data_of (drop b.rpos.idx b.chunks) (drop b.rpos.idx b.sizes))
  read_off-le = omega (
    arith,
    length-data_of_ge (drop b.rpos.idx b.chunks) (drop b.rpos.idx b.sizes)
        (ground (arith, length-drop b.rpos.idx b.chunks, length-drop b.rpos.idx b.sizes)),
    get_or-drop b.rpos.idx b.sizes 0 0,
    ap (λ k. get_or b.sizes k 0) (let e : b.rpos.idx + 0 ≡ b.rpos.idx = omega arith in e),
  )

module _ (raw : Chunk) where
  pub create-IsValid : IsValid (create raw)
  unfolding create
  create-IsValid = record {
    same = refl;
    write_last = refl;
    write_off = refl;
    small = elim [ zero ↦ omega arith | suc i ↦ omega arith ];
    inner = λ i h. absurd (omega arith);
    read_before = omega arith;
    read_off = omega arith;
  }

  pub contents-create : contents (create raw) ≡ []
  unfolding create
  contents-create = data_of_fresh raw

  module _ {b : Buffer} (valid : IsValid b) where
    open valid use {same, write_last, write_off, small, inner, read_before, read_off}

    -- A new chunk behind one that is not empty.
    pub next_chunk-IsValid : 0 < b.wpos.off → IsValid (next_chunk raw b)
    unfolding next_chunk
    next_chunk-IsValid h = record {
      same = omega (arith, length-append b.chunks (raw ∷ []), length-append b.sizes (0 ∷ []));
      write_last = omega (arith, length-append b.chunks (raw ∷ []), length-append b.sizes (0 ∷ []));
      write_off = rw (
        get_or-append_default,
        get_or_ge b.sizes (length (b.chunks ++ (raw ∷ [])) - 1) 0
            (omega (arith, length-append b.chunks (raw ∷ []))),
      );
      small = λ i. rw get_or-append_default (small i);
      inner = λ i k.
          rw get_or-append_default
            (ground (arith, inner i, write_off, length-append b.chunks (raw ∷ [])));
      read_before = omega (arith, length-append b.chunks (raw ∷ []));
      read_off = rw get_or-append_default read_off;
    }

    pub contents-next_chunk : contents (next_chunk raw b) ≡ contents b
    unfolding next_chunk
    contents-next_chunk = rw (
      drop-append b.rpos.idx b.chunks (raw ∷ []) (omega arith),
      drop-append b.rpos.idx b.sizes (0 ∷ []) (omega arith),
      data_of-append (drop b.rpos.idx b.chunks) (raw ∷ []) (drop b.rpos.idx b.sizes) (0 ∷ [])
          (omega (arith, length-drop b.rpos.idx b.chunks, length-drop b.rpos.idx b.sizes)),
      data_of_fresh,
      append-nil,
    )

    -- Storing bytes where there is room keeps the invariant and puts them behind the others.
    module _ (bytes : List ℕ) (room : b.wpos.off + length bytes ≤ block_size) where
      new_size :
          add_size (size_at b b.wpos.idx) (length bytes) ≡ size_at b b.wpos.idx + length bytes
      new_size = add_size_lem _ _ (omega arith)

      small-store :
          (i : ℕ)
          → get_or (set b.sizes b.wpos.idx (add_size (size_at b b.wpos.idx) (length bytes))) i 0
            ≤ block_size
      small-store i = ground (
        arith,
        new_size,
        small i,
        get_or-set_self b.sizes b.wpos.idx (add_size (size_at b b.wpos.idx) (length bytes)) 0,
        get_or-set_ne b.sizes b.wpos.idx i (add_size (size_at b b.wpos.idx) (length bytes)) 0,
      )

      pub store-IsValid : IsValid (store raw bytes b)
      unfolding store
      store-IsValid = record {
        same = rw (length-set, length-set) same;
        write_last = rw length-set write_last;
        write_off = ground (
          arith,
          new_size,
          get_or-set_self b.sizes b.wpos.idx (add_size (size_at b b.wpos.idx) (length bytes)) 0,
        );
        small = small-store;
        inner = λ i k. ground (
          arith,
          inner i k,
          get_or-set_ne b.sizes b.wpos.idx i (add_size (size_at b b.wpos.idx) (length bytes)) 0,
        );
        read_before = read_before;
        read_off = ground (
          arith,
          new_size,
          get_or-set_self b.sizes b.wpos.idx (add_size (size_at b b.wpos.idx) (length bytes)) 0,
          get_or-set_ne b.sizes b.wpos.idx b.rpos.idx
              (add_size (size_at b b.wpos.idx) (length bytes)) 0,
        );
      }

      pub contents-store : contents (store raw bytes b) ≡ contents b ++ bytes
      unfolding store
      contents-store = rw (
        new_size,
        write_off,
        data_of-store_from raw b.rpos.idx b.chunks b.sizes b.wpos.idx bytes (omega arith) write_last
            read_before,
        drop-append b.rpos.off (data_of (drop b.rpos.idx b.chunks) (drop b.rpos.idx b.sizes)) bytes
            (read_off-le valid),
      )
