-- ===== src/Buffer/Tests.antt =====
-- Runs of the buffer, and its theorems at concrete buffers.
use multicore_programming_la.Common.{
  ℕ, zero, suc, ◌+◌, ◌≤◌, ◌<◌, ◌≡◌, refl, some, [], ◌∷◌, ◌++◌, arith, length,
}
use mathlib.Core.Option
use multicore_programming_la.Buffer.{
  Chunk, Buffer, poke, block_size, read_size, create, write, consume, segment, add_size, sub_size,
  store, write_round, write_loop, consume_loop, drop_chunks,
}
use multicore_programming_la.Buffer.Bytes.{data_of}
use multicore_programming_la.Buffer.Valid.{IsValid, contents, size_at, create-IsValid}
use multicore_programming_la.Buffer.Write.{Written, write-Written}
use multicore_programming_la.Buffer.Consume.{Consumed, consume-Consumed}
use multicore_programming_la.Buffer.Join.{append_from, copy_from}
use multicore_programming_la.Buffer.Join.Append.{append_from-appends}
use multicore_programming_la.Buffer.Join.Copy.{copy_from-appends}
use multicore_programming_la.Buffer.ReadPointer.{copy_from_stalls}
use multicore_programming_la.Buffer.Iterator.{begin, walk, next, eob, get_char}
use multicore_programming_la.Buffer.Iterator.Walk.{walk-begin}

abbrev raw : Chunk
raw i = 0

abbrev empty : Buffer
empty = create raw

abbrev text : Chunk
text = poke raw 0 (7 ∷ 8 ∷ 9 ∷ [])

-- Three bytes in one chunk.
abbrev three : Buffer
three = record {
  chunks = text ∷ [];
  sizes = 3 ∷ [];
  wpos = record { idx = 0; off = 3 };
  rpos = record { idx = 0; off = 0 };
}

-- The same, all read.
abbrev all_read : Buffer
all_read = record three { rpos = record { idx = 0; off = 3 } }

-- One chunk that has room for one more byte.
abbrev almost_full : Buffer
almost_full = record three { sizes = 4095 ∷ []; wpos = record { idx = 0; off = 4095 } }

-- A full chunk, of which two bytes are unread, and three bytes in a second one.
abbrev two_chunks : Buffer
two_chunks = record {
  chunks = raw ∷ text ∷ [];
  sizes = 4096 ∷ 3 ∷ [];
  wpos = record { idx = 1; off = 3 };
  rpos = record { idx = 0; off = 4094 };
}

-- What a write of 4096 bytes leaves.
abbrev just_full : Buffer
just_full = record {
  chunks = raw ∷ raw ∷ [];
  sizes = 4096 ∷ 0 ∷ [];
  wpos = record { idx = 1; off = 0 };
  rpos = record { idx = 0; off = 0 };
}

-- A full chunk that was read to its end, before a second one.
abbrev behind : Buffer
behind = record two_chunks { rpos = record { idx = 0; off = 4096 } }

three-IsValid : IsValid three
three-IsValid = record {
  same = refl;
  write_last = refl;
  write_off = refl;
  small = elim [ zero ↦ omega arith | suc i ↦ omega arith ];
  inner = λ i h. absurd (omega arith);
  read_before = omega arith;
  read_off = omega arith;
}

all_read-IsValid : IsValid all_read
all_read-IsValid = record {
  same = refl;
  write_last = refl;
  write_off = refl;
  small = three-IsValid.small;
  inner = three-IsValid.inner;
  read_before = omega arith;
  read_off = omega arith;
}

almost_full-IsValid : IsValid almost_full
almost_full-IsValid = record {
  same = refl;
  write_last = refl;
  write_off = refl;
  small = elim [ zero ↦ omega arith | suc i ↦ omega arith ];
  inner = λ i h. absurd (omega arith);
  read_before = omega arith;
  read_off = omega arith;
}

small_two :
    (s : ℕ)
    → s ≤ block_size
    → (i : ℕ) → size_at (record two_chunks { sizes = 4096 ∷ s ∷ [] }) i ≤ block_size
small_two s h zero = omega arith
small_two s h (suc zero) = h
small_two s h (suc (suc i)) = omega arith

inner_two : (s : ℕ) (i : ℕ) → i < 1 → 0 < size_at (record two_chunks { sizes = 4096 ∷ s ∷ [] }) i
inner_two s zero h = omega arith
inner_two s (suc i) h = absurd (omega arith)

two_chunks-IsValid : IsValid two_chunks
two_chunks-IsValid = record {
  same = refl;
  write_last = refl;
  write_off = refl;
  small = small_two 3 (omega arith);
  inner = inner_two 3;
  read_before = omega arith;
  read_off = omega arith;
}

behind-IsValid : IsValid behind
behind-IsValid = record {
  same = refl;
  write_last = refl;
  write_off = refl;
  small = small_two 3 (omega arith);
  inner = inner_two 3;
  read_before = omega arith;
  read_off = omega arith;
}

just_full-IsValid : IsValid just_full
just_full-IsValid = record {
  same = refl;
  write_last = refl;
  write_off = refl;
  small = small_two 0 (omega arith);
  inner = inner_two 0;
  read_before = omega arith;
  read_off = omega arith;
}

-- A write, then a read of its first byte.
write_and_consume :
    Option.map contents (Option.bind (write raw (4 ∷ 5 ∷ 6 ∷ []) empty) (consume 1))
    ≡ some (5 ∷ 6 ∷ [])
unfolding Option.bind write write_loop write_round store create consume consume_loop drop_chunks
    poke segment data_of add_size sub_size
write_and_consume = refl

walk-three : walk raw 4 (begin raw three) ≡ some (7 ∷ 8 ∷ 9 ∷ [])
unfolding walk begin next eob get_char poke sub_size add_size
walk-three = refl

write-Written_example : Written raw (4 ∷ 5 ∷ []) empty (write raw (4 ∷ 5 ∷ []) empty)
write-Written_example = write-Written raw (4 ∷ 5 ∷ []) (create-IsValid raw)

consume-Consumed_example : Consumed 3 two_chunks (consume 3 two_chunks)
consume-Consumed_example = consume-Consumed 3 two_chunks-IsValid

copy_from-appends_example :
    (b' : Buffer) × (copy_from raw almost_full three ≡ some b')
    × IsValid b'
    × (contents b' ≡ contents almost_full ++ contents three)
copy_from-appends_example = copy_from-appends raw almost_full-IsValid three-IsValid refl

append_from-appends_example :
    (r : Buffer × Buffer) × (append_from raw two_chunks three ≡ some r)
    × IsValid r.0
    × (contents r.0 ≡ contents two_chunks ++ contents three)
append_from-appends_example = append_from-appends raw two_chunks-IsValid three-IsValid refl

copy_from_stalls_example :
    (b' : Buffer) × (copy_from raw all_read almost_full ≡ some b')
    × (contents b' ≡ contents almost_full)
    × (0 < length (contents b'))
    × (read_size b' ≡ 0)
unfolding sub_size
copy_from_stalls_example =
    copy_from_stalls raw all_read-IsValid almost_full-IsValid refl refl (omega arith)

walk-begin_example :
    walk raw (length (contents three) + 1) (begin raw three) ≡ some (contents three)
walk-begin_example = walk-begin raw three-IsValid (λ h. absurd (omega arith))
