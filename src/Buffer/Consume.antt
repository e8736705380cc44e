-- ===== src/Buffer/Consume.antt =====
-- `consume` of buffer.cpp: the loop over the chunks before the last one, and what it leaves.
pub mod Front
pub mod Dropped
use mathlib.Core.Option
use native.Mathlib.Decide.{dec_le}
use native.Mathlib.Numerals.{add-one}
use multicore_programming_la.Common.{
  ℕ, zero, suc, ◌+◌, ◌-◌, ◌≤◌, ◌<◌, ◌≡◌, ◌≢◌, refl, sym, ap, ◌∙◌, Option, some, List, arith, length,
  Bool-cases, inl, inr, ◌&&◌, ◌⊎◌, drop, drop-drop, drop_all, length-drop, ltb, ==_iff, ◌==◌,
  if◌then◌else◌, min,
}
use multicore_programming_la.Buffer.{
  Buffer, read_size, Consuming, consume_chunk, consume_round, consume_loop, consume, consume_end,
  add_size,
}
use multicore_programming_la.Buffer.Bytes.{data_of, drop-data_of, length-data_of_last}
use multicore_programming_la.Buffer.Valid.{IsValid, contents, size_at, read_size_lem, add_size_lem}
use multicore_programming_la.Buffer.Reserve.{drop_chunks-IsValid, contents-drop_chunks}

-- What will be left of the unread bytes.
abbrev rest_of : Consuming → List ℕ
rest_of s = drop s.left (contents s.buffer)

-- The loop keeps the rest, and has passed the chunks that it will drop.
record Kept (rest : List ℕ) (s : Consuming) : Type 0 where
  valid : IsValid s.buffer
  passed : s.to_drop ≤ s.buffer.rpos.idx
  kept : rest_of s ≡ rest

-- The rounds that are still to come.
abbrev lag : Consuming → ℕ
lag s = if s.left == 0 then 0 else s.buffer.wpos.idx - s.buffer.rpos.idx

module _ {rest : List ℕ} {s : Consuming} (inv : Kept rest s) where
  open inv use {valid, passed, kept}

  abbrev n : ℕ
  n = min s.left (read_size s.buffer)

  n-le : n ≤ size_at s.buffer s.buffer.rpos.idx - s.buffer.rpos.off
  n-le = omega (arith, read_size_lem valid)

  new_off : add_size s.buffer.rpos.off n ≡ s.buffer.rpos.off + n
  new_off = add_size_lem _ _ (omega (arith, n-le, valid.read_off, valid.small s.buffer.rpos.idx))

  consume_chunk-IsValid : IsValid (consume_chunk s).buffer
  consume_chunk-IsValid = record {
    same = valid.same;
    write_last = valid.write_last;
    write_off = valid.write_off;
    small = valid.small;
    inner = valid.inner;
    read_before = valid.read_before;
    read_off = omega (arith, new_off, n-le, valid.read_off);
  }

  contents-consume_chunk : contents (consume_chunk s).buffer ≡ drop n (contents s.buffer)
  contents-consume_chunk = rw new_off (sym (drop-drop n s.buffer.rpos.off _))

  consume_chunk-Kept : Kept rest (consume_chunk s)
  consume_chunk-Kept = record {
    valid = consume_chunk-IsValid;
    passed = passed;
    kept = rw (contents-consume_chunk, drop-drop) (rw back kept);
  }
    where
      back : n + (s.left - n) ≡ s.left
      back = omega arith

  -- In the last chunk all that is to be consumed is consumed at once.
  consume_chunk_last :
      s.buffer.rpos.idx ≡ s.buffer.wpos.idx → contents (consume_chunk s).buffer ≡ rest
  consume_chunk_last e = contents-consume_chunk ∙ elim (dec_le s.left (read_size s.buffer)) [
    | yes h ↦ let f : n ≡ s.left = omega arith in rw f kept
    | no h ↦
        drop_all n (contents s.buffer) (omega (arith, length-contents_last))
        ∙ sym (drop_all s.left (contents s.buffer) (omega (arith, length-contents_last)))
        ∙ kept
  ]
    where
      length-contents_last : length (contents s.buffer) ≡ read_size s.buffer
      length-contents_last = omega (
        arith,
        length-drop s.buffer.rpos.off (
            data_of (drop s.buffer.rpos.idx s.buffer.chunks)
              (drop s.buffer.rpos.idx s.buffer.sizes)),
        length-data_of_last s.buffer.chunks s.buffer.sizes s.buffer.rpos.idx
            (omega (arith, valid.same, valid.write_last)) (omega (arith, valid.write_last)),
        read_size_lem valid,
      )

-- A chunk that is read to its end is left for the next one.
next-Kept :
    {rest : List ℕ} {s : Consuming}
    → Kept rest s
    → read_size s.buffer ≡ 0
    → s.buffer.rpos.idx < s.buffer.wpos.idx
    → Kept rest (record s {
      to_drop = s.to_drop + 1;
      buffer = record (s.buffer) { rpos = record { idx = s.buffer.rpos.idx + 1; off = 0 } };
    })
next-Kept {rest} {s} inv e h = record {
  valid = record {
    same = inv.valid.same;
    write_last = inv.valid.write_last;
    write_off = inv.valid.write_off;
    small = inv.valid.small;
    inner = inv.valid.inner;
    read_before = omega arith;
    read_off = omega arith;
  };
  passed = omega (arith, inv.passed);
  kept =
      rw
        (
          add-one,
          ← drop-data_of s.buffer.chunks s.buffer.sizes s.buffer.rpos.idx
              (omega (arith, inv.valid.same, inv.valid.write_last))
              (omega (arith, inv.valid.write_last)),
          ← at_end,
        )
        inv.kept;
}
  where
    at_end : s.buffer.rpos.off ≡ size_at s.buffer s.buffer.rpos.idx
    at_end = omega (arith, read_size_lem inv.valid, inv.valid.read_off)

consume_round-Kept :
    {rest : List ℕ} {s : Consuming}
    → Kept rest s
    → s.buffer.rpos.idx < s.buffer.wpos.idx
    → Kept rest (consume_round s)
unfolding consume_round
consume_round-Kept {rest} {s} inv h = elim (Bool-cases (read_size (consume_chunk s).buffer == 0)) [
  | inl e ↦ rw e (next-Kept (consume_chunk-Kept inv) ((==_iff _ _).0 e) h)
  | inr e ↦ rw e (consume_chunk-Kept inv)
]

-- A round takes all that is left, or moves on to the next chunk.
lag-consume_round :
    {rest : List ℕ} {s : Consuming}
    → Kept rest s
    → s.left ≢ 0
    → s.buffer.rpos.idx < s.buffer.wpos.idx
    → lag (consume_round s) < lag s
unfolding consume_round
lag-consume_round {s} inv ne h = ground (
  arith,
  read_size_lem inv.valid,
  read_size_lem (consume_chunk-IsValid inv),
  n-le inv,
  new_off inv,
)

-- What the loop gives: it ends with nothing left to consume, or in the last chunk.
record Stopped (rest : List ℕ) (r : Option Consuming) : Type 0 where
  last : Consuming
  ends : r ≡ some last
  inv : Kept rest last
  stop : (last.left ≡ 0) ⊎ (last.buffer.rpos.idx ≡ last.buffer.wpos.idx)

consume_loop-Stopped :
    (fuel : ℕ) (s : Consuming) {rest : List ℕ}
    → Kept rest s
    → lag s < fuel
    → Stopped rest (consume_loop fuel s)
unfolding consume_loop
consume_loop-Stopped zero s inv h = absurd (omega arith)
consume_loop-Stopped (suc fuel) s inv h =
    elim (Bool-cases (ltb 0 s.left && ltb s.buffer.rpos.idx s.buffer.wpos.idx)) [
      | inl e ↦
          rw (e, consume_loop)
            (consume_loop-Stopped fuel (consume_round s) (consume_round-Kept inv (ground arith))
              (omega (arith, lag-consume_round inv (ground arith) (ground arith))))
      | inr e ↦
          rw (e, consume_loop)
            (record {
              last = s;
              ends = refl;
              inv = inv;
              stop = ground (arith, inv.valid.read_before);
            })
    ]

-- What `consume` gives: it ends, and the first `bytes` of the unread bytes are gone.
pub record Consumed (bytes : ℕ) (b : Buffer) (r : Option Buffer) : Type 0 where
  pub result : Buffer
  pub ends : r ≡ some result
  pub still_valid : IsValid result
  pub left : contents result ≡ drop bytes (contents b)

consume_end_lem :
    {rest : List ℕ} {s : Consuming}
    → Kept rest s
    → (s.left ≡ 0) ⊎ (s.buffer.rpos.idx ≡ s.buffer.wpos.idx)
    → IsValid (consume_end s) × (contents (consume_end s) ≡ rest)
consume_end_lem {rest} {s} inv stop = elim (Bool-cases (ltb 0 s.left)) [
  | inl e ↦ rw e (
      let k : Kept rest (consume_chunk s) = consume_chunk-Kept inv in
      (
        drop_chunks-IsValid k.valid _ k.passed,
        contents-drop_chunks k.valid _ k.passed ∙ consume_chunk_last inv (ground arith),
      ))
  | inr e ↦ rw e (
    drop_chunks-IsValid inv.valid _ inv.passed,
    contents-drop_chunks inv.valid _ inv.passed
        ∙ (let z : s.left ≡ 0 = ground arith in rw z at inv.kept),
  )
]

-- For a valid buffer and any number of bytes, consume ends, leaves a valid buffer, and takes
-- exactly that many of the first unread bytes, or all of them where there are fewer.
pub consume-Consumed : (bytes : ℕ) {b : Buffer} → IsValid b → Consumed bytes b (consume bytes b)
unfolding consume
consume-Consumed bytes {b} valid =
    let start : Kept (drop bytes (contents b)) (record { left = bytes; to_drop = 0; buffer = b }) =
      record { valid = valid; passed = omega arith; kept = refl } in
    let run =
      consume_loop-Stopped (length b.sizes + 1) _ start (ground (arith, valid.write_last)) in
    let end = consume_end_lem run.inv run.stop in
    record {
      result = consume_end run.last;
      ends = ap (Option.map consume_end) run.ends;
      still_valid = end.0;
      left = end.1;
    }
