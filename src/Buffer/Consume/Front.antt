-- ===== src/Buffer/Consume/Front.antt =====
-- `consume` of buffer.cpp does not leave the read pointer behind a chunk that another one follows.
use mathlib.Core.Option
use mathlib.Core.Option.{some-injective}
use multicore_programming_la.Common.{
  ℕ, zero, suc, ◌+◌, ◌-◌, ◌≤◌, ◌≡◌, refl, sym, ap, subst, ◌∙◌, some, List, [], arith, length,
  Bool-cases, inl, inr, ◌&&◌, ◌⊎◌, get_or-drop, drop, ltb, ◌==◌, no_result,
}
use multicore_programming_la.Buffer.{
  Buffer, read_size, Consuming, consume_chunk, consume_round, consume_loop, consume, consume_end,
  drop_chunks,
}
use multicore_programming_la.Buffer.Valid.{IsValid, HasFront, contents, read_size_lem}
use multicore_programming_la.Buffer.Reserve.{contents_at_end}
use multicore_programming_la.Buffer.Consume.{
  Kept, consume_chunk-Kept, consume_round-Kept, consume_loop-Stopped,
}

consume_round-HasFront :
    {s : Consuming} {rest : List ℕ} → Kept rest s → HasFront (consume_round s).buffer
unfolding consume_round
consume_round-HasFront {s} inv =
    let k = consume_chunk-Kept inv in
    elim (Bool-cases (read_size (consume_chunk s).buffer == 0)) [
      | inl e ↦ rw e (λ h. k.valid.inner (s.buffer.rpos.idx + 1) h)
      | inr e ↦ rw e (λ h. ground (arith, read_size_lem k.valid))
    ]

consume_loop-HasFront :
    (fuel : ℕ) (s : Consuming) {rest : List ℕ} {t : Consuming}
    → Kept rest s
    → HasFront s.buffer
    → consume_loop fuel s ≡ some t
    → HasFront t.buffer
unfolding consume_loop
consume_loop-HasFront zero s inv front e = absurd (no_result e)
consume_loop-HasFront (suc fuel) s inv front e =
    elim (Bool-cases (ltb 0 s.left && ltb s.buffer.rpos.idx s.buffer.wpos.idx)) [
      | inl f ↦
          consume_loop-HasFront fuel (consume_round s) (consume_round-Kept inv (ground arith))
            (consume_round-HasFront inv) (rw (f, consume_loop) at e)
      | inr f ↦
          subst (λ x. HasFront x.buffer) (some-injective _ _ (rw (f, consume_loop) at e)) front
    ]

drop_chunks-HasFront :
    (n : ℕ) (b : Buffer) → n ≤ b.rpos.idx → HasFront b → HasFront (drop_chunks n b)
unfolding drop_chunks
drop_chunks-HasFront n b h front = elim (Bool-cases (n == 0)) [
  | inl e ↦ rw e front
  | inr e ↦ rw e (λ k.
      let same : n + (b.rpos.idx - n) ≡ b.rpos.idx = omega arith in
      rw (get_or-drop, same) (front (omega arith)))
]

consume_end-HasFront :
    {rest : List ℕ} {s : Consuming}
    → Kept rest s
    → (s.left ≡ 0) ⊎ (s.buffer.rpos.idx ≡ s.buffer.wpos.idx)
    → HasFront s.buffer
    → HasFront (consume_end s)
consume_end-HasFront {rest} {s} inv stop front = elim (Bool-cases (ltb 0 s.left)) [
  | inl e ↦ rw e (
      drop_chunks-HasFront _ (consume_chunk s).buffer (consume_chunk-Kept inv).passed
        (λ h. absurd (ground arith)))
  | inr e ↦ rw e (drop_chunks-HasFront _ s.buffer inv.passed front)
]

pub consume-HasFront :
    (bytes : ℕ) {b c : Buffer} → IsValid b → HasFront b → consume bytes b ≡ some c → HasFront c
unfolding consume
consume-HasFront bytes {b} valid front e =
    let first : Consuming = record { left = bytes; to_drop = 0; buffer = b } in
    let start : Kept (drop bytes (contents b)) first = record {
      valid = valid;
      passed = omega arith;
      kept = refl;
    } in
    let run =
      consume_loop-Stopped (length b.sizes + 1) first start (ground (arith, valid.write_last)) in
    let front' = consume_loop-HasFront (length b.sizes + 1) first start front run.ends in
    subst HasFront (some-injective _ _ (sym (ap (Option.map consume_end) run.ends) ∙ e))
      (consume_end-HasFront run.inv run.stop front')

-- A buffer that has its read pointer in front of a byte, or at its end, has nothing unread where
-- readSize() is 0.
pub contents_of_nothing : {b : Buffer} → IsValid b → HasFront b → read_size b ≡ 0 → contents b ≡ []
contents_of_nothing {b} valid front e =
    contents_at_end valid (ground (arith, read_size_lem valid, valid.read_before))
      (ground (arith, read_size_lem valid, valid.read_before, valid.read_off, valid.write_off))
