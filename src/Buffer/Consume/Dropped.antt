-- ===== src/Buffer/Consume/Dropped.antt =====
-- `consume` of buffer.cpp drops every chunk that it passes: a buffer that is read in its first chunk
-- still is.
use mathlib.Core.Option
use mathlib.Core.Option.{some-injective}
use multicore_programming_la.Common.{
  ℕ, zero, suc, ◌+◌, ◌≡◌, refl, subst, some, arith, length, Bool-cases, inl, inr, ◌&&◌, ltb, ◌==◌,
  no_result, Option, none,
}
use multicore_programming_la.Buffer.{
  Buffer, read_size, Consuming, consume_chunk, consume_round, consume_loop, consume, consume_end,
  drop_chunks,
}

abbrev IsLevel : Consuming → Type 0
IsLevel s = s.to_drop ≡ s.buffer.rpos.idx

consume_round-IsLevel : (s : Consuming) → IsLevel s → IsLevel (consume_round s)
unfolding consume_round
consume_round-IsLevel s h = elim (Bool-cases (read_size (consume_chunk s).buffer == 0)) [
  | inl e ↦ rw e (omega arith)
  | inr e ↦ rw e h
]

consume_loop-IsLevel :
    (fuel : ℕ) (s : Consuming) {t : Consuming}
    → IsLevel s
    → consume_loop fuel s ≡ some t
    → IsLevel t
unfolding consume_loop
consume_loop-IsLevel zero s h e = absurd (no_result e)
consume_loop-IsLevel (suc fuel) s h e =
    elim (Bool-cases (ltb 0 s.left && ltb s.buffer.rpos.idx s.buffer.wpos.idx)) [
      | inl f ↦
          consume_loop-IsLevel fuel (consume_round s) (consume_round-IsLevel s h)
            (rw (f, consume_loop) at e)
      | inr f ↦ subst IsLevel (some-injective _ _ (rw (f, consume_loop) at e)) h
    ]

drop_chunks-first : (n : ℕ) (b : Buffer) → n ≡ b.rpos.idx → (drop_chunks n b).rpos.idx ≡ 0
unfolding drop_chunks
drop_chunks-first n b h = elim (Bool-cases (n == 0)) [
  | inl e ↦ rw e (ground arith)
  | inr e ↦ rw e (omega arith)
]

consume_end-first : (s : Consuming) → IsLevel s → (consume_end s).rpos.idx ≡ 0
consume_end-first s h = elim (Bool-cases (ltb 0 s.left)) [
  | inl e ↦ rw e (drop_chunks-first s.to_drop (consume_chunk s).buffer h)
  | inr e ↦ rw e (drop_chunks-first s.to_drop s.buffer h)
]

ends-first :
    (r : Option Consuming) {c : Buffer}
    → ((t : Consuming) → r ≡ some t → IsLevel t)
    → Option.map consume_end r ≡ some c
    → c.rpos.idx ≡ 0
ends-first none level e = absurd (no_result e)
ends-first (some t) level e =
    subst (λ x. x.rpos.idx ≡ 0) (some-injective _ _ e) (consume_end-first t (level t refl))

pub consume-first :
    (bytes : ℕ) (b : Buffer) {c : Buffer}
    → b.rpos.idx ≡ 0
    → consume bytes b ≡ some c
    → c.rpos.idx ≡ 0
unfolding consume
consume-first bytes b first e =
    ends-first _
      (λ t f.
        consume_loop-IsLevel (length b.sizes + 1) (record { left = bytes; to_drop = 0; buffer = b })
          (omega arith) f)
      e
