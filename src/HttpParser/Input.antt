-- ===== src/HttpParser/Input.antt =====
-- The input buffer of a connection that parses messages, as http_connection.cpp and kv_connection.cpp do:
-- what `consume` leaves behind a message.
use multicore_programming_la.Common.{
  ℕ, ◌+◌, ◌<◌, ◌^◌, ◌≡◌, refl, ap, ◌∙◌, some, [], ◌∷◌, ◌++◌, arith, length, length-append, drop,
}
use multicore_programming_la.Buffer.{Buffer, consume}
use multicore_programming_la.Buffer.Valid.{IsValid, HasFront, contents}
use multicore_programming_la.Buffer.Consume.{consume-Consumed}
use multicore_programming_la.Buffer.Consume.Front.{consume-HasFront}
use multicore_programming_la.Buffer.Consume.Dropped.{consume-first}
use multicore_programming_la.HttpParser.{Bytes}

-- The input buffer of a connection between two reads.
pub record IsInput (b : Buffer) : Type 0 where
  pub valid : IsValid b
  pub front : HasFront b
  pub first : b.rpos.idx ≡ 0
  pub small : length (contents b) < 2 ^ 64

drop-front : (a rest : Bytes) → drop (length a) (a ++ rest) ≡ rest
drop-front [] rest = refl
drop-front (x ∷ a) rest = drop-front a rest

-- The buffer behind the bytes of a message, `n` of them.
pub record Taken (rest : Bytes) (b : Buffer) (n : ℕ) : Type 0 where
  pub after : Buffer
  pub ends : consume n b ≡ some after
  pub left : contents after ≡ rest
  pub input : IsInput after

pub consume-Taken :
    (bytes rest : Bytes) (b : Buffer) (n : ℕ)
    → IsInput b
    → contents b ≡ bytes ++ rest
    → length (contents b) ≡ n + length rest
    → Taken rest b n
consume-Taken bytes rest b n input e count =
    let run = consume-Consumed n input.valid in
    let size : n ≡ length bytes = omega (arith, count, ap length e, length-append bytes rest) in
    let left : contents run.result ≡ rest = run.left ∙ rw (e, size) (drop-front bytes rest) in
    record {
      after = run.result;
      ends = run.ends;
      left = left;
      input = record {
        valid = run.still_valid;
        front = consume-HasFront n input.valid input.front run.ends;
        first = consume-first n b input.first run.ends;
        small = omega (arith, count, input.small, ap length left);
      };
    }
