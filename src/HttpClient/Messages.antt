-- ===== src/HttpClient/Messages.antt =====
-- Responses as bytes, one behind the other, and the callbacks that they answer in http_connection.cpp.
use multicore_programming_la.Common.{
  ℕ, zero, suc, ◌+◌, ◌<◌, ◌≤◌, ◌≡◌, refl, sym, ap, ◌∙◌, List, [], ◌∷◌, ◌++◌, append_assoc,
  append-nil, arith, length, length-append, drop,
}
use multicore_programming_la.HttpParser.{Bytes, Response}
use multicore_programming_la.HttpParser.Spells.{IsLine}
use multicore_programming_la.HttpParser.Requests.{header_bytes}
use multicore_programming_la.HttpParser.Responses.{joined, declared, IsFields, response_bytes}
use multicore_programming_la.HttpClient.{Issued, response_to}

-- A response and its header lines, with a body of the size that they declare.
abbrev pub Message : Type 0
Message = Response × List Bytes

pub record IsMessage (m : Message) : Type 0 where
  pub status : IsLine m.0.status_line
  pub fields : IsFields m.1
  pub join : m.0.header_remainder ≡ joined m.1
  pub size : length m.0.body ≡ declared 0 m.1

abbrev pub AreMessages : List Message → Type 0
AreMessages [] = Unit
AreMessages (m ∷ ms) = IsMessage m × AreMessages ms

-- Their bytes, with the bytes behind them.
abbrev pub message_bytes : List Message → Bytes → Bytes
message_bytes [] rest = rest
message_bytes (m ∷ ms) rest = response_bytes m.0 m.1 (message_bytes ms rest)

-- The oldest callbacks, each with its response.
abbrev pub answered : List ℕ → List Message → List Issued
answered [] ms = []
answered (cb ∷ cbs) [] = []
answered (cb ∷ cbs) (m ∷ ms) = response_to cb m.0 ∷ answered cbs ms

pub answered-nil : (cbs : List ℕ) → answered cbs [] ≡ []
answered-nil [] = refl
answered-nil (cb ∷ cbs) = refl

pub answered-cons :
    (cbs : List ℕ) (m : Message) (ms : List Message)
    → answered cbs (m ∷ ms) ≡ answered cbs (m ∷ []) ++ answered (drop 1 cbs) ms
answered-cons [] m ms = refl
answered-cons (cb ∷ cbs) m ms = rw answered-nil refl

pub drop-suc : (n : ℕ) (l : List ℕ) → drop n (drop 1 l) ≡ drop (suc n) l
drop-suc zero [] = refl
drop-suc (suc n) [] = refl
drop-suc n (x ∷ l) = refl

pub header_bytes-append :
    (ls : List Bytes) (a rest : Bytes) → header_bytes ls (a ++ rest) ≡ header_bytes ls a ++ rest
header_bytes-append [] a rest = refl
header_bytes-append (l ∷ ls) a rest =
    rw (header_bytes-append ls a rest)
      (sym (append_assoc l (b'\r' ∷ b'\n' ∷ header_bytes ls a) rest))

pub response_bytes-append :
    (r : Response) (ls : List Bytes) (rest : Bytes)
    → response_bytes r ls rest ≡ response_bytes r ls [] ++ rest
response_bytes-append r ls rest =
    rw (header_bytes-append ls r.body rest, header_bytes-append ls r.body [], append-nil)
      (sym (append_assoc r.status_line (b'\r' ∷ b'\n' ∷ header_bytes ls r.body) rest))

response_bytes-some : (r : Response) (ls : List Bytes) → 0 < length (response_bytes r ls [])
response_bytes-some r ls =
    omega (arith, length-append r.status_line (b'\r' ∷ b'\n' ∷ header_bytes ls (r.body ++ [])))

pub length-response_bytes :
    (r : Response) (ls : List Bytes) (rest : Bytes)
    → length (response_bytes r ls rest) ≡ length (response_bytes r ls []) + length rest
length-response_bytes r ls rest =
    ap length (response_bytes-append r ls rest) ∙ length-append (response_bytes r ls []) rest

pub no_messages : (ms : List Message) (p : Bytes) → message_bytes ms p ≡ [] → (ms ≡ []) × (p ≡ [])
no_messages [] p e = (refl, e)
no_messages (m ∷ ms) p e = absurd (
    omega (
      arith,
      ap length e,
      length-response_bytes m.0 m.1 (message_bytes ms p),
      response_bytes-some m.0 m.1,
    ))

pub length-message_bytes :
    (ms : List Message) (rest : Bytes) → length ms ≤ length (message_bytes ms rest)
length-message_bytes [] rest = omega arith
length-message_bytes (m ∷ ms) rest = omega (
  arith,
  length-message_bytes ms rest,
  length-response_bytes m.0 m.1 (message_bytes ms rest),
  response_bytes-some m.0 m.1,
)
