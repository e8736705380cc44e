-- ===== src/KvServer/Requests.antt =====
-- `readDone` of the server side in kv_connection.cpp, for requests that arrive together.
use multicore_programming_la.Common.{
  ℕ, zero, suc, ◌<◌, ◌≤◌, ◌≡◌, ◌≢◌, refl, sym, ap, subst, ◌∙◌, true, false, Bool, some, inl, inr,
  Option, List, [], ◌∷◌, ◌++◌, append_assoc, append-nil, arith, length, length-append, Bool-cases,
}
use multicore_programming_la.Buffer.{Chunk}
use multicore_programming_la.Buffer.Valid.{IsValid, contents}
use multicore_programming_la.Buffer.Iterator.{begin, eob}
use multicore_programming_la.Buffer.Iterator.Walk.{eob_behind-true}
use multicore_programming_la.IoManager.{Descriptor}
use multicore_programming_la.HttpParser.{Bytes, Request, iterator, parse_request}
use multicore_programming_la.HttpParser.Spells.{IsPrefix}
use multicore_programming_la.HttpParser.Requests.{IsHeader, IsRequest, header_bytes, request_bytes}
use multicore_programming_la.HttpParser.Responses.{response_bytes}
use multicore_programming_la.HttpParser.Buffered.{parse_request_cut_off}
use multicore_programming_la.HttpParser.Received.{parse_request-IsCounted}
use multicore_programming_la.HttpParser.Input.{IsInput, consume-Taken}
use multicore_programming_la.HttpClient.Messages.{header_bytes-append}
use multicore_programming_la.KvServer.{
  codes, same, Server, Occasion, with_in, request_rounds, read_done,
}
use multicore_programming_la.KvServer.Replies.{answer, handle_request-Answered}

-- A request and its header lines, whose address is not quit.
abbrev pub Asked : Type 0
Asked = Request × List Bytes

abbrev pub AreAsked : List Asked → Type 0
AreAsked [] = Unit
AreAsked (m ∷ ms) =
    IsRequest m.0 × IsHeader m.1 × (same m.0.address (codes "quit") ≡ false) × AreAsked ms

abbrev pub asked_bytes : List Asked → Bytes → Bytes
asked_bytes [] rest = rest
asked_bytes (m ∷ ms) rest = request_bytes m.0 m.1 (asked_bytes ms rest)

-- What is sent for a request, and for one after another.
abbrev pub answer_bytes : Occasion → Asked → Bytes
answer_bytes o m =
    let v = answer o.key_before o.lookup o.reqs_last_sec m.0.address in
    response_bytes v.0.0 v.0.1 v.1

abbrev pub answers_bytes : (ℕ → Occasion) → List Asked → Bytes
answers_bytes at [] = []
answers_bytes at (m ∷ ms) = answer_bytes (at 0) m ++ answers_bytes (λ i. at (suc i)) ms

request_bytes-append :
    (r : Request) (ls : List Bytes) (rest : Bytes)
    → request_bytes r ls rest ≡ request_bytes r ls [] ++ rest
request_bytes-append r ls rest =
    let lines = header_bytes ls [] in
    let version = r.version ++ (b'\r' ∷ b'\n' ∷ lines) in
    rw
      (
        header_bytes-append ls [] rest,
        append_assoc r.method (b' ' ∷ b'/' ∷ (r.address ++ (b' ' ∷ version))) rest,
        append_assoc r.address (b' ' ∷ version) rest,
        append_assoc r.version (b'\r' ∷ b'\n' ∷ lines) rest,
      )
      refl

length-request_bytes :
    (m : Asked) (rest : Bytes) → length rest < length (request_bytes m.0 m.1 rest)
length-request_bytes m rest = omega (
  arith,
  ap length (request_bytes-append m.0 m.1 rest),
  length-append (request_bytes m.0 m.1 []) rest,
  length-append m.0.method (
      b' '
      ∷ b'/'
      ∷ (m.0.address ++ (b' ' ∷ (m.0.version ++ (b'\r' ∷ b'\n' ∷ header_bytes m.1 []))))),
)

none_asked : (ms : List Asked) (p : Bytes) → asked_bytes ms p ≡ [] → ms ≡ []
none_asked [] p e = refl
none_asked (m ∷ ms) p e =
    absurd (omega (arith, ap length e, length-request_bytes m (asked_bytes ms p)))

length-asked_bytes : (ms : List Asked) (p : Bytes) → length ms ≤ length (asked_bytes ms p)
length-asked_bytes [] p = omega arith
length-asked_bytes (m ∷ ms) p =
    omega (arith, length-asked_bytes ms p, length-request_bytes m (asked_bytes ms p))

-- All that the socket has taken or will be given.
abbrev pub output : Server → Bytes
output s = s.connection.sent ++ contents s.connection.out_

pub record Served (at : ℕ → Occasion) (ms : List Asked) (p : Bytes) (s : Server)
    (r : Option (Server × Bool)) : Type 0 where
  pub result : Server
  pub ends : r ≡ some (result, true)
  pub left : contents result.connection.in_ ≡ p
  pub in_order : output result ≡ output s ++ answers_bytes at ms

none-Served :
    {at : ℕ → Occasion} {ms : List Asked} {p : Bytes} (s : Server)
    → ms ≡ []
    → contents s.connection.in_ ≡ p
    → Served at ms p s (some (s, true))
none-Served {at} {ms} {p} s none e =
    subst (λ l. Served at l p s (some (s, true))) (sym none)
      (record { result = s; ends = refl; left = e; in_order = sym (append-nil (output s)) })

then-Served :
    (at : ℕ → Occasion) (m : Asked) (s t : Server) {ms : List Asked} {p : Bytes}
    {r : Option (Server × Bool)}
    → output t ≡ output s ++ answer_bytes (at 0) m
    → Served (λ i. at (suc i)) ms p t r
    → Served at (m ∷ ms) p s r
then-Served at m s t {ms} e d = record {
  result = d.result;
  ends = d.ends;
  left = d.left;
  in_order =
      d.in_order
      ∙ rw e (append_assoc (output s) (answer_bytes (at 0) m) (answers_bytes (λ i. at (suc i)) ms));
}

module _ (raw : Chunk) (fuel : ℕ) (last : Asked) (p q : Bytes) (good : IsRequest last.0)
    (lines : IsHeader last.1) (cut : IsPrefix p q (request_bytes last.0 last.1 [])) (more : q ≢ [])
    (room : length (request_bytes last.0 last.1 []) < fuel) where
  rounds-Served :
      (rounds : ℕ) (at : ℕ → Occasion) (ms : List Asked) (s : Server) {d : Descriptor}
      → AreAsked ms
      → IsInput s.connection.in_
      → IsValid s.connection.out_
      → s.connection.io_desc ≡ some d
      → contents s.connection.in_ ≡ asked_bytes ms p
      → length (contents s.connection.in_) < fuel
      → length ms < rounds
      → Served at ms p s (request_rounds raw fuel rounds at s)
  unfolding request_rounds
  rounds-Served zero at ms s are input valid desc e f h = absurd (omega arith)
  rounds-Served (suc rounds) at [] s are input valid desc e f h =
      let o =
        parse_request_cut_off raw last.0 last.1 q fuel input.valid input.front good lines
          (subst (λ x. IsPrefix x q (request_bytes last.0 last.1 [])) (sym e) cut) more room in
      rw (o, request_rounds) (none-Served s refl e)
  rounds-Served (suc rounds) at (m ∷ ms) s (is, header, no_quit, are) input valid desc e f h =
      let rest = asked_bytes ms p in
      let v = parse_request (iterator raw) fuel (begin raw s.connection.in_) in
      let (o, same_request, counted) =
        parse_request-IsCounted raw m.0 m.1 rest fuel input.valid input.front input.first
          input.small is header e f in
      let t =
        consume-Taken (request_bytes m.0 m.1 []) rest s.connection.in_ v.1.place.bytes_read input
          (e ∙ request_bytes-append m.0 m.1 rest) counted.sum in
      let now = at 0 in
      let (_, a) =
        handle_request-Answered raw now.key_before now.lookup now.reqs_last_sec m.0 now.answers
          (with_in t.after s) valid desc no_quit in
      elim (Bool-cases (eob (record (v.1.place) { buffer = t.after }))) [
        | inl end ↦
            let none =
              none_asked ms p
                (sym counted.before.1 ∙ eob_behind-true raw counted.before.0 t.after end) in
            rw (o, request_rounds, t.ends, same_request, a.ends, end)
              (then-Served at m s a.result a.in_order (
                none-Served a.result none
                  (ap contents a.same_in ∙ t.left ∙ ap (λ l. asked_bytes l p) none)))
        | inr end ↦
            rw (o, request_rounds, t.ends, same_request, a.ends, end)
              (then-Served at m s a.result a.in_order (
                rounds-Served rounds (λ i. at (suc i)) ms a.result are
                  (subst IsInput (sym a.same_in) t.input) a.still_valid (a.has_desc.1)
                  (ap contents a.same_in ∙ t.left)
                  (omega
                    (arith, counted.sum, ap (λ b. length (contents b)) a.same_in, ap length t.left))
                  (omega arith)))
      ]

  -- For a server whose connection has a descriptor and whose output buffer is valid; whose input
  -- buffer is valid, read in its first chunk, with the read pointer not at the end of a chunk that
  -- another one follows, and holds fewer than 2^64 unread bytes, which are whole requests, any
  -- number of them, none for the address quit, and then the first bytes of another request, but
  -- not all of it and not cut off inside of a \r\n; and fuel above their number and the length of
  -- that request: readDone returns true, whatever the table, the statistics and the socket answer
  -- each time and the word of the key holds; it leaves unread exactly the bytes of the request
  -- that is not complete; and behind the bytes that the socket took before or had still to take
  -- there are the answers to the requests, one for each, in their order.
  pub requests_in_order :
      (at : ℕ → Occasion) (ms : List Asked) (s : Server) {d : Descriptor}
      → AreAsked ms
      → IsInput s.connection.in_
      → IsValid s.connection.out_
      → s.connection.io_desc ≡ some d
      → contents s.connection.in_ ≡ asked_bytes ms p
      → length (contents s.connection.in_) < fuel
      → Served at ms p s (read_done raw fuel at s)
  unfolding read_done
  requests_in_order at ms s are input valid desc e f =
      rounds-Served fuel at ms s are input valid desc e f
        (omega (arith, ap length e, length-asked_bytes ms p))
