-- ===== src/KvServer.antt =====
-- kv_connection.hpp and kv_connection.cpp: the server side of a key-value connection, which answers
-- every request from the hash table.
--
-- What `lookup` finds and what `getStats` counts at the time are arguments, and so are the answers of
-- the socket to the write that a request starts. The writes under `m_write_` are one step.
pub mod Decimal
pub mod Written
pub mod Replies
pub mod Requests
mod Tests
use Prim.Native.Char.{code}
use Prim.Native.String.{String}
use multicore_programming_la.Common.{
  ℕ, zero, suc, ◌+◌, ◌-◌, ◌/◌, ◌%◌, ◌^◌, ◌&&◌, Bool, true, false, Option, none, some, List, [], ◌∷◌,
  ◌++◌, ltb, ◌==◌, if◌then◌else◌, length,
}
use multicore_programming_la.Buffer.{Chunk, Buffer, write, consume}
use multicore_programming_la.Buffer.Iterator.{begin, eob}
use multicore_programming_la.HttpParser.{
  done, incomplete_input, error_in_request, out_of_range, out_of_fuel, iterator, parse_request,
  Bytes, Request, extract, stored, c_str,
}
use multicore_programming_la.Connection.{Connection, WriteResult, start_write}

-- The bytes of a literal, which is ASCII.
abbrev pub codes : String → Bytes
codes String.[] = []
codes (String.◌∷◌ c s) = code c ∷ codes s

abbrev pub same : Bytes → Bytes → Bool
same [] [] = true
same [] (y ∷ ys) = false
same (x ∷ xs) [] = false
same (x ∷ xs) (y ∷ ys) = x == y && same xs ys

-- `<<` of an unsigned number; 20 digits are enough for 64 bits.
unfoldable pub decimal_digits : ℕ → ℕ → Bytes
decimal_digits zero n = []
decimal_digits (suc fuel) n =
    let rest = decimal_digits fuel (n / 10) in
    let digit = b'0' + n % 10 in if ltb n 10 then digit ∷ [] else rest ++ digit ∷ []

abbrev pub decimal : ℕ → Bytes
decimal n = decimal_digits 20 n

-- `key_stream >> key` of 32 bits. `key` is not initialised: `before` is what the word holds.
unfoldable pub extract_key : ℕ → Bytes → ℕ
unfolding extract
extract_key before s = stored before (extract (2 ^ 32) s)

-- The strings that are written for a value and for the statistics.
abbrev pub found_reply : Bytes → List Bytes
found_reply text =
    codes "HTTP/1.1 200 OK\r\n"
    ∷ codes "Date: Wed, 28 Oct 2009 15:24:11 GMT\r\n"
    ∷ codes "Server: Lab02a\r\n"
    ∷ codes "Accept-Ranges: bytes\r\n"
    ∷ (codes "Content-Length: " ++ (decimal (length text) ++ codes "\r\n"))
    ∷ codes "Content-Type: text/html\r\n"
    ∷ codes "\r\n"
    ∷ text
    ∷ []

abbrev pub not_found_reply : List Bytes
not_found_reply =
    codes "HTTP/1.1 200 OK\r\n"
    ∷ codes "Date: Wed, 28 Oct 2009 15:24:11 GMT\r\n"
    ∷ codes "Server: Lab02a\r\n"
    ∷ codes "Accept-Ranges: bytes\r\n"
    ∷ codes "Content-Length: 0\r\n"
    ∷ codes "Content-Type: text/html\r\n"
    ∷ codes "\r\n"
    ∷ codes "value corresponding to the key not found\r\n"
    ∷ []

-- `stopped` is that the service was asked to stop, `finished` how many requests were recorded.
pub record Server : Type 0 where
  pub connection : Connection
  pub stopped : Bool
  pub finished : ℕ

-- What is there while a request is handled: what the word `key` holds, the table, the count, and the socket for `startWrite`.
pub record Occasion : Type 0 where
  pub key_before : ℕ
  pub lookup : ℕ → Option ℕ
  pub reqs_last_sec : ℕ
  pub answers : List WriteResult

abbrev pub with_in : Buffer → Server → Server
with_in b s = record s { connection = record (s.connection) { in_ = b } }

module _ (raw : Chunk) where
  unfoldable pub write_all : List Bytes → Buffer → Option Buffer
  write_all [] out = some out
  write_all (s ∷ ss) out = elim (write raw (c_str s) out) [
    | none ↦ none
    | some out' ↦ write_all ss out'
  ]

  unfoldable pub reply : List Bytes → List WriteResult → Server → Option (Server × Bool)
  reply strings answers s = elim (write_all strings s.connection.out_) [
    | none ↦ none
    | some out ↦ elim (start_write raw answers (record (s.connection) { out_ = out })) [
      | none ↦ none
      | some c ↦ some (record s { connection = c }, true)
    ]
  ]

  unfoldable pub handle_request :
      ℕ → (ℕ → Option ℕ) → ℕ → Request → List WriteResult → Server → Option (Server × Bool)
  handle_request key_before lookup reqs_last_sec request answers s =
      elim (same request.address (codes "quit")) [
        | true ↦ some (record s { stopped = true }, false)
        | false ↦ elim (same request.address (codes "stats")) [
          | true ↦ reply (found_reply (decimal reqs_last_sec)) answers s
          | false ↦
              let counted = record s { finished = s.finished + 1 } in
              elim (lookup (extract_key key_before request.address)) [
                | some value ↦ reply (found_reply (decimal value)) answers counted
                | none ↦ reply not_found_reply answers counted
              ]
        ]
      ]

  abbrev pub handle_at : Occasion → Request → Server → Option (Server × Bool)
  handle_at o request s = handle_request o.key_before o.lookup o.reqs_last_sec request o.answers s

  -- `readDone`: the loop, with what the table, the statistics and the socket answer in each round; the
  -- first fuel is for a call of the parser.
  unfoldable pub request_rounds : ℕ → ℕ → (ℕ → Occasion) → Server → Option (Server × Bool)
  request_rounds fuel zero at s = none
  request_rounds fuel (suc rounds) at s =
      let b = s.connection.in_ in
      let v = parse_request (iterator raw) fuel (begin raw b) in
      elim v.0 [
        | error_in_request ↦ some (s, false)
        | incomplete_input ↦ some (s, true)
        | out_of_range ↦ none
        | out_of_fuel ↦ none
        | done ↦ elim (consume v.1.place.bytes_read b) [
          | none ↦ none
          | some b' ↦ elim (handle_at (at 0) v.1.result (with_in b' s)) [
            | none ↦ none
            | some (t, more) ↦ elim more [
              | false ↦ some (t, false)
              | true ↦ elim (eob (record (v.1.place) { buffer = b' })) [
                | true ↦ some (t, true)
                | false ↦ request_rounds fuel rounds (λ i. at (suc i)) t
              ]
            ]
          ]
        ]
      ]

  unfoldable pub read_done : ℕ → (ℕ → Occasion) → Server → Option (Server × Bool)
  unfolding request_rounds
  read_done fuel at s = request_rounds fuel fuel at s
