-- ===== src/KvServer/Tests.antt =====
-- Runs of the server side of a key-value connection, and its theorem at a concrete input.
use multicore_programming_la.Common.{
  ℕ, zero, suc, ◌≡◌, refl, true, false, Option, none, some, List, arith, length, [], ◌∷◌, ◌==◌,
  if◌then◌else◌,
}
use multicore_programming_la.Buffer.{Chunk, Buffer, poke, segment}
use multicore_programming_la.Buffer.Bytes.{data_of}
use multicore_programming_la.HttpParser.Requests.{IsRequest}
use multicore_programming_la.HttpParser.Input.{IsInput}
use multicore_programming_la.KvServer.Requests.{Asked, Served, requests_in_order}
use multicore_programming_la.Buffer.Valid.{create-IsValid}
use multicore_programming_la.HttpParser.{Bytes, Request, extract, digits}
use multicore_programming_la.Connection.{new_passive, write_again}
use multicore_programming_la.KvServer.{
  Occasion, with_in, read_done, codes, decimal, decimal_digits, extract_key, Server, handle_request,
}
use multicore_programming_la.KvServer.Replies.{answer, Answered, handle_request-Answered}

abbrev raw : Chunk
raw i = 0

abbrev server : Server
server = record { connection = new_passive raw 5; stopped = false; finished = 0 }

-- A table of one entry.
abbrev table : ℕ → Option ℕ
table k = if k == 7 then some 42 else none

abbrev get_seven : Request
get_seven = record { method = codes "GET"; address = codes "7"; version = codes "HTTP/1.1" }

number : decimal 4096 ≡ codes "4096"
unfolding decimal_digits
number = refl

-- A key that does not fit into 32 bits.
great_key : extract_key 6 (codes "4294967296") ≡ 4294967295
unfolding extract_key extract digits
great_key = refl

-- A sign wraps around, and a blank address leaves the word as it was.
negative_key : extract_key 6 (codes "-5") ≡ 4294967291
unfolding extract_key extract digits
negative_key = refl

no_key : extract_key 6 [] ≡ 6
unfolding extract_key extract
no_key = refl

quits :
    handle_request raw 6 table 0 (record get_seven { address = codes "quit" }) [] server
    ≡ some (record server { stopped = true }, false)
unfolding handle_request
quits = refl

handle_request-Answered_example :
    Answered raw
      (answer 6 table 3 (codes "7"))
      server
      (handle_request raw 6 table 3 get_seven (write_again ∷ []) server)
handle_request-Answered_example =
    handle_request-Answered raw 6 table 3 get_seven (write_again ∷ []) server (create-IsValid raw)
      refl refl

abbrev arrived : Bytes
arrived = codes "GET /7 HTTP/1.1\r\nHost: a\r\n\r\nGET /8 HTTP/1.1\r\n\r\nGET /7"

abbrev input : Buffer
input = record {
  chunks = poke raw 0 arrived ∷ [];
  sizes = length arrived ∷ [];
  wpos = record { idx = 0; off = length arrived };
  rpos = record { idx = 0; off = 0 };
}

input-IsInput : IsInput input
unfolding poke segment data_of
input-IsInput = record {
  valid = record {
    same = refl;
    write_last = refl;
    write_off = refl;
    small = elim [ zero ↦ omega arith | suc i ↦ omega arith ];
    inner = λ i h. absurd (omega arith);
    read_before = omega arith;
    read_off = omega arith;
  };
  front = λ h. absurd (omega arith);
  first = refl;
  small = omega arith;
}

abbrev asked : Server
asked = with_in input server

abbrev at_noon : ℕ → Occasion
at_noon i = record { key_before = 6; lookup = table; reqs_last_sec = 3; answers = write_again ∷ [] }

abbrev get_eight : Request
get_eight = record get_seven { address = codes "8" }

abbrev two_asked : List Asked
two_asked = (get_seven, codes "Host: a" ∷ []) ∷ (get_eight, []) ∷ []

seven-IsRequest : IsRequest get_seven
seven-IsRequest = record {
  method_word = ground arith;
  address_word = ground arith;
  version_word = ground arith;
}

eight-IsRequest : IsRequest get_eight
eight-IsRequest = record {
  method_word = ground arith;
  address_word = ground arith;
  version_word = ground arith;
}

requests_in_order_example :
    Served at_noon two_asked (codes "GET /7") asked (read_done raw 100 at_noon asked)
unfolding poke segment data_of
requests_in_order_example =
    requests_in_order raw 100 (get_seven, []) (codes "GET /7") (codes " HTTP/1.1\r\n\r\n")
      seven-IsRequest tt (record { whole = refl; apart = λ a b e f. cc }) (λ e. cc) (omega arith)
      at_noon two_asked asked
      (seven-IsRequest, (ground arith, (λ e. cc), tt), refl, (eight-IsRequest, tt, refl, tt))
      input-IsInput (create-IsValid raw) refl refl (omega arith)
