-- ===== src/HttpClient/Tests.antt =====
-- Runs of the client side of an HTTP connection, and its theorem at a concrete input.
use Prim.Native.Char.{code}
use Prim.Native.String.{String}
use multicore_programming_la.Common.{zero, suc, ◌≡◌, refl, true, some, [], ◌∷◌, arith, length}
use multicore_programming_la.Buffer.{Chunk, Buffer, poke, segment}
use multicore_programming_la.Buffer.Bytes.{data_of}
use multicore_programming_la.HttpParser.{Bytes, extract_size, extract, digits}
use multicore_programming_la.Connection.{new_passive}
use multicore_programming_la.HttpClient.{
  connect_done, Client, issue, handle_response, read_done, conn_done,
}
use multicore_programming_la.HttpClient.Messages.{Message}
use multicore_programming_la.HttpParser.Input.{IsInput}
use multicore_programming_la.HttpClient.Receive.{Delivered, responses_in_order}

-- Code points; every literal below is ASCII.
abbrev codes : String → Bytes
codes String.[] = []
codes (String.◌∷◌ c s) = code c ∷ codes s

abbrev raw : Chunk
raw i = 0

abbrev arrived : Bytes
arrived = codes "HTTP/1.1 200 OK\r\nContent-Length: 2\r\n\r\nhiHTTP/1.1 204\r\n\r\nHTT"

abbrev input : Buffer
input = record {
  chunks = poke raw 0 arrived ∷ [];
  sizes = length arrived ∷ [];
  wpos = record { idx = 0; off = length arrived };
  rpos = record { idx = 0; off = 0 };
}

input-IsInput : IsInput input
unfolding poke segment data_of
input-IsInput = record {
  valid = record {
    same = refl;
    write_last = refl;
    write_off = refl;
    small = elim [ zero ↦ omega arith | suc i ↦ omega arith ];
    inner = λ i h. absurd (omega arith);
    read_before = omega arith;
    read_off = omega arith;
  };
  front = λ h. absurd (omega arith);
  first = refl;
  small = omega arith;
}

-- Three callbacks wait.
abbrev client : Client
client = record {
  connection = record (new_passive raw 5) { in_ = input };
  connect_cb = 1;
  response_cbs = 7 ∷ 8 ∷ 9 ∷ [];
  called = [];
}

abbrev first_message : Message
first_message = (
  record {
    status_line = codes "HTTP/1.1 200 OK";
    header_remainder = codes "Content-Length: 2";
    body = codes "hi";
  },
  codes "Content-Length: 2" ∷ [],
)

abbrev second_message : Message
second_message =
    (record { status_line = codes "HTTP/1.1 204"; header_remainder = []; body = [] }, [])

-- A response that no callback waits for is dropped.
dropped : (handle_response second_message.0 (record client { response_cbs = [] })).0.called ≡ []
unfolding handle_response issue
dropped = refl

-- The user hears of a connect that failed.
failed_connect :
    conn_done (record client { connection = record (client.connection) { in_error = true } })
    ≡ some (record client {
      connection = record (client.connection) { in_error = true };
      called = connect_done 1 ∷ [];
    })
unfolding conn_done
failed_connect = refl

responses_in_order_example :
    Delivered (first_message ∷ second_message ∷ []) (codes "HTT") client (read_done raw 100 client)
unfolding poke segment data_of extract_size extract digits
responses_in_order_example =
    responses_in_order raw 100 second_message (codes "HTT") (codes "P/1.1 204\r\n\r\n")
      (record { status = ground arith; fields = tt; join = refl; size = refl })
      (record { whole = refl; apart = λ a b e f. cc }) (λ e. cc) (omega arith)
      (first_message ∷ second_message ∷ []) client
      (
        record {
          status = ground arith;
          fields = (ground arith, (λ e. cc), (λ e. omega arith), tt);
          join = refl;
          size = refl;
        },
        (record { status = ground arith; fields = tt; join = refl; size = refl }, tt),
      )
      input-IsInput refl (omega arith)
