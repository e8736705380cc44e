-- ===== src/HttpParser/Tests.antt =====
-- Runs of the parser, among them those of http_parser_test.cpp, and its theorems at concrete inputs.
use Prim.Native.Char.{code}
use Prim.Native.String.{String}
use multicore_programming_la.Common.{
  zero, suc, ◌≤◌, ◌≡◌, refl, ◌==◌, if◌then◌else◌, some, List, [], ◌∷◌, arith, length,
}
use multicore_programming_la.Buffer.{
  Chunk, Buffer, chunk_at, poke, segment, create, add_size, sub_size, byte_count,
}
use multicore_programming_la.Buffer.Bytes.{data_of}
use multicore_programming_la.Buffer.Valid.{IsValid, contents}
use multicore_programming_la.Buffer.Iterator.{begin, next, slow_next, eob, get_char}
use multicore_programming_la.Buffer.Iterator.Walk.{ahead}
use multicore_programming_la.HttpParser.{
  Bytes, done, incomplete_input, error_in_request, Request, Response, iterator, parse_request,
  request_block, parse_string, string_loop, skip_char, skip_new_line, header_loop, parse_line,
  line_loop, line_end, to_buffer, header_line, extract_size, extract, digits,
}
use multicore_programming_la.HttpParser.Buffered.{
  parse_request_whole, parse_request_cut_off, parse_request-to_buffer, parse_line_split,
}

-- Code points; every literal below is ASCII.
abbrev codes : String → Bytes
codes String.[] = []
codes (String.◌∷◌ c s) = code c ∷ codes s

abbrev raw : Chunk
raw i = 0

-- A buffer of one chunk.
abbrev holding : Bytes → Buffer
holding l = record {
  chunks = poke raw 0 l ∷ [];
  sizes = length l ∷ [];
  wpos = record { idx = 0; off = length l };
  rpos = record { idx = 0; off = 0 };
}

holding-IsValid : (l : Bytes) → length l ≤ 4096 → IsValid (holding l)
holding-IsValid l h = record {
  same = refl;
  write_last = refl;
  write_off = refl;
  small = elim [ zero ↦ h | suc i ↦ omega arith ];
  inner = λ i k. absurd (omega arith);
  read_before = omega arith;
  read_off = omega arith;
}

abbrev get : Request
get = record { method = codes "GET"; address = codes "x.html"; version = codes "HTTP/1.1" }

abbrev lines : List Bytes
lines = codes "User-Agent: httperf/0.9.0" ∷ codes "Host: localhost" ∷ []

abbrev whole_text : Bytes
whole_text = codes "GET /x.html HTTP/1.1\r\nUser-Agent: httperf/0.9.0\r\nHost: localhost\r\n\r\nABC"

abbrev partial_text : Bytes
partial_text = codes "GET /x.html HTTP/1.1\r\nUser-Agent: httperf/0.9.0\r\n"

-- The test `Invalid`.
invalid :
    (parse_request (iterator raw) 20 (begin raw (holding (codes "GET x\r\n\r\n")))).0
    ≡ error_in_request
unfolding parse_request request_block parse_string string_loop skip_char begin next slow_next eob
    get_char poke add_size sub_size byte_count
invalid = refl

-- IsPrefix off between the bytes of a "\r\n", a request is in error.
split :
    (parse_request (iterator raw) 40 (begin raw (holding (codes "GET /x HTTP/1.1\r\nHost: a\r")))).0
    ≡ error_in_request
unfolding parse_request request_block parse_string string_loop skip_char skip_new_line header_loop
    parse_line line_loop line_end begin next slow_next eob get_char poke add_size sub_size
    byte_count
split = refl

parse_request_whole_example :
    let v = parse_request (iterator raw) 100 (begin raw (holding whole_text)) in
    (v.0 ≡ done) × (v.1.result ≡ get) × (contents (ahead v.1.place) ≡ codes "ABC")
unfolding poke segment data_of
parse_request_whole_example =
    parse_request_whole raw get lines (codes "ABC") 100 (holding-IsValid whole_text (omega arith))
      (λ h. absurd (omega arith))
      (record {
        method_word = ground arith;
        address_word = ground arith;
        version_word = ground arith;
      })
      (ground arith) refl (omega arith)

parse_request_cut_off_example :
    (parse_request (iterator raw) 100 (begin raw (holding partial_text))).0 ≡ incomplete_input
unfolding poke segment data_of
parse_request_cut_off_example =
    parse_request_cut_off raw get lines (codes "Host: localhost\r\n\r\n") 100
      (holding-IsValid partial_text (omega arith)) (λ h. absurd (omega arith))
      (record {
        method_word = ground arith;
        address_word = ground arith;
        version_word = ground arith;
      })
      (ground arith) (record { whole = refl; apart = λ a b e f. cc }) (λ e. cc) (omega arith)

abbrev sent : Request
sent = record { method = codes "GET"; address = codes "/x"; version = codes "HTTP/1.1" }

parse_request-to_buffer_example :
    (b : Buffer) × (to_buffer raw sent (create raw) ≡ some b)
    × ((parse_request (iterator raw) 100 (begin raw b)).0 ≡ done)
    × ((parse_request (iterator raw) 100 (begin raw b)).1.result
        ≡ record sent { address = codes "x" })
    × (contents (ahead (parse_request (iterator raw) 100 (begin raw b)).1.place) ≡ [])
parse_request-to_buffer_example =
    parse_request-to_buffer raw sent (codes "x") 100 refl
      (record {
        method_word = ground arith;
        address_word = ground arith;
        version_word = ground arith;
      })
      (ground arith) (omega arith)

parse_line_split_example :
    (parse_line (iterator raw) 9 (begin raw (holding (codes "Host: a\r"))) []).outcome
    ≡ (if chunk_at raw (holding (codes "Host: a\r")) 0 8 == b'\n' then done else error_in_request)
unfolding poke segment data_of
parse_line_split_example =
    parse_line_split raw (codes "Host: a") 9 (holding-IsValid (codes "Host: a\r") (omega arith))
      (λ h. absurd (omega arith)) (ground arith) refl (omega arith)

abbrev page : Response
page = record {
  status_line = codes "HTTP/1.1 200 OK";
  header_remainder = codes "Server: mcpContent-Length: 5";
  body = codes "hello";
}

-- The byte behind the colon is skipped, whatever it is; where nothing follows the size stays.
no_space :
    (header_line
      (codes "Content-Length:5")
      (record { response = page; content_size = 7 })).1.content_size
    ≡ 7
unfolding header_line extract_size extract digits
no_space = refl
