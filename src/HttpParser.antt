-- ===== src/HttpParser.antt =====
-- http_parser.cpp, http_request.cpp and http_response.hpp: the parser of requests and responses.
--
-- A `string` is its list of bytes. The parser reads through `Buffer::Iterator*`; it uses the four
-- operations of `Cursor` only, which `iterator` fills with those of buffer.cpp. What is thrown is
-- an outcome. The loops take fuel, one unit for each byte or line.

pub mod Spells
pub mod Requests
pub mod Buffered
pub mod Responses
pub mod Received
pub mod Input
mod Tests
use multicore_programming_la.Common.{
  ℕ, zero, suc, ◌+◌, ◌-◌, ◌*◌, ◌%◌, ◌^◌, ◌≡◌, Bool, true, false, not, ◌&&◌, ◌||◌, Option, none,
  some, List, [], ◌∷◌, ◌++◌, ltb, leb, ◌==◌, if◌then◌else◌, length, drop,
}
use multicore_programming_la.Buffer.{Chunk, Buffer, sub_size, write}
use multicore_programming_la.Buffer.Iterator.{Iterator, eob, get_char, next}

abbrev pub Bytes : Type 0
Bytes = List ℕ

-- What the parser uses of `Buffer::Iterator`; `unread` is `bytesTotal() - bytesRead()`.
pub record Cursor (C : Type 0) : Type 0 where
  pub at_end : C → Bool
  pub char : C → ℕ
  pub forward : C → C
  pub unread : C → ℕ

abbrev pub iterator : Chunk → Cursor Iterator
iterator raw = record {
  at_end = eob;
  char = get_char;
  forward = next raw;
  unread = λ it. sub_size it.bytes_total it.bytes_read;
}

-- `IncompleteInput`, `ErrorInRequest`, and `std::out_of_range`, which nothing catches.
pub data Outcome : Type 0 where
  done incomplete_input error_in_request out_of_range out_of_fuel : Outcome

pub record Request : Type 0 where
  pub method : Bytes
  pub address : Bytes
  pub version : Bytes

pub record Response : Type 0 where
  pub status_line : Bytes
  pub header_remainder : Bytes
  pub body : Bytes

-- `Request::clear` and `Response::clear`
abbrev pub clear_request : Request
clear_request = record { method = []; address = []; version = [] }

abbrev pub clear_response : Response
clear_response = record { status_line = []; header_remainder = []; body = [] }

abbrev pub set_method : Bytes → Request → Request
set_method t r = record r { method = t }

abbrev pub set_address : Bytes → Request → Request
set_address t r = record r { address = t }

abbrev pub set_version : Bytes → Request → Request
set_version t r = record r { version = t }

-- An outcome, the string that was appended to, and the iterator.
pub record Scan (C : Type 0) : Type 0 where
  pub outcome : Outcome
  pub text : Bytes
  pub place : C

-- What a `try` block works on: the iterator and the object that it fills.
pub record Parse (C R : Type 0) : Type 0 where
  pub result : R
  pub place : C

abbrev pub Step : Type 0 → Type 0 → Type 0
Step C R = Parse C R → Outcome × Parse C R

abbrev pub unless_thrown : {C R : Type 0} → Step C R → Outcome × Parse C R → Outcome × Parse C R
unless_thrown k (done, s) = k s
unless_thrown k (incomplete_input, s) = (incomplete_input, s)
unless_thrown k (error_in_request, s) = (error_in_request, s)
unless_thrown k (out_of_range, s) = (out_of_range, s)
unless_thrown k (out_of_fuel, s) = (out_of_fuel, s)

-- A thrown exception skips the rest of the block.
infixr 5 ◌>>◌
abbrev pub ◌>>◌ : {C R : Type 0} → Step C R → Step C R → Step C R
(m >> k) s = unless_thrown k (m s)

infixl 5 ◌>>=◌
abbrev pub ◌>>=◌ : {A B : Type 0} → Option A → (A → Option B) → Option B
none >>= k = none
some a >>= k = k a

-- `c_str()` ends at the first zero byte.
unfoldable pub c_str : Bytes → Bytes
c_str [] = []
c_str (c ∷ s) = if c == 0 then [] else c ∷ c_str s

-- `Request::toBuffer`
unfoldable pub to_buffer : Chunk → Request → Buffer → Option Buffer
to_buffer raw r out = do
  out ← write raw (c_str r.method) out
  out ← write raw (b' ' ∷ []) out
  out ← write raw (c_str r.address) out
  out ← write raw (b' ' ∷ []) out
  out ← write raw (c_str r.version) out
  write raw (b'\r' ∷ b'\n' ∷ b'\r' ∷ b'\n' ∷ []) out

-- `"Content-Length:"`
abbrev pub length_string : Bytes
length_string =
    b'C' ∷ b'o' ∷ b'n' ∷ b't' ∷ b'e' ∷ b'n' ∷ b't' ∷ b'-' ∷ b'L' ∷ b'e' ∷ b'n' ∷ b'g' ∷ b't' ∷ b'h'
    ∷ b':' ∷ []

abbrev starts_with : Bytes → Bytes → Bool
starts_with [] s = true
starts_with (p ∷ ps) [] = false
starts_with (p ∷ ps) (c ∷ s) = p == c && starts_with ps s

-- `line.find(lengthString) != string::npos`
abbrev pub contains : Bytes → Bytes → Bool
contains p [] = starts_with p []
contains p (c ∷ s) = starts_with p (c ∷ s) || contains p s

-- `>>` into an unsigned number below `bound`: white space is skipped, then there may be a sign, and
-- digits are read up to the first other byte. A negative number wraps around, one that does not fit
-- is the greatest one, and with no digit the result is 0. Where there is only white space nothing is
-- stored, which is `none`.
abbrev pub is_space : ℕ → Bool
is_space c = c == b' ' || (leb 9 c && leb c 13)

abbrev pub is_digit : ℕ → Bool
is_digit c = leb b'0' c && leb c b'9'

unfoldable pub digits : ℕ → Bytes → ℕ
digits n [] = n
digits n (c ∷ s) = let more = digits (n * 10 + (c - b'0')) s in if is_digit c then more else n

abbrev pub in_bound : ℕ → ℕ → ℕ
in_bound bound n = if ltb n bound then n else bound - 1

abbrev pub negated : ℕ → ℕ → ℕ
negated bound n = if ltb n bound then (bound - n) % bound else bound - 1

abbrev signed : ℕ → ℕ → Bytes → ℕ
signed bound c s =
    if c == b'-'
    then negated bound (digits 0 s)
    else in_bound bound (if c == b'+' then digits 0 s else digits 0 (c ∷ s))

unfoldable pub extract : ℕ → Bytes → Option ℕ
extract bound [] = none
extract bound (c ∷ s) =
    let rest = extract bound s in if is_space c then rest else some (signed bound c s)

-- What a number is behind `>>`.
abbrev pub stored : ℕ → Option ℕ → ℕ
stored before none = before
stored before (some n) = n

-- `is >> contentSize`, with the size that there was before.
unfoldable pub extract_size : ℕ → Bytes → ℕ
unfolding extract
extract_size before s = stored before (extract (2 ^ 64) s)

-- What the loop over the header lines of a response works on.
pub record Headers : Type 0 where
  pub response : Response
  pub content_size : ℕ

-- A header line; `string(line, sizeof(lengthString))` throws where the line is shorter.
unfoldable pub header_line : Bytes → Headers → Outcome × Headers
header_line line h =
    let taken = record (h.response) { header_remainder = h.response.header_remainder ++ line } in
    if contains length_string line
    then if ltb (length line) 16 then (out_of_range, h) else (
      done,
      record { response = taken; content_size = extract_size h.content_size (drop 16 line) },
    )
    else (done, record { response = taken; content_size = h.content_size })

abbrev pub set_status_line : Bytes → Headers → Headers
set_status_line t h = record h { response = record (h.response) { status_line = t } }

module _ {C : Type 0} (in_ : Cursor C) where
  open in_ use {at_end, char, forward, unread}

  -- The loop of `parseString` and the test behind it.
  unfoldable pub string_loop : ℕ → C → Bytes → Scan C
  string_loop zero it res = record { outcome = out_of_fuel; text = res; place = it }
  string_loop (suc fuel) it res = elim (at_end it) [
    | true ↦ record { outcome = incomplete_input; text = res; place = it }
    | false ↦ elim (char it == b' ' || char it == b'\r') [
      | true ↦ record { outcome = done; text = res; place = it }
      | false ↦ string_loop fuel (forward it) (res ++ char it ∷ [])
    ]
  ]

  unfoldable pub parse_string : ℕ → C → Bytes → Scan C
  unfolding string_loop
  parse_string fuel it res =
      if at_end it
      then record { outcome = incomplete_input; text = res; place = it }
      else string_loop fuel it res

  -- Behind a '\r'.
  unfoldable pub line_end : C → Bytes → Scan C
  line_end it res =
      if char it == b'\n'
      then record { outcome = done; text = res; place = forward it }
      else record { outcome = error_in_request; text = res; place = it }

  -- The loop of `parseLine` and the test behind it, which always throws.
  unfoldable pub line_loop : ℕ → C → Bytes → Scan C
  unfolding line_end
  line_loop zero it res = record { outcome = out_of_fuel; text = res; place = it }
  line_loop (suc fuel) it res = elim (at_end it) [
    | true ↦ record { outcome = incomplete_input; text = res; place = it }
    | false ↦ elim (char it == b'\r') [
      | true ↦ line_end (forward it) res
      | false ↦ line_loop fuel (forward it) (res ++ char it ∷ [])
    ]
  ]

  unfoldable pub parse_line : ℕ → C → Bytes → Scan C
  unfolding line_loop
  parse_line fuel it res =
      if at_end it
      then record { outcome = incomplete_input; text = res; place = it }
      else line_loop fuel it res

  unfoldable pub skip_char : ℕ → C → Outcome × C
  skip_char c it =
      if at_end it
      then (incomplete_input, it)
      else if not (char it == c)
      then (error_in_request, it)
      else (done, forward it)

  unfoldable pub skip_new_line : C → Outcome × C
  skip_new_line it =
      let second = forward it in
      if at_end it
      then (incomplete_input, it)
      else if at_end second
      then (incomplete_input, second)
      else if not (char it == b'\r') || not (char second == b'\n')
      then (error_in_request, second)
      else (done, forward second)

  -- The loop over the header lines of a request, which drops them.
  unfoldable pub header_loop : ℕ → ℕ → C → Outcome × C
  header_loop fuel zero it = (out_of_fuel, it)
  header_loop fuel (suc lines) it =
      let dummy = parse_line fuel it [] in
      elim dummy.outcome [
        | done ↦ elim (length dummy.text == 0) [
          | true ↦ (done, dummy.place)
          | false ↦ header_loop fuel lines dummy.place
        ]
        | o ↦ (o, dummy.place)
      ]

  -- A string that is parsed into a field, which `put` sets.
  abbrev pub read_into : {R : Type 0} → (C → Scan C) → (Bytes → R → R) → Step C R
  read_into parse put s =
      let r = parse s.place in (r.outcome, record { result = put r.text s.result; place = r.place })

  abbrev pub moving : {R : Type 0} → (C → Outcome × C) → Step C R
  moving move s = let r = move s.place in (r.0, record { result = s.result; place = r.1 })

  -- The `try` block of `parseRequest`.
  unfoldable pub request_block : ℕ → Step C Request
  request_block fuel = do
    read_into (λ it. parse_string fuel it []) set_method
    moving (skip_char b' ')
    moving (skip_char b'/')
    read_into (λ it. parse_string fuel it []) set_address
    moving (skip_char b' ')
    read_into (λ it. parse_string fuel it []) set_version
    moving skip_new_line
    moving (header_loop fuel fuel)

  -- `parseRequest`: 0, +1 and -1 are `done`, `incomplete_input` and `error_in_request`.
  unfoldable pub parse_request : ℕ → C → Outcome × Parse C Request
  parse_request fuel it = request_block fuel (record { result = clear_request; place = it })

  unfoldable pub response_headers : ℕ → ℕ → Step C Headers
  response_headers fuel zero s = (out_of_fuel, s)
  response_headers fuel (suc lines) s =
      let line = parse_line fuel s.place [] in
      elim line.outcome [
        | done ↦ elim (length line.text == 0) [
          | true ↦ (done, record { result = s.result; place = line.place })
          | false ↦
              let r = header_line line.text s.result in
              unless_thrown (response_headers fuel lines)
                (r.0, record { result = r.1; place = line.place })
        ]
        | o ↦ (o, record { result = s.result; place = line.place })
      ]

  -- `while (contentSize--)`
  unfoldable pub body_loop : ℕ → Step C Headers
  body_loop zero s = (done, s)
  body_loop (suc n) s = body_loop n (record {
    result = record (s.result) {
      response = record (s.result.response) { body = s.result.response.body ++ char s.place ∷ [] };
    };
    place = forward s.place;
  })

  unfoldable pub read_body : Step C Headers
  read_body s = elim (ltb (unread s.place) s.result.content_size) [
    | true ↦ (incomplete_input, s)
    | false ↦ body_loop s.result.content_size s
  ]

  unfoldable pub response_block : ℕ → Step C Headers
  response_block fuel = do
    read_into (λ it. parse_line fuel it []) set_status_line
    response_headers fuel fuel
    read_body

  -- `parseResponse`
  unfoldable pub parse_response : ℕ → C → Outcome × Parse C Response
  parse_response fuel it =
      let r =
        response_block fuel (record {
          result = record { response = clear_response; content_size = 0 };
          place = it;
        }) in
      (r.0, record { result = r.1.result.response; place = r.1.place })
