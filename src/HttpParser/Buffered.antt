-- ===== src/HttpParser/Buffered.antt =====
-- The parser of http_parser.cpp over the iterator of buffer.cpp, and `Request::toBuffer` of
-- http_request.cpp.
use multicore_programming_la.Common.{
  ℕ, zero, suc, ◌<◌, ◌≡◌, ◌≢◌, refl, sym, ap, subst, true, ◌∙◌, inl, inr, false, Option, some, List,
  [], ◌∷◌, ◌++◌, append_assoc, append-nil, arith, length, ◌==◌, if◌then◌else◌, Bool-cases,
}
use multicore_programming_la.Buffer.{Chunk, Buffer, create, write, chunk_at}
use multicore_programming_la.Buffer.Valid.{
  IsValid, HasFront, contents, create-IsValid, contents-create,
}
use multicore_programming_la.Buffer.Write.{write-Written, rpos-write}
use multicore_programming_la.Buffer.Iterator.{Iterator, begin, eob, get_char, next, slow_next}
use multicore_programming_la.Buffer.Iterator.Walk.{
  IsGood, ahead, begin-IsGood, next-passes, eob-true, eob-false,
}
use multicore_programming_la.HttpParser.{
  Bytes, done, incomplete_input, error_in_request, Request, c_str, to_buffer, iterator,
  parse_request, line_end, line_loop, parse_line, ◌>>=◌,
}
use multicore_programming_la.HttpParser.Spells.{IsCursor, IsWord, IsLine, IsPrefix, nothing_left}
use multicore_programming_la.HttpParser.Requests.{
  IsHeader, IsRequest, request_bytes, parse_request-Ends,
}

-- The texts that can be sent: words with no zero byte.
abbrev pub HasNoZero : Bytes → Type 0
HasNoZero [] = Unit
HasNoZero (c ∷ s) = (c ≢ 0) × HasNoZero s

pub c_str_lem : (s : Bytes) → HasNoZero s → c_str s ≡ s
unfolding c_str
c_str_lem [] h = refl
c_str_lem (c ∷ s) (ne, h) = let e : (c == 0) ≡ false = ground arith in rw (e, c_str_lem s h) refl

module _ (raw : Chunk) where
  abbrev pub IsBefore : Iterator → Bytes → Type 0
  IsBefore it l = IsGood raw it × (contents (ahead it) ≡ l)

  at_bytes : (it : Iterator) (c : ℕ) (l : Bytes) → IsBefore it (c ∷ l) → eob it ≡ false
  at_bytes it c l (good, e) = elim (Bool-cases (eob it)) [
    | inl t ↦ let f = eob-true raw good t in cc
    | inr f ↦ f
  ]

  pub iterator-IsCursor : IsCursor (iterator raw) IsBefore
  iterator-IsCursor = record {
    ends = λ it (good, e). elim (Bool-cases (eob it)) [
      | inl t ↦ t
      | inr f ↦ let (_, seen) = next-passes raw good (eob-false raw good f) in cc
    ];
    not_ended = at_bytes;
    shows = λ it c l (good, e).
        let (_, seen) = next-passes raw good (eob-false raw good (at_bytes it c l (good, e))) in cc;
    passes = λ it c l (good, e).
        let (good', seen) = next-passes raw good (eob-false raw good (at_bytes it c l (good, e))) in
        (good', cc);
  }

  pub contents-begin : (b : Buffer) → contents (ahead (begin raw b)) ≡ contents b
  unfolding begin
  contents-begin b = refl

  -- For a valid buffer whose read pointer is not at the end of a chunk that another one follows,
  -- whose unread bytes are a request (words for method, address and version, header lines that are
  -- not empty, an empty line) and any bytes behind it, and fuel above their number: parseRequest
  -- from begin() on returns 0, with that method, address and version, and the iterator stands
  -- before the bytes behind the request.
  pub parse_request_whole :
      (r : Request) (ls : List Bytes) (rest : Bytes) (fuel : ℕ) {b : Buffer}
      → IsValid b
      → HasFront b
      → IsRequest r
      → IsHeader ls
      → contents b ≡ request_bytes r ls rest
      → length (contents b) < fuel
      → let v = parse_request (iterator raw) fuel (begin raw b) in
        (v.0 ≡ done) × (v.1.result ≡ r) × (contents (ahead v.1.place) ≡ rest)
  parse_request_whole r ls rest fuel {b} valid front good headers e f =
      elim (parse_request-Ends iterator-IsCursor [] r ls fuel (begin raw b) (contents b) rest good
        headers (subst (λ l. length l < fuel) e f) (begin-IsGood raw valid front, contents-begin b)
        (record { whole = append-nil _ ∙ e; apart = λ a b e. cc })) [
          | inl (o, same, p, (_, left), cut) ↦ (o, same, left ∙ sym (append-nil p) ∙ cut.whole)
          | inr (_, ne) ↦ absurd (ne refl)
        ]

  -- For a valid buffer whose read pointer is not at the end of a chunk that another one follows,
  -- whose unread bytes are the first ones of a request but not all, cut off elsewhere than inside
  -- of a \r\n, and fuel above the length of the request: parseRequest from begin() on returns +1.
  pub parse_request_cut_off :
      (r : Request) (ls : List Bytes) (q : Bytes) (fuel : ℕ) {b : Buffer}
      → IsValid b
      → HasFront b
      → IsRequest r
      → IsHeader ls
      → IsPrefix (contents b) q (request_bytes r ls [])
      → q ≢ []
      → length (request_bytes r ls []) < fuel
      → (parse_request (iterator raw) fuel (begin raw b)).0 ≡ incomplete_input
  parse_request_cut_off r ls q fuel {b} valid front good headers cut more f =
      elim (parse_request-Ends iterator-IsCursor q r ls fuel (begin raw b) (contents b) [] good
        headers f (begin-IsGood raw valid front, contents-begin b) cut) [
          | inl (_, _, p, _, cut') ↦ absurd (more (nothing_left p q (cut'.whole)))
          | inr (o, _) ↦ o
        ]

  rpos-create : (create raw).rpos ≡ record { idx = 0; off = 0 }
  unfolding create
  rpos-create = refl

  -- Some bytes written into a valid buffer.
  pub record Sent (bytes : Bytes) (b : Buffer) (out : Option Buffer) : Type 0 where
    pub result : Buffer
    pub ends : out ≡ some result
    pub still_valid : IsValid result
    pub appended : contents result ≡ contents b ++ bytes
    pub same_rpos : result.rpos ≡ b.rpos

  pub write-Sent : (bytes : Bytes) {b : Buffer} → IsValid b → Sent bytes b (write raw bytes b)
  write-Sent bytes {b} valid =
      let w = write-Written raw bytes valid in
      record {
        result = w.result;
        ends = w.ends;
        still_valid = w.still_valid;
        appended = w.appended;
        same_rpos = rpos-write raw bytes b (w.ends);
      }

  pub then-Sent :
      {bytes more : Bytes} {b : Buffer} {out : Option Buffer} (k : Buffer → Option Buffer)
      → Sent bytes b out
      → ((c : Buffer) → IsValid c → Sent more c (k c))
      → Sent (bytes ++ more) b (out >>= k)
  then-Sent {bytes} {more} {b} k first next =
      let rest = next first.result (first.still_valid) in
      record {
        result = rest.result;
        ends = rw (first.ends) (rest.ends);
        still_valid = rest.still_valid;
        appended = rest.appended ∙ rw (first.appended) (append_assoc (contents b) bytes more);
        same_rpos = rest.same_rpos ∙ first.same_rpos;
      }

  to_buffer-Sent :
      (r : Request) {b : Buffer}
      → IsValid b
      → HasNoZero r.method × HasNoZero r.address × HasNoZero r.version
      → Sent
          (r.method
            ++ (b' ' ∷ (r.address ++ (b' ' ∷ (r.version ++ (b'\r' ∷ b'\n' ∷ b'\r' ∷ b'\n' ∷ []))))))
          b
          (to_buffer raw r b)
  unfolding to_buffer
  to_buffer-Sent r valid (m, a, v) =
      rw (c_str_lem r.method m, c_str_lem r.address a, c_str_lem r.version v)
        (then-Sent _ (write-Sent r.method valid) (λ _ h.
          then-Sent _ (write-Sent (b' ' ∷ []) h) (λ _ h.
            then-Sent _ (write-Sent r.address h) (λ _ h.
              then-Sent _ (write-Sent (b' ' ∷ []) h) (λ _ h.
                then-Sent _ (write-Sent r.version h)
                  (λ _ h. write-Sent (b'\r' ∷ b'\n' ∷ b'\r' ∷ b'\n' ∷ []) h))))))

  -- A request of words without a zero byte, whose address begins with a slash, that toBuffer
  -- writes into a new buffer is read back by parseRequest, all of it, with its method and version
  -- and its address without the slash, given fuel above the number of its bytes.
  pub parse_request-to_buffer :
      (r : Request) (a : Bytes) (fuel : ℕ)
      → r.address ≡ b'/' ∷ a
      → IsRequest r
      → HasNoZero r.method × HasNoZero r.address × HasNoZero r.version
      → length (request_bytes (record r { address = a }) [] []) < fuel
      → (b : Buffer) × (to_buffer raw r (create raw) ≡ some b)
        × ((parse_request (iterator raw) fuel (begin raw b)).0 ≡ done)
        × ((parse_request (iterator raw) fuel (begin raw b)).1.result ≡ record r { address = a })
        × (contents (ahead (parse_request (iterator raw) fuel (begin raw b)).1.place) ≡ [])
  parse_request-to_buffer r a fuel slash good text f =
      let sent = to_buffer-Sent r (create-IsValid raw) text in
      let b = sent.result in
      let held : contents b ≡ request_bytes (record r { address = a }) [] [] =
        sent.appended ∙ rw (contents-create raw, slash) refl in
      let start = sent.same_rpos ∙ rpos-create in
      let (_, _, address) = subst IsWord slash good.address_word in
      let (o, same, left) =
        parse_request_whole (record r { address = a }) [] [] fuel sent.still_valid
          (λ h. rw start (sent.still_valid.inner 0 (subst (λ p. p.idx < b.wpos.idx) start h)))
          (record {
            method_word = good.method_word;
            address_word = address;
            version_word = good.version_word;
          })
          tt held (subst (λ l. length l < fuel) (sym held) f) in
      (b, sent.ends, o, same, left)

  line_end-outcome :
      (it : Iterator) (res : Bytes)
      → (line_end (iterator raw) it res).outcome
        ≡ (if get_char it == b'\n' then done else error_in_request)
  unfolding line_end
  line_end-outcome it res = elim (Bool-cases (get_char it == b'\n')) [
    | inl e ↦ rw e refl
    | inr e ↦ rw e refl
  ]

  next-buffer : (it : Iterator) → (next raw it).buffer ≡ it.buffer
  unfolding next slow_next
  next-buffer it = ground arith

  at_wpos :
      (end : Iterator)
      → eob end ≡ true
      → (end.pos.idx ≡ end.buffer.wpos.idx) × (end.pos.off ≡ end.buffer.wpos.off)
  unfolding eob
  at_wpos end e = ground arith

  -- What `getChar()` shows where nothing is left: the byte at the write pointer.
  end_char :
      (b : Buffer) (end : Iterator)
      → IsBefore end []
      → end.buffer ≡ b
      → get_char end ≡ chunk_at raw b b.wpos.idx b.wpos.off
  unfolding get_char
  end_char b end r e =
      let at_end = (iterator-IsCursor).ends end r in
      let (idx, off) = at_wpos end at_end in
      rw (r.0.start, idx, off) (ap (λ x. chunk_at raw x x.wpos.idx x.wpos.off) e)

  line_loop_split :
      (w : Bytes) (fuel : ℕ) (it : Iterator) (res : Bytes)
      → IsLine w
      → length w < fuel
      → IsBefore it (w ++ b'\r' ∷ [])
      → (end : Iterator) × (end.buffer ≡ it.buffer)
        × IsBefore end []
        × ((line_loop (iterator raw) fuel it res).outcome
            ≡ (if get_char end == b'\n' then done else error_in_request))
  unfolding line_loop
  line_loop_split w zero it res line h r = absurd (omega arith)
  line_loop_split [] (suc fuel) it res line h r =
      let s : get_char it ≡ b'\r' = iterator-IsCursor.shows it b'\r' [] r in
      (
        next raw it,
        next-buffer it,
        iterator-IsCursor.passes it b'\r' [] r,
        rw (at_bytes it b'\r' [] r, line_loop, s) (line_end-outcome (next raw it) res),
      )
  line_loop_split (x ∷ w) (suc fuel) it res (ne, line) h r =
      let s : get_char it ≡ x = iterator-IsCursor.shows it x _ r in
      let e : (get_char it == b'\r') ≡ false = ground arith in
      let (end, same, before, o) =
        line_loop_split w fuel (next raw it) (res ++ get_char it ∷ []) line (omega arith)
          (iterator-IsCursor.passes it x _ r) in
      (end, same ∙ next-buffer it, before, rw (at_bytes it x _ r, line_loop, e) o)

  -- For a valid buffer whose read pointer is not at the end of a chunk that another one follows,
  -- whose unread bytes are a line and a carriage return, and fuel above the length of the line:
  -- parseLine from begin() on is done where the byte of memory at the write pointer, behind all
  -- that was written, is a line feed, and throws ErrorInRequest otherwise.
  pub parse_line_split :
      (w : Bytes) (fuel : ℕ) {b : Buffer}
      → IsValid b
      → HasFront b
      → IsLine w
      → contents b ≡ w ++ b'\r' ∷ []
      → length w < fuel
      → (parse_line (iterator raw) fuel (begin raw b) []).outcome
        ≡ (if chunk_at raw b b.wpos.idx b.wpos.off == b'\n' then done else error_in_request)
  unfolding parse_line begin
  parse_line_split w fuel {b} valid front line e h =
      let r : IsBefore (begin raw b) (w ++ b'\r' ∷ []) =
        (begin-IsGood raw valid front, contents-begin b ∙ e) in
      let (end, same, before, o) = line_loop_split w fuel (begin raw b) [] line h r in
      rw (not_yet w r)
        (o ∙ ap (λ c. if c == b'\n' then done else error_in_request) (end_char b end before same))
    where
      not_yet : (w : Bytes) → IsBefore (begin raw b) (w ++ b'\r' ∷ []) → eob (begin raw b) ≡ false
      not_yet [] r = at_bytes (begin raw b) b'\r' [] r
      not_yet (x ∷ w) r = at_bytes (begin raw b) x _ r
