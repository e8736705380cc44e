-- ===== src/HttpParser/Received.antt =====
-- `parseResponse` of http_parser.cpp over the iterator of buffer.cpp.
use multicore_programming_la.Common.{
  ℕ, ◌+◌, ◌<◌, ◌^◌, ◌≡◌, ◌≢◌, refl, sym, subst, ◌∙◌, inl, inr, List, [], append-nil, arith, length,
}
use multicore_programming_la.Buffer.{Chunk, Buffer, add_size}
use multicore_programming_la.Buffer.Valid.{HasFront, IsValid, contents, sub_size_lem, add_size_lem}
use multicore_programming_la.Buffer.Count.{byte_count-contents}
use multicore_programming_la.Buffer.Iterator.{Iterator, begin, next, slow_next}
use multicore_programming_la.Buffer.Iterator.Walk.{IsGood, begin-IsGood, eob-false}
use multicore_programming_la.HttpParser.{
  Bytes, done, incomplete_input, Request, Response, iterator, parse_request, parse_response,
}
use multicore_programming_la.HttpParser.Spells.{IsCursor, IsLine, IsPrefix, nothing_left}
use multicore_programming_la.HttpParser.Buffered.{IsBefore, iterator-IsCursor}
use multicore_programming_la.HttpParser.Requests.{
  IsHeader, IsRequest, request_bytes, parse_request-Ends,
}
use multicore_programming_la.HttpParser.Responses.{
  joined, declared, IsFields, response_bytes, parse_response-Ends,
}

module _ (raw : Chunk) where
  -- The iterator counts what it has passed of the bytes that there were.
  pub record IsCounted (total : ℕ) (it : Iterator) (l : Bytes) : Type 0 where
    pub before : IsBefore raw it l
    pub all : it.bytes_total ≡ total
    pub sum : total ≡ it.bytes_read + length l
    pub small : total < 2 ^ 64

  next-counts :
      (it : Iterator)
      → IsGood raw it
      → 0 < it.budget
      → ((next raw it).bytes_total ≡ it.bytes_total)
        × ((next raw it).bytes_read ≡ add_size it.bytes_read 1)
  unfolding next slow_next
  next-counts it good h = ground (arith, good.left)

  IsCounted-IsCursor : (total : ℕ) → IsCursor (iterator raw) (IsCounted total)
  IsCounted-IsCursor total = record {
    ends = λ it r. (iterator-IsCursor raw).ends it r.before;
    not_ended = λ it c l r. (iterator-IsCursor raw).not_ended it c l r.before;
    shows = λ it c l r. (iterator-IsCursor raw).shows it c l r.before;
    passes = λ it c l r.
        let budget = eob-false raw r.before.0 ((iterator-IsCursor raw).not_ended it c l r.before) in
        let (same, read) = next-counts it r.before.0 budget in
        record {
          before = (iterator-IsCursor raw).passes it c l r.before;
          all = same ∙ r.all;
          sum = omega (arith, read, r.sum, r.small, add_size_lem it.bytes_read 1);
          small = r.small;
        };
  }

  unread-IsCounted :
      (total : ℕ) (it : Iterator) (l : Bytes)
      → IsCounted total it l
      → (iterator raw).unread it ≡ length l
  unread-IsCounted total it l r =
      sub_size_lem it.bytes_total it.bytes_read (omega (arith, r.all, r.sum))
        (omega (arith, r.all, r.small))
      ∙ omega (arith, r.all, r.sum)

  begin-IsCounted :
      {b : Buffer}
      → IsValid b
      → HasFront b
      → b.rpos.idx ≡ 0
      → length (contents b) < 2 ^ 64
      → IsCounted (length (contents b)) (begin raw b) (contents b)
  unfolding begin
  begin-IsCounted valid front first h = record {
    before = (begin-IsGood raw valid front, refl);
    all = byte_count-contents valid first h;
    sum = omega arith;
    small = h;
  }

  pub parse_request-IsCounted :
      (r : Request) (ls : List Bytes) (rest : Bytes) (fuel : ℕ) {b : Buffer}
      → IsValid b
      → HasFront b
      → b.rpos.idx ≡ 0
      → length (contents b) < 2 ^ 64
      → IsRequest r
      → IsHeader ls
      → contents b ≡ request_bytes r ls rest
      → length (contents b) < fuel
      → let v = parse_request (iterator raw) fuel (begin raw b) in
        (v.0 ≡ done) × (v.1.result ≡ r) × IsCounted (length (contents b)) v.1.place rest
  parse_request-IsCounted r ls rest fuel {b} valid front first small good headers e f =
      let total = length (contents b) in
      elim (parse_request-Ends (IsCounted-IsCursor total) [] r ls fuel (begin raw b) (contents b)
        rest good headers (subst (λ l. length l < fuel) e f)
        (begin-IsCounted valid front first small)
        (record { whole = append-nil _ ∙ e; apart = λ a b e. cc })) [
          | inl (o, same, p, at, cut) ↦
              (o, same, subst (IsCounted total _) (sym (append-nil p) ∙ cut.whole) at)
          | inr (_, ne) ↦ absurd (ne refl)
        ]

  module _ (r : Response) (ls : List Bytes) (fuel : ℕ) {b : Buffer} (valid : IsValid b)
      (front : HasFront b) (first : b.rpos.idx ≡ 0) (small : length (contents b) < 2 ^ 64)
      (status : IsLine r.status_line) (fields : IsFields ls) (join : r.header_remainder ≡ joined ls)
      (size : length r.body ≡ declared 0 ls) where
    -- The whole response has arrived.
    pub parse_response-IsCounted :
        (rest : Bytes)
        → contents b ≡ response_bytes r ls rest
        → length (contents b) < fuel
        → let v = parse_response (iterator raw) fuel (begin raw b) in
          (v.0 ≡ done) × (v.1.result ≡ r) × IsCounted (length (contents b)) v.1.place rest
    parse_response-IsCounted rest e f =
        let total = length (contents b) in
        elim (parse_response-Ends (IsCounted-IsCursor total) [] (unread-IsCounted total) r ls fuel
          (begin raw b) (contents b) rest status fields join size (subst (λ l. length l < fuel) e f)
          (begin-IsCounted valid front first small)
          (record { whole = append-nil _ ∙ e; apart = λ a b e. cc })) [
            | inl (o, same, p, at, cut) ↦
                (o, same, subst (IsCounted total _) (sym (append-nil p) ∙ cut.whole) at)
            | inr (_, ne) ↦ absurd (ne refl)
          ]

    -- What has arrived is a part of the response.
    pub parse_response_cut :
        (q : Bytes)
        → IsPrefix (contents b) q (response_bytes r ls [])
        → q ≢ []
        → length (response_bytes r ls []) < fuel
        → (parse_response (iterator raw) fuel (begin raw b)).0 ≡ incomplete_input
    parse_response_cut q cut more f =
        let total = length (contents b) in
        elim (parse_response-Ends (IsCounted-IsCursor total) q (unread-IsCounted total) r ls fuel
          (begin raw b) (contents b) [] status fields join size f
          (begin-IsCounted valid front first small) cut) [
            | inl (_, _, p, _, cut') ↦ absurd (more (nothing_left p q (cut'.whole)))
            | inr (o, _) ↦ o
          ]
