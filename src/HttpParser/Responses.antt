-- ===== src/HttpParser/Responses.antt =====
-- `parseResponse` of http_parser.cpp on the bytes of a response, all of them or the first ones.
use multicore_programming_la.Common.{
  ℕ, zero, suc, ◌<◌, ◌≤◌, ◌≡◌, ◌≢◌, refl, sym, ap, subst, ◌∙◌, inl, inr, true, false, List, [], ◌∷◌,
  ◌++◌, append_assoc, append-nil, arith, length, length-append, ◌==◌, ltb, if◌then◌else◌,
  Bool-cases, drop, ltb→lt,
}
use multicore_programming_la.HttpParser.{
  Bytes, Cursor, done, out_of_range, Parse, ◌>>◌, Response, clear_response, parse_line,
  length_string, contains, extract_size, Headers, header_line, response_headers, body_loop,
  read_body, response_block, set_status_line, parse_response,
}
use multicore_programming_la.HttpParser.Spells.{
  IsCursor, IsLine, IsPrefix, cut_tail, parse_line-Takes,
}
use multicore_programming_la.HttpParser.Requests.{
  header_bytes, length_pos, StepEnds, unless_thrown-Ends, read_into-Ends,
}

-- The size that the last line with "Content-Length:" declares.
abbrev pub declared : ℕ → List Bytes → ℕ
declared n [] = n
declared n (l ∷ ls) =
    declared (if contains length_string l then extract_size n (drop 16 l) else n) ls

abbrev pub joined : List Bytes → Bytes
joined [] = []
joined (l ∷ ls) = l ++ joined ls

-- A line with "Content-Length:" has a byte behind it.
abbrev pub IsFields : List Bytes → Type 0
IsFields [] = Unit
IsFields (l ∷ ls) =
    IsLine l × (l ≢ []) × (contains length_string l ≡ true → 16 ≤ length l) × IsFields ls

abbrev pub response_bytes : Response → List Bytes → Bytes → Bytes
response_bytes r ls rest = r.status_line ++ (b'\r' ∷ b'\n' ∷ header_bytes ls (r.body ++ rest))

abbrev with_lines : List Bytes → Headers → Headers
with_lines ls h = record {
  response = record (h.response) { header_remainder = h.response.header_remainder ++ joined ls };
  content_size = declared h.content_size ls;
}

abbrev with_line : Bytes → Headers → Headers
with_line l h = record {
  response = record (h.response) { header_remainder = h.response.header_remainder ++ l };
  content_size = declared h.content_size (l ∷ []);
}

with_lines-with_line :
    (l : Bytes) (ls : List Bytes) (h : Headers)
    → with_lines ls (with_line l h) ≡ with_lines (l ∷ ls) h
with_lines-with_line l ls h = rw (append_assoc h.response.header_remainder l (joined ls)) refl

abbrev with_body : Bytes → Headers → Headers
with_body body h = record h { response = record (h.response) { body = h.response.body ++ body } }

with_body-cons :
    (x : ℕ) (body : Bytes) (h : Headers)
    → with_body body (with_body (x ∷ []) h) ≡ with_body (x ∷ body) h
with_body-cons x body h = rw (append_assoc h.response.body (x ∷ []) body) refl

header_line-done :
    (l : Bytes) (h : Headers)
    → (contains length_string l ≡ true → 16 ≤ length l)
    → header_line l h ≡ (done, with_line l h)
unfolding header_line
header_line-done l h long = elim (Bool-cases (contains length_string l)) [
  | inl e ↦ let f : ltb (length l) 16 ≡ false = ground (arith, long e) in rw (e, f) refl
  | inr e ↦ rw e refl
]

-- A line that ends with "Content-Length:" and has nothing before it throws `std::out_of_range`.
pub header_line_throws : (h : Headers) → (header_line length_string h).0 ≡ out_of_range
unfolding header_line
header_line_throws h = refl

module _ {C : Type 0} {in_ : Cursor C} {Reads : C → Bytes → Type 0} (law : IsCursor in_ Reads)
    (q : Bytes) where
  response_headers-Ends :
      (ls : List Bytes) (fuel lines : ℕ) (s : Parse C Headers) (p rest : Bytes)
      → IsFields ls
      → length (header_bytes ls rest) < fuel
      → length (header_bytes ls rest) < lines
      → Reads s.place p
      → IsPrefix p q (header_bytes ls rest)
      → StepEnds law q rest (with_lines ls s.result) (response_headers in_ fuel lines s)
  unfolding response_headers
  response_headers-Ends ls fuel zero s p rest h f l r cut = absurd (omega arith)
  response_headers-Ends [] fuel (suc lines) s p rest h f l r cut =
      elim (parse_line-Takes law q [] fuel s.place p rest tt (omega arith) r cut) [
        | inl (e, t, p', r', cut') ↦
            rw (e, t, response_headers, append-nil (s.result.response.header_remainder))
              (inl (refl, refl, p', r', cut'))
        | inr (e, ne) ↦ rw (e, response_headers) (inr (refl, ne))
      ]
  response_headers-Ends (w ∷ ls) fuel (suc lines) s p rest (line, some_byte, long, h) f l r cut =
      let more = b'\r' ∷ b'\n' ∷ header_bytes ls rest in
      let size = length-append w more in
      elim (parse_line-Takes law q w fuel s.place p (header_bytes ls rest) line
        (omega (arith, size)) r cut) [
          | inl (e, t, p', r', cut') ↦
              let not_empty : (length w == 0) ≡ false = ground (arith, length_pos w some_byte) in
              let taken = ap (λ l. header_line l s.result) t ∙ header_line-done w s.result long in
              let s' : Parse C Headers = record {
                result = with_line w s.result;
                place = (parse_line in_ fuel s.place []).place;
              } in
              rw
                (
                  e,
                  response_headers,
                  ap (λ l. length l == 0) t ∙ not_empty,
                  taken,
                  ← with_lines-with_line w ls s.result,
                )
                (response_headers-Ends ls fuel lines s' p' rest h (omega (arith, size))
                  (omega (arith, size)) r' cut')
          | inr (e, ne) ↦ rw (e, response_headers) (inr (refl, ne))
        ]

  body_loop-Ends :
      (body : Bytes) (s : Parse C Headers) (p rest : Bytes)
      → length body ≤ length p
      → Reads s.place p
      → IsPrefix p q (body ++ rest)
      → StepEnds law q rest (with_body body s.result) (body_loop in_ (length body) s)
  unfolding body_loop
  body_loop-Ends [] s p rest h r cut =
      rw (append-nil s.result.response.body) (inl (refl, refl, p, r, cut))
  body_loop-Ends (x ∷ body) s [] rest h r cut = absurd (omega arith)
  body_loop-Ends (x ∷ body) s (d ∷ p) rest h r cut =
      let (same, cut') = cut_tail cut in
      let e : in_.char s.place ≡ x = law.shows s.place d p r ∙ same in
      rw (body_loop, e, ← with_body-cons x body s.result)
        (body_loop-Ends body _ p rest (omega arith) (law.passes s.place d p r) cut')

  module _ (counts : (it : C) (l : Bytes) → Reads it l → in_.unread it ≡ length l) where
    read_body-Ends :
        (body : Bytes) (s : Parse C Headers) (p rest : Bytes)
        → s.result.content_size ≡ length body
        → Reads s.place p
        → IsPrefix p q (body ++ rest)
        → StepEnds law q rest (with_body body s.result) (read_body in_ s)
    unfolding read_body
    read_body-Ends body s p rest size r cut =
        elim (Bool-cases (ltb (in_.unread s.place) s.result.content_size)) [
          | inl e ↦ rw (e, read_body) (inr (refl, λ none. too_short none (ltb→lt _ _ e)))
          | inr e ↦
              rw (e, read_body)
                (subst (λ n. StepEnds law q rest (with_body body s.result) (body_loop in_ n s))
                  (sym size)
                  (body_loop-Ends body s p rest (ground (arith, counts s.place p r)) r cut))
        ]
      where
        too_short : q ≡ [] → in_.unread s.place < s.result.content_size → ⊥
        too_short none short = omega (
          arith,
          counts s.place p r,
          length-append p q,
          length-append body rest,
          ap length cut.whole,
          ap length none,
        )

    -- An iterator before the first bytes of a response, with its body, or before some of them.
    pub parse_response-Ends :
        (r : Response) (ls : List Bytes) (fuel : ℕ) (it : C) (p rest : Bytes)
        → IsLine r.status_line
        → IsFields ls
        → r.header_remainder ≡ joined ls
        → length r.body ≡ declared 0 ls
        → length (response_bytes r ls rest) < fuel
        → Reads it p
        → IsPrefix p q (response_bytes r ls rest)
        → StepEnds law q rest r (parse_response in_ fuel it)
    unfolding parse_response response_block
    parse_response-Ends r ls fuel it p rest status fields join size f reads cut =
        let from_headers = header_bytes ls (r.body ++ rest) in
        let long = length-append r.status_line (b'\r' ∷ b'\n' ∷ from_headers) in
        let h : Headers = record { response = clear_response; content_size = 0 } in
        let h' = set_status_line r.status_line h in
        let room : length (r.status_line ++ (b'\r' ∷ b'\n' ∷ from_headers)) < fuel = f in
        elim (unless_thrown-Ends law q (response_headers in_ fuel fuel >> read_body in_) _
          from_headers rest h' (with_body r.body (with_lines ls h'))
          (read_into-Ends law q (λ it. parse_line in_ fuel it []) set_status_line
            (record { result = h; place = it }) r.status_line from_headers h refl
            (parse_line-Takes law q r.status_line fuel it p from_headers status
              (omega (arith, long)) reads cut))
          (λ s p same reads cut.
            unless_thrown-Ends law q (read_body in_) _ (r.body ++ rest) rest (with_lines ls h')
              (with_body r.body (with_lines ls h'))
              (subst
                (λ x.
                  StepEnds law q (r.body ++ rest) (with_lines ls x)
                    (response_headers in_ fuel fuel s))
                same
                (response_headers-Ends ls fuel fuel s p (r.body ++ rest) fields
                  (omega (arith, long)) (omega (arith, long)) reads cut))
              (λ s p same reads cut.
                subst (λ x. StepEnds law q rest (with_body r.body x) (read_body in_ s)) same
                  (read_body-Ends r.body s p rest (ap (λ x. x.content_size) same ∙ sym size) reads
                    cut)))) [
                      | inl (e, good, p, r', cut') ↦
                          inl (e, ap (λ x. x.response) good ∙ whole, p, r', cut')
                      | inr e ↦ inr e
                    ]
      where
        whole :
            (with_body r.body (
              with_lines ls (
                set_status_line r.status_line
                  (record { response = clear_response; content_size = 0 })))).response
            ≡ r
        whole = ap (λ x. record r { header_remainder = x }) (sym join)
