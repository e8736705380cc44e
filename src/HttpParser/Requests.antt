-- ===== src/HttpParser/Requests.antt =====
-- `parseRequest` of http_parser.cpp on the bytes of a request, all of them or the first ones.
use multicore_programming_la.Common.{
  ℕ, zero, suc, ◌<◌, ◌≡◌, ◌≢◌, refl, inl, inr, false, List, [], ◌∷◌, ◌++◌, arith, length,
  length-append, ◌==◌,
}
use multicore_programming_la.HttpParser.{
  Bytes, Cursor, Outcome, Scan, Parse, Step, unless_thrown, ◌>>◌, read_into, moving, Request,
  clear_request, set_method, set_address, set_version, parse_string, skip_char, skip_new_line,
  header_loop, request_block, parse_request,
}
use multicore_programming_la.HttpParser.Spells.{
  IsCursor, IsWord, IsLine, IsStop, IsPrefix, Ends, Takes, parse_string-Takes, parse_line-Takes,
  skip_char-Ends, skip_new_line-Ends,
}

-- Header lines, the empty one last.
abbrev pub header_bytes : List Bytes → Bytes → Bytes
header_bytes [] rest = b'\r' ∷ b'\n' ∷ rest
header_bytes (l ∷ ls) rest = l ++ b'\r' ∷ b'\n' ∷ header_bytes ls rest

abbrev pub IsHeader : List Bytes → Type 0
IsHeader [] = Unit
IsHeader (l ∷ ls) = IsLine l × (l ≢ []) × IsHeader ls

-- A request, with the bytes behind it.
abbrev pub request_bytes : Request → List Bytes → Bytes → Bytes
request_bytes r ls rest =
    r.method
    ++ (b' ' ∷ b'/' ∷ (r.address ++ (b' ' ∷ (r.version ++ (b'\r' ∷ b'\n' ∷ header_bytes ls rest)))))

pub record IsRequest (r : Request) : Type 0 where
  pub method_word : IsWord r.method
  pub address_word : IsWord r.address
  pub version_word : IsWord r.version

pub length_pos : (bytes : Bytes) → bytes ≢ [] → 0 < length bytes
length_pos [] ne = absurd (ne refl)
length_pos (x ∷ xs) ne = omega arith

module _ {C : Type 0} {in_ : Cursor C} {Reads : C → Bytes → Type 0} (law : IsCursor in_ Reads)
    (q : Bytes) where
  abbrev pub StepEnds : {R : Type 0} → Bytes → R → Outcome × Parse C R → Type 0
  StepEnds rest res v = Ends law q rest (v.1.result ≡ res) v.0 v.1.place

  pub unless_thrown-Ends :
      {R : Type 0} (k : Step C R) (v : Outcome × Parse C R) (mid rest : Bytes) (res res' : R)
      → StepEnds mid res v
      → ((t : Parse C R) (p : Bytes)
          → t.result ≡ res
          → Reads t.place p
          → IsPrefix p q mid
          → StepEnds rest res' (k t))
      → StepEnds rest res' (unless_thrown k v)
  unless_thrown-Ends k (o, t) mid rest res res' (inl (e, good, p, r, cut)) next =
      rw e (next t p good r cut)
  unless_thrown-Ends k (o, t) mid rest res res' (inr (e, ne)) next = rw e (inr (refl, ne))

  pub read_into-Ends :
      {R : Type 0} (parse : C → Scan C) (put : Bytes → R → R) (s : Parse C R) (w rest : Bytes)
      (res : R)
      → s.result ≡ res
      → Takes law q w rest (parse s.place)
      → StepEnds rest (put w res) (read_into in_ parse put s)
  read_into-Ends parse put s w rest res same (inl (e, t, p, r, cut)) =
      inl (e, rw (t, same) refl, p, r, cut)
  read_into-Ends parse put s w rest res same (inr (e, ne)) = inr (e, ne)

  moving-Ends :
      {R : Type 0} (move : C → Outcome × C) (s : Parse C R) (rest : Bytes) (res : R)
      → s.result ≡ res
      → Ends law q rest Unit (move s.place).0 (move s.place).1
      → StepEnds rest res (moving in_ move s)
  moving-Ends move s rest res same (inl (e, _, p, r, cut)) = inl (e, same, p, r, cut)
  moving-Ends move s rest res same (inr (e, ne)) = inr (e, ne)

  -- A word into a field, and one of the marks behind it, before the rest of the block.
  word-Ends :
      {R : Type 0} (put : Bytes → R → R) (k : Step C R) (fuel : ℕ) (s : Parse C R)
      (w rest end p : Bytes) (c : ℕ) (res res' : R)
      → IsWord w
      → IsStop c
      → length w < fuel
      → s.result ≡ res
      → Reads s.place p
      → IsPrefix p q (w ++ c ∷ rest)
      → ((t : Parse C R) (p : Bytes)
          → t.result ≡ put w res
          → Reads t.place p
          → IsPrefix p q (c ∷ rest)
          → StepEnds end res' (k t))
      → StepEnds end res' ((read_into in_ (λ it. parse_string in_ fuel it []) put >> k) s)
  word-Ends put k fuel s w rest end p c res res' word stop h same r cut next =
      unless_thrown-Ends k _ (c ∷ rest) end (put w res) res'
        (read_into-Ends (λ it. parse_string in_ fuel it []) put s w (c ∷ rest) res same
          (parse_string-Takes law q w fuel s.place p rest c word stop h r cut))
        next

  mark-Ends :
      {R : Type 0} (c : ℕ) (k : Step C R) (s : Parse C R) (rest end p : Bytes) (res res' : R)
      → s.result ≡ res
      → Reads s.place p
      → IsPrefix p q (c ∷ rest)
      → ((t : Parse C R) (p : Bytes)
          → t.result ≡ res
          → Reads t.place p
          → IsPrefix p q rest
          → StepEnds end res' (k t))
      → StepEnds end res' ((moving in_ (skip_char in_ c) >> k) s)
  mark-Ends c k s rest end p res res' same r cut next =
      unless_thrown-Ends k _ rest end res res'
        (moving-Ends (skip_char in_ c) s rest res same
          (skip_char-Ends law q c s.place p rest r cut))
        next

  header_loop-Ends :
      (ls : List Bytes) (fuel lines : ℕ) (it : C) (p rest : Bytes)
      → IsHeader ls
      → length (header_bytes ls rest) < fuel
      → length (header_bytes ls rest) < lines
      → Reads it p
      → IsPrefix p q (header_bytes ls rest)
      → Ends law q rest Unit (header_loop in_ fuel lines it).0 (header_loop in_ fuel lines it).1
  unfolding header_loop
  header_loop-Ends ls fuel zero it p rest h f l r cut = absurd (omega arith)
  header_loop-Ends [] fuel (suc lines) it p rest h f l r cut =
      elim (parse_line-Takes law q [] fuel it p rest tt (omega arith) r cut) [
        | inl (e, t, p', r', cut') ↦ rw (e, t, header_loop) (inl (refl, tt, p', r', cut'))
        | inr (e, ne) ↦ rw (e, header_loop) (inr (refl, ne))
      ]
  header_loop-Ends (w ∷ ls) fuel (suc lines) it p rest (line, some_byte, h) f l r cut =
      let more = b'\r' ∷ b'\n' ∷ header_bytes ls rest in
      let size = length-append w more in
      elim (parse_line-Takes law q w fuel it p (header_bytes ls rest) line (omega (arith, size)) r
        cut) [
          | inl (e, t, p', r', cut') ↦
              let long : (length w == 0) ≡ false = ground (arith, length_pos w some_byte) in
              rw (e, t, long, header_loop)
                (header_loop-Ends ls fuel lines _ p' rest h (omega (arith, size))
                  (omega (arith, size)) r' cut')
          | inr (e, ne) ↦ rw (e, header_loop) (inr (refl, ne))
        ]

  pub parse_request-Ends :
      (r : Request) (ls : List Bytes) (fuel : ℕ) (it : C) (p rest : Bytes)
      → IsRequest r
      → IsHeader ls
      → length (request_bytes r ls rest) < fuel
      → Reads it p
      → IsPrefix p q (request_bytes r ls rest)
      → StepEnds rest r (parse_request in_ fuel it)
  unfolding parse_request request_block
  parse_request-Ends r ls fuel it p rest good h f reads cut =
      let after_version = b'\r' ∷ b'\n' ∷ header_bytes ls rest in
      let from_version = r.version ++ after_version in
      let from_address = r.address ++ b' ' ∷ from_version in
      let size = length-append r.method (b' ' ∷ b'/' ∷ from_address) in
      let size' = length-append r.address (b' ' ∷ from_version) in
      let size'' = length-append r.version after_version in
      let room : length (r.method ++ b' ' ∷ b'/' ∷ from_address) < fuel = f in
      let m = record clear_request { method = r.method } in
      let a = record m { address = r.address } in
      word-Ends set_method _ fuel _ r.method (b'/' ∷ from_address) rest p b' ' clear_request r
        good.method_word (inl refl) (omega (arith, size)) refl reads cut
        (λ s p same reads cut.
          mark-Ends b' ' _ s (b'/' ∷ from_address) rest p m r same reads cut (λ s p same reads cut.
            mark-Ends b'/' _ s from_address rest p m r same reads cut (λ s p same reads cut.
              word-Ends set_address _ fuel s r.address from_version rest p b' ' m r
                good.address_word (inl refl) (omega (arith, size, size')) same reads cut
                (λ s p same reads cut.
                  mark-Ends b' ' _ s from_version rest p a r same reads cut (λ s p same reads cut.
                    word-Ends set_version _ fuel s r.version (b'\n' ∷ header_bytes ls rest) rest p
                      b'\r' a r good.version_word (inr refl) (omega (arith, size, size', size''))
                      same reads cut
                      (λ s p same reads cut.
                        unless_thrown-Ends _ _ (header_bytes ls rest) rest r r
                          (moving-Ends (skip_new_line in_) s _ r same
                            (skip_new_line-Ends law q s.place p _ reads cut))
                          (λ s p same reads cut.
                            moving-Ends (header_loop in_ fuel fuel) s rest r same (
                              header_loop-Ends ls fuel fuel s.place p rest h
                                (omega (arith, size, size', size''))
                                (omega (arith, size, size', size'')) reads cut))))))))
