-- ===== src/KvServer/Replies.antt =====
-- What `handleRequest` of kv_connection.cpp sends for a request.
use multicore_programming_la.Common.{
  ℕ, ◌+◌, ◌≡◌, refl, sym, subst, ◌∙◌, inl, inr, true, false, Option, none, some, Bool, List, [],
  ◌∷◌, ◌++◌, append_assoc, append-nil, arith, Bool-cases, Option-cases, if◌then◌else◌,
}
use multicore_programming_la.Buffer.{Chunk, Buffer}
use multicore_programming_la.Buffer.Valid.{IsValid, contents}
use multicore_programming_la.IoManager.{Descriptor}
use multicore_programming_la.HttpParser.{Bytes, Request}
use multicore_programming_la.HttpParser.Responses.{joined, response_bytes}
use multicore_programming_la.HttpParser.Buffered.{c_str_lem, Sent, write-Sent}
use multicore_programming_la.Connection.{WriteResult, start_write}
use multicore_programming_la.Connection.Writing.{start_write-Wrote}
use multicore_programming_la.HttpClient.Messages.{Message, IsMessage}
use multicore_programming_la.KvServer.{
  codes, same, decimal, extract_key, found_reply, not_found_reply, Server, write_all, reply,
  handle_request,
}
use multicore_programming_la.KvServer.Decimal.{length-decimal_digits}
use multicore_programming_la.KvServer.Written.{
  AllText, decimal-HasNoZero, found_reply-AllText, found_reply_lem, not_found_reply_lem,
  value_message, value_message-IsMessage,
}

-- What the service answers, and what it sends behind that response.
abbrev pub answer : ℕ → (ℕ → Option ℕ) → ℕ → Bytes → Message × Bytes
answer key_before lookup reqs_last_sec address =
    if same address (codes "stats")
    then (value_message (decimal reqs_last_sec), [])
    else elim (lookup (extract_key key_before address)) [
      | some value ↦ (value_message (decimal value), [])
      | none ↦ (value_message [], codes "value corresponding to the key not found\r\n")
    ]

module _ (raw : Chunk) where
  write_all-Sent :
      (ss : List Bytes) {b : Buffer}
      → IsValid b
      → AllText ss
      → Sent raw (joined ss) b (write_all raw ss b)
  unfolding write_all
  write_all-Sent [] {b} valid h = record {
    result = b;
    ends = refl;
    still_valid = valid;
    appended = sym (append-nil (contents b));
    same_rpos = refl;
  }
  write_all-Sent (s ∷ ss) {b} valid (text, h) =
      let first = write-Sent raw s valid in
      let rest = write_all-Sent ss first.still_valid h in
      rw (c_str_lem s text, write_all, first.ends)
        (record {
          result = rest.result;
          ends = rest.ends;
          still_valid = rest.still_valid;
          appended = rest.appended ∙ rw first.appended (append_assoc (contents b) s (joined ss));
          same_rpos = rest.same_rpos ∙ first.same_rpos;
        })

  -- Bytes that follow all that the socket took or has still to take.
  pub record Replied (bytes : Bytes) (s : Server) (r : Option (Server × Bool)) : Type 0 where
    pub result : Server
    pub ends : r ≡ some (result, true)
    pub in_order :
        result.connection.sent ++ contents result.connection.out_
        ≡ (s.connection.sent ++ contents s.connection.out_) ++ bytes
    pub still_valid : IsValid result.connection.out_
    pub same_in : result.connection.in_ ≡ s.connection.in_
    pub has_desc : (d : Descriptor) × (result.connection.io_desc ≡ some d)

  reply-Replied :
      (ss : List Bytes) (answers : List WriteResult) (s : Server) {d : Descriptor}
      → IsValid s.connection.out_
      → s.connection.io_desc ≡ some d
      → AllText ss
      → Replied (joined ss) s (reply raw ss answers s)
  unfolding reply start_write
  reply-Replied ss answers s valid desc text =
      let w = write_all-Sent ss valid text in
      let c = record (s.connection) { out_ = w.result } in
      let kept : c.sent ++ contents w.result
          ≡ (s.connection.sent ++ contents s.connection.out_) ++ joined ss =
        rw w.appended (sym (append_assoc c.sent (contents s.connection.out_) (joined ss))) in
      elim (Bool-cases s.connection.writing) [
        | inl busy ↦
            rw (w.ends, reply, busy, start_write)
              (record {
                result = record s { connection = c };
                ends = refl;
                in_order = kept;
                still_valid = w.still_valid;
                same_in = refl;
                has_desc = (_, desc);
              })
        | inr idle ↦
            let run = start_write-Wrote raw answers c w.still_valid desc idle in
            rw (w.ends, reply, run.ends)
              (record {
                result = record s { connection = run.result };
                ends = refl;
                in_order = run.in_order ∙ kept;
                still_valid = run.still_valid;
                same_in = run.same_in;
                has_desc = run.has_desc;
              })
      ]

  some-Replied :
      {bytes bytes' : Bytes} {s : Server} {r : Option (Server × Bool)}
      → bytes ≡ bytes'
      → Replied bytes s r
      → Replied bytes' s r
  some-Replied {s = s} {r = r} e h = subst (λ x. Replied x s r) e h

  -- The bytes of a message that a parser can take, and then others.
  abbrev pub Answered : Message × Bytes → Server → Option (Server × Bool) → Type 0
  Answered v s r = IsMessage v.0 × Replied (response_bytes v.0.0 v.0.1 v.1) s r

  value-Answered :
      (n : ℕ) (answers : List WriteResult) (s : Server) {d : Descriptor}
      → IsValid s.connection.out_
      → s.connection.io_desc ≡ some d
      → Answered (value_message (decimal n), []) s (reply raw (found_reply (decimal n)) answers s)
  value-Answered n answers s valid desc = (
    value_message-IsMessage (decimal n) (omega (arith, length-decimal_digits 20 n)),
    some-Replied (found_reply_lem (decimal n)) (
        reply-Replied (found_reply (decimal n)) answers s valid desc
          (found_reply-AllText (decimal n) (decimal-HasNoZero n))),
  )

  abbrev counted : Server → Server
  counted s = record s { finished = s.finished + 1 }

  counted-Answered :
      (v : Message × Bytes) (s : Server) {r : Option (Server × Bool)}
      → Answered v (counted s) r
      → Answered v s r
  counted-Answered v s (is, h) = (
    is,
    record {
      result = h.result;
      ends = h.ends;
      in_order = h.in_order;
      still_valid = h.still_valid;
      same_in = h.same_in;
      has_desc = h.has_desc;
    },
  )

  -- For a server whose output buffer is valid and whose connection has a descriptor, and a request
  -- whose address is not quit: handleRequest ends and returns true, whatever the socket answers.
  -- Behind the bytes that the socket took before or had still to take there are then exactly those
  -- of a response that is well-formed, its body as long as its Content-Length: the decimal number
  -- of requests for the address stats, that of the value for a key that is found, and an empty
  -- body otherwise, after which the text for a key that is not found follows. The key is what >>
  -- reads from the address, or what the word held before where >> stores nothing.
  pub handle_request-Answered :
      (key_before : ℕ) (lookup : ℕ → Option ℕ) (reqs_last_sec : ℕ) (request : Request)
      (answers : List WriteResult) (s : Server) {d : Descriptor}
      → IsValid s.connection.out_
      → s.connection.io_desc ≡ some d
      → same request.address (codes "quit") ≡ false
      → Answered
          (answer key_before lookup reqs_last_sec request.address)
          s
          (handle_request raw key_before lookup reqs_last_sec request answers s)
  unfolding handle_request
  handle_request-Answered key_before lookup reqs_last_sec request answers s valid desc no_quit =
      elim (Bool-cases (same request.address (codes "stats"))) [
        | inl e ↦
            rw (no_quit, handle_request, e) (value-Answered reqs_last_sec answers s valid desc)
        | inr e ↦ elim (Option-cases (lookup (extract_key key_before request.address))) [
          | inl f ↦
              rw (no_quit, handle_request, e, f)
                (counted-Answered _ s (
                  value_message-IsMessage [] (omega arith),
                  some-Replied not_found_reply_lem
                      (reply-Replied not_found_reply answers (counted s) valid desc (ground arith)),
                ))
          | inr (value, f) ↦
              rw (no_quit, handle_request, e, f)
                (counted-Answered _ s (value-Answered value answers (counted s) valid desc))
        ]
      ]
