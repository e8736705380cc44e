-- ===== src/HttpClient/Receive.antt =====
-- `readDone` of the client side in http_connection.cpp, for responses that arrive together.
use multicore_programming_la.Common.{
  ℕ, zero, suc, ◌<◌, ◌≡◌, ◌≢◌, refl, sym, ap, subst, ◌∙◌, true, some, inl, inr, List, [], ◌∷◌, ◌++◌,
  append_assoc, append-nil, arith, length, drop, Bool-cases, Option, Bool,
}
use multicore_programming_la.Buffer.{Chunk, Buffer}
use multicore_programming_la.Buffer.Valid.{contents}
use multicore_programming_la.Buffer.Iterator.{begin, eob}
use multicore_programming_la.Buffer.Iterator.Walk.{eob_behind-true}
use multicore_programming_la.HttpParser.{Bytes, iterator, parse_response}
use multicore_programming_la.HttpParser.Spells.{IsPrefix}
use multicore_programming_la.HttpParser.Responses.{response_bytes}
use multicore_programming_la.HttpParser.Input.{IsInput, consume-Taken}
use multicore_programming_la.HttpParser.Received.{parse_response-IsCounted, parse_response_cut}
use multicore_programming_la.HttpClient.{
  Client, with_in, issue, handle_response, response_rounds, read_done,
}
use multicore_programming_la.HttpClient.Messages.{
  AreMessages, IsMessage, Message, answered, answered-cons, answered-nil, drop-suc,
  length-message_bytes, message_bytes, no_messages, response_bytes-append,
}

-- What a response does to the client.
issue-called :
    (cbs : List ℕ) (m : Message) (c : Client)
    → (issue cbs m.0 c).called ≡ c.called ++ answered cbs (m ∷ [])
unfolding issue
issue-called [] m c = sym (append-nil c.called)
issue-called (cb ∷ cbs) m c = rw answered-nil refl

issue-queue :
    (cbs : List ℕ) (m : Message) (c : Client)
    → c.response_cbs ≡ cbs
    → (issue cbs m.0 c).response_cbs ≡ drop 1 cbs
unfolding issue
issue-queue [] m c e = e
issue-queue (cb ∷ cbs) m c e = refl

issue-connection :
    (cbs : List ℕ) (m : Message) (c : Client) → (issue cbs m.0 c).connection ≡ c.connection
unfolding issue
issue-connection [] m c = refl
issue-connection (cb ∷ cbs) m c = refl

-- The messages have been taken, and the bytes behind them are left.
pub record Delivered (ms : List Message) (p : Bytes) (c : Client) (r : Option (Client × Bool))
    : Type 0 where
  pub result : Client
  pub ends : r ≡ some (result, true)
  pub left : contents result.connection.in_ ≡ p
  pub issued : result.called ≡ c.called ++ answered c.response_cbs ms
  pub waiting : result.response_cbs ≡ drop (length ms) c.response_cbs

-- A message that is issued, and then the others.
issue-Delivered :
    (m : Message) (c : Client) (b : Buffer) {ms : List Message} {p : Bytes}
    {r : Option (Client × Bool)}
    → Delivered ms p (issue c.response_cbs m.0 (with_in b c)) r
    → Delivered (m ∷ ms) p c r
issue-Delivered m c b {ms} d =
    let queue = issue-queue c.response_cbs m (with_in b c) refl in
    record {
      result = d.result;
      ends = d.ends;
      left = d.left;
      issued =
          d.issued
          ∙ rw
              (
                queue,
                issue-called c.response_cbs m (with_in b c),
                append_assoc c.called (answered c.response_cbs (m ∷ []))
                    (answered (drop 1 c.response_cbs) ms),
              )
              (ap (λ l. c.called ++ l) (sym (answered-cons c.response_cbs m ms)));
      waiting = d.waiting ∙ rw queue (drop-suc (length ms) c.response_cbs);
    }

none-Delivered :
    {ms : List Message} {p : Bytes} (c : Client)
    → ms ≡ []
    → contents c.connection.in_ ≡ p
    → Delivered ms p c (some (c, true))
none-Delivered {ms} {p} c none e =
    subst (λ l. Delivered l p c (some (c, true))) (sym none)
      (record {
        result = c;
        ends = refl;
        left = e;
        issued = rw answered-nil (sym (append-nil c.called));
        waiting = refl;
      })

module _ (raw : Chunk) (fuel : ℕ) where
  module _ (last : Message) (p q : Bytes) (good : IsMessage last)
      (cut : IsPrefix p q (response_bytes last.0 last.1 [])) (more : q ≢ [])
      (room : length (response_bytes last.0 last.1 []) < fuel) where
    rounds-Delivered :
        (rounds : ℕ) (ms : List Message) (c : Client)
        → AreMessages ms
        → IsInput c.connection.in_
        → contents c.connection.in_ ≡ message_bytes ms p
        → length (contents c.connection.in_) < fuel
        → length ms < rounds
        → Delivered ms p c (response_rounds raw fuel rounds c)
    unfolding response_rounds handle_response
    rounds-Delivered zero ms c are input e f h = absurd (omega arith)
    rounds-Delivered (suc rounds) [] c are input e f h =
        let o =
          parse_response_cut raw last.0 last.1 fuel input.valid input.front input.first input.small
            good.status good.fields good.join good.size q
            (subst (λ x. IsPrefix x q (response_bytes last.0 last.1 [])) (sym e) cut) more room in
        rw (o, response_rounds) (none-Delivered c refl e)
    rounds-Delivered (suc rounds) (m ∷ ms) c (is, are) input e f h =
        let rest = message_bytes ms p in
        let v = parse_response (iterator raw) fuel (begin raw c.connection.in_) in
        let (o, same, at) =
          parse_response-IsCounted raw m.0 m.1 fuel input.valid input.front input.first input.small
            is.status is.fields is.join is.size rest e f in
        let t =
          consume-Taken (response_bytes m.0 m.1 []) rest c.connection.in_ v.1.place.bytes_read input
            (e ∙ response_bytes-append m.0 m.1 rest) at.sum in
        let c' = issue c.response_cbs m.0 (with_in t.after c) in
        let there : c'.connection.in_ ≡ t.after =
          ap (λ x. x.in_) (issue-connection c.response_cbs m (with_in t.after c)) in
        elim (Bool-cases (eob (record (v.1.place) { buffer = t.after }))) [
          | inl end ↦
              let (none, _) =
                no_messages ms p (sym at.before.1 ∙ eob_behind-true raw at.before.0 t.after end) in
              rw (o, response_rounds, t.ends, end, handle_response, issue, same)
                (issue-Delivered m c t.after (
                  none-Delivered c' none
                    (ap contents there ∙ t.left ∙ ap (λ l. message_bytes l p) none)))
          | inr end ↦
              rw (o, response_rounds, t.ends, end, handle_response, issue, same)
                (issue-Delivered m c t.after (
                  rounds-Delivered rounds ms c' are (subst IsInput (sym there) t.input)
                    (ap contents there ∙ t.left)
                    (omega (arith, at.sum, ap (λ b. length (contents b)) there, ap length t.left))
                    (omega arith)))
        ]

    -- For a client whose input buffer is valid, read in its first chunk, with the read pointer not
    -- at the end of a chunk that another one follows, and holds fewer than 2^64 unread bytes,
    -- which are whole responses, any number of them, with bodies of the sizes that >> reads from
    -- their Content-Length: lines, and then the first bytes of another response, but not all of it
    -- and not cut off inside of a \r\n, and fuel above their number and the length of that
    -- response: readDone returns true, has issued for each response in turn the callback that
    -- waited longest, as long as one waited, with that response, leaves the other callbacks
    -- waiting in order, and leaves unread exactly the bytes of the response that is not complete.
    pub responses_in_order :
        (ms : List Message) (c : Client)
        → AreMessages ms
        → IsInput c.connection.in_
        → contents c.connection.in_ ≡ message_bytes ms p
        → length (contents c.connection.in_) < fuel
        → Delivered ms p c (read_done raw fuel c)
    unfolding read_done
    responses_in_order ms c are input e f =
        rounds-Delivered fuel ms c are input e f
          (omega (arith, ap length e, length-message_bytes ms p))
