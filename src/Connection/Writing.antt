-- ===== src/Connection/Writing.antt =====
-- `doWrite` and `startWrite` of connection.cpp: what becomes of the bytes of `out_`.
use mathlib.Core.Option
use mathlib.Core.Option.{some-injective}
use multicore_programming_la.Common.{
  ℕ, zero, suc, ◌+◌, ◌≤◌, ◌<◌, ◌≡◌, refl, sym, ap, ◌∙◌, inl, inr, true, false, Option, some, List,
  [], ◌∷◌, ◌++◌, append_assoc, append-nil, length-drop, arith, ◌==◌, length, take, drop, drop-drop,
  min, Bool-cases, get_or,
}
use multicore_programming_la.Buffer.{Chunk, Buffer, read_size, chunk_at, segment, consume}
use multicore_programming_la.Buffer.Bytes.{data_of}
use multicore_programming_la.Buffer.Valid.{IsValid, HasFront, contents, read_size_lem}
use multicore_programming_la.Buffer.Consume.{Consumed, consume-Consumed}
use multicore_programming_la.Buffer.Consume.Front.{consume-HasFront, contents_of_nothing}
use multicore_programming_la.Buffer.Count.{length-contents}
use multicore_programming_la.Buffer.Iterator.Walk.{data_of-cons}
use multicore_programming_la.IoManager.{Descriptor}
use multicore_programming_la.Connection.{
  WriteResult, written, write_again, write_interrupted, write_failed, Connection, acquire, release,
  wait_write, chunk_data, all_written, write_rounds, do_write, start_write,
}

module _ (raw : Chunk) where
  segment-prefix :
      {b : Buffer}
      → IsValid b
      → (n m off : ℕ) → n ≤ m
      → off + m ≤ get_or b.sizes b.rpos.idx 0
      → let bytes = data_of (drop b.rpos.idx b.chunks) (drop b.rpos.idx b.sizes) in
        take n (segment (chunk_at raw b b.rpos.idx) off m) ++ drop (off + n) bytes ≡ drop off bytes
  unfolding segment
  segment-prefix {b} valid zero m off h k = let e : off + 0 ≡ off = omega arith in rw e refl
  segment-prefix valid (suc n) zero off h k = absurd (omega arith)
  segment-prefix {b} valid (suc n) (suc m) off h k =
      let e : off + suc n ≡ suc off + n = omega arith in
      rw
        (
          e,
          data_of-cons raw b.chunks b.sizes b.rpos.idx off valid.same
              (omega (arith, valid.write_last, valid.read_before)) (omega arith),
          segment-prefix valid n m (suc off) (omega arith) (omega arith),
        )
        refl

  -- The bytes that a write takes are the first ones.
  taken_first :
      {b : Buffer} (n : ℕ)
      → IsValid b
      → n ≤ read_size b
      → take n (chunk_data raw b) ++ drop n (contents b) ≡ contents b
  taken_first {b} n valid h =
      rw (drop-drop n b.rpos.off (data_of (drop b.rpos.idx b.chunks) (drop b.rpos.idx b.sizes))) (
        segment-prefix valid n (read_size b) b.rpos.off h
          (omega (arith, read_size_lem valid, valid.read_off)))

  -- What a run of `doWrite` leaves: the bytes are with the socket or still in the buffer, in order.
  pub record Wrote (c : Connection) (r : Option Connection) : Type 0 where
    pub result : Connection
    pub ends : r ≡ some result
    pub in_order : result.sent ++ contents result.out_ ≡ c.sent ++ contents c.out_
    pub still_valid : IsValid result.out_
    pub same_in : result.in_ ≡ c.in_
    pub has_desc : (d : Descriptor) × (result.io_desc ≡ some d)
    pub front : HasFront c.out_ → HasFront result.out_
    pub all_sent : HasFront c.out_ → result.writing ≡ false → contents result.out_ ≡ []

  wait_write-Wrote :
      (c : Connection) {d : Descriptor}
      → IsValid c.out_
      → c.io_desc ≡ some d
      → c.writing ≡ true
      → Wrote c (wait_write c)
  unfolding wait_write acquire
  wait_write-Wrote c valid desc w =
      rw (desc, wait_write)
        (record {
          result = _;
          ends = refl;
          in_order = refl;
          still_valid = valid;
          same_in = refl;
          has_desc = (_, refl);
          front = λ h. h;
          all_sent = λ h e. cc;
        })

  -- The connection behind a write of `n` bytes.
  abbrev took : ℕ → Buffer → Connection → Connection
  took n out c = record c { out_ = out; sent = c.sent ++ take n (chunk_data raw c.out_) }

  took_in_order :
      (c : Connection) (out : Buffer) (n : ℕ)
      → IsValid c.out_
      → n ≤ read_size c.out_
      → contents out ≡ drop n (contents c.out_)
      → (took n out c).sent ++ contents out ≡ c.sent ++ contents c.out_
  took_in_order c out n valid h e = rw e (
      append_assoc c.sent (take n (chunk_data raw c.out_)) (drop n (contents c.out_))
      ∙ ap (λ l. c.sent ++ l) (taken_first n valid h))

  write_rounds-Wrote :
      (rs : List WriteResult) (c : Connection) {d : Descriptor}
      → IsValid c.out_
      → c.io_desc ≡ some d
      → c.writing ≡ true
      → Wrote c (write_rounds raw rs c)
  unfolding write_rounds
  write_rounds-Wrote [] c valid desc w = wait_write-Wrote c valid desc w
  write_rounds-Wrote (write_again ∷ rs) c valid desc w = wait_write-Wrote c valid desc w
  write_rounds-Wrote (write_interrupted ∷ rs) c valid desc w = write_rounds-Wrote rs c valid desc w
  write_rounds-Wrote (write_failed ∷ rs) c valid desc w = record {
    result = c;
    ends = refl;
    in_order = refl;
    still_valid = valid;
    same_in = refl;
    has_desc = (_, desc);
    front = λ h. h;
    all_sent = λ h e. cc;
  }
  write_rounds-Wrote (written k ∷ rs) c {d} valid desc w = elim (Bool-cases (n == 0)) [
    | inl z ↦
        rw (z, write_rounds)
          (record {
            result = c;
            ends = refl;
            in_order = refl;
            still_valid = valid;
            same_in = refl;
            has_desc = (_, desc);
            front = λ h. h;
            all_sent = λ h e. cc;
          })
    | inr some_bytes ↦ elim (Bool-cases (all_written (read_size c.out_) n used.result)) [
      | inl e ↦
          rw (some_bytes, write_rounds, used.ends, e)
            (record {
              result = record (took n used.result c) { writing = false };
              ends = refl;
              in_order = kept;
              still_valid = used.still_valid;
              same_in = refl;
              has_desc = (_, desc);
              front = front';
              all_sent = λ h _. contents_of_nothing used.still_valid (front' h) (ground arith);
            })
      | inr e ↦
          let rest = write_rounds-Wrote rs (took n used.result c) used.still_valid desc w in
          rw (some_bytes, write_rounds, used.ends, e)
            (record {
              result = rest.result;
              ends = rest.ends;
              in_order = rest.in_order ∙ kept;
              still_valid = rest.still_valid;
              same_in = rest.same_in;
              has_desc = rest.has_desc;
              front = λ h. rest.front (front' h);
              all_sent = λ h. rest.all_sent (front' h);
            })
    ]
  ]
    where
      n : ℕ
      n = min k (read_size c.out_)

      used : Consumed n c.out_ (consume n c.out_)
      used = consume-Consumed n valid

      front' : HasFront c.out_ → HasFront used.result
      front' h = consume-HasFront n valid h used.ends

      kept : (took n used.result c).sent ++ contents used.result ≡ c.sent ++ contents c.out_
      kept = took_in_order c used.result n valid (omega arith) used.left

  release_keeps :
      (c : Connection)
      → ((release c).out_ ≡ c.out_)
        × ((release c).sent ≡ c.sent)
        × ((release c).writing ≡ c.writing)
        × ((release c).io_desc ≡ c.io_desc)
        × ((release c).in_ ≡ c.in_)
  unfolding release
  release_keeps c = ground arith

  release-Wrote :
      {c : Connection} {r : Option Connection} → Wrote c r → Wrote c (Option.map release r)
  release-Wrote {c} w =
      let (out, sent, writing, desc, same) = release_keeps w.result in
      record {
        result = release w.result;
        ends = ap (Option.map release) w.ends;
        in_order = rw (out, sent) w.in_order;
        still_valid = rw out w.still_valid;
        same_in = same ∙ w.same_in;
        has_desc = (w.has_desc.0, desc ∙ w.has_desc.1);
        front = λ h. rw out (w.front h);
        all_sent = λ h e. rw out (w.all_sent h (sym writing ∙ e));
      }

  -- For a connection that is not writing and has a descriptor, whose output buffer is valid:
  -- startWrite ends, whatever the socket answers; what the socket took and what is left in the
  -- buffer are, in order, what they were before, and the buffer is valid. Where its read pointer
  -- was not at the end of a chunk that another one follows, it is not afterwards either, and the
  -- buffer is empty if writing_ is not set.
  pub start_write-Wrote :
      (rs : List WriteResult) (c : Connection) {d : Descriptor}
      → IsValid c.out_
      → c.io_desc ≡ some d
      → c.writing ≡ false
      → Wrote c (start_write raw rs c)
  unfolding start_write do_write acquire
  start_write-Wrote rs c valid desc w =
      let started = acquire (record c { writing = true }) in
      let r = release-Wrote (write_rounds-Wrote rs started valid desc refl) in
      rw w (record {
        result = r.result;
        ends = r.ends;
        in_order = r.in_order;
        still_valid = r.still_valid;
        same_in = r.same_in;
        has_desc = r.has_desc;
        front = r.front;
        all_sent = r.all_sent;
      })

  -- Every write takes at least a byte.
  abbrev pub takes : List ℕ → List WriteResult
  takes [] = []
  takes (k ∷ ks) = written (k + 1) ∷ takes ks

  write_rounds_end :
      (ks : List ℕ) (c : Connection) {c' : Connection}
      → IsValid c.out_
      → HasFront c.out_
      → 0 < length (contents c.out_)
      → length (contents c.out_) ≤ length ks
      → write_rounds raw (takes ks) c ≡ some c'
      → c'.writing ≡ false
  unfolding write_rounds
  write_rounds_end [] c valid front some_bytes enough e = absurd (omega arith)
  write_rounds_end (k ∷ ks) c {c'} valid front some_bytes enough e =
      elim (Bool-cases (all_written (read_size c.out_) n used.result)) [
        | inl t ↦
            let r : write_rounds raw (takes (k ∷ ks)) c
                ≡ some (record (took n used.result c) { writing = false }) =
              rw (takes_some, write_rounds, used.ends, t) refl in
            sym (ap (λ x. x.writing) (some-injective _ _ (sym r ∙ e)))
        | inr t ↦
            write_rounds_end ks (took n used.result c) used.still_valid front' (more_left t)
              (omega (arith, ap length used.left, length-drop n (contents c.out_), readable))
              (rw (takes_some, write_rounds, used.ends, t) at e)
      ]
    where
      n : ℕ
      n = min (k + 1) (read_size c.out_)

      used : Consumed n c.out_ (consume n c.out_)
      used = consume-Consumed n valid

      front' : HasFront used.result
      front' = consume-HasFront n valid front used.ends

      readable : 0 < read_size c.out_
      readable = elim (Bool-cases (read_size c.out_ == 0)) [
        | inl z ↦ absurd (omega (arith, ap length (contents_of_nothing valid front (ground arith))))
        | inr z ↦ ground arith
      ]

      takes_some : (n == 0) ≡ false
      takes_some = ground (arith, readable)

      more_left :
          all_written (read_size c.out_) n used.result ≡ false → 0 < length (contents used.result)
      more_left t = ground (
        arith,
        length-contents valid,
        length-contents used.still_valid,
        ap length used.left,
        length-drop n (contents c.out_),
      )

  -- For a connection that is not writing and has a descriptor, whose output buffer is valid, has
  -- its read pointer not at the end of a chunk that another one follows, and has something unread,
  -- and a socket that takes at least a byte at every write, as often as there are bytes:
  -- startWrite sends all of them in order and leaves an empty buffer and writing_ not set.
  pub start_write_flushes :
      (ks : List ℕ) (c : Connection) {d : Descriptor}
      → IsValid c.out_
      → HasFront c.out_
      → c.io_desc ≡ some d
      → c.writing ≡ false
      → 0 < length (contents c.out_)
      → length (contents c.out_) ≤ length ks
      → (c' : Connection) × (start_write raw (takes ks) c ≡ some c')
        × (c'.sent ≡ c.sent ++ contents c.out_)
        × (contents c'.out_ ≡ [])
        × (c'.writing ≡ false)
  unfolding start_write do_write acquire
  start_write_flushes ks c valid front desc w some_bytes enough =
      let started = acquire (record c { writing = true }) in
      let r = write_rounds-Wrote (takes ks) started valid desc refl in
      let (out, sent, writing, _, _) = release_keeps r.result in
      let end = write_rounds_end ks started valid front some_bytes enough r.ends in
      let empty = r.all_sent front end in
      (
        release r.result,
        rw (w, r.ends) refl,
        sent
            ∙ sym (append-nil r.result.sent)
            ∙ ap (λ l. r.result.sent ++ l) (sym empty)
            ∙ r.in_order,
        ap contents out ∙ empty,
        writing ∙ end,
      )
