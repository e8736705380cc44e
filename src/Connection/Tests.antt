-- ===== src/Connection/Tests.antt =====
-- Runs of a connection, and its theorems at concrete inputs.
use multicore_programming_la.Common.{
  ℕ, zero, suc, sym, ap, ◌∙◌, none, length, take, drop, inl, inr, Bool-cases, ◌+◌, ◌≡◌, refl, Bool,
  true, false, ◌==◌, some, List, [], ◌∷◌, ◌++◌, arith,
}
use multicore_programming_la.Buffer.{Chunk, Buffer, poke, segment, consume, write}
use multicore_programming_la.Buffer.Bytes.{data_of}
use multicore_programming_la.Buffer.Valid.{IsValid, contents, create-IsValid}
use multicore_programming_la.Buffer.Consume.{consume-Consumed}
use multicore_programming_la.Buffer.Write.{write-Written}
use multicore_programming_la.IoManager.{Event, Descriptor}
use multicore_programming_la.IoManager.Wakes.{reading, writing}
use multicore_programming_la.Connection.{
  Bytes, ReadResult, chunk_data, received, read_interrupted, read_again, written, write_again,
  write_interrupted, Connection, new_passive, reserve_in, start_read, do_read, start_write, event,
  run_read, more_output, act_all,
}
use multicore_programming_la.Connection.Writing.{
  Wrote, start_write-Wrote, takes, start_write_flushes,
}
use multicore_programming_la.Connection.Reading.{Eats, taken, arrived, do_read_in_order}
use multicore_programming_la.Connection.Counting.{to_come, refs_count_upcalls}

abbrev raw : Chunk
raw i = 0

abbrev text : Bytes
text = 7 ∷ 8 ∷ 9 ∷ []

abbrev three : Buffer
three = record {
  chunks = poke raw 0 text ∷ [];
  sizes = 3 ∷ [];
  wpos = record { idx = 0; off = 3 };
  rpos = record { idx = 0; off = 0 };
}

three-IsValid : IsValid three
three-IsValid = record {
  same = refl;
  write_last = refl;
  write_off = refl;
  small = elim [ zero ↦ omega arith | suc i ↦ omega arith ];
  inner = λ i h. absurd (omega arith);
  read_before = omega arith;
  read_off = omega arith;
}

abbrev answering : Connection
answering = record (new_passive raw 5) { out_ = three }

start_write-Wrote_example :
    Wrote raw answering
      (start_write raw (written 2 ∷ write_interrupted ∷ write_again ∷ []) answering)
start_write-Wrote_example =
    start_write-Wrote raw (written 2 ∷ write_interrupted ∷ write_again ∷ []) answering three-IsValid
      refl refl

start_write_flushes_example :
    (c : Connection) × (start_write raw (takes raw (0 ∷ 1 ∷ 0 ∷ [])) answering ≡ some c)
    × (c.sent ≡ text)
    × (contents c.out_ ≡ [])
    × (c.writing ≡ false)
unfolding poke segment data_of
start_write_flushes_example =
    start_write_flushes raw (0 ∷ 1 ∷ 0 ∷ []) answering three-IsValid (λ h. absurd (omega arith))
      refl refl (omega arith) (omega arith)

abbrev quiet : Connection
quiet = new_passive raw 5

-- A `readDone` that takes nothing.
abbrev leave : Connection → Connection × Bool
leave c = (c, true)

-- The `readDone` of the echo server of connection_test.cpp: it writes what `readPtr()` shows back.
echo : Connection → Connection × Bool
echo c =
    let text = chunk_data raw c.in_ in
    elim (write raw text c.out_) [
      | none ↦ (c, false)
      | some out ↦ elim (consume (length text) c.in_) [
        | none ↦ (c, false)
        | some b ↦ elim (start_write raw [] (record c { in_ = b; out_ = out })) [
          | none ↦ (c, false)
          | some c' ↦ (c', true)
        ]
      ]
    ]

abbrev CanWrite : Connection → Type 0
CanWrite c = IsValid c.out_ × (d : Descriptor) × (c.io_desc ≡ some d)

abbrev echoed : Connection → Bytes
echoed c = take (length (chunk_data raw c.in_)) (contents c.in_)

take-drop : (n : ℕ) (l : Bytes) → take n l ++ drop n l ≡ l
take-drop zero [] = refl
take-drop zero (x ∷ l) = refl
take-drop (suc n) [] = refl
take-drop (suc n) (x ∷ l) = ap (λ k. x ∷ k) (take-drop n l)

record IsEchoed (c : Connection) (r : Connection × Bool) : Type 0 where
  can_write : CanWrite r.0
  valid : IsValid r.0.in_
  left : contents r.0.in_ ≡ drop (length (chunk_data raw c.in_)) (contents c.in_)

left_alone : {c : Connection} → c.writing ≡ true → start_write raw [] c ≡ some c
unfolding start_write
left_alone {c} busy = cc

started :
    (c : Connection)
    → CanWrite c
    → (c' : Connection) × (start_write raw [] c ≡ some c') × CanWrite c' × (c'.in_ ≡ c.in_)
unfolding start_write
started c (valid, d, desc) = elim (Bool-cases c.writing) [
  | inl busy ↦ (c, left_alone busy, (valid, d, desc), refl)
  | inr idle ↦
      let w = start_write-Wrote raw [] c valid desc idle in
      (w.result, w.ends, (w.still_valid, w.has_desc.0, w.has_desc.1), w.same_in)
]

echo-IsEchoed : (c : Connection) → CanWrite c → IsValid c.in_ → IsEchoed c (echo c)
unfolding echo
echo-IsEchoed c (out_valid, d, desc) valid =
    let text = chunk_data raw c.in_ in
    let out = write-Written raw text out_valid in
    let used = consume-Consumed (length text) valid in
    let (c', ran, can, same) =
      started (record c { in_ = used.result; out_ = out.result }) (out.still_valid, d, desc) in
    rw (out.ends, echo, used.ends, ran)
      (record { can_write = can; valid = rw same used.still_valid; left = rw same used.left })

echo-Eats : Eats echo echoed CanWrite
echo-Eats = record {
  has_desc = λ c (valid, d, desc). (d, desc);
  any_in = λ c b can. can;
  kept = λ c can valid. (echo-IsEchoed c can valid).can_write;
  valid = λ c can valid. (echo-IsEchoed c can valid).valid;
  split = λ c can valid.
      sym (take-drop (length (chunk_data raw c.in_)) (contents c.in_))
      ∙ ap (λ l. echoed c ++ l) (sym (echo-IsEchoed c can valid).left);
}

abbrev two_texts : List ReadResult
two_texts = received text ∷ read_interrupted ∷ received text ∷ read_again ∷ []

do_read_in_order_example :
    (c : Connection) × (do_read raw echo two_texts quiet ≡ some c)
    × (taken raw echo echoed two_texts (reserve_in raw quiet) ++ contents c.in_
        ≡ contents quiet.in_ ++ arrived raw echo two_texts (reserve_in raw quiet))
    × IsValid c.in_
do_read_in_order_example =
    do_read_in_order raw echo echoed echo-Eats two_texts quiet (create-IsValid raw)
      (omega arith, (omega arith, tt)) (create-IsValid raw, _, refl)

abbrev readable : Event
readable = record { error = false; read_ready = true; write_ready = false }

refs_count_upcalls_example :
    let steps =
      event readable ∷ more_output three (write_again ∷ []) ∷ run_read (received [] ∷ []) ∷ [] in
    (c : Connection) × (c' : Connection) × (start_read (new_passive raw 5) ≡ some c)
    × (act_all raw leave steps c ≡ some c')
    × (c'.refs ≡ to_come reading c' + to_come writing c')
    × (c'.over_released ≡ false)
    × (c'.deleted ≡ (to_come reading c' + to_come writing c' == 0))
refs_count_upcalls_example =
    refs_count_upcalls raw leave (λ c n w h. h) 5
      (event readable ∷ more_output three (write_again ∷ []) ∷ run_read (received [] ∷ []) ∷ [])
      (three-IsValid, tt)
