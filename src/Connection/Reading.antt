-- ===== src/Connection/Reading.antt =====
-- `doRead` of connection.cpp: what becomes of the bytes that the socket delivers.
use mathlib.Core.Option
use multicore_programming_la.Common.{
  ℕ, zero, suc, ◌≤◌, ◌≡◌, ◌≢◌, refl, sym, ap, ◌∙◌, Bool, false, Option, some, List, [], ◌∷◌, ◌++◌,
  append_assoc, append-nil, arith, ◌==◌, if◌then◌else◌, inl, inr, Bool-cases, length, take,
}
use multicore_programming_la.Buffer.{Chunk, Buffer, write_size}
use multicore_programming_la.Buffer.Valid.{IsValid, contents}
use multicore_programming_la.Buffer.Reserve.{advance-appends, reserve-Reserved}
use multicore_programming_la.IoManager.{Descriptor}
use multicore_programming_la.Connection.{
  Bytes, ReadResult, received, read_again, read_interrupted, read_failed, Connection, acquire,
  release, wait_read, reserve_in, take_in, read_rounds, do_read,
}

-- A read delivers no more than what was reserved.
abbrev pub FitsAll : List ReadResult → Type 0
FitsAll [] = Unit
FitsAll (received bytes ∷ rs) = (length bytes ≤ 1024) × FitsAll rs
FitsAll (read_again ∷ rs) = FitsAll rs
FitsAll (read_interrupted ∷ rs) = FitsAll rs
FitsAll (read_failed ∷ rs) = FitsAll rs

-- A method that takes some of the first unread bytes, which `eaten` lists, for connections with an
-- invariant that does not depend on `in_`. It may fail, start a write, and change the descriptor.
pub record Eats (read_done : Connection → Connection × Bool) (eaten : Connection → Bytes)
    (Inv : Connection → Type 0) : Type 0 where
  pub has_desc : (c : Connection) → Inv c → (d : Descriptor) × (c.io_desc ≡ some d)
  pub any_in : (c : Connection) (b : Buffer) → Inv c → Inv (record c { in_ = b })
  pub kept : (c : Connection) → Inv c → IsValid c.in_ → Inv (read_done c).0
  pub valid : (c : Connection) → Inv c → IsValid c.in_ → IsValid (read_done c).0.in_
  pub split :
      (c : Connection)
      → Inv c
      → IsValid c.in_
      → contents c.in_ ≡ eaten c ++ contents (read_done c).0.in_

module _ (raw : Chunk) (read_done : Connection → Connection × Bool) where
  take_all : (bytes : Bytes) (n : ℕ) → length bytes ≤ n → take n bytes ≡ bytes
  take_all [] zero h = refl
  take_all [] (suc n) h = refl
  take_all (x ∷ bytes) zero h = absurd (omega arith)
  take_all (x ∷ bytes) (suc n) h = ap (λ l. x ∷ l) (take_all bytes n (omega arith))

  -- The buffer behind `reserve`.
  record HasRoom (c : Connection) : Type 0 where
    valid : IsValid c.in_
    room : 1024 ≤ write_size c.in_

  reserve_in-HasRoom : (c : Connection) → IsValid c.in_ → HasRoom (reserve_in raw c)
  reserve_in-HasRoom c valid =
      let r = reserve-Reserved raw valid 1024 in
      record { valid = r.still_valid; room = r.room (omega arith) }

  take_in-appends :
      (c : Connection) (bytes : Bytes)
      → HasRoom c
      → length bytes ≤ 1024
      → bytes ≢ []
      → IsValid (take_in raw bytes c).in_
        × (contents (take_in raw bytes c).in_ ≡ contents c.in_ ++ bytes)
  take_in-appends c bytes room h ne =
      let whole = take_all bytes (write_size c.in_) (omega (arith, room.room)) in
      let (_, valid, e) = advance-appends room.valid raw bytes ne (omega (arith, room.room)) in
      rw whole (valid, e)

  wait_read_keeps :
      (c : Connection) {d : Descriptor}
      → c.io_desc ≡ some d
      → (w : Connection) × (wait_read c ≡ some w) × (w.in_ ≡ c.in_)
  unfolding wait_read acquire
  wait_read_keeps c desc = rw (desc, wait_read) (_, refl, refl)

  -- What the socket delivers before the loop ends.
  unfoldable pub arrived : List ReadResult → Connection → Bytes
  arrived [] c = []
  arrived (received [] ∷ rs) c = []
  arrived (received (x ∷ bytes) ∷ rs) c =
      let (c', good) = read_done (take_in raw (x ∷ bytes) c) in
      let rest = arrived rs (reserve_in raw c') in (x ∷ bytes) ++ (if good then rest else [])
  arrived (read_again ∷ rs) c = []
  arrived (read_interrupted ∷ rs) c = arrived rs c
  arrived (read_failed ∷ rs) c = []

  module _ (eaten : Connection → Bytes) where
    -- All that the calls of `readDone` take.
    unfoldable pub taken : List ReadResult → Connection → Bytes
    taken [] c = []
    taken (received [] ∷ rs) c = []
    taken (received (x ∷ bytes) ∷ rs) c =
        let c1 = take_in raw (x ∷ bytes) c in
        let (c', good) = read_done c1 in
        let rest = taken rs (reserve_in raw c') in eaten c1 ++ (if good then rest else [])
    taken (read_again ∷ rs) c = []
    taken (read_interrupted ∷ rs) c = taken rs c
    taken (read_failed ∷ rs) c = []

    record Read (rs : List ReadResult) (c : Connection) (r : Option Connection) : Type 0 where
      result : Connection
      ends : r ≡ some result
      in_order : taken rs c ++ contents result.in_ ≡ contents c.in_ ++ arrived rs c
      still_valid : IsValid result.in_

    module _ {Inv : Connection → Type 0} (eats : Eats read_done eaten Inv) where
      wait_read-Read :
          (rs : List ReadResult) (c : Connection) {d : Descriptor}
          → IsValid c.in_
          → c.io_desc ≡ some d
          → taken rs c ≡ []
          → arrived rs c ≡ []
          → Read rs c (wait_read c)
      wait_read-Read rs c valid desc e f =
          let (w, ran, same) = wait_read_keeps c desc in
          record {
            result = w;
            ends = ran;
            in_order = rw (e, f, same) (sym (append-nil (contents c.in_)));
            still_valid = rw same valid;
          }

      stop-Read :
          (rs : List ReadResult) (c : Connection)
          → IsValid c.in_
          → taken rs c ≡ []
          → arrived rs c ≡ []
          → Read rs c (some c)
      stop-Read rs c valid e f = record {
        result = c;
        ends = refl;
        in_order = rw (e, f) (sym (append-nil (contents c.in_)));
        still_valid = valid;
      }

      read_rounds-Read :
          (rs : List ReadResult) (c : Connection)
          → HasRoom c
          → FitsAll rs
          → Inv c
          → Read rs c (read_rounds raw read_done rs c)
      unfolding read_rounds taken arrived
      read_rounds-Read [] c room fits inv =
          wait_read-Read [] c room.valid (eats.has_desc c inv).1 refl refl
      read_rounds-Read (read_again ∷ rs) c room fits inv =
          wait_read-Read (read_again ∷ rs) c room.valid (eats.has_desc c inv).1 refl refl
      read_rounds-Read (read_interrupted ∷ rs) c room fits inv =
          let r = read_rounds-Read rs c room fits inv in
          record {
            result = r.result;
            ends = r.ends;
            in_order = r.in_order;
            still_valid = r.still_valid;
          }
      read_rounds-Read (read_failed ∷ rs) c room fits inv =
          stop-Read (read_failed ∷ rs) c room.valid refl refl
      read_rounds-Read (received [] ∷ rs) c room fits inv =
          stop-Read (received [] ∷ rs) c room.valid refl refl
      read_rounds-Read (received (x ∷ bytes) ∷ rs) c room (h, fits) inv =
          let c1 = take_in raw (x ∷ bytes) c in
          let (valid, e) = take_in-appends c (x ∷ bytes) room h (λ k. cc) in
          let some_bytes : (length (x ∷ bytes) == 0) ≡ false = ground arith in
          let inv1 : Inv c1 = eats.any_in c c1.in_ inv in
          let c2 = (read_done c1).0 in
          let valid2 = eats.valid c1 inv1 valid in
          let split = eats.split c1 inv1 valid in
          elim (Bool-cases (read_done c1).1) [
            | inl good ↦
                let c3 = reserve_in raw c2 in
                let left = reserve-Reserved raw valid2 1024 in
                let r =
                  read_rounds-Read rs c3 (reserve_in-HasRoom c2 valid2) fits
                    (eats.any_in c2 c3.in_ (eats.kept c1 inv1 valid)) in
                record {
                  result = r.result;
                  ends = rw (some_bytes, read_rounds, good) r.ends;
                  in_order =
                      rw (good, taken, arrived)
                        (append_assoc (eaten c1) (taken rs c3) (contents r.result.in_)
                          ∙ ap (λ l. eaten c1 ++ l) r.in_order
                          ∙ ap (λ l. eaten c1 ++ (l ++ arrived rs c3)) left.kept
                          ∙ sym (append_assoc (eaten c1) (contents c2.in_) (arrived rs c3))
                          ∙ ap (λ l. l ++ arrived rs c3) (sym split ∙ e)
                          ∙ append_assoc (contents c.in_) (x ∷ bytes) (arrived rs c3));
                  still_valid = r.still_valid;
                }
            | inr bad ↦ record {
              result = c2;
              ends = rw (some_bytes, read_rounds, bad) refl;
              in_order =
                  rw (bad, taken, arrived, append-nil (eaten c1), append-nil (x ∷ bytes))
                    (sym split ∙ e);
              still_valid = valid2;
            }
          ]

      in_-release : (c : Connection) → (release c).in_ ≡ c.in_
      unfolding release
      in_-release c = ground arith

      -- For a readDone and an invariant of connections that says that there is a descriptor, does
      -- not depend on in_, and holds after readDone too, where readDone takes some of the first
      -- unread bytes of a valid input buffer and leaves a valid one, whether it succeeds or not;
      -- for a connection with that invariant and a valid input buffer, and reads of at most 1024
      -- bytes: doRead ends with a valid buffer, and what readDone took and then what is left
      -- unread are what was unread before and then what the socket delivered, up to the end of the
      -- reads or to the call of readDone that failed.
      pub do_read_in_order :
          (rs : List ReadResult) (c : Connection)
          → IsValid c.in_
          → FitsAll rs
          → Inv c
          → (c' : Connection) × (do_read raw read_done rs c ≡ some c')
            × (taken rs (reserve_in raw c) ++ contents c'.in_
                ≡ contents c.in_ ++ arrived rs (reserve_in raw c))
            × IsValid c'.in_
      unfolding do_read
      do_read_in_order rs c valid fits inv =
          let start = reserve-Reserved raw valid 1024 in
          let c0 = reserve_in raw c in
          let r =
            read_rounds-Read rs c0 (reserve_in-HasRoom c valid) fits (eats.any_in c c0.in_ inv) in
          (
            release r.result,
            ap (Option.map release) r.ends,
            rw (in_-release r.result) (r.in_order ∙ ap (λ l. l ++ arrived rs c0) start.kept),
            rw (in_-release r.result) r.still_valid,
          )
