-- ===== src/HttpParser/Spells.antt =====
-- What the pieces of the parser of http_parser.cpp do on bytes that spell a word, a line or a
-- list of header lines, where the bytes may be cut off anywhere but inside a "\r\n".
use multicore_programming_la.Common.{
  ℕ, zero, suc, ◌<◌, ◌≡◌, ◌≢◌, refl, sym, ap, subst, ◌∙◌, inl, inr, ◌⊎◌, true, false, ◌||◌, [], ◌∷◌,
  ◌++◌, append_assoc, append-nil, arith, length, ◌==◌,
}
use multicore_programming_la.HttpParser.{
  Bytes, Cursor, Outcome, done, incomplete_input, Scan, string_loop, parse_string, line_end,
  line_loop, parse_line, skip_char, skip_new_line,
}

-- The iterator stands before the bytes of a list.
pub record IsCursor {C : Type 0} (in_ : Cursor C) (Reads : C → Bytes → Type 0) : Type 0 where
  pub ends : (it : C) → Reads it [] → in_.at_end it ≡ true
  pub not_ended : (it : C) (c : ℕ) (l : Bytes) → Reads it (c ∷ l) → in_.at_end it ≡ false
  pub shows : (it : C) (c : ℕ) (l : Bytes) → Reads it (c ∷ l) → in_.char it ≡ c
  pub passes : (it : C) (c : ℕ) (l : Bytes) → Reads it (c ∷ l) → Reads (in_.forward it) l

-- No byte of a word ends it for `parseString`, and none of a line for `parseLine`.
abbrev pub IsWord : Bytes → Type 0
IsWord [] = Unit
IsWord (c ∷ w) = (c ≢ b' ') × (c ≢ b'\r') × IsWord w

abbrev pub IsLine : Bytes → Type 0
IsLine [] = Unit
IsLine (c ∷ w) = (c ≢ b'\r') × IsLine w

abbrev pub IsStop : ℕ → Type 0
IsStop c = (c ≡ b' ') ⊎ (c ≡ b'\r')

-- `p` is here and `q` is still to come; the cut between them is not inside a "\r\n".
pub record IsPrefix (p q l : Bytes) : Type 0 where
  pub whole : p ++ q ≡ l
  pub apart : (a b : Bytes) → p ≡ a ++ b'\r' ∷ [] → q ≢ b'\n' ∷ b

pub cut_tail : {q p l : Bytes} {c d : ℕ} → IsPrefix (c ∷ p) q (d ∷ l) → (c ≡ d) × IsPrefix p q l
cut_tail {c = c} cut = (
  cc (cut.whole),
  record { whole = cc (cut.whole); apart = λ a b e. cut.apart (c ∷ a) b (ap (λ x. c ∷ x) e) },
)

cut_more : {q l : Bytes} {d : ℕ} → IsPrefix [] q (d ∷ l) → q ≢ []
cut_more cut e = cc (cut.whole)

pub nothing_left : (p q : Bytes) → p ++ q ≡ [] → q ≡ []
nothing_left [] q e = e
nothing_left (x ∷ p) q e = cc

module _ {C : Type 0} {in_ : Cursor C} {Reads : C → Bytes → Type 0} (law : IsCursor in_ Reads)
    (q : Bytes) where
  open law use {ends, not_ended, shows, passes}

  -- A piece ends where its bytes are here, and is incomplete where they are cut off.
  abbrev pub Ends : Bytes → Type 0 → Outcome → C → Type 0
  Ends rest good o it =
      ((o ≡ done) × good × (p : Bytes) × Reads it p × IsPrefix p q rest)
      ⊎ ((o ≡ incomplete_input) × (q ≢ []))

  abbrev pub Takes : Bytes → Bytes → Scan C → Type 0
  Takes text rest s = Ends rest (s.text ≡ text) s.outcome s.place

  string_loop-Takes :
      (w : Bytes) (fuel : ℕ) (it : C) (res p rest : Bytes) (c : ℕ)
      → IsWord w
      → IsStop c
      → length w < fuel
      → Reads it p
      → IsPrefix p q (w ++ c ∷ rest)
      → Takes (res ++ w) (c ∷ rest) (string_loop in_ fuel it res)
  unfolding string_loop
  string_loop-Takes w zero it res p rest c word stop h r cut = absurd (omega arith)
  string_loop-Takes [] (suc fuel) it res [] rest c word stop h r cut =
      rw (ends it r, string_loop) (inr (refl, cut_more cut))
  string_loop-Takes (x ∷ w) (suc fuel) it res [] rest c word stop h r cut =
      rw (ends it r, string_loop) (inr (refl, cut_more cut))
  string_loop-Takes [] (suc fuel) it res (d ∷ p) rest c word stop h r cut =
      let e : (in_.char it == b' ' || in_.char it == b'\r') ≡ true =
        ground (arith, shows it d p r, cut_tail cut) in
      rw (not_ended it d p r, e, string_loop) (inl (refl, sym (append-nil res), d ∷ p, r, cut))
  string_loop-Takes (x ∷ w) (suc fuel) it res (d ∷ p) rest c (a, b, word) stop h r cut =
      let (same, cut') = cut_tail cut in
      let s : in_.char it ≡ x = shows it d p r ∙ same in
      let e : (in_.char it == b' ' || in_.char it == b'\r') ≡ false = ground arith in
      rw (not_ended it d p r, e, s, string_loop, ← append_assoc res (x ∷ []) w)
        (string_loop-Takes w fuel (in_.forward it) (res ++ x ∷ []) p rest c word stop (omega arith)
          (passes it d p r) cut')

  pub parse_string-Takes :
      (w : Bytes) (fuel : ℕ) (it : C) (p rest : Bytes) (c : ℕ)
      → IsWord w
      → IsStop c
      → length w < fuel
      → Reads it p
      → IsPrefix p q (w ++ c ∷ rest)
      → Takes w (c ∷ rest) (parse_string in_ fuel it [])
  unfolding parse_string
  parse_string-Takes w fuel it [] rest c word stop h r cut =
      rw (ends it r) (inr (refl, λ e. nonempty w (sym (cut.whole) ∙ e)))
    where
      nonempty : (w : Bytes) → w ++ c ∷ rest ≡ [] → ⊥
      nonempty [] e = cc
      nonempty (x ∷ w) e = cc
  parse_string-Takes w fuel it (d ∷ p) rest c word stop h r cut =
      rw (not_ended it d p r) (string_loop-Takes w fuel it [] (d ∷ p) rest c word stop h r cut)

  line_end-Takes :
      (it : C) (res p rest : Bytes)
      → Reads it p
      → IsPrefix (b'\r' ∷ p) q (b'\r' ∷ b'\n' ∷ rest)
      → Takes res rest (line_end in_ it res)
  unfolding line_end
  line_end-Takes it res [] rest r cut = absurd (cut.apart [] rest refl cc)
  line_end-Takes it res (d ∷ p) rest r cut =
      let (_, cut') = cut_tail cut in
      let (same, cut'') = cut_tail cut' in
      let e : (in_.char it == b'\n') ≡ true = ground (arith, shows it d p r) in
      rw e (inl (refl, refl, p, passes it d p r, cut''))

  line_loop-Takes :
      (w : Bytes) (fuel : ℕ) (it : C) (res p rest : Bytes)
      → IsLine w
      → length w < fuel
      → Reads it p
      → IsPrefix p q (w ++ b'\r' ∷ b'\n' ∷ rest)
      → Takes (res ++ w) rest (line_loop in_ fuel it res)
  unfolding line_loop
  line_loop-Takes w zero it res p rest line h r cut = absurd (omega arith)
  line_loop-Takes [] (suc fuel) it res [] rest line h r cut =
      rw (ends it r, line_loop) (inr (refl, cut_more cut))
  line_loop-Takes (x ∷ w) (suc fuel) it res [] rest line h r cut =
      rw (ends it r, line_loop) (inr (refl, cut_more cut))
  line_loop-Takes [] (suc fuel) it res (d ∷ p) rest line h r cut =
      let (same, _) = cut_tail cut in
      let e : (in_.char it == b'\r') ≡ true = ground (arith, shows it d p r) in
      rw (not_ended it d p r, e, line_loop, append-nil)
        (line_end-Takes (in_.forward it) res p rest (passes it d p r)
          (subst (λ x. IsPrefix (x ∷ p) q (b'\r' ∷ b'\n' ∷ rest)) same cut))
  line_loop-Takes (x ∷ w) (suc fuel) it res (d ∷ p) rest (a, line) h r cut =
      let (same, cut') = cut_tail cut in
      let s : in_.char it ≡ x = shows it d p r ∙ same in
      let e : (in_.char it == b'\r') ≡ false = ground arith in
      rw (not_ended it d p r, e, s, line_loop, ← append_assoc res (x ∷ []) w)
        (line_loop-Takes w fuel (in_.forward it) (res ++ x ∷ []) p rest line (omega arith)
          (passes it d p r) cut')

  pub parse_line-Takes :
      (w : Bytes) (fuel : ℕ) (it : C) (p rest : Bytes)
      → IsLine w
      → length w < fuel
      → Reads it p
      → IsPrefix p q (w ++ b'\r' ∷ b'\n' ∷ rest)
      → Takes w rest (parse_line in_ fuel it [])
  unfolding parse_line
  parse_line-Takes w fuel it [] rest line h r cut =
      rw (ends it r) (inr (refl, λ e. nonempty w (sym (cut.whole) ∙ e)))
    where
      nonempty : (w : Bytes) → w ++ b'\r' ∷ b'\n' ∷ rest ≡ [] → ⊥
      nonempty [] e = cc
      nonempty (x ∷ w) e = cc
  parse_line-Takes w fuel it (d ∷ p) rest line h r cut =
      rw (not_ended it d p r) (line_loop-Takes w fuel it [] (d ∷ p) rest line h r cut)

  pub skip_char-Ends :
      (c : ℕ) (it : C) (p rest : Bytes)
      → Reads it p
      → IsPrefix p q (c ∷ rest)
      → Ends rest Unit (skip_char in_ c it).0 (skip_char in_ c it).1
  unfolding skip_char
  skip_char-Ends c it [] rest r cut = rw (ends it r) (inr (refl, cut_more cut))
  skip_char-Ends c it (d ∷ p) rest r cut =
      let (same, cut') = cut_tail cut in
      let e : (in_.char it == c) ≡ true = ground (arith, shows it d p r) in
      rw (not_ended it d p r, e) (inl (refl, tt, p, passes it d p r, cut'))

  pub skip_new_line-Ends :
      (it : C) (p rest : Bytes)
      → Reads it p
      → IsPrefix p q (b'\r' ∷ b'\n' ∷ rest)
      → Ends rest Unit (skip_new_line in_ it).0 (skip_new_line in_ it).1
  unfolding skip_new_line
  skip_new_line-Ends it [] rest r cut = rw (ends it r) (inr (refl, cut_more cut))
  skip_new_line-Ends it (d ∷ []) rest r cut =
      rw (not_ended it d [] r, ends (in_.forward it) (passes it d [] r))
        (inr (refl, cut_more (cut_tail cut).1))
  skip_new_line-Ends it (d ∷ d' ∷ p) rest r cut =
      let (same, cut') = cut_tail cut in
      let (same', cut'') = cut_tail cut' in
      let r' = passes it d (d' ∷ p) r in
      let e : (in_.char it == b'\r') ≡ true = ground (arith, shows it d (d' ∷ p) r) in
      let e' : (in_.char (in_.forward it) == b'\n') ≡ true =
        ground (arith, shows (in_.forward it) d' p r') in
      rw (not_ended it d (d' ∷ p) r, not_ended (in_.forward it) d' p r', e, e')
        (inl (refl, tt, p, passes (in_.forward it) d' p r', cut''))
