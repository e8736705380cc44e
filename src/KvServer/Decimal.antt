-- ===== src/KvServer/Decimal.antt =====
-- The numbers that kv_connection.cpp writes are read back as they were.
use multicore_programming_la.Common.{
  ℕ, zero, suc, ◌+◌, ◌-◌, ◌/◌, ◌%◌, ◌*◌, ◌<◌, ◌≤◌, ◌^◌, ◌≡◌, refl, ap, ◌∙◌, true, false, [], ◌∷◌,
  ◌++◌, ◌==◌, arith, length, length-append, ltb, Bool-cases, inl, inr,
}
use multicore_programming_la.HttpParser.{Bytes, is_digit, is_space, digits, extract, extract_size}
use multicore_programming_la.HttpParser.Spells.{IsLine}
use multicore_programming_la.HttpParser.Buffered.{HasNoZero}
use multicore_programming_la.KvServer.{decimal_digits, decimal}

abbrev pub AreDigits : Bytes → Type 0
AreDigits [] = Unit
AreDigits (c ∷ s) = (b'0' ≤ c) × (c ≤ b'9') × AreDigits s

AreDigits-append : (s t : Bytes) → AreDigits s → AreDigits t → AreDigits (s ++ t)
AreDigits-append [] t h k = k
AreDigits-append (c ∷ s) t (a, b, h) k = (a, b, AreDigits-append s t h k)

digits-snoc :
    (s : Bytes) (n d : ℕ)
    → AreDigits s
    → b'0' ≤ d
    → d ≤ b'9'
    → digits n (s ++ d ∷ []) ≡ digits n s * 10 + (d - b'0')
unfolding digits
digits-snoc [] n d h a b = let e : is_digit d ≡ true = ground arith in rw (e, digits) refl
digits-snoc (c ∷ s) n d (h, k, more) a b =
    let e : is_digit c ≡ true = ground arith in
    rw (e, digits) (digits-snoc s (n * 10 + (c - b'0')) d more a b)

pub decimal-AreDigits : (fuel n : ℕ) → AreDigits (decimal_digits fuel n)
unfolding decimal_digits
decimal-AreDigits zero n = tt
decimal-AreDigits (suc fuel) n = elim (Bool-cases (ltb n 10)) [
  | inl e ↦ rw (e, decimal_digits) (omega arith, omega arith, tt)
  | inr e ↦
      rw (e, decimal_digits)
        (AreDigits-append (decimal_digits fuel (n / 10)) _ (decimal-AreDigits fuel (n / 10))
          (omega arith, omega arith, tt))
]

pub digits-decimal : (fuel n : ℕ) → n < 10 ^ fuel → digits 0 (decimal_digits fuel n) ≡ n
unfolding decimal_digits digits
digits-decimal zero n h = omega arith
digits-decimal (suc fuel) n h = elim (Bool-cases (ltb n 10)) [
  | inl e ↦
      let d : is_digit (b'0' + n % 10) ≡ true = ground arith in
      let whole : n % 10 ≡ n = ground arith in
      rw (e, decimal_digits, d, digits) (omega (arith, whole))
  | inr e ↦
      rw (e, decimal_digits)
        (digits-snoc (decimal_digits fuel (n / 10)) 0 (b'0' + n % 10)
            (decimal-AreDigits fuel (n / 10)) (omega arith) (omega arith)
          ∙ ap (λ m. m * 10 + ((b'0' + n % 10) - b'0')) (digits-decimal fuel (n / 10) (omega arith))
          ∙ omega arith)
]

extract_size-digits :
    (s : Bytes) (before n : ℕ)
    → n < 2 ^ 64
    → 0 < length s
    → AreDigits s
    → digits 0 s ≡ n
    → extract_size before s ≡ n
unfolding extract_size extract digits
extract_size-digits [] before n h some_digit k e = absurd (omega arith)
extract_size-digits (c ∷ s) before n h some_digit (a, b, k) e =
    let space : is_space c ≡ false = ground arith in
    let minus : (c == b'-') ≡ false = ground arith in
    let plus : (c == b'+') ≡ false = ground arith in
    let fits : ltb n (2 ^ 64) ≡ true = ground arith in
    rw (space, extract, minus, plus, e, fits) refl

decimal-some : (fuel n : ℕ) → 0 < length (decimal_digits (suc fuel) n)
unfolding decimal_digits
decimal-some fuel n = elim (Bool-cases (ltb n 10)) [
  | inl e ↦ rw (e, decimal_digits) (omega arith)
  | inr e ↦
      rw (e, decimal_digits)
        (omega (arith, length-append (decimal_digits fuel (n / 10)) ((b'0' + n % 10) ∷ [])))
]

pub extract_size-decimal : (before n : ℕ) → n < 2 ^ 64 → extract_size before (decimal n) ≡ n
extract_size-decimal before n h =
    extract_size-digits (decimal n) before n h (decimal-some 19 n) (decimal-AreDigits 20 n)
      (digits-decimal 20 n (omega arith))

pub length-decimal_digits : (fuel n : ℕ) → length (decimal_digits fuel n) ≤ fuel
unfolding decimal_digits
length-decimal_digits zero n = omega arith
length-decimal_digits (suc fuel) n = elim (Bool-cases (ltb n 10)) [
  | inl e ↦ rw (e, decimal_digits) (omega arith)
  | inr e ↦
      rw (e, decimal_digits)
        (omega (
          arith,
          length-append (decimal_digits fuel (n / 10)) ((b'0' + n % 10) ∷ []),
          length-decimal_digits fuel (n / 10),
        ))
]

pub AreDigits-IsLine : (s : Bytes) → AreDigits s → IsLine s
AreDigits-IsLine [] h = tt
AreDigits-IsLine (c ∷ s) (a, b, h) = (ground arith, AreDigits-IsLine s h)

pub AreDigits-HasNoZero : (s : Bytes) → AreDigits s → HasNoZero s
AreDigits-HasNoZero [] h = tt
AreDigits-HasNoZero (c ∷ s) (a, b, h) = (ground arith, AreDigits-HasNoZero s h)
