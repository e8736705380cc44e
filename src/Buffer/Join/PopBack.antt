-- ===== src/Buffer/Join/PopBack.antt =====
-- Taking the last chunk off.
use multicore_programming_la.Common.{
  ℕ, zero, suc, ◌-◌, ◌≤◌, ◌≡◌, refl, sym, ap, ap₂, ◌∙◌, length-drop, List, [], ◌∷◌, ◌++◌, arith,
  length, get_or, get_or-append_default, drop, append-nil, drop-append,
}
use multicore_programming_la.Buffer.{Chunk}
use multicore_programming_la.Buffer.Bytes.{data_of, data_of-append, data_of_fresh}
use multicore_programming_la.Buffer.Join.{pop_back}

module _ {ℓ} {A : Type ℓ} where
  pub length-pop_back : (xs : List A) → length (pop_back xs) ≡ length xs - 1
  length-pop_back [] = omega arith
  length-pop_back (x ∷ []) = omega arith
  length-pop_back (x ∷ y ∷ ys) = omega (arith, length-pop_back (y ∷ ys))

  pub pop_back-append :
      (xs : List A) (i : ℕ) (d : A) → length xs ≡ suc i → pop_back xs ++ (get_or xs i d ∷ []) ≡ xs
  pop_back-append [] i d h = absurd (omega arith)
  pop_back-append (x ∷ []) zero d h = refl
  pop_back-append (x ∷ []) (suc i) d h = absurd (omega arith)
  pop_back-append (x ∷ y ∷ ys) zero d h = absurd (omega arith)
  pop_back-append (x ∷ y ∷ ys) (suc i) d h =
      ap (λ l. x ∷ l) (pop_back-append (y ∷ ys) i d (omega arith))

  -- Where the last element is the default, taking it off changes no lookup.
  pub get_or-pop_back_default :
      (xs : List A) (i j : ℕ) (d : A)
      → length xs ≡ suc i
      → get_or xs i d ≡ d
      → get_or (pop_back xs) j d ≡ get_or xs j d
  get_or-pop_back_default xs i j d h e =
      sym (get_or-append_default (pop_back xs) j d)
      ∙ ap (λ l. get_or l j d)
          (ap (λ x. pop_back xs ++ (x ∷ [])) (sym e) ∙ pop_back-append xs i d h)

-- An empty last chunk holds no bytes.
pub data_of-pop_back :
    (raw : Chunk) (r : ℕ) (cs : List Chunk) (ss : List ℕ) (i : ℕ)
    → length cs ≡ suc i
    → length ss ≡ suc i
    → get_or ss i 0 ≡ 0
    → r ≤ i
    → data_of (drop r (pop_back cs)) (drop r (pop_back ss)) ≡ data_of (drop r cs) (drop r ss)
data_of-pop_back raw r cs ss i e f z h = sym (
    ap₂ (λ x y. data_of (drop r x) (drop r y)) (sym (pop_back-append cs i raw e))
      (sym (pop_back-append ss i 0 f))
    ∙ rw (
      z,
      drop-append r (pop_back cs) (get_or cs i raw ∷ []) (omega (arith, length-pop_back cs)),
      drop-append r (pop_back ss) (0 ∷ []) (omega (arith, length-pop_back ss)),
      data_of-append (drop r (pop_back cs)) (get_or cs i raw ∷ []) (drop r (pop_back ss)) (0 ∷ []) (
          omega (
            arith,
            length-drop r (pop_back cs),
            length-drop r (pop_back ss),
            length-pop_back cs,
            length-pop_back ss,
          )),
      data_of_fresh,
      append-nil,
    ))
