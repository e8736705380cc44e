-- ===== src/Spinlock/Mutex.antt =====
-- Which threads have the lock of spinlock.hpp at once.
use multicore_programming_la.Common.{
  ℕ, zero, suc, List, [], ◌∷◌, Bool, true, false, ◌==◌, ==_iff, ◌≡◌, refl, sym, ◌∙◌, Bool-cases,
  inl, inr, arith,
}
use multicore_programming_la.Spinlock.{
  Pc, outside, fast, spinning, sleeping, holding, Spinlock, create, access, step, run,
}

-- The word says that the lock is taken where a thread has it, and only one thread has it.
pub record IsExclusive (s : Spinlock) : Type 0 where
  pub taken : (i : ℕ) → s.pc i ≡ holding → s.locked ≡ true
  pub one : (i j : ℕ) → s.pc i ≡ holding → s.pc j ≡ holding → i ≡ j

-- A thread that gets the lock found it free, and left it taken.
access_takes :
    (p : Pc) (l : Bool) → (access p l).1 ≡ holding → (l ≡ false) × ((access p l).0 ≡ true)
unfolding access
access_takes outside false e = absurd cc
access_takes outside true e = absurd cc
access_takes fast false e = (refl, refl)
access_takes fast true e = absurd cc
access_takes (spinning zero) l e = absurd cc
access_takes (spinning (suc n)) false e = absurd cc
access_takes (spinning (suc n)) true e = absurd cc
access_takes sleeping false e = (refl, refl)
access_takes sleeping true e = absurd cc
access_takes holding l e = absurd cc

-- Only the thread that has the lock frees it.
access_frees : (p : Pc) → (access p true).0 ≡ false → p ≡ holding
unfolding access
access_frees outside e = absurd cc
access_frees fast e = absurd cc
access_frees (spinning zero) e = absurd cc
access_frees (spinning (suc n)) e = absurd cc
access_frees sleeping e = absurd cc
access_frees holding e = refl

two_values : {l : Bool} → l ≡ false → l ≡ true → ⊥
two_values e f = ground arith

step-IsExclusive : (i : ℕ) {s : Spinlock} → IsExclusive s → IsExclusive (step i s)
unfolding step
step-IsExclusive i {s} inv = record {
  taken = λ j h. elim (Bool-cases (j == i)) [
    | inl e ↦ (access_takes (s.pc i) s.locked (rw e at h)).1
    | inr e ↦ elim (Bool-cases (access (s.pc i) s.locked).0) [
      | inl t ↦ t
      | inr t ↦ absurd (
          ground (
            arith,
            inv.one j i (rw e at h) (access_frees (s.pc i) (rw (inv.taken j (rw e at h)) at t)),
            e,
          ))
    ]
  ];
  one = λ j k h m. elim (Bool-cases (j == i)) [
    | inl e ↦ elim (Bool-cases (k == i)) [
      | inl f ↦ (==_iff j i).0 e ∙ sym ((==_iff k i).0 f)
      | inr f ↦
          absurd
            (two_values ((access_takes (s.pc i) s.locked (rw e at h)).0) (inv.taken k (rw f at m)))
    ]
    | inr e ↦ elim (Bool-cases (k == i)) [
      | inl f ↦
          absurd
            (two_values ((access_takes (s.pc i) s.locked (rw f at m)).0) (inv.taken j (rw e at h)))
      | inr f ↦ inv.one j k (rw e at h) (rw f at m)
    ]
  ];
}

pub run-IsExclusive :
    (schedule : List ℕ) {s : Spinlock} → IsExclusive s → IsExclusive (run schedule s)
unfolding run
run-IsExclusive [] inv = inv
run-IsExclusive (i ∷ is) inv = run-IsExclusive is (step-IsExclusive i inv)

pub create-IsExclusive : IsExclusive create
unfolding create
create-IsExclusive = record { taken = λ i e. absurd cc; one = λ i j e f. absurd cc }

-- After any schedule of the threads, no two different threads have the lock, and the lock word is
-- true while one has it.
pub mutual_exclusion : (schedule : List ℕ) → IsExclusive (run schedule create)
mutual_exclusion schedule = run-IsExclusive schedule create-IsExclusive
