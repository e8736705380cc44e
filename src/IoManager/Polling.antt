-- ===== src/IoManager/Polling.antt =====
-- A round of `pollBody` in io_manager.cpp: which descriptors it uses and disposes of.
use multicore_programming_la.Common.{
  ℕ, ◌≡◌, refl, sym, ap₂, ◌∙◌, inl, inr, Bool, true, false, not, ◌&&◌, ◌||◌, Option, none, some,
  List, [], ◌∷◌, ◌++◌, arith, ◌==◌, if◌then◌else◌, subst, ==_iff, Bool-cases,
}
use multicore_programming_la.IoManager.{
  Descriptor, Event, dispatch, IoManager, put, run_timers, run_events, dispose, poll_round,
}

abbrev is_some : Option Descriptor → Bool
is_some none = false
is_some (some d) = true

abbrev pub is_live : IoManager → ℕ → Bool
is_live m a = is_some (m.descriptors a)

abbrev pub elem : ℕ → List ℕ → Bool
elem a [] = false
elem a (b ∷ bs) = a == b || elem a bs

-- The descriptors of the events are there; those of a list are there, and each stands in it once.
abbrev pub AllLive : List (ℕ × Event) → IoManager → Type 0
AllLive [] m = Unit
AllLive ((a, e) ∷ es) m = (is_live m a ≡ true) × AllLive es m

abbrev pub IsDisposable : List ℕ → IoManager → Type 0
IsDisposable [] m = Unit
IsDisposable (a ∷ bs) m = (is_live m a ≡ true) × (elem a bs ≡ false) × IsDisposable bs m

-- A manager with the same descriptors there.
record SameLive (m m' : IoManager) : Type 0 where
  live : (a : ℕ) → is_live m' a ≡ is_live m a
  deleted : m'.deleted_desc ≡ m.deleted_desc

SameLive-AllLive :
    (es : List (ℕ × Event)) (m m' : IoManager) → SameLive m m' → AllLive es m → AllLive es m'
SameLive-AllLive [] m m' same all = tt
SameLive-AllLive ((a, e) ∷ es) m m' same (h, all) =
    (same.live a ∙ h, SameLive-AllLive es m m' same all)

SameLive-IsDisposable :
    (bs : List ℕ) (m m' : IoManager)
    → ((a : ℕ) → is_live m' a ≡ is_live m a)
    → IsDisposable bs m
    → IsDisposable bs m'
SameLive-IsDisposable [] m m' live all = tt
SameLive-IsDisposable (b ∷ bs) m m' live (h, once, all) =
    (live b ∙ h, once, SameLive-IsDisposable bs m m' live all)

there : (d : Option Descriptor) → is_some d ≡ true → (x : Descriptor) × (d ≡ some x)
there none h = cc
there (some x) h = (x, refl)

run_events-SameLive :
    (es : List (ℕ × Event)) (m : IoManager)
    → AllLive es m
    → (m' : IoManager) × (run_events es m ≡ some m') × SameLive m m'
unfolding run_events
run_events-SameLive [] m all = (m, refl, record { live = λ a. refl; deleted = refl })
run_events-SameLive ((a, e) ∷ es) m (h, all) =
    let (d, at) = there (m.descriptors a) h in
    let m1 = put a (some (dispatch e d).0) (record m { added = m.added ++ (dispatch e d).1 }) in
    let same : SameLive m m1 = record { live = λ b. stays_live b d; deleted = refl } in
    let (m', ran, same') = run_events-SameLive es m1 (SameLive-AllLive es m m1 same all) in
    (
      m',
      rw (at, run_events) ran,
      record { live = λ b. same'.live b ∙ same.live b; deleted = same'.deleted ∙ same.deleted },
    )
  where
    stays_live :
        (b : ℕ) (d : Descriptor)
        → is_some (if b == a then some (dispatch e d).0 else m.descriptors b) ≡ is_live m b
    stays_live b d = elim (Bool-cases (b == a)) [
      | inl f ↦ rw f (sym (subst (λ x. is_live m x ≡ true) (sym ((==_iff b a).0 f)) h))
      | inr f ↦ rw f refl
    ]

dispose-disposes :
    (bs : List ℕ) (m : IoManager)
    → IsDisposable bs m
    → (m' : IoManager) × (dispose bs m ≡ some m')
      × ((a : ℕ) → is_live m' a ≡ (is_live m a && not (elem a bs)))
      × (m'.deleted_desc ≡ m.deleted_desc)
unfolding dispose
dispose-disposes [] m all = (m, refl, λ a. ground arith, refl)
dispose-disposes (b ∷ bs) m (h, once, all) =
    let (d, at) = there (m.descriptors b) h in
    let (m', ran, live, deleted) = dispose-disposes bs (put b none m) (others bs once all) in
    (m', rw (at, dispose) ran, λ a. live a ∙ gone a, deleted)
  where
    others : (cs : List ℕ) → elem b cs ≡ false → IsDisposable cs m → IsDisposable cs (put b none m)
    others [] e h = tt
    others (c ∷ cs) e (h, once, rest) = (ground arith, once, others cs (ground arith) rest)

    gone :
        (a : ℕ)
        → (is_live (put b none m) a && not (elem a bs)) ≡ (is_live m a && not (a == b || elem a bs))
    gone a = elim (Bool-cases (a == b)) [ inl e ↦ rw e (ground arith) | inr e ↦ rw e refl ]

run_timers-SameLive : (now : ℕ) (m : IoManager) → SameLive m (run_timers now m)
unfolding run_timers
run_timers-SameLive now m = record { live = λ a. refl; deleted = refl }

-- Where the descriptors of the reported events are there, and those to dispose of are there and
-- listed once each: a round of pollBody uses no descriptor that is gone, leaves no descriptor to
-- dispose of, and leaves all descriptors but those listed.
poll_round-disposes :
    (now : ℕ) (es : List (ℕ × Event)) (m : IoManager)
    → AllLive es m
    → IsDisposable m.deleted_desc m
    → (m' : IoManager) × (poll_round now es m ≡ some m')
      × (m'.deleted_desc ≡ [])
      × ((a : ℕ) → is_live m' a ≡ (is_live m a && not (elem a m.deleted_desc)))
unfolding poll_round
poll_round-disposes now es m all once =
    let timed = run_timers-SameLive now m in
    let (m1, ran, same) =
      run_events-SameLive es (run_timers now m)
        (SameLive-AllLive es m (run_timers now m) timed all) in
    let still : (a : ℕ) → is_live m1 a ≡ is_live m a = λ a. same.live a ∙ timed.live a in
    let list : m1.deleted_desc ≡ m.deleted_desc = same.deleted ∙ timed.deleted in
    let (m', gone, live, empty) =
      dispose-disposes m1.deleted_desc (record m1 { deleted_desc = [] })
        (subst (λ l. IsDisposable l (record m1 { deleted_desc = [] })) (sym list)
          (SameLive-IsDisposable m.deleted_desc m (record m1 { deleted_desc = [] }) still once)) in
    (
      m',
      rw (ran, poll_round) gone,
      empty,
      λ a. live a ∙ ap₂ (λ x l. x && not (elem a l)) (still a) list,
    )
