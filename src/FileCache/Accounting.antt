-- ===== src/FileCache/Accounting.antt =====
-- The space that the cache has given out, and what its steps keep.
use mathlib.Core.Option.{some-injective}
use multicore_programming_la.Common.{
  no_result, ℕ, zero, suc, ◌+◌, ◌-◌, ◌<◌, ◌≤◌, ◌^◌, ◌≡◌, refl, sym, ap, subst, ◌∙◌, Option, none,
  some, List, [], ◌∷◌, ltb, leb, ◌==◌, length, arith, inl, inr, Bool-cases, Option-cases, leb→le,
}
use multicore_programming_la.Buffer.{Buffer, add_size, sub_size}
use multicore_programming_la.Buffer.Valid.{add_size_lem, sub_size_lem}
use multicore_programming_la.FileCache.{
  Files, file_size, Node, FileCache, create_cache, find, with_stat, pin_lookup, evict_first, evict,
  insert_node, pin_insert, unpin,
}

max_size-insert_node :
    (name size : ℕ) (buf : Buffer) (c : FileCache)
    → (insert_node name size buf c).1.max_size ≡ c.max_size
unfolding insert_node
max_size-insert_node name size buf c = elim (Option-cases (find name c.cache_map)) [
  | inl f ↦ rw (insert_node, f) refl
  | inr (n, f) ↦ rw (insert_node, f) refl
]

module _ (files : Files) where
  -- The sizes of the files in the cache.
  unfoldable pub total : List Node → ℕ
  total [] = 0
  total (n ∷ ns) = file_size files n.file_name + total ns

  -- The files in the cache fill the space that is in use, and that is at most the maximum.
  pub record IsAccounted (c : FileCache) : Type 0 where
    pub used : c.bytes_used ≡ total c.cache_map
    pub fits : c.bytes_used ≤ c.max_size

  pub create_cache-IsAccounted : (max_size : ℕ) → IsAccounted (create_cache max_size)
  unfolding create_cache total
  create_cache-IsAccounted max_size = record { used = refl; fits = omega arith }

  total-with_stat :
      (change : ℕ → ℕ) (name : ℕ) (ns : List Node) → total (with_stat change name ns) ≡ total ns
  unfolding total with_stat
  total-with_stat change name [] = refl
  total-with_stat change name (n ∷ ns) = elim (Bool-cases (n.file_name == name)) [
    | inl e ↦ rw e refl
    | inr e ↦ rw e (ap (λ k. file_size files n.file_name + k) (total-with_stat change name ns))
  ]

  -- What goes out of the cache was in it, and unpinned.
  total-evict_first :
      (ns : List Node) (r : ℕ × List Node)
      → evict_first ns ≡ some r
      → (total ns ≡ file_size files r.0 + total r.1) × (length ns ≡ suc (length r.1))
  unfolding total evict_first
  total-evict_first [] r e = absurd cc
  total-evict_first (n ∷ ns) r e = elim (Bool-cases (n.stat == 0)) [
    | inl t ↦
        subst
          (λ x.
            (file_size files n.file_name + total ns ≡ file_size files x.0 + total x.1)
            × (suc (length ns) ≡ suc (length x.1)))
          (some-injective (n.file_name, ns) r (rw t at e)) (refl, refl)
    | inr t ↦ elim (Option-cases (evict_first ns)) [
      | inl f ↦ absurd (no_result (rw (t, f) at e))
      | inr (r1, f) ↦
          let (s, l) = total-evict_first ns r1 f in
          subst
            (λ x.
              (file_size files n.file_name + total ns ≡ file_size files x.0 + total x.1)
              × (suc (length ns) ≡ suc (length x.1)))
            (some-injective (r1.0, n ∷ r1.1) r (rw (t, f) at e))
            (omega (arith, s), omega (arith, l))
    ]
  ]

  abbrev after : FileCache → ℕ × List Node → FileCache
  after c r = record c { bytes_used = sub_size c.bytes_used (file_size files r.0); cache_map = r.1 }

  evicted :
      (c : FileCache)
      → IsAccounted c
      → (r : ℕ × List Node) → total c.cache_map ≡ file_size files r.0 + total r.1
      → c.max_size < 2 ^ 64
      → IsAccounted (after c r)
  evicted c k r s small =
      let e =
        sub_size_lem c.bytes_used (file_size files r.0) (omega (arith, k.used, s))
          (omega (arith, k.fits, small)) in
      record { used = e ∙ omega (arith, k.used, s); fits = omega (arith, e, k.fits) }

  -- The loop ends with the fuel that `pin` gives it.
  evict-IsAccounted :
      (fuel size : ℕ) (c : FileCache)
      → IsAccounted c
      → length c.cache_map < fuel
      → c.max_size + size < 2 ^ 64
      → (c' : FileCache) × (evict files fuel size c ≡ some c')
        × IsAccounted c'
        × (c'.max_size ≡ c.max_size)
  unfolding evict
  evict-IsAccounted zero size c k h small = absurd (omega arith)
  evict-IsAccounted (suc fuel) size c k h small =
      elim (Bool-cases (ltb c.max_size (add_size c.bytes_used size))) [
        | inl t ↦ elim (Option-cases (evict_first c.cache_map)) [
          | inl f ↦ (c, rw (evict, t, f) refl, k, refl)
          | inr (r, f) ↦
              let (s, l) = total-evict_first c.cache_map r f in
              let (c', e, k', m) =
                evict-IsAccounted fuel size (after c r) (evicted c k r s (omega (arith, small)))
                  (omega (arith, l, h)) small in
              (c', rw (evict, t, f) e, k', m)
        ]
        | inr t ↦ (c, rw (evict, t) refl, k, refl)
      ]

  insert_node-IsAccounted :
      (name : ℕ) (buf : Buffer) (c : FileCache)
      → IsAccounted c
      → c.bytes_used + file_size files name ≤ c.max_size
      → c.max_size < 2 ^ 64
      → IsAccounted (insert_node name (file_size files name) buf c).1
  unfolding insert_node total
  insert_node-IsAccounted name buf c k h small = elim (Option-cases (find name c.cache_map)) [
    | inl f ↦
        let e = add_size_lem c.bytes_used (file_size files name) (omega arith) in
        rw (insert_node, f) (record { used = e ∙ omega (arith, k.used); fits = omega (arith, e) })
    | inr (n, f) ↦ rw (insert_node, f) k
  ]

  -- For a cache whose space in use is the sum of the sizes of its files and at most the maximum,
  -- where the maximum and the size of the file stay below 2^64 together: the insertion of pin ends
  -- and keeps that, with the same sizes of files.
  pub pin_insert-IsAccounted :
      (name : ℕ) (buf : Buffer) (c : FileCache)
      → IsAccounted c
      → c.max_size + file_size files name < 2 ^ 64
      → (r : Option Buffer × FileCache) × (pin_insert files name buf c ≡ some r)
        × IsAccounted r.1
        × (r.1.max_size ≡ c.max_size)
  unfolding pin_insert
  pin_insert-IsAccounted name buf c k small =
      let size = file_size files name in
      let (c1, e, k1, m) =
        evict-IsAccounted (length c.cache_map + 1) size c k (omega arith) small in
      elim (Bool-cases (leb (add_size c1.bytes_used size) c1.max_size)) [
        | inl t ↦
            let s = add_size_lem c1.bytes_used size (omega (arith, k1.fits, m, small)) in
            (
              insert_node name size buf c1,
              rw (e, t) refl,
              insert_node-IsAccounted name buf c1 k1 (omega (arith, s, leb→le _ _ t))
                  (omega (arith, m, small)),
              max_size-insert_node name size buf c1 ∙ m,
            )
        | inr t ↦ (
          (none, record c1 { num_failed = c1.num_failed + 1 }),
          rw (e, t) refl,
          record { used = k1.used; fits = k1.fits },
          m,
        )
      ]

  -- `unpin` keeps the account too, and fails only for a file in the cache that is not pinned.
  pub unpin-IsAccounted :
      (name : ℕ) (c c' : FileCache) → IsAccounted c → unpin name c ≡ some c' → IsAccounted c'
  unfolding unpin
  unpin-IsAccounted name c c' k e = elim (Option-cases (find name c.cache_map)) [
    | inl f ↦ subst IsAccounted (some-injective _ _ (rw (f, unpin) at e)) k
    | inr (n, f) ↦ elim (Bool-cases (n.stat == 0)) [
      | inl t ↦ absurd (no_result (rw (f, unpin, t) at e))
      | inr t ↦ subst IsAccounted (some-injective _ _ (rw (f, unpin, t) at e)) (record {
        used = k.used ∙ sym (total-with_stat (λ s. s - 1) name c.cache_map);
        fits = k.fits;
      })
    ]
  ]

  -- `pin` of a file that is in the cache keeps the account.
  pub pin_lookup-IsAccounted :
      (name : ℕ) (c : FileCache) → IsAccounted c → IsAccounted (pin_lookup name c).1
  unfolding pin_lookup
  pin_lookup-IsAccounted name c k = elim (Option-cases (find name c.cache_map)) [
    | inl f ↦ rw (f, pin_lookup) (record { used = k.used; fits = k.fits })
    | inr (n, f) ↦
        rw (f, pin_lookup)
          (record {
            used = k.used ∙ sym (total-with_stat (λ s. s + 1) name c.cache_map);
            fits = k.fits;
          })
  ]
