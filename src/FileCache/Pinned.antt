-- ===== src/FileCache/Pinned.antt =====
-- Pinned files of file_cache.cpp while others are put into the cache.
use mathlib.Core.Option.{some-injective}
use multicore_programming_la.Common.{
  no_result, ℕ, zero, suc, ◌+◌, ◌≡◌, ◌≢◌, sym, ap, subst, ◌∙◌, Option, some, List, [], ◌∷◌, ltb,
  leb, ◌==◌, ==_iff, length, inl, inr, Bool-cases, Option-cases,
}
use multicore_programming_la.Buffer.{Buffer, add_size}
use multicore_programming_la.FileCache.{
  Files, file_size, Node, FileCache, find, evict_first, evict, insert_node, pin_insert,
}

-- The name is in the cache, and pinned.
abbrev pub IsPinned : ℕ → List Node → Type 0
IsPinned name ns = (n : Node) × (find name ns ≡ some n) × (n.stat ≢ 0)

evict_first-keeps :
    (name : ℕ) (ns : List Node) (r : ℕ × List Node)
    → evict_first ns ≡ some r
    → IsPinned name ns
    → IsPinned name r.1
unfolding evict_first find
evict_first-keeps name [] r e k = absurd (no_result e)
evict_first-keeps name (n ∷ ns) r e (m, f, p) = elim (Bool-cases (n.stat == 0)) [
  | inl t ↦ elim (Bool-cases (n.file_name == name)) [
    | inl g ↦
        absurd (p (ap (λ x. x.stat) (sym (some-injective n m (rw g at f))) ∙ (==_iff n.stat 0).0 t))
    | inr g ↦
        subst (λ x. IsPinned name x.1) (some-injective (n.file_name, ns) r (rw t at e))
          (m, rw g at f, p)
  ]
  | inr t ↦ elim (Option-cases (evict_first ns)) [
    | inl h ↦ absurd (no_result (rw (t, h) at e))
    | inr (r1, h) ↦
        subst (λ x. IsPinned name x.1) (some-injective (r1.0, n ∷ r1.1) r (rw (t, h) at e))
          (elim (Bool-cases (n.file_name == name)) [
            | inl g ↦ (m, rw g (rw g at f), p)
            | inr g ↦
                let (m2, f2, p2) = evict_first-keeps name ns r1 h (m, rw g at f, p) in
                (m2, rw g f2, p2)
          ])
  ]
]

evict-keeps :
    (files : Files) (fuel size name : ℕ) (c c' : FileCache)
    → evict files fuel size c ≡ some c'
    → IsPinned name c.cache_map
    → IsPinned name c'.cache_map
unfolding evict
evict-keeps files zero size name c c' e k = absurd cc
evict-keeps files (suc fuel) size name c c' e k =
    elim (Bool-cases (ltb c.max_size (add_size c.bytes_used size))) [
      | inl t ↦ elim (Option-cases (evict_first c.cache_map)) [
        | inl f ↦
            subst (λ x. IsPinned name x.cache_map) (some-injective _ _ (rw (evict, t, f) at e)) k
        | inr (r, f) ↦
            evict-keeps files fuel size name _ c' (rw (evict, t, f) at e)
              (evict_first-keeps name c.cache_map r f k)
      ]
      | inr t ↦ subst (λ x. IsPinned name x.cache_map) (some-injective _ _ (rw (evict, t) at e)) k
    ]

insert_node-keeps :
    (name other size : ℕ) (buf : Buffer) (c : FileCache)
    → IsPinned other c.cache_map
    → IsPinned other (insert_node name size buf c).1.cache_map
unfolding insert_node find
insert_node-keeps name other size buf c (m, f, p) = elim (Option-cases (find name c.cache_map)) [
  | inl g ↦ elim (Bool-cases (name == other)) [
    | inl h ↦
        absurd (no_result (sym g ∙ ap (λ x. find x c.cache_map) ((==_iff name other).0 h) ∙ f))
    | inr h ↦ rw (insert_node, g) (m, rw (find, h) f, p)
  ]
  | inr (n, g) ↦ rw (insert_node, g) (m, f, p)
]

-- A file that is in the cache and pinned is in the cache and pinned after the insertion of pin of
-- any file, where that ends.
pub pin_insert-keeps :
    (files : Files) (name other : ℕ) (buf : Buffer) (c : FileCache) (r : Option Buffer × FileCache)
    → pin_insert files name buf c ≡ some r
    → IsPinned other c.cache_map
    → IsPinned other r.1.cache_map
unfolding pin_insert
pin_insert-keeps files name other buf c r e k =
    elim (Option-cases (evict files (length c.cache_map + 1) (file_size files name) c)) [
      | inl f ↦ absurd (no_result (rw f at e))
      | inr (c1, f) ↦
          let k1 =
            evict-keeps files (length c.cache_map + 1) (file_size files name) other c c1 f k in
          elim (Bool-cases (leb (add_size c1.bytes_used (file_size files name)) c1.max_size)) [
            | inl t ↦
                subst (λ x. IsPinned other x.1.cache_map) (some-injective _ r (rw (f, t) at e))
                  (insert_node-keeps name other (file_size files name) buf c1 k1)
            | inr t ↦
                subst (λ x. IsPinned other x.1.cache_map) (some-injective _ r (rw (f, t) at e)) k1
          ]
    ]
