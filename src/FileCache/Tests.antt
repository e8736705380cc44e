-- ===== src/FileCache/Tests.antt =====
-- The cache at concrete files, and its theorems there.
use multicore_programming_la.Common.{
  ℕ, zero, suc, ◌≡◌, refl, ap, Option, none, some, [], ◌∷◌, length, arith,
}
use multicore_programming_la.Buffer.{Chunk, Buffer, create, add_size}
use multicore_programming_la.FileCache.{
  Files, file_size, FileCache, create_cache, pin_insert, evict, evict_first, find,
}
use multicore_programming_la.FileCache.Accounting.{
  IsAccounted, create_cache-IsAccounted, pin_insert-IsAccounted,
}
use multicore_programming_la.FileCache.Pinned.{IsPinned, pin_insert-keeps}
use multicore_programming_la.HazardPointers.{copies}

abbrev raw : Chunk
raw i = 0

-- A file of 5000 bytes.
length-copies : (n x : ℕ) → length (copies n x) ≡ n
unfolding copies
length-copies zero x = refl
length-copies (suc n) x = ap suc (length-copies n x)

-- Two files, of 2 bytes and of 3, and a cache of 4 bytes.
abbrev files : Files
files zero = some (1 ∷ 2 ∷ [])
files (suc n) = some (3 ∷ 4 ∷ 5 ∷ [])

abbrev empty : Buffer
empty = create raw

pin_insert-IsAccounted_example :
    (r : Option Buffer × FileCache) × (pin_insert files 0 empty (create_cache 4) ≡ some r)
    × IsAccounted files r.1
    × (r.1.max_size ≡ 4)
unfolding create_cache file_size
pin_insert-IsAccounted_example =
    pin_insert-IsAccounted files 0 empty (create_cache 4) (create_cache-IsAccounted files 4)
      (omega arith)

abbrev pinned : FileCache
pinned = record {
  max_size = 4;
  bytes_used = 2;
  num_pins = 1;
  num_hits = 0;
  num_failed = 0;
  cache_map = record { file_name = 0; buf = empty; stat = 1 } ∷ [];
}

-- The second file does not fit beside the first one.
second_fails : pin_insert files 1 empty pinned ≡ some (none, record pinned { num_failed = 1 })
unfolding pin_insert evict evict_first file_size add_size
second_fails = refl

pin_insert-keeps_example : IsPinned 0 (record pinned { num_failed = 1 }).cache_map
unfolding find
pin_insert-keeps_example =
    pin_insert-keeps files 1 0 empty pinned (none, record pinned { num_failed = 1 }) second_fails
      (record { file_name = 0; buf = empty; stat = 1 }, refl, (λ e. omega (arith, e)))
