-- ===== src/FileCache.antt =====
-- file_cache.hpp and file_cache.cpp: a cache of whole files in buffers. A file name is a number that
-- stands for the string, since the code only compares and passes names. The file system is a
-- parameter: the bytes of each file that can be opened. A call of `pin` gives its lock up between the
-- lookup and the insertion, which are two steps.
pub mod Load
pub mod Accounting
pub mod Pinned
mod Tests
use mathlib.Core.Option
use multicore_programming_la.Common.{
  ℕ, zero, suc, ◌+◌, ◌-◌, Bool, true, false, Option, none, some, List, [], ◌∷◌, ltb, leb, ◌==◌,
  if◌then◌else◌, length, take, drop,
}
use multicore_programming_la.Buffer.{
  Chunk, Buffer, block_size, write_size, reserve, advance, create, add_size, sub_size,
}
use multicore_programming_la.Buffer.Reserve.{fill}

abbrev pub Files : Type 0
Files = ℕ → Option (List ℕ)

-- `getFileSize`: 0 where the file cannot be opened.
unfoldable pub file_size : Files → ℕ → ℕ
file_size files name = elim (files name) [ none ↦ 0 | some bytes ↦ length bytes ]

module _ (raw : Chunk) where
  -- The loop of `loadFileToBuffer`: `read` gets as many of the bytes that follow as fit.
  unfoldable pub load_loop : ℕ → ℕ → List ℕ → Buffer → Option Buffer
  load_loop zero to_read rest b = none
  load_loop (suc fuel) zero rest b = some b
  load_loop (suc fuel) (suc n) rest b =
      let b1 = (reserve raw block_size b).1 in
      let got = take (write_size b1) rest in
      load_loop fuel (sub_size (suc n) (length got)) (drop (length got) rest) (fill raw got b1)

  -- `loadFileToBuffer`, of a file with these bytes.
  unfoldable pub load_file : List ℕ → Option Buffer
  load_file bytes =
      Option.map (λ b. (advance (length bytes) b).1)
        (load_loop (length bytes + 1) (length bytes) bytes (create raw))

-- `FileCache::Node`
pub record Node : Type 0 where
  pub file_name : ℕ
  pub buf : Buffer
  pub stat : ℕ

pub record FileCache : Type 0 where
  pub max_size : ℕ
  pub bytes_used : ℕ
  pub num_pins : ℕ
  pub num_hits : ℕ
  pub num_failed : ℕ
  pub cache_map : List Node

-- `FileCache(int max_size)`
unfoldable pub create_cache : ℕ → FileCache
create_cache max_size = record {
  max_size = max_size;
  bytes_used = 0;
  num_pins = 0;
  num_hits = 0;
  num_failed = 0;
  cache_map = [];
}

-- `cache_map_.find`
unfoldable pub find : ℕ → List Node → Option Node
find name [] = none
find name (n ∷ ns) = if n.file_name == name then some n else find name ns

-- A change of `stat` of the node with a name.
unfoldable pub with_stat : (ℕ → ℕ) → ℕ → List Node → List Node
with_stat change name [] = []
with_stat change name (n ∷ ns) =
    if n.file_name == name
    then record n { stat = change n.stat } ∷ ns
    else n ∷ with_stat change name ns

-- `pin` up to the end of its read lock: the buffer of a file that is in the cache.
unfoldable pub pin_lookup : ℕ → FileCache → Option Buffer × FileCache
pin_lookup name c =
    let c1 = record c { num_pins = c.num_pins + 1 } in
    elim (find name c.cache_map) [
      | none ↦ (none, c1)
      | some n ↦ (
        some n.buf,
        record c1 {
          num_hits = c.num_hits + 1;
          cache_map = with_stat (λ s. s + 1) name c.cache_map;
        },
      )
    ]

-- The first buffer that is not pinned, with its file name, and the map without it.
unfoldable pub evict_first : List Node → Option (ℕ × List Node)
evict_first [] = none
evict_first (n ∷ ns) =
    if n.stat == 0
    then some (n.file_name, ns)
    else Option.map (λ r. (r.0, n ∷ r.1)) (evict_first ns)

-- The loop that makes space; `none` is fuel that ran out.
unfoldable pub evict : Files → ℕ → ℕ → FileCache → Option FileCache
evict files zero size c = none
evict files (suc fuel) size c = elim (ltb c.max_size (add_size c.bytes_used size)) [
  | false ↦ some c
  | true ↦ elim (evict_first c.cache_map) [
    | none ↦ some c
    | some r ↦
        evict files fuel size
          (record c { bytes_used = sub_size c.bytes_used (file_size files r.0); cache_map = r.1 })
  ]
]

-- `cache_map_.insert`, where there is space: `none` where another thread has put the file in.
unfoldable pub insert_node : ℕ → ℕ → Buffer → FileCache → Option Buffer × FileCache
insert_node name size buf c = elim (find name c.cache_map) [
  | none ↦ (
    some buf,
    record c {
      bytes_used = add_size c.bytes_used size;
      cache_map = record { file_name = name; buf = buf; stat = 1 } ∷ c.cache_map;
    },
  )
  | some n ↦ (none, c)
]

-- `pin` under its write lock, of a file that was loaded: the buffer where the file is in the cache now.
unfoldable pub pin_insert : Files → ℕ → Buffer → FileCache → Option (Option Buffer × FileCache)
pin_insert files name buf c =
    let size = file_size files name in
    Option.map
      (λ c1.
        if leb (add_size c1.bytes_used size) c1.max_size
        then insert_node name size buf c1
        else (none, record c1 { num_failed = c1.num_failed + 1 }))
      (evict files (length c.cache_map + 1) size c)

-- `unpin`: `none` is the FATAL message for a file that is not pinned.
unfoldable pub unpin : ℕ → FileCache → Option FileCache
unpin name c = elim (find name c.cache_map) [
  | none ↦ some c
  | some n ↦
      if n.stat == 0
      then none
      else some (record c { cache_map = with_stat (λ s. s - 1) name c.cache_map })
]
