-- ===== src/NameServer/Index.antt =====
-- name/hash_cache.c and `find_file_slot` of name/catalog.c: the hash map and the cache by which the
-- naming server finds a file's slot in the catalog.
pub mod View
pub mod Runs
use distributed_document_sys.Base.{
  ℕ, suc, ◌+◌, ◌-◌, ◌*◌, ◌%◌, ◌^◌, ◌≡◌, Bool, true, false, ◌&&◌, Option, none, some, List, [], ◌∷◌,
  ltb, if◌then◌else◌, update, CString, str_eq,
}

abbrev pub hash_size : ℕ
hash_size = 1024

abbrev pub cache_size : ℕ
cache_size = 5

pub record HashNode : Type 0 where
  pub key : CString
  pub slot_index : ℕ

pub record CacheEntry : Type 0 where
  pub valid : Bool
  pub key : CString
  pub slot_index : ℕ

-- `hash_table` and `lru_cache`; a bucket is its chain, from the head.
pub record Index : Type 0 where
  pub hash_table : ℕ → List HashNode
  pub lru_cache : List CacheEntry

-- A `char` widened to `unsigned long`: bytes from 128 up are negative.
unfoldable pub widen : ℕ → ℕ
widen c = if ltb c 128 then c else c + 2 ^ 64 - 256

hash_from : ℕ → CString → ℕ
unfolding widen
hash_from hash [] = hash
hash_from hash (c ∷ str) = hash_from ((hash * 32 % 2 ^ 64 + hash + widen c) % 2 ^ 64) str

unfoldable pub hash_func : CString → ℕ
unfolding hash_from
hash_func str = hash_from 5381 str % hash_size

-- The loop over `lru_cache` in `find_file_slot`.
unfoldable pub cache_find : CString → List CacheEntry → Option ℕ
cache_find name [] = none
cache_find name (e ∷ es) =
    if e.valid && str_eq e.key name then some e.slot_index else cache_find name es

-- The `for` loop that moves each entry one place to the right: the last one is lost.
shift_right : CacheEntry → List CacheEntry → List CacheEntry
shift_right e [] = []
shift_right e (x ∷ xs) = e ∷ shift_right x xs

unfoldable pub add_to_cache : CString → ℕ → Index → Index
unfolding shift_right
add_to_cache name slot ix = elim (cache_find name ix.lru_cache) [
  | some _ ↦ ix
  | none ↦ record ix {
    lru_cache = shift_right (record { valid = true; key = name; slot_index = slot }) ix.lru_cache;
  }
]

invalidate : CString → List CacheEntry → List CacheEntry
invalidate name [] = []
invalidate name (e ∷ es) =
    (if e.valid && str_eq e.key name then record e { valid = false } else e) ∷ invalidate name es

unfoldable pub invalidate_cache : CString → Index → Index
unfolding invalidate
invalidate_cache name ix = record ix { lru_cache = invalidate name ix.lru_cache }

unfoldable pub add_to_hashmap : CString → ℕ → Index → Index
add_to_hashmap name slot ix = record ix {
  hash_table =
      let b = hash_func name in
      update ix.hash_table b (record { key = name; slot_index = slot } ∷ ix.hash_table b);
}

-- The `while` loop of `remove_from_hashmap`: the first node with the key is unlinked.
unlink : CString → List HashNode → List HashNode
unlink name [] = []
unlink name (n ∷ ns) = if str_eq n.key name then ns else n ∷ unlink name ns

unfoldable pub remove_from_hashmap : CString → Index → Index
unfolding unlink
remove_from_hashmap name ix = record ix {
  hash_table = let b = hash_func name in update ix.hash_table b (unlink name (ix.hash_table b));
}

-- The `while` loop over a bucket in `find_file_slot`.
unfoldable pub chain_find : CString → List HashNode → Option ℕ
chain_find name [] = none
chain_find name (n ∷ ns) = if str_eq n.key name then some n.slot_index else chain_find name ns

-- A hit in the bucket is copied to the cache; the second component is the index afterwards.
unfoldable pub find_file_slot : CString → Index → Option ℕ × Index
find_file_slot name ix = elim (cache_find name ix.lru_cache) [
  | some slot ↦ (some slot, ix)
  | none ↦ elim (chain_find name (ix.hash_table (hash_func name))) [
    | some slot ↦ (some slot, add_to_cache name slot ix)
    | none ↦ (none, ix)
  ]
]

-- `init_server_state`: no chain, and no valid entry in the cache.
unfoldable pub empty : Index
empty = record { hash_table = λ _. []; lru_cache = blank ∷ blank ∷ blank ∷ blank ∷ blank ∷ [] }
  where
    blank : CacheEntry
    blank = record { valid = false; key = []; slot_index = 0 }
