-- ===== src/NameServer/Index/View.antt =====
-- The index of name/hash_cache.c as a finite map from file names to slots, whatever is cached.
use distributed_document_sys.Base.{
  inl, sym, inr, true, Option-cases, ℕ, suc, ◌+◌, ◌≤◌, ◌<◌, ◌≡◌, refl, ap, Option, none, some, List,
  [], ◌∷◌, arith, length, if◌then◌else◌, CString, str_eq,
}
use distributed_document_sys.NameServer.Index.{
  add_to_cache, find_file_slot, invalidate_cache, remove_from_hashmap, add_to_hashmap, empty, Index,
  HashNode, CacheEntry, hash_size, cache_size, hash_func, cache_find, shift_right, invalidate,
  unlink, chain_find,
}

-- The hash of every name is an index of the hash table.
pub hash_func-lt : (name : CString) → hash_func name < hash_size
unfolding hash_func
hash_func-lt name = omega arith

-- The map that the hash table alone stands for.
abbrev pub view : Index → CString → Option ℕ
view ix name = chain_find name (ix.hash_table (hash_func name))

-- How often a key stands in a chain.
unfoldable pub count : CString → List HashNode → ℕ
count name [] = 0
count name (n ∷ ns) = (if str_eq n.key name then 1 else 0) + count name ns

-- `agrees`: what the cache answers, the hash table answers too.
pub record IsValid (ix : Index) : Type 0 where
  pub agrees :
      (name : CString) (slot : ℕ)
      → cache_find name ix.lru_cache ≡ some slot
      → view ix name ≡ some slot
  pub once : (name : CString) → count name (ix.hash_table (hash_func name)) ≤ 1
  pub five : length ix.lru_cache ≡ cache_size

chain_find-count :
    (name : CString) (ns : List HashNode) → count name ns ≡ 0 → chain_find name ns ≡ none
unfolding chain_find count
chain_find-count name [] h = refl
chain_find-count name (n ∷ ns) h = ground (arith, chain_find-count name ns)

count-chain_find :
    (name : CString) (ns : List HashNode) → chain_find name ns ≡ none → count name ns ≡ 0
unfolding chain_find count
count-chain_find name [] h = refl
count-chain_find name (n ∷ ns) h = ground (arith, count-chain_find name ns)

chain_find-unlink :
    (name k : CString) (ns : List HashNode)
    → count k ns ≤ 1
    → chain_find k (unlink name ns) ≡ (if str_eq name k then none else chain_find k ns)
unfolding chain_find count unlink
chain_find-unlink name k [] h = ground arith
chain_find-unlink name k (n ∷ ns) h =
    ground (arith, chain_find-unlink name k ns, chain_find-count k ns)

count-unlink-le : (name k : CString) (ns : List HashNode) → count k (unlink name ns) ≤ count k ns
unfolding count unlink
count-unlink-le name k [] = omega arith
count-unlink-le name k (n ∷ ns) = ground (arith, count-unlink-le name k ns)

cache_find-shift_right :
    (k : CString) (slot : ℕ) (e : CacheEntry) (es : List CacheEntry)
    → cache_find k (shift_right e es) ≡ some slot
    → cache_find k (e ∷ es) ≡ some slot
unfolding cache_find shift_right
cache_find-shift_right k slot e [] h = ground arith
cache_find-shift_right k slot e (x ∷ xs) h = ground (arith, cache_find-shift_right k slot x xs)

length-shift_right : (e : CacheEntry) (es : List CacheEntry) → length (shift_right e es) ≡ length es
unfolding shift_right
length-shift_right e [] = refl
length-shift_right e (x ∷ xs) = ap suc (length-shift_right x xs)

cache_find-invalidate :
    (name k : CString) (es : List CacheEntry)
    → cache_find k (invalidate name es) ≡ (if str_eq name k then none else cache_find k es)
unfolding cache_find invalidate
cache_find-invalidate name k [] = ground arith
cache_find-invalidate name k (e ∷ es) = ground (arith, cache_find-invalidate name k es)

length-invalidate :
    (name : CString) (es : List CacheEntry) → length (invalidate name es) ≡ length es
unfolding invalidate
length-invalidate name [] = refl
length-invalidate name (e ∷ es) = ap suc (length-invalidate name es)

pub empty-IsValid : IsValid empty
unfolding empty cache_find count
empty-IsValid = record {
  agrees = λ name slot h. ground arith;
  once = λ name. omega arith;
  five = refl;
}

pub view-empty : (name : CString) → view empty name ≡ none
unfolding empty chain_find
view-empty name = refl

-- Adding a name that the map does not hold keeps the index valid and binds the name.
pub add_to_hashmap-view :
    (ix : Index) (name k : CString) (slot : ℕ)
    → view (add_to_hashmap name slot ix) k ≡ (if str_eq name k then some slot else view ix k)
unfolding add_to_hashmap chain_find
add_to_hashmap-view ix name k slot = ground arith

-- Adding a name that a valid index does not hold keeps the index valid.
pub add_to_hashmap-IsValid :
    (ix : Index) (name : CString) (slot : ℕ)
    → IsValid ix
    → view ix name ≡ none
    → IsValid (add_to_hashmap name slot ix)
unfolding add_to_hashmap chain_find count
add_to_hashmap-IsValid ix name slot v fresh = record {
  agrees = λ k s h. ground (arith, v.agrees k s);
  once = λ k. ground (arith, v.once k, count-chain_find k (ix.hash_table (hash_func k)));
  five = v.five;
}

pub remove_from_hashmap-view :
    (ix : Index) (name k : CString)
    → IsValid ix
    → view (remove_from_hashmap name ix) k ≡ (if str_eq name k then none else view ix k)
unfolding remove_from_hashmap
remove_from_hashmap-view ix name k v =
    ground (arith, v.once k, chain_find-unlink name k (ix.hash_table (hash_func k)))

-- `remove_from_hashmap(f); invalidate_cache(f);`, as every caller but the heartbeat does.
abbrev pub forget : CString → Index → Index
forget name ix = invalidate_cache name (remove_from_hashmap name ix)

-- In a valid index, removing a name from hash map and cache makes that name unknown and keeps
-- the answer for every other.
pub forget-view :
    (ix : Index) (name k : CString)
    → IsValid ix
    → view (forget name ix) k ≡ (if str_eq name k then none else view ix k)
unfolding invalidate_cache
forget-view ix name k v = remove_from_hashmap-view ix name k v

-- Removing a name from the hash map and the cache keeps the index valid.
pub forget-IsValid : (ix : Index) (name : CString) → IsValid ix → IsValid (forget name ix)
unfolding invalidate_cache remove_from_hashmap
forget-IsValid ix name v = record {
  agrees = λ k s h. ground (
    arith,
    v.agrees k s,
    v.once k,
    cache_find-invalidate name k ix.lru_cache,
    chain_find-unlink name k (ix.hash_table (hash_func k)),
  );
  once = λ k. ground (arith, v.once k, count-unlink-le name k (ix.hash_table (hash_func k)));
  five = ground (arith, v.five, length-invalidate name ix.lru_cache);
}

add_to_cache-IsValid :
    (ix : Index) (name : CString) (slot : ℕ)
    → IsValid ix
    → view ix name ≡ some slot
    → IsValid (add_to_cache name slot ix)
unfolding add_to_cache
add_to_cache-IsValid ix name slot v e =
    let new : CacheEntry = record { valid = true; key = name; slot_index = slot } in
    record {
      agrees = λ k s h.
          unfold cache_find in
          ground (arith, e, v.agrees k s, cache_find-shift_right k s new ix.lru_cache);
      once = λ k. ground (arith, v.once k);
      five = ground (arith, v.five, length-shift_right new ix.lru_cache);
    }

add_to_cache-view :
    (ix : Index) (name k : CString) (slot : ℕ) → view (add_to_cache name slot ix) k ≡ view ix k
unfolding add_to_cache
add_to_cache-view ix name k slot = ground arith

-- In a valid index a lookup through the cache answers as the hash table alone does, and
-- changes no answer of the hash table.
pub find_file_slot-view :
    (ix : Index) (name : CString)
    → IsValid ix
    → ((find_file_slot name ix).0 ≡ view ix name)
      × ((k : CString) → view (find_file_slot name ix).1 k ≡ view ix k)
unfolding find_file_slot
find_file_slot-view ix name v = elim (Option-cases (cache_find name ix.lru_cache)) [
  | inr (slot, hit) ↦ rw (hit, find_file_slot) (sym (v.agrees name slot hit), λ k. refl)
  | inl miss ↦ elim (Option-cases (view ix name)) [
    | inl absent ↦ rw (miss, absent, find_file_slot) (refl, λ k. refl)
    | inr (slot, hit) ↦ rw (miss, hit, find_file_slot) (refl, λ k. add_to_cache-view ix name k slot)
  ]
]

-- A lookup keeps the index valid: the cache agrees with the hash table, no name stands twice
-- in a chain, and the cache has five entries.
pub find_file_slot-IsValid :
    (ix : Index) (name : CString) → IsValid ix → IsValid (find_file_slot name ix).1
unfolding find_file_slot
find_file_slot-IsValid ix name v = elim (Option-cases (cache_find name ix.lru_cache)) [
  | inr (slot, hit) ↦ rw (hit, find_file_slot) v
  | inl miss ↦ elim (Option-cases (view ix name)) [
    | inl absent ↦ rw (miss, absent, find_file_slot) v
    | inr (slot, hit) ↦ rw (miss, hit, find_file_slot) (add_to_cache-IsValid ix name slot v hit)
  ]
]
