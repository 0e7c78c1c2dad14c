-- ===== src/Tests/Cache.antt =====
-- The theorems on the LRU cache at concrete caches.
use lc.Base.{
  ℕ, ◌+◌, ◌≡◌, refl, false, List, [], ◌∷◌, arith, Option, some, ◌==◌, ◌&&◌, if◌then◌else◌, ◌>>=◌,
}
use lc.LruCache.{
  Ptr, Key, LruCache, make, insert, add_item, contains_key, lookup_and_pin, unpin, set_capacity,
  get_size, rehash, rehash_chain, find, update, insert_into_lru, shrink, hash_size_for,
}
use lc.LruCache.Invariant.{IsCache, make-IsCache, repin}
use lc.Base.Distinct.{has}
use lc.LruCache.Add.{add_item-IsCache, chains_with}
use lc.LruCache.Entries.{entries, value_of, has_key}
use lc.LruCache.Insert.{Inserted, insert_lem}
use lc.LruCache.Find.{lookup_and_pin_lem}
use lc.LruCache.Unpin.{Held, Unpinned, unpin_lem}
use lc.LruCache.Lock.{LruCacheLock, lock, unlock, holds, unlock-lock, Released}
use lc.LruCache.Reachable.{Reachable}
use lc.LruCache.Resize.{rehash_chain-taken}

-- The hash function of small numbers.
abbrev ident : Key → ℕ
ident k = k

abbrev new : LruCache
new = make 1

-- One entry, in a cache for one.
abbrev one : LruCache
one = add_item ident new 5 70

abbrev one_chains : ℕ → List Ptr
one_chains = chains_with (make-IsCache ident 1) 5 70

one-IsCache : IsCache ident one (1 ∷ []) [] one_chains
unfolding make
one-IsCache = add_item-IsCache (make-IsCache ident 1) 5 70 (λ a h. cc) (omega arith)

insert_lem_example :
    (d : LruCache) × (insert ident one 6 71 ≡ some d) × Inserted ident one (1 ∷ []) [] 6 71 d
unfolding make add_item insert_into_lru
insert_lem_example = insert_lem one-IsCache 6 71 refl

lookup_and_pin_lem_example :
    (d : LruCache) × (lookup_and_pin ident one 5 ≡ some (value_of 5 (entries one (1 ∷ [])), d))
    × IsCache ident d (1 ∷ []) [] one_chains
    × (entries d (1 ∷ []) ≡ entries one (1 ∷ []))
    × ((a : Ptr)
        → d.pins a ≡ (if has a (1 ∷ []) && (5 == one.key a) then one.pins a + 1 else one.pins a))
unfolding make add_item insert_into_lru
lookup_and_pin_lem_example = lookup_and_pin_lem one-IsCache 5 refl

-- The same cache with the entry pinned.
abbrev one_pinned : LruCache
one_pinned = record one { pins = update one.pins 1 1 }

one_pinned-IsCache : IsCache ident one_pinned (1 ∷ []) [] one_chains
one_pinned-IsCache = repin one-IsCache (update one.pins 1 1) (λ a h. cc)

one_pinned-Held : Held one_pinned-IsCache 5 70
unfolding make add_item insert_into_lru
one_pinned-Held = record { owner = 1; kept = refl; owns = refl; held = refl }

unpin_lem_example :
    (d : LruCache) × (unpin ident one_pinned 5 70 ≡ some d)
    × Unpinned ident one_pinned (1 ∷ []) [] one_chains 5 70 d
unpin_lem_example = unpin_lem one_pinned-IsCache 5 70 one_pinned-Held

unlock-lock_example :
    (l : LruCacheLock) × (d e : LruCache) × (lock ident one 5 ≡ some (l, d))
    × (unlock ident d l ≡ some e)
    × (holds l ≡ has_key 5 (entries one (1 ∷ [])))
    × (l.value ≡ value_of 5 (entries one (1 ∷ [])))
    × Released ident one (1 ∷ []) [] one_chains e
unfolding make add_item insert_into_lru
unlock-lock_example = unlock-lock one-IsCache 5 refl (λ a h. cc) (λ h. refl)

rehash_chain-taken_example :
    (next' : Ptr → Ptr) × (new_hash' : ℕ → Ptr) × (rehash_chain 5 (λ p. 0) (λ p. 0) (λ b. 2) 1 1
      ≡ some (next', new_hash'))
    × (next' 1 ≡ 1)
    × (new_hash' 0 ≡ 1)
rehash_chain-taken_example =
    rehash_chain-taken (λ p. 0) 1 refl 5 (λ p. 0) (λ b. 2) 2 [] refl (refl, refl, refl)
      (omega arith)

-- A cache with the keys 0 and 6 in one chain.
abbrev two : Option LruCache
two = insert ident (make 4) 0 70 >>= λ c. insert ident c 6 71

-- With a new capacity, key 0 is not found any more, though its item is still on the queue.
set_capacity_test :
    (two >>= λ c. set_capacity ident 5 c >>= λ d. contains_key ident d 0) ≡ some false
unfolding make add_item insert_into_lru insert find shrink set_capacity rehash rehash_chain
    contains_key hash_size_for
set_capacity_test = refl

set_capacity_size_test : (two >>= λ c. set_capacity ident 5 c >>= λ d. some (get_size d)) ≡ some 2
unfolding make add_item insert_into_lru insert find shrink set_capacity rehash rehash_chain
    hash_size_for
set_capacity_size_test = refl
