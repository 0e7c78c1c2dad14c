-- ===== src/LruCache/Invariant.antt =====
-- What holds of a cache of src/utils/cache.h between two operations.
use lc.Base.{
  ℕ, ◌+◌, ◌≤◌, ◌<◌, ◌≡◌, refl, true, false, ◌&&◌, ◌||◌, ◌==◌, arith, List, [], ◌∷◌, length,
}
use lc.LruCache.{Ptr, Key, LruCache, bucket, make}
use lc.Base.Distinct.{has, Unique, length_le, apart}
use lc.LruCache.Chain.{Chain}
use lc.LruCache.Queue.{Queue}

-- The cache holds the items `q`, from the newest to the oldest, and the evicted items `ev`, which are
-- pinned; slot `b` of the hash table leads through the items `ch b`.
pub record IsCache (hasher : Key → ℕ) (c : LruCache) (q ev : List Ptr) (ch : ℕ → List Ptr)
    : Type 0 where
  pub queue : Queue c.next_in_queue c.prev_in_queue c.lru_head 0 c.lru_tail q
  pub queue_unique : Unique q
  pub evicted : Chain c.next_in_hash c.evicted_head ev
  pub evicted_unique : Unique ev
  pub chains : (b : ℕ) → Chain c.next_in_hash (c.hash b) (ch b)
  pub chains_unique : (b : ℕ) → Unique (ch b)
  pub placed : (b : ℕ) (a : Ptr) → has a (ch b) ≡ (has a q && (bucket hasher c (c.key a) == b))
  pub separate : (a : Ptr) → (has a q && has a ev) ≡ false
  pub live : (a : Ptr) → c.live a ≡ (has a q || has a ev)
  pub null_dead : c.live 0 ≡ false
  pub below_fresh : (a : Ptr) → c.live a ≡ true → a < c.fresh
  pub fresh_not_null : (c.fresh == 0) ≡ false
  pub size : c.size ≡ length q
  pub allocated : c.allocated ≡ length q + length ev
  pub fits : c.size ≤ c.capacity
  pub keys : (a b : Ptr) → has a q ≡ true → has b q ≡ true → (c.key a == c.key b) ≡ true → a ≡ b
  pub pinned : (a : Ptr) → has a ev ≡ true → (c.pins a == 0) ≡ false

-- A new cache is empty.
pub make-IsCache :
    (hasher : Key → ℕ) (capacity : ℕ) → IsCache hasher (make capacity) [] [] (λ b. [])
unfolding make
make-IsCache hasher capacity = record {
  queue = (refl, refl);
  queue_unique = tt;
  evicted = refl;
  evicted_unique = tt;
  chains = λ b. refl;
  chains_unique = λ b. tt;
  placed = λ b a. refl;
  separate = λ a. refl;
  live = λ a. refl;
  null_dead = refl;
  below_fresh = λ a h. cc;
  fresh_not_null = refl;
  size = refl;
  allocated = refl;
  fits = omega arith;
  keys = λ a b h. cc;
  pinned = λ a h. cc;
}

module _ {hasher : Key → ℕ} {c : LruCache} {q ev : List Ptr} {ch : ℕ → List Ptr}
    (v : IsCache hasher c q ev ch) where
  pub in_chain : (b : ℕ) (a : Ptr) → has a (ch b) ≡ true → has a q ≡ true
  in_chain b a h = ground (arith, v.placed b a, h)

  pub live_in : (a : Ptr) → has a q ≡ true → c.live a ≡ true
  live_in a h = ground (arith, v.live a, h)

  pub null_out : has 0 q ≡ false
  null_out = ground (arith, v.live 0, v.null_dead)

  pub null_out_evicted : has 0 ev ≡ false
  null_out_evicted = ground (arith, v.live 0, v.null_dead)

  pub queue_apart : Unique (0 ∷ q)
  queue_apart = (null_out, v.queue_unique)

  -- A chain is no longer than the queue.
  pub chain-length : (b : ℕ) → length (ch b) ≤ c.size
  chain-length b = omega (arith, v.size, length_le (ch b) q (v.chains_unique b) (in_chain b))

  pub not_null : (a : Ptr) → has a q ≡ true → (a == 0) ≡ false
  not_null a h = ground (arith, apart 0 a q null_out h)

  pub own_chain : (a : Ptr) → has a q ≡ true → has a (ch (bucket hasher c (c.key a))) ≡ true
  own_chain a h = ground (arith, v.placed (bucket hasher c (c.key a)) a, h)

  -- The pins of the items on the queue are free.
  pub repin :
      (pins : Ptr → ℕ)
      → ((a : Ptr) → has a ev ≡ true → (pins a == 0) ≡ false)
      → IsCache hasher (record c { pins = pins }) q ev ch
  repin pins held = record {
    queue = v.queue;
    queue_unique = v.queue_unique;
    evicted = v.evicted;
    evicted_unique = v.evicted_unique;
    chains = v.chains;
    chains_unique = v.chains_unique;
    placed = v.placed;
    separate = v.separate;
    live = v.live;
    null_dead = v.null_dead;
    below_fresh = v.below_fresh;
    fresh_not_null = v.fresh_not_null;
    size = v.size;
    allocated = v.allocated;
    fits = v.fits;
    keys = v.keys;
    pinned = held;
  }
