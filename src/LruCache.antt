-- ===== src/LruCache.antt =====
-- `LruCache` of src/utils/cache.h: a hash table of chained items, which are also on a list from the newest
-- to the oldest. The items are in a store, one map for each field; address 0 is the null pointer.
-- Keys are numbers, a value is the address of the object that the cache owns, and the hash function of
-- the standard library is an argument. `none` is a read or write through a pointer to no item, a failed
-- assertion, or a loop that does not end.
pub mod Chain
pub mod Queue
pub mod Invariant
pub mod Evict
pub mod Shrink
pub mod Entries
pub mod Find
pub mod Add
pub mod Insert
pub mod Spot
pub mod Unpin
pub mod Reachable
pub mod Resize
pub mod Lock
use lc.Base.{
  ℕ, zero, suc, ◌+◌, ◌-◌, ◌*◌, ◌/◌, ◌%◌, Bool, true, false, not, ◌&&◌, ◌||◌, ◌==◌, ltb, List, [],
  ◌∷◌, range, Option, none, some, if◌then◌else◌, ◌>>=◌,
}

abbrev pub Ptr : Type 0
Ptr = ℕ

abbrev pub Key : Type 0
Key = ℕ

abbrev pub update {ℓ} : {A : Type ℓ} → (ℕ → A) → ℕ → A → ℕ → A
update f p v q = if q == p then v else f q

pub record LruCache : Type 0 where
  pub capacity : ℕ
  pub size : ℕ
  pub allocated : ℕ
  -- Newest and oldest elements.
  pub lru_head : Ptr
  pub lru_tail : Ptr
  -- Evicted but pinned elements.
  pub evicted_head : Ptr
  pub hash : ℕ → Ptr
  pub hash_size : ℕ
  -- The fields of `Item`.
  pub key : Ptr → Key
  pub value : Ptr → Ptr
  pub pins : Ptr → ℕ
  pub next_in_hash : Ptr → Ptr
  pub prev_in_queue : Ptr → Ptr
  pub next_in_queue : Ptr → Ptr
  -- The addresses that hold an item, and the one that the next `new` returns.
  pub live : Ptr → Bool
  pub fresh : Ptr

-- static_cast<size_t>(capacity * kLoadFactor + 1), in exact arithmetic.
unfoldable pub hash_size_for : ℕ → ℕ
hash_size_for capacity = (capacity * 133 + 100) / 100

unfoldable pub make : ℕ → LruCache
make capacity = record {
  capacity = capacity;
  size = 0;
  allocated = 0;
  lru_head = 0;
  lru_tail = 0;
  evicted_head = 0;
  hash = λ b. 0;
  hash_size = hash_size_for capacity;
  key = λ p. 0;
  value = λ p. 0;
  pins = λ p. 0;
  next_in_hash = λ p. 0;
  prev_in_queue = λ p. 0;
  next_in_queue = λ p. 0;
  live = λ p. false;
  fresh = 1;
}

-- hasher_(key) % hash_.size()
abbrev pub bucket : (Key → ℕ) → LruCache → Key → ℕ
bucket hasher c k = hasher k % c.hash_size

-- The loop over a chain that looks for a key; null if there is none.
unfoldable pub find : ℕ → LruCache → Ptr → Key → Option Ptr
find zero c iter k = none
find (suc n) c iter k =
    let rest = find n c (c.next_in_hash iter) k in
    if iter == 0
    then some 0
    else if not (c.live iter)
    then none
    else if k == c.key iter
    then some iter
    else rest

-- The loop of `EvictItem` over the chain; `cur` is the address of the field of `prev`, or, for null, of
-- the slot of the table. The result is the slot and the field after it.
unfoldable pub take_out :
    ℕ → (Ptr → Bool) → (Ptr → Ptr) → Ptr → Ptr → Ptr → Ptr → Option (Ptr × (Ptr → Ptr))
take_out zero live next slot prev el item = none
take_out (suc n) live next slot prev el item =
    let rest = take_out n live next slot el (next el) item in
    if el == 0
    then none
    else if not (live el)
    then none
    else if el == item
    then (if prev == 0 then some (next el, next) else some (slot, update next prev (next el)))
    else rest

-- "Remove from LRU list."
unfoldable pub remove_from_lru : LruCache → Ptr → Option LruCache
remove_from_lru c item =
    let prev = c.prev_in_queue item in
    let next = c.next_in_queue item in
    if not (c.lru_head == item) && not (c.live prev)
    then none
    else if not (c.lru_tail == item) && not (c.live next)
    then none
    else some (record c {
      lru_head = if c.lru_head == item then next else c.lru_head;
      next_in_queue =
          if c.lru_head == item then c.next_in_queue else update c.next_in_queue prev next;
      lru_tail = if c.lru_tail == item then prev else c.lru_tail;
      prev_in_queue =
          if c.lru_tail == item then c.prev_in_queue else update c.prev_in_queue next prev;
    })

-- "Destroy or move into evicted list depending on whether it's pinned."
unfoldable pub destroy_or_keep : LruCache → Ptr → LruCache
destroy_or_keep c item =
    if c.pins item == 0
    then record c { allocated = c.allocated - 1; live = update c.live item false }
    else record c { next_in_hash = update c.next_in_hash item c.evicted_head; evicted_head = item }

unfoldable pub evict_item : (Key → ℕ) → LruCache → Ptr → Option LruCache
evict_item hasher c item = if not (c.live item) then none else do
  c1 ← remove_from_lru (record c { size = c.size - 1 }) item
  let b = bucket hasher c1 (c1.key item)
  (slot, next) ← take_out (suc c.size) c1.live c1.next_in_hash (c1.hash b) 0 (c1.hash b) item
  some (destroy_or_keep (record c1 { hash = update c1.hash b slot; next_in_hash = next }) item)

-- The loop of `ShrinkToCapacity`, with the rounds that are left for fuel.
unfoldable pub shrink : ℕ → (Key → ℕ) → ℕ → LruCache → Option LruCache
shrink zero hasher capacity c =
    if not (c.lru_tail == 0) && ltb capacity c.size then none else some c
shrink (suc n) hasher capacity c =
    let next = evict_item hasher c c.lru_tail >>= shrink n hasher capacity in
    if not (c.lru_tail == 0) && ltb capacity c.size then next else some c

abbrev pub shrink_to_capacity : (Key → ℕ) → ℕ → LruCache → Option LruCache
shrink_to_capacity hasher capacity c = shrink c.size hasher capacity c

unfoldable pub insert_into_lru : LruCache → Ptr → LruCache
insert_into_lru c iter = record c {
  next_in_queue = update c.next_in_queue iter c.lru_head;
  prev_in_queue =
      if c.lru_head == 0
      then update c.prev_in_queue iter 0
      else update (update c.prev_in_queue iter 0) c.lru_head iter;
  lru_head = iter;
  lru_tail = if c.lru_tail == 0 then iter else c.lru_tail;
}

-- `BringToFront`, which nothing calls.
unfoldable pub bring_to_front : LruCache → Ptr → Option LruCache
bring_to_front c iter =
    if c.lru_head == iter
    then some c
    else do d ← remove_from_lru c iter; some (insert_into_lru d iter)

-- The new item of `Insert`, in front of its chain and of the queue.
unfoldable pub add_item : (Key → ℕ) → LruCache → Key → Ptr → LruCache
add_item hasher c k v =
    let item = c.fresh in
    let b = bucket hasher c k in
    insert_into_lru
      (record c {
        size = c.size + 1;
        allocated = c.allocated + 1;
        key = update c.key item k;
        value = update c.value item v;
        pins = update c.pins item 0;
        live = update c.live item true;
        fresh = c.fresh + 1;
        next_in_hash = update c.next_in_hash item (c.hash b);
        hash = update c.hash b item;
      })
      item

unfoldable pub insert : (Key → ℕ) → LruCache → Key → Ptr → Option LruCache
insert hasher c k v = if c.capacity == 0 then some c else do
  iter ← find (suc c.size) c (c.hash (bucket hasher c k)) k
  c1 ← if iter == 0 then some c else evict_item hasher c iter
  c2 ← shrink_to_capacity hasher (c1.capacity - 1) c1
  some (add_item hasher c2 k v)

unfoldable pub contains_key : (Key → ℕ) → LruCache → Key → Option Bool
contains_key hasher c k =
    if c.capacity == 0
    then some false
    else do iter ← find (suc c.size) c (c.hash (bucket hasher c k)) k; some (not (iter == 0))

-- The value, or null, and the cache after it.
unfoldable pub lookup_and_pin : (Key → ℕ) → LruCache → Key → Option (Ptr × LruCache)
lookup_and_pin hasher c k = if c.capacity == 0 then some (0, c) else do
  iter ← find (suc c.size) c (c.hash (bucket hasher c k)) k
  some (
      if iter == 0
      then (0, c)
      else (c.value iter, record c { pins = update c.pins iter (c.pins iter + 1) }))

-- The loop over a list that looks for a key and a value: the item before it, or null, and the item, or
-- null.
unfoldable pub find_value : ℕ → LruCache → Ptr → Ptr → Key → Ptr → Option (Ptr × Ptr)
find_value zero c prev el k v = none
find_value (suc n) c prev el k v =
    let rest = find_value n c el (c.next_in_hash el) k v in
    if el == 0
    then some (prev, 0)
    else if not (c.live el)
    then none
    else if (k == c.key el) && (v == c.value el)
    then some (prev, el)
    else rest

-- What `Unpin` does to an evicted item: the last pin deletes it.
unfoldable pub unpin_evicted : LruCache → Ptr → Ptr → LruCache
unpin_evicted c prev el =
    if c.pins el == 1
    then record c {
      pins = update c.pins el 0;
      evicted_head = if prev == 0 then c.next_in_hash el else c.evicted_head;
      next_in_hash =
          if prev == 0 then c.next_in_hash else update c.next_in_hash prev (c.next_in_hash el);
      allocated = c.allocated - 1;
      live = update c.live el false;
    }
    else record c { pins = update c.pins el (c.pins el - 1) }

-- The same for an item that is not evicted; the assertions are that there is one, and that it is pinned.
unfoldable pub unpin_active : LruCache → Ptr → Option LruCache
unpin_active c iter =
    if (iter == 0) || (c.pins iter == 0)
    then none
    else some (record c { pins = update c.pins iter (c.pins iter - 1) })

unfoldable pub unpin : (Key → ℕ) → LruCache → Key → Ptr → Option LruCache
unpin hasher c k v = find_value (suc c.allocated) c 0 c.evicted_head k v >>= λ (prev, el).
    if el == 0
    then (find_value (suc c.size) c 0 (c.hash (bucket hasher c k)) k v >>= λ (before, iter).
        unpin_active c iter)
    else some (unpin_evicted c prev el)

-- The inner loop of `SetCapacity`: `iter` stays where it is while `head` goes on.
unfoldable pub rehash_chain :
    ℕ → (Ptr → ℕ) → (Ptr → Ptr) → (ℕ → Ptr) → Ptr → Ptr → Option ((Ptr → Ptr) × (ℕ → Ptr))
rehash_chain zero new_bucket next new_hash iter head =
    if head == 0 then some (next, new_hash) else none
rehash_chain (suc n) new_bucket next new_hash iter head =
    let b = new_bucket iter in
    let next' = update next iter (new_hash b) in
    let rest = rehash_chain n new_bucket next' (update new_hash b iter) iter (next' head) in
    if head == 0 then some (next, new_hash) else rest

-- The loop over the slots of the old table.
unfoldable pub rehash :
    ℕ → (Ptr → ℕ) → (ℕ → Ptr) → List ℕ → (Ptr → Ptr) → (ℕ → Ptr) → Option ((Ptr → Ptr) × (ℕ → Ptr))
rehash n new_bucket old [] next new_hash = some (next, new_hash)
rehash n new_bucket old (b ∷ bs) next new_hash =
    rehash_chain n new_bucket next new_hash (old b) (old b) >>= λ (next', new_hash').
    rehash n new_bucket old bs next' new_hash'

unfoldable pub set_capacity : (Key → ℕ) → ℕ → LruCache → Option LruCache
set_capacity hasher capacity c = if c.capacity == capacity then some c else do
  c1 ← shrink_to_capacity hasher capacity c
  let new_size = hash_size_for capacity
  (next, new_hash) ←
      if c1.size == 0
      then some (c1.next_in_hash, λ b. 0)
      else rehash (suc c1.fresh) (λ p. hasher (c1.key p) % new_size) c1.hash (range c1.hash_size)
          c1.next_in_hash (λ b. 0)
  some (record c1 {
    capacity = capacity;
    hash = new_hash;
    hash_size = new_size;
    next_in_hash = next;
  })

unfoldable pub clear : (Key → ℕ) → LruCache → Option LruCache
clear hasher c = shrink_to_capacity hasher 0 c

-- ~LruCache, with its assertions.
unfoldable pub destroy : (Key → ℕ) → LruCache → Option (Unit {0})
destroy hasher c = do
  c1 ← shrink_to_capacity hasher 0 c
  if (c1.size == 0) && (c1.allocated == 0) then some tt else none

abbrev pub get_size : LruCache → ℕ
get_size c = c.size

abbrev pub get_capacity : LruCache → ℕ
get_capacity c = c.capacity
