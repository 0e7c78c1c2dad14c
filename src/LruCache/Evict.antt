-- ===== src/LruCache/Evict.antt =====
-- `EvictItem` of src/utils/cache.h: the item leaves the queue and its chain, and is deleted unless it is pinned.
use lc.Base.{
  ℕ, suc, ◌-◌, ◌≡◌, refl, sym, ap, subst, ◌∙◌, true, false, ◌&&◌, ◌==◌, ==→eq, ==_refl, arith, List,
  ◌∷◌, length, some, Bool-cases, inl, inr, if◌then◌else◌,
}
use lc.LruCache.{Ptr, Key, LruCache, update, bucket, take_out, destroy_or_keep, evict_item}
use lc.Base.Distinct.{has, remove, Unique, apart, has-remove, remove-Unique, length-remove}
use lc.LruCache.Chain.{Chain, Chain-frame, Chain-update, take_out-Chain, Without}
use lc.LruCache.Queue.{Queue}
use lc.LruCache.Queue.Remove.{
  new_next, new_prev, new_head, new_tail, remove_from_lru-Queue, remove_from_lru-some,
}
use lc.LruCache.Invariant.{
  IsCache, in_chain, live_in, queue_apart, chain-length, not_null, own_chain,
}

-- The cache without the item on the queue, its chain replaced.
abbrev detached : (Key → ℕ) → LruCache → Ptr → Ptr → (Ptr → Ptr) → LruCache
detached hasher c item slot next = record c {
  size = c.size - 1;
  lru_head = new_head c item;
  next_in_queue = new_next c item;
  lru_tail = new_tail c item;
  prev_in_queue = new_prev c item;
  hash = update c.hash (bucket hasher c (c.key item)) slot;
  next_in_hash = next;
}

abbrev pub evicted_after : LruCache → Ptr → List Ptr → List Ptr
evicted_after c item ev = if c.pins item == 0 then ev else item ∷ ev

abbrev pub chains_after : (Key → ℕ) → LruCache → Ptr → (ℕ → List Ptr) → ℕ → List Ptr
chains_after hasher c item ch b =
    if bucket hasher c (c.key item) == b then remove item (ch b) else ch b

-- What eviction leaves alone.
pub record Keeps (c d : LruCache) : Type 0 where
  pub same_capacity : d.capacity ≡ c.capacity
  pub same_hash_size : d.hash_size ≡ c.hash_size
  pub same_key : d.key ≡ c.key
  pub same_value : d.value ≡ c.value
  pub same_pins : d.pins ≡ c.pins
  pub same_fresh : d.fresh ≡ c.fresh

pub Keeps-refl : (c : LruCache) → Keeps c c
Keeps-refl c = record {
  same_capacity = refl;
  same_hash_size = refl;
  same_key = refl;
  same_value = refl;
  same_pins = refl;
  same_fresh = refl;
}

pub Keeps-trans : {c d e : LruCache} → Keeps c d → Keeps d e → Keeps c e
Keeps-trans k l = record {
  same_capacity = l.same_capacity ∙ k.same_capacity;
  same_hash_size = l.same_hash_size ∙ k.same_hash_size;
  same_key = l.same_key ∙ k.same_key;
  same_value = l.same_value ∙ k.same_value;
  same_pins = l.same_pins ∙ k.same_pins;
  same_fresh = l.same_fresh ∙ k.same_fresh;
}

module _ {hasher : Key → ℕ} {c : LruCache} {q ev : List Ptr} {ch : ℕ → List Ptr}
    (v : IsCache hasher c q ev ch) (item : Ptr) (on : has item q ≡ true) where
  abbrev home : ℕ
  home = bucket hasher c (c.key item)

  taken :
      (slot : Ptr) × (next : Ptr → Ptr) × (take_out
          (suc c.size)
          c.live
          c.next_in_hash
          (c.hash home)
          0
          (c.hash home)
          item
        ≡ some (slot, next))
      × Without c.next_in_hash item (ch home) slot next
  taken =
      take_out-Chain (suc c.size) c.live c.next_in_hash (c.hash home) item (ch home)
        (v.chains_unique home) (v.chains home) (λ a h. live_in v a (in_chain v home a h))
        (own_chain v item on) (omega (arith, chain-length v home))

  abbrev result : LruCache
  result = destroy_or_keep (detached hasher c item taken.0 taken.1) item

  evict_item-some : evict_item hasher c item ≡ some result
  unfolding evict_item
  evict_item-some =
      rw
        (
          live_in v item on,
          remove_from_lru-some (record c { size = c.size - 1 }) item q (queue_apart v) v.queue on
              (live_in v),
        )
        (rw taken.2 refl)

  others : (b : ℕ) → (home == b) ≡ false → (a : Ptr) → has a (ch b) ≡ true → has a (ch home) ≡ false
  others b e a h = ground (arith, v.placed b a, v.placed home a, h)

  -- The queue and the chains without the item, and the evicted items, which are on no chain.
  queue' :
      Queue
        (new_next c item)
        (new_prev c item)
        (new_head c item)
        0
        (new_tail c item)
        (remove item q)
  queue' = remove_from_lru-Queue c item q (queue_apart v) v.queue on

  chains' : (b : ℕ) → Chain taken.1 (update c.hash home taken.0 b) (chains_after hasher c item ch b)
  chains' b = elim (Bool-cases (home == b)) [
    | inl e ↦
        let same : home ≡ b = ==→eq home b e in
        let back : (b == home) ≡ true = ground (arith, e) in
        rw (e, back) (subst (λ i. Chain taken.1 taken.0 (remove item (ch i))) same taken.3.chain)
    | inr e ↦
        let back : (b == home) ≡ false = ground (arith, e) in
        rw (e, back)
          (Chain-frame c.next_in_hash taken.1 (c.hash b) (ch b)
            (λ a h. taken.3.same a (others b e a h)) (v.chains b))
  ]

  chains-Unique' : (b : ℕ) → Unique (chains_after hasher c item ch b)
  chains-Unique' b = elim (Bool-cases (home == b)) [
    | inl e ↦ rw e (remove-Unique item (ch b) (v.chains_unique b))
    | inr e ↦ rw e (v.chains_unique b)
  ]

  placed' :
      (b : ℕ) (a : Ptr)
      → has a (chains_after hasher c item ch b)
        ≡ (has a (remove item q) && (bucket hasher c (c.key a) == b))
  placed' b a = elim (Bool-cases (home == b)) [
    | inl e ↦
        rw (e, has-remove item a (ch b) (v.chains_unique b), has-remove item a q v.queue_unique)
          (ground (arith, v.placed b a))
    | inr e ↦ elim (Bool-cases (item == a)) [
      | inl g ↦
          let at : bucket hasher c (c.key a) ≡ home =
            ap (λ x. bucket hasher c (c.key x)) (sym (==→eq item a g)) in
          rw (e, has-remove item a q v.queue_unique) (ground (arith, v.placed b a, at))
      | inr g ↦ rw (e, has-remove item a q v.queue_unique) (ground (arith, v.placed b a))
    ]
  ]

  evicted' : Chain taken.1 c.evicted_head ev
  evicted' =
      Chain-frame c.next_in_hash taken.1 c.evicted_head ev
        (λ a h. taken.3.same a (ground (arith, v.separate a, h, v.placed home a))) v.evicted

  item_out : has item (remove item q) ≡ false
  item_out = ground (arith, has-remove item item q v.queue_unique, ==_refl item)

  item_new : has item ev ≡ false
  item_new = ground (arith, v.separate item, on)

  shorter : suc (length (remove item q)) ≡ length q
  shorter = length-remove item q on

  deleted :
      (c.pins item == 0) ≡ true
      → IsCache hasher
          (record (detached hasher c item taken.0 taken.1) {
            allocated = c.allocated - 1;
            live = update c.live item false;
          })
          (remove item q)
          ev
          (chains_after hasher c item ch)
  deleted free = record {
    queue = queue';
    queue_unique = remove-Unique item q v.queue_unique;
    evicted = evicted';
    evicted_unique = v.evicted_unique;
    chains = chains';
    chains_unique = chains-Unique';
    placed = placed';
    separate = λ a. ground (arith, v.separate a, has-remove item a q v.queue_unique);
    live = λ a. ground (
      arith,
      v.live a,
      v.separate a,
      has-remove item a q v.queue_unique,
      apart item a ev item_new,
    );
    null_dead = ground (arith, v.null_dead);
    below_fresh = λ a h. v.below_fresh a (ground (arith, h));
    fresh_not_null = v.fresh_not_null;
    size = omega (arith, v.size, shorter);
    allocated = omega (arith, v.allocated, shorter);
    fits = omega (arith, v.fits);
    keys = λ a b h g.
        v.keys a b (ground (arith, has-remove item a q v.queue_unique, h))
          (ground (arith, has-remove item b q v.queue_unique, g));
    pinned = v.pinned;
  }

  kept :
      (c.pins item == 0) ≡ false
      → IsCache hasher
          (record (detached hasher c item taken.0 taken.1) {
            next_in_hash = update taken.1 item c.evicted_head;
            evicted_head = item;
          })
          (remove item q)
          (item ∷ ev)
          (chains_after hasher c item ch)
  kept held = record {
    queue = queue';
    queue_unique = remove-Unique item q v.queue_unique;
    evicted = (
      refl,
      not_null v item on,
      rw (==_refl item)
          (Chain-update taken.1 c.evicted_head item c.evicted_head ev item_new evicted'),
    );
    evicted_unique = (item_new, v.evicted_unique);
    chains = λ b.
        Chain-update taken.1 (update c.hash home taken.0 b) item c.evicted_head
          (chains_after hasher c item ch b) (ground (arith, placed' b item, item_out)) (chains' b);
    chains_unique = chains-Unique';
    placed = placed';
    separate = λ a. ground (arith, v.separate a, has-remove item a q v.queue_unique);
    live = λ a. elim (Bool-cases (item == a)) [
      | inl e ↦
          let here = ap (λ x. has x q) (==→eq item a e) in ground (arith, v.live a, here, on, e)
      | inr e ↦ ground (arith, v.live a, has-remove item a q v.queue_unique)
    ];
    null_dead = v.null_dead;
    below_fresh = v.below_fresh;
    fresh_not_null = v.fresh_not_null;
    size = omega (arith, v.size, shorter);
    allocated = omega (arith, v.allocated, shorter);
    fits = omega (arith, v.fits);
    keys = λ a b h g.
        v.keys a b (ground (arith, has-remove item a q v.queue_unique, h))
          (ground (arith, has-remove item b q v.queue_unique, g));
    pinned = λ a h. ground (arith, v.pinned a, h, held);
  }

  result-IsCache :
      IsCache hasher result
        (remove item q)
        (evicted_after c item ev)
        (chains_after hasher c item ch)
  unfolding destroy_or_keep
  result-IsCache = elim (Bool-cases (c.pins item == 0)) [
    | inl e ↦ rw e (deleted e)
    | inr e ↦ rw e (kept e)
  ]

  result-Keeps : Keeps c result
  unfolding destroy_or_keep
  result-Keeps = elim (Bool-cases (c.pins item == 0)) [
    | inl e ↦ rw e (record {
      same_capacity = refl;
      same_hash_size = refl;
      same_key = refl;
      same_value = refl;
      same_pins = refl;
      same_fresh = refl;
    })
    | inr e ↦ rw e (record {
      same_capacity = refl;
      same_hash_size = refl;
      same_key = refl;
      same_value = refl;
      same_pins = refl;
      same_fresh = refl;
    })
  ]

-- Eviction of an item on the queue ends without a fault, and what it leaves is a cache without it.
pub evicts :
    {hasher : Key → ℕ} {c : LruCache} {q ev : List Ptr} {ch : ℕ → List Ptr}
    → IsCache hasher c q ev ch
    → (item : Ptr) → has item q ≡ true
    → (d : LruCache) × (evict_item hasher c item ≡ some d)
      × IsCache hasher d (remove item q) (evicted_after c item ev) (chains_after hasher c item ch)
      × Keeps c d
evicts v item on =
    (result v item on, evict_item-some v item on, result-IsCache v item on, result-Keeps v item on)
