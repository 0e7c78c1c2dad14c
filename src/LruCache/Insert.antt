-- ===== src/LruCache/Insert.antt =====
-- `Insert` of src/utils/cache.h.
use lc.Base.{
  ℕ, ◌-◌, ◌≡◌, refl, sym, ap, ◌∙◌, true, false, not, ◌&&◌, ◌||◌, ◌==◌, ==→eq, ==_refl, arith, List,
  ◌∷◌, take, some, Bool-cases, inl, inr, if◌then◌else◌,
}
use lc.LruCache.{Ptr, Key, LruCache, add_item, insert_into_lru, insert, evict_item}
use lc.Base.Distinct.{has, remove, apart, has-remove, take-has, length-take_le, not_zero}
use lc.LruCache.Invariant.{IsCache}
use lc.LruCache.Evict.{Keeps, Keeps-refl, evicts, evicted_after, chains_after}
use lc.LruCache.Entries.{
  Fresh, entries, without, entries-without, entries-remove, entries-take, entries-frame,
}
use lc.LruCache.Find.{Hit, locate}
use lc.LruCache.Add.{add_item-IsCache, chains_with, fresh_out}
use lc.LruCache.Shrink.{Shrunk, shrinks}

-- The item of the key, if there is one, has left.
record Cleared (hasher : Key → ℕ) (k : Key) (c : LruCache) (q ev : List Ptr) (d : LruCache)
    : Type 0 where
  queue : List Ptr
  evicted : List Ptr
  chains : ℕ → List Ptr
  valid : IsCache hasher d queue evicted chains
  keeps : Keeps c d
  fresh : Fresh d k queue
  entries_lem : entries d queue ≡ without k (entries c q)
  queue_sub : (a : Ptr) → has a queue ≡ true → has a q ≡ true
  evicted_lem :
      (a : Ptr)
      → has a evicted ≡ (has a ev || (has a q && not (has a queue) && not (c.pins a == 0)))

same-entries : {c d : LruCache} → Keeps c d → (q : List Ptr) → entries d q ≡ entries c q
same-entries {c} {d} k q =
    entries-frame c d q (λ a h. (ap (λ f. f a) k.same_key, ap (λ f. f a) k.same_value))

module _ {hasher : Key → ℕ} {c : LruCache} {q ev : List Ptr} {ch : ℕ → List Ptr}
    (v : IsCache hasher c q ev ch) (k : Key) where
  untouched : Fresh c k q → Cleared hasher k c q ev c
  untouched f = record {
    queue = q;
    evicted = ev;
    chains = ch;
    valid = v;
    keeps = Keeps-refl c;
    fresh = f;
    entries_lem = entries-without c k q f;
    queue_sub = λ a h. h;
    evicted_lem = λ a. ground arith;
  }

  module _ (iter : Ptr) (h : Hit c k q iter) {d : LruCache}
      (w : IsCache hasher d
        (remove iter q)
        (evicted_after c iter ev)
        (chains_after hasher c iter ch))
      (kp : Keeps c d) where
    dropped : Cleared hasher k c q ev d
    dropped = record {
      queue = remove iter q;
      evicted = evicted_after c iter ev;
      chains = chains_after hasher c iter ch;
      valid = w;
      keeps = kp;
      fresh = λ a g.
          ground
            (arith, h.only a, ap (λ f. f a) kp.same_key, has-remove iter a q v.queue_unique, g);
      entries_lem =
          same-entries kp (remove iter q) ∙ entries-remove c k iter q v.queue_unique h.only;
      queue_sub = λ a g. ground (arith, has-remove iter a q v.queue_unique, g);
      evicted_lem = λ a. elim (Bool-cases (iter == a)) [
        | inl e ↦
            let same = ==→eq iter a e in
            let here : has a q ≡ true = sym (ap (λ x. has x q) same) ∙ h.on in
            ground (arith, has-remove iter a q v.queue_unique, e, here, ap c.pins same)
        | inr e ↦ ground (arith, has-remove iter a q v.queue_unique, e)
      ];
    }

  -- The first half of `Insert`.
  clears :
      (d : LruCache) × ((if (locate v k).0 == 0 then some c else evict_item hasher c (locate v k).0)
        ≡ some d)
      × Cleared hasher k c q ev d
  clears = elim ((locate v k).2) [
    | inl (z, f) ↦ (c, rw z refl, untouched f)
    | inr h ↦
        let (d, run, w, kp) = evicts v (locate v k).0 h.on in
        (d, rw (h.there, run) refl, dropped (locate v k).0 h w kp)
  ]

-- What `Insert` leaves: the new entry in front of the newest of the others that fit, with the pins that
-- they had. An item that left the queue pinned is kept as an evicted one.
pub record Inserted (hasher : Key → ℕ) (c : LruCache) (q ev : List Ptr) (k : Key) (val : Ptr)
    (d : LruCache) : Type 0 where
  pub queue : List Ptr
  pub evicted : List Ptr
  pub chains : ℕ → List Ptr
  pub valid : IsCache hasher d queue evicted chains
  pub entries_lem : entries d queue ≡ (k, val) ∷ take (c.capacity - 1) (without k (entries c q))
  pub capacity_lem : d.capacity ≡ c.capacity
  pub pins_lem : (a : Ptr) → has a q ≡ true → d.pins a ≡ c.pins a
  pub new_free : (a : Ptr) → has a queue ≡ true → (k == d.key a) ≡ true → d.pins a ≡ 0
  pub evicted_lem :
      (a : Ptr)
      → has a evicted ≡ (has a ev || (has a q && not (has a queue) && not (c.pins a == 0)))

module _ {hasher : Key → ℕ} {c : LruCache} {q ev : List Ptr} {ch : ℕ → List Ptr}
    (v : IsCache hasher c q ev ch) (k : Key) (val : Ptr) (cap : (c.capacity == 0) ≡ false) where
  module _ {d e : LruCache} (l : Cleared hasher k c q ev d)
      (s : Shrunk hasher (d.capacity - 1) d l.queue l.evicted e) where
    old : (a : Ptr) → has a q ≡ true → (a == e.fresh) ≡ false
    old a h =
        ground
          (arith, apart c.fresh a q (fresh_out v k val) h, s.keeps.same_fresh, l.keeps.same_fresh)

    new : Fresh e k (take (d.capacity - 1) l.queue)
    new a h =
        let same : e.key a ≡ d.key a = ap (λ f. f a) s.keeps.same_key in
        rw same (l.fresh a (take-has a (d.capacity - 1) l.queue h))

    inserted : Inserted hasher c q ev k val (add_item hasher e k val)
    unfolding add_item insert_into_lru
    inserted = record {
      queue = e.fresh ∷ take (d.capacity - 1) l.queue;
      evicted = s.evicted;
      chains = chains_with s.valid k val;
      valid = add_item-IsCache s.valid k val new (
          omega (
            arith,
            s.valid.size,
            length-take_le (d.capacity - 1) l.queue,
            s.keeps.same_capacity,
            l.keeps.same_capacity,
            not_zero c.capacity cap,
          ));
      entries_lem =
          let others =
            entries-frame e (add_item hasher e k val) (take (d.capacity - 1) l.queue) (λ a h.
              let other = old a (l.queue_sub a (take-has a (d.capacity - 1) l.queue h)) in
              (rw other refl, rw other refl)) in
          let room : d.capacity - 1 ≡ c.capacity - 1 = ap (λ n. n - 1) l.keeps.same_capacity in
          rw (==_refl e.fresh) (
            ap (λ es. (k, val) ∷ es)
              (others
                ∙ same-entries s.keeps (take (d.capacity - 1) l.queue)
                ∙ entries-take d (d.capacity - 1) l.queue
                ∙ ap (λ es. take (d.capacity - 1) es) l.entries_lem
                ∙ ap (λ n. take n (without k (entries c q))) room));
      capacity_lem = s.keeps.same_capacity ∙ l.keeps.same_capacity;
      pins_lem = λ a h. rw (old a h) (ap (λ f. f a) (s.keeps.same_pins ∙ l.keeps.same_pins));
      new_free = λ a h g. ground (arith, h, g, new a);
      evicted_lem = λ a. ground (
        arith,
        s.evicted_lem a,
        l.evicted_lem a,
        old a,
        l.queue_sub a,
        ap (λ f. f a) l.keeps.same_pins,
        take-has a (d.capacity - 1) l.queue,
      );
    }

  -- With a capacity that is not 0, `Insert` ends without a fault. What it leaves is a cache, of the same
  -- capacity, of the new entry and after it the newest of the others, as many as fit, with the pins that
  -- they had; a pinned item that has left is kept as an evicted one.
  pub insert_lem :
      (d : LruCache) × (insert hasher c k val ≡ some d) × Inserted hasher c q ev k val d
  unfolding insert
  insert_lem =
      let (d, run, l) = clears v k in
      let (e, run', s) =
        shrinks d.size (d.capacity - 1) l.queue l.valid (omega (arith, l.valid.size)) in
      (add_item hasher e k val, rw (cap, (locate v k).1, run, run') refl, inserted l s)
