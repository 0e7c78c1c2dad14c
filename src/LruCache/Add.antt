-- ===== src/LruCache/Add.antt =====
-- The new item of `Insert` of src/utils/cache.h.
use lc.Base.{
  ℕ, ◌+◌, ◌<◌, ◌≡◌, refl, sym, ap, subst, ◌∙◌, true, false, ◌&&◌, ◌==◌, ==→eq, ==_refl, arith, List,
  ◌∷◌, Bool-cases, inl, inr, if◌then◌else◌,
}
use lc.LruCache.{Ptr, Key, LruCache, update, bucket, add_item, insert_into_lru}
use lc.Base.Distinct.{has, Unique, apart}
use lc.LruCache.Chain.{Chain, Chain-update}
use lc.LruCache.Queue.{insert_into_lru-Queue}
use lc.LruCache.Invariant.{IsCache, queue_apart}
use lc.LruCache.Entries.{Fresh}

module _ {hasher : Key → ℕ} {c : LruCache} {q ev : List Ptr} {ch : ℕ → List Ptr}
    (v : IsCache hasher c q ev ch) (k : Key) (val : Ptr) where
  abbrev home : ℕ
  home = bucket hasher c k

  abbrev pub chains_with : ℕ → List Ptr
  chains_with b = if home == b then c.fresh ∷ ch b else ch b

  fresh_dead : c.live c.fresh ≡ false
  fresh_dead = elim (Bool-cases (c.live c.fresh)) [
    | inl e ↦ absurd (omega (arith, v.below_fresh c.fresh e))
    | inr e ↦ e
  ]

  pub fresh_out : has c.fresh q ≡ false
  fresh_out = ground (arith, v.live c.fresh, fresh_dead)

  pub fresh_not_evicted : has c.fresh ev ≡ false
  fresh_not_evicted = ground (arith, v.live c.fresh, fresh_dead)

  fresh_not_chained : (b : ℕ) → has c.fresh (ch b) ≡ false
  fresh_not_chained b = ground (arith, v.placed b c.fresh, fresh_out)

  chains' :
      (b : ℕ)
      → Chain
          (update c.next_in_hash c.fresh (c.hash home))
          (update c.hash home c.fresh b)
          (chains_with b)
  chains' b =
      let old =
        Chain-update c.next_in_hash (c.hash b) c.fresh (c.hash home) (ch b) (fresh_not_chained b)
          (v.chains b) in
      elim (Bool-cases (home == b)) [
        | inl e ↦
            let same : b ≡ home = sym (==→eq home b e) in
            let back : (b == home) ≡ true = ground (arith, e) in
            rw (e, back, ==_refl c.fresh)
              (
                refl,
                v.fresh_not_null,
                subst (λ i. Chain (update c.next_in_hash c.fresh (c.hash home)) (c.hash i) (ch b))
                    same old,
              )
        | inr e ↦ let back : (b == home) ≡ false = ground (arith, e) in rw (e, back) old
      ]

  chains-Unique' : (b : ℕ) → Unique (chains_with b)
  chains-Unique' b = elim (Bool-cases (home == b)) [
    | inl e ↦ rw e (fresh_not_chained b, v.chains_unique b)
    | inr e ↦ rw e (v.chains_unique b)
  ]

  placed' :
      (b : ℕ) (a : Ptr)
      → has a (chains_with b)
        ≡ (has a (c.fresh ∷ q) && (bucket hasher c (update c.key c.fresh k a) == b))
  placed' b a = elim (Bool-cases (a == c.fresh)) [
    | inl e ↦
        let at : has a (ch b) ≡ false =
          ap (λ x. has x (ch b)) (==→eq a c.fresh e) ∙ fresh_not_chained b in
        ground (arith, e, at)
    | inr e ↦ ground (arith, v.placed b a, e)
  ]

  abbrev added : LruCache
  added = record c {
    size = c.size + 1;
    allocated = c.allocated + 1;
    key = update c.key c.fresh k;
    value = update c.value c.fresh val;
    pins = update c.pins c.fresh 0;
    live = update c.live c.fresh true;
    fresh = c.fresh + 1;
    next_in_hash = update c.next_in_hash c.fresh (c.hash home);
    hash = update c.hash home c.fresh;
  }

  keys' :
      Fresh c k q
      → (a b : Ptr) → has a (c.fresh ∷ q) ≡ true
      → has b (c.fresh ∷ q) ≡ true
      → (update c.key c.fresh k a == update c.key c.fresh k b) ≡ true
      → a ≡ b
  keys' new a b h g e = elim (Bool-cases (a == c.fresh)) [
    | inl i ↦ elim (Bool-cases (b == c.fresh)) [
      | inl j ↦ ==→eq a c.fresh i ∙ sym (==→eq b c.fresh j)
      | inr j ↦ absurd (ground (arith, new b, g, e, i, j))
    ]
    | inr i ↦ elim (Bool-cases (b == c.fresh)) [
      | inl j ↦ absurd (ground (arith, new a, h, e, i, j))
      | inr j ↦ v.keys a b (ground (arith, h, i)) (ground (arith, g, j)) (ground (arith, e, i, j))
    ]
  ]

  pub add_item-IsCache :
      Fresh c k q
      → c.size < c.capacity
      → IsCache hasher (add_item hasher c k val) (c.fresh ∷ q) ev chains_with
  unfolding add_item insert_into_lru
  add_item-IsCache new room = record {
    queue =
        insert_into_lru-Queue added c.fresh q v.fresh_not_null (queue_apart v) fresh_out v.queue;
    queue_unique = (fresh_out, v.queue_unique);
    evicted =
        Chain-update c.next_in_hash c.evicted_head c.fresh (c.hash home) ev fresh_not_evicted
          v.evicted;
    evicted_unique = v.evicted_unique;
    chains = chains';
    chains_unique = chains-Unique';
    placed = placed';
    separate = λ a. ground (arith, v.separate a, apart c.fresh a ev fresh_not_evicted);
    live = λ a. ground (arith, v.live a);
    null_dead = ground (arith, v.null_dead, v.fresh_not_null);
    below_fresh = λ a h. elim (Bool-cases (a == c.fresh)) [
      | inl e ↦ omega (arith, ==→eq a c.fresh e)
      | inr e ↦ omega (arith, v.below_fresh a (rw e at h))
    ];
    fresh_not_null = ground arith;
    size = omega (arith, v.size);
    allocated = omega (arith, v.allocated);
    fits = omega arith;
    keys = λ a b h g e. keys' new a b h g e;
    pinned = λ a h. ground (arith, v.pinned a h, apart c.fresh a ev fresh_not_evicted h);
  }
