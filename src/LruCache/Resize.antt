-- ===== src/LruCache/Resize.antt =====
-- The loop of `SetCapacity` of src/utils/cache.h over a chain of the old table: it goes on with `head`, but
-- moves the item `iter`, which stays the first.
use lc.Base.{
  ℕ, zero, suc, ◌<◌, ◌≡◌, refl, ap, subst, ◌∙◌, true, false, ◌||◌, ◌==◌, ==_refl, arith, List, [],
  ◌∷◌, length, take, none, some,
}
use lc.LruCache.{Ptr, Key, LruCache, update, find, rehash_chain, set_capacity, hash_size_for}
use lc.Base.Distinct.{has}
use lc.LruCache.Invariant.{IsCache}
use lc.LruCache.Shrink.{shrinks}
use lc.LruCache.Chain.{Chain, Chain-update}

module _ (new_bucket : Ptr → ℕ) (a : Ptr) (there : (a == 0) ≡ false) where
  abbrev home : ℕ
  home = new_bucket a

  step :
      (n : ℕ) (next : Ptr → Ptr) (new_hash : ℕ → Ptr) (head : Ptr)
      → (head == 0) ≡ false
      → rehash_chain (suc n) new_bucket next new_hash a head
        ≡ rehash_chain n new_bucket
            (update next a (new_hash home))
            (update new_hash home a)
            a
            (update next a (new_hash home) head)
  unfolding rehash_chain
  step n next new_hash head z = rw z refl

  -- If the bucket is empty, the loop ends with the first item of the chain in it; the others are in no
  -- bucket.
  pub rehash_chain-empty :
      (n : ℕ) (next : Ptr → Ptr) (new_hash : ℕ → Ptr)
      → new_hash home ≡ 0
      → rehash_chain (suc n) new_bucket next new_hash a a
        ≡ some (update next a 0, update new_hash home a)
  unfolding rehash_chain
  rehash_chain-empty zero next new_hash e = rw (there, e, ==_refl a) refl
  rehash_chain-empty (suc n) next new_hash e = rw (there, e, ==_refl a) refl

  -- Once the bucket holds the item itself, the loop goes down what the bucket held before.
  goes_down :
      (n : ℕ) (next : Ptr → Ptr) (new_hash : ℕ → Ptr) (head : Ptr) (xs : List Ptr)
      → has a xs ≡ false
      → Chain next head xs
      → length xs < n
      → (new_hash home ≡ a)
      → next a ≡ a
      → (next' : Ptr → Ptr) × (new_hash' : ℕ → Ptr) × (rehash_chain n new_bucket next new_hash a
            head
          ≡ some (next', new_hash'))
        × (next' a ≡ a)
        × (new_hash' home ≡ a)
  unfolding rehash_chain
  goes_down zero next new_hash head xs out c len h s = absurd (omega arith)
  goes_down (suc n) next new_hash head [] out c len h s = (next, new_hash, rw c refl, s, h)
  goes_down (suc n) next new_hash head (x ∷ xs) out (e, z, c) len h s =
      let next' = update next a (new_hash home) in
      let other : (x == a) ≡ false = ground (arith, out) in
      let on : next' x ≡ next x = rw other refl in
      let (next'', new_hash'', run, self, held) =
        goes_down n next' (update new_hash home a) (next x) xs (ground (arith, out))
          (Chain-update next (next x) a (new_hash home) xs (ground (arith, out)) c) (omega arith)
          (rw (==_refl home) refl) (rw (==_refl a) h) in
      (next'', new_hash'', rw (e, z, on) run, self, held)

  -- If the bucket holds other items, which do not include the first item of the old chain, that item is put in front of them and then behind itself: its pointer
  -- leads to itself, and what the bucket held is lost.
  pub rehash_chain-taken :
      (n : ℕ) (next : Ptr → Ptr) (new_hash : ℕ → Ptr) (x : Ptr) (xs : List Ptr)
      → has a (x ∷ xs) ≡ false
      → Chain next (new_hash home) (x ∷ xs)
      → suc (length (x ∷ xs)) < n
      → (next' : Ptr → Ptr) × (new_hash' : ℕ → Ptr) × (rehash_chain n new_bucket next new_hash a a
          ≡ some (next', new_hash'))
        × (next' a ≡ a)
        × (new_hash' home ≡ a)
  rehash_chain-taken zero next new_hash x xs out c len = absurd (omega arith)
  rehash_chain-taken (suc zero) next new_hash x xs out c len = absurd (omega arith)
  rehash_chain-taken (suc (suc n)) next new_hash x xs out (e, z, c) len =
      let next1 = update next a (new_hash home) in
      let hash1 = update new_hash home a in
      let next2 = update next1 a (hash1 home) in
      let other : (x == a) ≡ false = ground (arith, out) in
      let on : next2 x ≡ next x = rw other refl in
      let at : next1 a ≡ x = rw (==_refl a) e in
      let far : has a xs ≡ false = ground (arith, out) in
      let held : hash1 home ≡ a = rw (==_refl home) refl in
      let (next'', new_hash'', run, self, held') =
        goes_down n next2 (update hash1 home a) (next x) xs far
          (Chain-update next1 (next x) a (hash1 home) xs far
            (Chain-update next (next x) a (new_hash home) xs far c))
          (omega arith) (rw (==_refl home) refl) (rw (==_refl a) held) in
      (
        next'',
        new_hash'',
        step (suc n) next new_hash a there
            ∙ ap (λ p. rehash_chain (suc n) new_bucket next1 hash1 a p) at
            ∙ step n next1 hash1 x z
            ∙ ap (λ p. rehash_chain n new_bucket next2 (update hash1 home a) a p) on
            ∙ run,
        self,
        held',
      )

  -- A look-up that meets an item whose pointer leads to itself does not end if it has another key.
  pub find-loop :
      (n : ℕ) (c : LruCache) (k : Key)
      → c.next_in_hash a ≡ a
      → c.live a ≡ true
      → (k == c.key a) ≡ false
      → find n c a k ≡ none
  unfolding find
  find-loop zero c k self live other = refl
  find-loop (suc n) c k self live other =
      rw (there, live, other) (rw self (find-loop n c k self live other))

-- `SetCapacity` that leaves no item on the queue.
pub set_capacity_lem :
    {hasher : Key → ℕ} {c : LruCache} {q ev : List Ptr} {ch : ℕ → List Ptr}
    → IsCache hasher c q ev ch
    → (n : ℕ) → (c.capacity == n) ≡ false
    → ((n == 0) || (c.size == 0)) ≡ true
    → (d : LruCache) × (ev' : List Ptr) × (set_capacity hasher n c ≡ some d)
      × IsCache hasher d [] ev' (λ b. [])
      × (d.capacity ≡ n)
unfolding set_capacity
set_capacity_lem {hasher} {c} {q} v n new none_left =
    let (e, run, s) = shrinks c.size n q v (omega (arith, v.size)) in
    let no_items : take n q ≡ [] = nothing n q (ground (arith, none_left, v.size)) in
    let w : IsCache hasher e [] s.evicted s.chains =
      subst (λ ys. IsCache hasher e ys s.evicted s.chains) no_items s.valid in
    let d : LruCache = record e { capacity = n; hash = λ b. 0; hash_size = hash_size_for n } in
    let size : (e.size == 0) ≡ true = ground (arith, w.size) in
    let valid : IsCache hasher d [] s.evicted (λ b. []) = record {
      queue = w.queue;
      queue_unique = tt;
      evicted = w.evicted;
      evicted_unique = w.evicted_unique;
      chains = λ b. refl;
      chains_unique = λ b. tt;
      placed = λ b a. refl;
      separate = λ a. refl;
      live = w.live;
      null_dead = w.null_dead;
      below_fresh = w.below_fresh;
      fresh_not_null = w.fresh_not_null;
      size = w.size;
      allocated = w.allocated;
      fits = omega (arith, w.size);
      keys = λ a b h. cc;
      pinned = w.pinned;
    } in
    (d, s.evicted, rw (new, run, size) refl, valid, refl)
  where
    nothing : (m : ℕ) (xs : List Ptr) → ((m == 0) || (length xs == 0)) ≡ true → take m xs ≡ []
    nothing zero xs h = refl
    nothing (suc m) [] h = refl
    nothing (suc m) (x ∷ xs) h = absurd (ground (arith, h))
