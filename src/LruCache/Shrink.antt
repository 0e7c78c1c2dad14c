-- ===== src/LruCache/Shrink.antt =====
-- `ShrinkToCapacity` of src/utils/cache.h: the oldest items leave the cache until it is small enough.
use lc.Base.{
  ℕ, zero, suc, ◌≤◌, ◌<◌, ◌≡◌, refl, sym, ap, subst, ◌∙◌, true, false, not, ◌&&◌, ◌||◌, ◌==◌, ==→eq,
  ==_refl, ltb, ltb→lt, arith, List, [], ◌∷◌, length, take, some, Bool-cases, inl, inr,
}
use lc.LruCache.{Ptr, Key, LruCache, shrink}
use lc.Base.Distinct.{has, remove, Unique, apart, has-remove, length-remove, has-take}
use lc.LruCache.Queue.{Queue, tail-has}
use lc.LruCache.Invariant.{IsCache, not_null}
use lc.LruCache.Evict.{Keeps, Keeps-refl, Keeps-trans, evicts, evicted_after}

-- Without the last item, a queue keeps its first items.
take-remove_tail :
    (next prev_of : Ptr → Ptr) (p prev tail : Ptr) (n : ℕ) (xs : List Ptr)
    → Queue next prev_of p prev tail xs
    → Unique xs
    → n < length xs
    → take n (remove tail xs) ≡ take n xs
unfolding remove
take-remove_tail next prev_of p prev tail n [] q u h = refl
take-remove_tail next prev_of p prev tail zero (a ∷ xs) q u h = refl
take-remove_tail next prev_of p prev tail (suc n) (a ∷ []) q u h = absurd (omega arith)
take-remove_tail next prev_of p prev tail (suc n) (a ∷ b ∷ xs) (e, z, v, q) u h =
    let last = apart a tail (b ∷ xs) u.0 (tail-has next prev_of (next a) a tail b xs q) in
    let rest = take-remove_tail next prev_of (next a) a tail n (b ∷ xs) q u.1 (omega arith) in
    let other : (tail == a) ≡ false = ground (arith, last) in rw other (ap (λ ys. a ∷ ys) rest)

-- The cache `d` is `c` without its items after the first `capacity`; those that are pinned it keeps as
-- evicted ones.
pub record Shrunk (hasher : Key → ℕ) (capacity : ℕ) (c : LruCache) (q ev : List Ptr) (d : LruCache)
    : Type 0 where
  pub evicted : List Ptr
  pub chains : ℕ → List Ptr
  pub valid : IsCache hasher d (take capacity q) evicted chains
  pub keeps : Keeps c d
  pub evicted_lem :
      (a : Ptr)
      → has a evicted
        ≡ (has a ev || (has a q && not (has a (take capacity q)) && not (c.pins a == 0)))

take_all : (n : ℕ) (xs : List Ptr) → length xs ≤ n → take n xs ≡ xs
take_all zero [] h = refl
take_all zero (x ∷ xs) h = absurd (omega arith)
take_all (suc n) [] h = refl
take_all (suc n) (x ∷ xs) h = ap (λ ys. x ∷ ys) (take_all n xs (omega arith))

module _ {hasher : Key → ℕ} (capacity : ℕ) {c : LruCache} {q ev : List Ptr} {ch : ℕ → List Ptr}
    (v : IsCache hasher c q ev ch) where
  enough : length q ≤ capacity → Shrunk hasher capacity c q ev c
  enough h =
      let all = take_all capacity q h in
      record {
        evicted = ev;
        chains = ch;
        valid = rw all v;
        keeps = Keeps-refl c;
        evicted_lem = λ a. rw all (ground arith);
      }

  module _ (on : has c.lru_tail q ≡ true) (more : capacity < length q) {d e : LruCache}
      (k : Keeps c d)
      (s : Shrunk hasher capacity d (remove c.lru_tail q) (evicted_after c c.lru_tail ev) e) where
    fewer : take capacity (remove c.lru_tail q) ≡ take capacity q
    fewer =
        take-remove_tail c.next_in_queue c.prev_in_queue c.lru_head 0 c.lru_tail capacity q v.queue
          v.queue_unique more

    tail_out : has c.lru_tail (take capacity q) ≡ false
    tail_out = ground (
      arith,
      has-take c.lru_tail capacity (remove c.lru_tail q)
          (ground (arith, has-remove c.lru_tail c.lru_tail q v.queue_unique, ==_refl c.lru_tail)),
      ap (λ ys. has c.lru_tail ys) fewer,
    )

    after : Shrunk hasher capacity c q ev e
    after = record {
      evicted = s.evicted;
      chains = s.chains;
      valid = subst (λ ys. IsCache hasher e ys s.evicted s.chains) fewer s.valid;
      keeps = Keeps-trans k s.keeps;
      evicted_lem = λ a.
          let left =
            s.evicted_lem a
            ∙ ap
                (λ ys.
                  has a (evicted_after c c.lru_tail ev)
                  || (has a (remove c.lru_tail q) && not (has a ys) && not (d.pins a == 0)))
                fewer in
          let pins : d.pins a ≡ c.pins a = ap (λ f. f a) k.same_pins in
          elim (Bool-cases (c.lru_tail == a)) [
            | inl g ↦
                let same = ==→eq c.lru_tail a g in
                let out = sym (ap (λ x. has x (take capacity q)) same) ∙ tail_out in
                let here = sym (ap (λ x. has x q) same) ∙ on in
                let p = ap c.pins same in
                ground
                  (arith, left, has-remove c.lru_tail a q v.queue_unique, g, out, here, p, pins)
            | inr g ↦ ground (arith, left, has-remove c.lru_tail a q v.queue_unique, g, pins)
          ];
    }

pub shrinks :
    (n : ℕ) {hasher : Key → ℕ} (capacity : ℕ) {c : LruCache} (q : List Ptr) {ev : List Ptr}
    {ch : ℕ → List Ptr}
    → IsCache hasher c q ev ch
    → length q ≤ n
    → (d : LruCache) × (shrink n hasher capacity c ≡ some d) × Shrunk hasher capacity c q ev d
unfolding shrink
shrinks zero capacity {c} [] v h =
    let none_left : (c.lru_tail == 0) ≡ true = ground (arith, v.queue) in
    (c, rw none_left refl, enough capacity v (omega arith))
shrinks zero capacity (a ∷ q) v h = absurd (omega arith)
shrinks (suc n) capacity {c} [] v h =
    let none_left : (c.lru_tail == 0) ≡ true = ground (arith, v.queue) in
    (c, rw none_left refl, enough capacity v (omega arith))
shrinks (suc n) {hasher} capacity {c} (a ∷ q) v h = elim (Bool-cases (ltb capacity c.size)) [
  | inl e ↦
      let on = tail-has c.next_in_queue c.prev_in_queue c.lru_head 0 c.lru_tail a q v.queue in
      let (d, run, valid, k) = evicts v c.lru_tail on in
      let shorter = length-remove c.lru_tail (a ∷ q) on in
      let (d', run', s) = shrinks n capacity (remove c.lru_tail (a ∷ q)) valid (omega arith) in
      let there : (c.lru_tail == 0) ≡ false = not_null v c.lru_tail on in
      (
        d',
        rw (there, e, run) run',
        after capacity v on (omega (arith, v.size, ltb→lt capacity c.size e)) k s,
      )
  | inr e ↦ (c, rw e (ground arith), enough capacity v (ground (arith, e, v.size)))
]
