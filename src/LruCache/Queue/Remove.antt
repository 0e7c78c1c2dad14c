-- ===== src/LruCache/Queue/Remove.antt =====
-- "Remove from LRU list" of src/utils/cache.h: the queue without an item.
use lc.Base.{
  ◌≡◌, refl, sym, ap, subst, ◌∙◌, true, false, ◌==◌, ==_refl, arith, List, [], ◌∷◌, if◌then◌else◌,
  Bool-cases, inl, inr, some,
}
use lc.LruCache.{Ptr, LruCache, update, remove_from_lru}
use lc.Base.Distinct.{has, remove, Unique, apart}
use lc.LruCache.Queue.{
  Queue, Queue-frame, tail-has, next-has, head-prev, prev-has, next-in, next-last,
}

-- On the addresses of the queue, the pointers after `item` has been taken out.
abbrev Skips : (Ptr → Ptr) → Ptr → Ptr → List Ptr → (Ptr → Ptr) → Type 0
Skips f a b xs f' = (x : Ptr) → has x xs ≡ true → f' x ≡ (if x == a then b else f x)

module _ (next prev_of N V : Ptr → Ptr) (item tail : Ptr) where
  abbrev tail' : Ptr
  tail' = if tail == item then prev_of item else tail

  without-first :
      (p prev a : Ptr) (xs : List Ptr)
      → a ≡ item
      → has prev xs ≡ false
      → Unique (a ∷ xs)
      → Queue next prev_of p prev tail (a ∷ xs)
      → Skips next (prev_of item) (next item) xs N
      → Skips prev_of (next item) (prev_of item) xs V
      → Queue N V (next item) prev tail' xs
  without-first p prev a [] same out u (e, z, b, (n, t)) skN skV =
      (sym (ap next same) ∙ n, ground (arith, t, b, same, ap prev_of same, ==_refl item))
  without-first p prev a (c ∷ xs) same out u (e, z, b, (n, zc, bc, q)) skN skV =
      let n' : next item ≡ c = sym (ap next same) ∙ n in
      let b' : prev_of item ≡ prev = sym (ap prev_of same) ∙ b in
      let on : has c (c ∷ xs) ≡ true = ground (arith, ==_refl c) in
      let last =
        apart a tail (c ∷ xs) u.0 (tail-has next prev_of (next a) a tail c xs (n, zc, bc, q)) in
      let end : (tail == item) ≡ false = ground (arith, last, same) in
      let Nc : N c ≡ next c = skN c on ∙ ground (arith, b', out) in
      rw end (
        n',
        zc,
        skV c on ∙ ground (arith, n', b', ==_refl c),
        subst (λ r. Queue N V r c tail xs) (sym Nc)
            (Queue-frame next prev_of N V (next c) c tail xs
              (λ x k.
                skN x (ground (arith, k))
                ∙ ground (arith, b', apart prev x xs (ground (arith, out)) k))
              (λ x k. skV x (ground (arith, k)) ∙ ground (arith, n', apart c x xs u.1.0 k)) q),
      )

  -- The item before `item` is the one whose pointer leads to it.
  step :
      (a : Ptr) (xs : List Ptr)
      → has a xs ≡ false
      → Queue next prev_of (next a) a tail xs
      → has item xs ≡ true
      → (if a == prev_of item then next item else next a)
        ≡ (if next a == item then next item else next a)
  step a xs out q h = elim (Bool-cases (next a == item)) [
    | inl g ↦
        let before = head-prev next prev_of (next a) a tail item xs q h g in
        rw g (ground (arith, before, ==_refl a))
    | inr g ↦
        let on = prev-has next prev_of (next a) a tail item xs q h g in
        rw g (ground (arith, apart a (prev_of item) xs out on))
  ]

  without-item :
      (p prev : Ptr) (xs : List Ptr)
      → Unique (prev ∷ xs)
      → Queue next prev_of p prev tail xs
      → has item xs ≡ true
      → Skips next (prev_of item) (next item) xs N
      → Skips prev_of (next item) (prev_of item) xs V
      → Queue N V (if p == item then next item else p) prev tail' (remove item xs)
  unfolding remove
  without-item p prev [] u q h skN skV = cc
  without-item p prev (a ∷ xs) u (e, z, b, q) h skN skV = elim (Bool-cases (item == a)) [
    | inl g ↦
        let same : a ≡ item = ground (arith, g) in
        let first : (p == item) ≡ true = ground (arith, e, g) in
        rw (g, first)
          (without-first p prev a xs same (ground (arith, u.0)) u.1 (e, z, b, q)
            (λ x k. skN x (ground (arith, k))) (λ x k. skV x (ground (arith, k))))
    | inr g ↦
        let on : has a (a ∷ xs) ≡ true = ground (arith, ==_refl a) in
        let first : (p == item) ≡ false = ground (arith, e, g) in
        let later : has item xs ≡ true = ground (arith, h, g) in
        let rest =
          without-item (next a) a xs u.1 q later (λ x k. skN x (ground (arith, k)))
            (λ x k. skV x (ground (arith, k))) in
        let Na : N a ≡ (if next a == item then next item else next a) =
          skN a on ∙ step a xs u.1.0 q later in
        rw (g, first)
          (
            e,
            z,
            skV a on
                ∙ ground
                    (arith, b, next-has next prev_of (next a) a tail item xs q later a z u.1.0),
            subst (λ r. Queue N V r a tail' (remove item xs)) (sym Na) rest,
          )
  ]

-- The parts of the cache that "Remove from LRU list" sets.
abbrev pub new_next : LruCache → Ptr → Ptr → Ptr
new_next c item =
    if c.lru_head == item
    then c.next_in_queue
    else update c.next_in_queue (c.prev_in_queue item) (c.next_in_queue item)

abbrev pub new_prev : LruCache → Ptr → Ptr → Ptr
new_prev c item =
    if c.lru_tail == item
    then c.prev_in_queue
    else update c.prev_in_queue (c.next_in_queue item) (c.prev_in_queue item)

abbrev pub new_head : LruCache → Ptr → Ptr
new_head c item = if c.lru_head == item then c.next_in_queue item else c.lru_head

abbrev pub new_tail : LruCache → Ptr → Ptr
new_tail c item = if c.lru_tail == item then c.prev_in_queue item else c.lru_tail

module _ (c : LruCache) (item : Ptr) (xs : List Ptr) (u : Unique (0 ∷ xs))
    (q : Queue c.next_in_queue c.prev_in_queue c.lru_head 0 c.lru_tail xs)
    (h : has item xs ≡ true) where
  pub remove_from_lru-Queue :
      Queue
        (new_next c item)
        (new_prev c item)
        (new_head c item)
        0
        (new_tail c item)
        (remove item xs)
  remove_from_lru-Queue =
      without-item c.next_in_queue c.prev_in_queue (new_next c item) (new_prev c item) item
        c.lru_tail c.lru_head 0 xs u q h
        (λ x k. elim (Bool-cases (c.lru_head == item)) [
          | inl e ↦
              let before =
                head-prev c.next_in_queue c.prev_in_queue c.lru_head 0 c.lru_tail item xs q h e in
              rw e (ground (arith, before, apart 0 x xs u.0 k))
          | inr e ↦ rw e refl
        ])
        (λ x k. elim (Bool-cases (c.lru_tail == item)) [
          | inl e ↦
              let after =
                next-last c.next_in_queue c.prev_in_queue c.lru_head 0 c.lru_tail item xs u.1 q h
                  e in
              rw e (ground (arith, after, apart 0 x xs u.0 k))
          | inr e ↦ rw e refl
        ])

  pub remove_from_lru-some :
      ((a : Ptr) → has a xs ≡ true → c.live a ≡ true)
      → remove_from_lru c item
        ≡ some (record c {
          lru_head = new_head c item;
          next_in_queue = new_next c item;
          lru_tail = new_tail c item;
          prev_in_queue = new_prev c item;
        })
  unfolding remove_from_lru
  remove_from_lru-some live = elim (Bool-cases (c.lru_head == item)) [
    | inl e ↦ elim (Bool-cases (c.lru_tail == item)) [
      | inl g ↦ rw (e, g) refl
      | inr g ↦
          let on =
            live _
              (next-in c.next_in_queue c.prev_in_queue c.lru_head 0 c.lru_tail item xs q h g) in
          rw (e, g, on) refl
    ]
    | inr e ↦
        let before =
          live _ (prev-has c.next_in_queue c.prev_in_queue c.lru_head 0 c.lru_tail item xs q h e) in
        elim (Bool-cases (c.lru_tail == item)) [
          | inl g ↦ rw (e, g, before) refl
          | inr g ↦
              let on =
                live _
                  (next-in c.next_in_queue c.prev_in_queue c.lru_head 0 c.lru_tail item xs q h g) in
              rw (e, g, before, on) refl
        ]
  ]
