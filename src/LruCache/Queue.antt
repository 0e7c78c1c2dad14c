-- ===== src/LruCache/Queue.antt =====
-- The doubly linked queue of src/utils/cache.h, from the newest item to the oldest.
pub mod Remove
use lc.Base.{
  ℕ, zero, suc, ◌≡◌, refl, sym, ap, subst, ◌∙◌, Bool, true, false, not, ◌&&◌, ◌||◌, ◌==◌, ==→eq,
  ==_refl, arith, List, [], ◌∷◌, if◌then◌else◌, Bool-cases, inl, inr, Option, none, some,
}
use lc.LruCache.{Ptr, LruCache, update, remove_from_lru, insert_into_lru}
use lc.Base.Distinct.{has, remove, Unique, apart, has-remove-false}

-- From `p`, which comes after `prev`, the items `xs`, of which `tail` is the last.
abbrev pub Queue : (Ptr → Ptr) → (Ptr → Ptr) → Ptr → Ptr → Ptr → List Ptr → Type 0
Queue next prev_of p prev tail [] = (p ≡ 0) × (tail ≡ prev)
Queue next prev_of p prev tail (a ∷ xs) =
    (p ≡ a) × ((a == 0) ≡ false) × (prev_of a ≡ prev) × Queue next prev_of (next a) a tail xs

pub Queue-frame :
    (next prev_of next' prev_of' : Ptr → Ptr) (p prev tail : Ptr) (xs : List Ptr)
    → ((a : Ptr) → has a xs ≡ true → next' a ≡ next a)
    → ((a : Ptr) → has a xs ≡ true → prev_of' a ≡ prev_of a)
    → Queue next prev_of p prev tail xs
    → Queue next' prev_of' p prev tail xs
Queue-frame next prev_of next' prev_of' p prev tail [] n v q = q
Queue-frame next prev_of next' prev_of' p prev tail (a ∷ xs) n v (e, z, b, q) =
    let here : has a (a ∷ xs) ≡ true = ground (arith, ==_refl a) in
    (
      e,
      z,
      v a here ∙ b,
      subst (λ r. Queue next' prev_of' r a tail xs) (sym (n a here))
          (Queue-frame next prev_of next' prev_of' (next a) a tail xs
            (λ c h. n c (ground (arith, h))) (λ c h. v c (ground (arith, h))) q),
    )

-- The last item of a queue that is not empty is on it.
pub tail-has :
    (next prev_of : Ptr → Ptr) (p prev tail a : Ptr) (xs : List Ptr)
    → Queue next prev_of p prev tail (a ∷ xs)
    → has tail (a ∷ xs) ≡ true
tail-has next prev_of p prev tail a [] (e, z, b, (n, t)) = ground (arith, t)
tail-has next prev_of p prev tail a (x ∷ xs) (e, z, b, q) =
    let later = tail-has next prev_of (next a) a tail x xs q in ground (arith, later)

-- What comes after an item is on the queue, or null.
pub next-has :
    (next prev_of : Ptr → Ptr) (p prev tail a : Ptr) (xs : List Ptr)
    → Queue next prev_of p prev tail xs
    → has a xs ≡ true
    → (x : Ptr) → (x == 0) ≡ false
    → has x xs ≡ false
    → (next a == x) ≡ false
next-has next prev_of p prev tail a [] q h x z out = cc
next-has next prev_of p prev tail a (b ∷ []) (e, zb, v, (n, t)) h x z out =
    ground (arith, ==→eq a b, n, h)
next-has next prev_of p prev tail a (b ∷ c ∷ xs) (e, zb, v, q) h x z out =
    elim (Bool-cases (a == b)) [
      | inl g ↦ ground (arith, ap next (==→eq a b g), q.0, out)
      | inr g ↦
          next-has next prev_of (next b) b tail a (c ∷ xs) q (ground (arith, h)) x z
            (ground (arith, out))
    ]

-- What comes before the first item.
pub head-prev :
    (next prev_of : Ptr → Ptr) (p prev tail a : Ptr) (xs : List Ptr)
    → Queue next prev_of p prev tail xs
    → has a xs ≡ true
    → (p == a) ≡ true
    → prev_of a ≡ prev
head-prev next prev_of p prev tail a [] q h o = cc
head-prev next prev_of p prev tail a (b ∷ xs) (e, z, v, q) h o =
    let same : b ≡ a = ground (arith, e) in sym (ap prev_of same) ∙ v

-- The item before one that is not the first is on the queue.
pub prev-has :
    (next prev_of : Ptr → Ptr) (p prev tail a : Ptr) (xs : List Ptr)
    → Queue next prev_of p prev tail xs
    → has a xs ≡ true
    → (p == a) ≡ false
    → has (prev_of a) xs ≡ true
prev-has next prev_of p prev tail a [] q h o = cc
prev-has next prev_of p prev tail a (b ∷ xs) (e, z, v, q) h o = elim (Bool-cases (next b == a)) [
  | inl g ↦
      let before = head-prev next prev_of (next b) b tail a xs q (ground (arith, h, e, o)) g in
      ground (arith, before, ==_refl b)
  | inr g ↦
      let later = prev-has next prev_of (next b) b tail a xs q (ground (arith, h, e, o)) g in
      ground (arith, later)
]

-- The item after one that is not the last is on the queue.
pub next-in :
    (next prev_of : Ptr → Ptr) (p prev tail a : Ptr) (xs : List Ptr)
    → Queue next prev_of p prev tail xs
    → has a xs ≡ true
    → (tail == a) ≡ false
    → has (next a) xs ≡ true
next-in next prev_of p prev tail a [] q h o = cc
next-in next prev_of p prev tail a (b ∷ []) (e, z, v, (n, t)) h o = absurd (ground (arith, t))
next-in next prev_of p prev tail a (b ∷ c ∷ xs) (e, z, v, q) h o = elim (Bool-cases (a == b)) [
  | inl g ↦ ground (arith, ap next (==→eq a b g), q.0, ==_refl c)
  | inr g ↦
      let later = next-in next prev_of (next b) b tail a (c ∷ xs) q (ground (arith, h)) o in
      ground (arith, later)
]

-- Nothing comes after the last item.
pub next-last :
    (next prev_of : Ptr → Ptr) (p prev tail a : Ptr) (xs : List Ptr)
    → Unique xs
    → Queue next prev_of p prev tail xs
    → has a xs ≡ true
    → (tail == a) ≡ true
    → next a ≡ 0
next-last next prev_of p prev tail a [] u q h o = cc
next-last next prev_of p prev tail a (b ∷ []) u (e, z, v, (n, t)) h o =
    let same : b ≡ a = ground (arith, t) in sym (ap next same) ∙ n
next-last next prev_of p prev tail a (b ∷ c ∷ xs) u (e, z, v, q) h o =
    let end = tail-has next prev_of (next b) b tail c xs q in
    let other = apart b tail (c ∷ xs) u.0 end in
    next-last next prev_of (next b) b tail a (c ∷ xs) u.1 q (ground (arith, h, other, o)) o

-- A new item in front.
pub insert_into_lru-Queue :
    (c : LruCache) (item : Ptr) (xs : List Ptr)
    → (item == 0) ≡ false
    → Unique (0 ∷ xs)
    → has item xs ≡ false
    → Queue c.next_in_queue c.prev_in_queue c.lru_head 0 c.lru_tail xs
    → let d = insert_into_lru c item in
      Queue d.next_in_queue d.prev_in_queue d.lru_head 0 d.lru_tail (item ∷ xs)
unfolding insert_into_lru
insert_into_lru-Queue c item [] z u out (h, t) =
    rw (h, t) (refl, z, ground (arith, ==_refl item), (ground (arith, ==_refl item), refl))
insert_into_lru-Queue c item (b ∷ ys) z u out (h, zb, v, q) =
    let end : (c.lru_tail == 0) ≡ false = ground (
      arith,
      apart 0 c.lru_tail (b ∷ ys) u.0
          (tail-has c.next_in_queue c.prev_in_queue c.lru_head 0 c.lru_tail b ys (h, zb, v, q)),
    ) in
    let d = insert_into_lru c item in
    let head : (c.lru_head == 0) ≡ false = ground (arith, h, zb) in
    let apart_from : (x : Ptr) → has x ys ≡ true → ((x == item) ≡ false) × ((x == b) ≡ false) =
      λ x k. (
        ground (arith, apart item x ys (ground (arith, out)) k),
        ground (arith, apart b x ys u.1.0 k),
      ) in
    let item_b : (b == item) ≡ false = ground (arith, out) in
    let Nb : d.next_in_queue b ≡ c.next_in_queue b = rw item_b refl in
    let t : d.lru_tail ≡ c.lru_tail = rw end refl in
    let rest =
      Queue-frame c.next_in_queue c.prev_in_queue d.next_in_queue d.prev_in_queue
        (c.next_in_queue b) b c.lru_tail ys (λ x k. rw ((apart_from x k).0) refl)
        (λ x k. ground (arith, head, h, apart_from x k)) q in
    (
      refl,
      z,
      ground (arith, head, h, out, ==_refl item),
      (
        ground (arith, h, ==_refl item),
        zb,
        ground (arith, head, h, ==_refl b),
        subst (λ r. Queue d.next_in_queue d.prev_in_queue r b d.lru_tail ys) (sym Nb)
            (subst (λ r. Queue d.next_in_queue d.prev_in_queue (c.next_in_queue b) b r ys) (sym t)
              rest),
      ),
    )
