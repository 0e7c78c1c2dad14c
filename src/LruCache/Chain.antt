-- ===== src/LruCache/Chain.antt =====
-- Singly linked chains of src/utils/cache.h: from an address the pointers lead through a list of items.
use lc.Base.{
  ℕ, zero, suc, ◌<◌, ◌≡◌, refl, sym, subst, ◌∙◌, Bool, true, false, ◌==◌, ==_refl, arith, List, [],
  ◌∷◌, length, if◌then◌else◌, Bool-cases, inl, inr, some,
}
use lc.LruCache.{Ptr, Key, LruCache, update, find, take_out}
use lc.Base.Distinct.{has, remove, Unique, apart}

abbrev pub Chain : (Ptr → Ptr) → Ptr → List Ptr → Type 0
Chain next p [] = p ≡ 0
Chain next p (a ∷ xs) = (p ≡ a) × ((a == 0) ≡ false) × Chain next (next a) xs

-- A chain does not see other addresses.
pub Chain-frame :
    (next next' : Ptr → Ptr) (p : Ptr) (xs : List Ptr)
    → ((a : Ptr) → has a xs ≡ true → next' a ≡ next a)
    → Chain next p xs
    → Chain next' p xs
Chain-frame next next' p [] same c = c
Chain-frame next next' p (a ∷ xs) same (e, z, c) = (
  e,
  z,
  subst (λ q. Chain next' q xs) (sym (same a (ground (arith, ==_refl a))))
      (Chain-frame next next' (next a) xs (λ b h. same b (ground (arith, h))) c),
)

pub Chain-update :
    (next : Ptr → Ptr) (p q r : Ptr) (xs : List Ptr)
    → has q xs ≡ false
    → Chain next p xs
    → Chain (update next q r) p xs
Chain-update next p q r xs out c =
    Chain-frame next (update next q r) p xs (λ a h. ground (arith, apart q a xs out h)) c

-- The first item with the key, or null.
abbrev pub first_with : (Ptr → Key) → Key → List Ptr → Ptr
first_with key k [] = 0
first_with key k (a ∷ xs) = if k == key a then a else first_with key k xs

pub find-Chain :
    (n : ℕ) (c : LruCache) (p : Ptr) (k : Key) (xs : List Ptr)
    → Chain c.next_in_hash p xs
    → ((a : Ptr) → has a xs ≡ true → c.live a ≡ true)
    → length xs < n
    → find n c p k ≡ some (first_with c.key k xs)
unfolding find
find-Chain zero c p k xs ch l h = absurd (omega arith)
find-Chain (suc n) c p k [] ch l h = rw ch refl
find-Chain (suc n) c p k (a ∷ xs) (e, z, ch) l h =
    let live : c.live a ≡ true = l a (ground (arith, ==_refl a)) in
    let rest =
      find-Chain n c (c.next_in_hash a) k xs ch (λ b g. l b (ground (arith, g))) (omega arith) in
    rw (e, z, live, rest) (ground arith)

-- What the loop of `EvictItem` makes of the chain behind the item `prev`.
record TakenOut (next : Ptr → Ptr) (prev item : Ptr) (xs : List Ptr) (next' : Ptr → Ptr)
    : Type 0 where
  chain : Chain next' (next' prev) (remove item xs)
  same : (a : Ptr) → has a (prev ∷ xs) ≡ false → next' a ≡ next a

take_out-behind :
    (n : ℕ) (live : Ptr → Bool) (next : Ptr → Ptr) (slot prev item : Ptr) (xs : List Ptr)
    → (prev == 0) ≡ false
    → Unique (prev ∷ xs)
    → Chain next (next prev) xs
    → ((a : Ptr) → has a xs ≡ true → live a ≡ true)
    → has item xs ≡ true
    → length xs < n
    → (next' : Ptr → Ptr) × (take_out n live next slot prev (next prev) item ≡ some (slot, next'))
      × TakenOut next prev item xs next'
unfolding take_out remove
take_out-behind zero live next slot prev item xs z u c l h len = absurd (omega arith)
take_out-behind (suc n) live next slot prev item [] z u c l h len = cc
take_out-behind (suc n) live next slot prev item (a ∷ xs) z u (e, za, c) l h len =
    elim (Bool-cases (a == item)) [
      | inl g ↦
          let found : (item == a) ≡ true = ground (arith, g) in
          (
            update next prev (next a),
            rw (e, za, l a (ground (arith, ==_refl a)), g, z) refl,
            record {
              chain =
                  rw (found, ==_refl prev)
                    (Chain-update next (next a) prev (next a) xs (ground (arith, u.0)) c);
              same = λ b k. ground (arith, k);
            },
          )
      | inr g ↦
          let (next', run, out) =
            take_out-behind n live next slot a item xs za u.1 c (λ b k. l b (ground (arith, k)))
              (ground (arith, h)) (omega arith) in
          let other : (item == a) ≡ false = ground (arith, g) in
          let kept : next' prev ≡ a = out.same prev u.0 ∙ e in
          (
            next',
            rw (e, za, l a (ground (arith, ==_refl a)), g) run,
            record {
              chain = rw (other, kept) (refl, za, out.chain);
              same = λ b k. out.same b (ground (arith, k));
            },
          )
    ]

-- The loop of `EvictItem` from the slot: the chain without the item, and no other address changed.
pub record Without (next : Ptr → Ptr) (item : Ptr) (xs : List Ptr) (slot : Ptr) (next' : Ptr → Ptr)
    : Type 0 where
  pub chain : Chain next' slot (remove item xs)
  pub same : (a : Ptr) → has a xs ≡ false → next' a ≡ next a

pub take_out-Chain :
    (n : ℕ) (live : Ptr → Bool) (next : Ptr → Ptr) (p item : Ptr) (xs : List Ptr)
    → Unique xs
    → Chain next p xs
    → ((a : Ptr) → has a xs ≡ true → live a ≡ true)
    → has item xs ≡ true
    → length xs < n
    → (slot : Ptr) × (next' : Ptr → Ptr) × (take_out n live next p 0 p item ≡ some (slot, next'))
      × Without next item xs slot next'
unfolding take_out remove
take_out-Chain zero live next p item xs u c l h len = absurd (omega arith)
take_out-Chain (suc n) live next p item [] u c l h len = cc
take_out-Chain (suc n) live next p item (a ∷ xs) u (e, za, c) l h len =
    let here : live a ≡ true = l a (ground (arith, ==_refl a)) in
    elim (Bool-cases (a == item)) [
      | inl g ↦
          let found : (item == a) ≡ true = ground (arith, g) in
          (
            next a,
            next,
            rw (e, za, here, g) refl,
            record { chain = rw found c; same = λ b k. refl },
          )
      | inr g ↦
          let other : (item == a) ≡ false = ground (arith, g) in
          let (next', run, out) =
            take_out-behind n live next p a item xs za u c (λ b k. l b (ground (arith, k)))
              (ground (arith, h)) (omega arith) in
          (
            p,
            next',
            rw (e, za, here, g) (rw e at run),
            record { chain = rw other (e, za, out.chain); same = λ b k. out.same b k },
          )
    ]
