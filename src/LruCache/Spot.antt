-- ===== src/LruCache/Spot.antt =====
-- The search of `Unpin` of src/utils/cache.h for an item and the one before it.
use lc.Base.{
  ℕ, zero, suc, ◌<◌, ◌≡◌, refl, sym, subst, Bool, true, false, ◌&&◌, ◌==◌, ==→eq, ==_refl, arith,
  List, [], ◌∷◌, length, some, Bool-cases, inl, inr, ◌⊎◌, if◌then◌else◌,
}
use lc.LruCache.{Ptr, Key, LruCache, update, find_value}
use lc.Base.Distinct.{has, remove, Unique, apart}
use lc.LruCache.Chain.{Chain, Chain-update}

abbrev pub matches : LruCache → Key → Ptr → Ptr → Bool
matches c k v a = (k == c.key a) && (v == c.value a)

-- The pointers after the item `el` behind `pr` has been taken out.
abbrev pub unlinked : (Ptr → Ptr) → Ptr → Ptr → Ptr → Ptr
unlinked next pr el = if pr == 0 then next else update next pr (next el)

-- The item `el` of the chain, and `pr`, the one before it; `prev` is what comes before the chain.
pub record Spot (c : LruCache) (k : Key) (v p prev : Ptr) (xs : List Ptr) (pr el : Ptr)
    : Type 0 where
  pub on : has el xs ≡ true
  pub match : matches c k v el ≡ true
  pub before : has pr (prev ∷ xs) ≡ true
  pub chain :
      Chain
        (unlinked c.next_in_hash pr el)
        (if pr == prev then c.next_in_hash el else p)
        (remove el xs)

abbrev pub NoMatch : LruCache → Key → Ptr → List Ptr → Type 0
NoMatch c k v xs = (a : Ptr) → has a xs ≡ true → matches c k v a ≡ false

module _ (c : LruCache) (k : Key) (v : Ptr) where
  Spot-first :
      (p prev a : Ptr) (xs : List Ptr)
      → Unique (prev ∷ a ∷ xs)
      → Chain c.next_in_hash p (a ∷ xs)
      → matches c k v a ≡ true
      → Spot c k v p prev (a ∷ xs) prev a
  unfolding remove
  Spot-first p prev a xs u (e, z, ch) m = record {
    on = ground (arith, ==_refl a);
    match = m;
    before = ground (arith, ==_refl prev);
    chain =
        rw (==_refl prev, ==_refl a)
          (elim (Bool-cases (prev == 0)) [
            | inl g ↦ rw g ch
            | inr g ↦ rw g (
                Chain-update c.next_in_hash (c.next_in_hash a) prev (c.next_in_hash a) xs
                  (ground (arith, u)) ch)
          ]);
  }

  Spot-later :
      (p prev a : Ptr) (xs : List Ptr)
      → (prev' el : Ptr) → Unique (prev ∷ a ∷ xs)
      → has 0 (a ∷ xs) ≡ false
      → Chain c.next_in_hash p (a ∷ xs)
      → Spot c k v (c.next_in_hash a) a xs prev' el
      → Spot c k v p prev (a ∷ xs) prev' el
  unfolding remove
  Spot-later p prev a xs pr el u out (e, z, ch) s =
      let other : (el == a) ≡ false = ground (arith, apart a el xs u.1.0 s.on) in
      let passed : (pr == prev) ≡ false = ground (arith, apart prev pr (a ∷ xs) u.0 s.before) in
      let there : (pr == 0) ≡ false = ground (arith, apart 0 pr (a ∷ xs) out s.before) in
      let at : (if pr == a then c.next_in_hash el else c.next_in_hash a)
          ≡ unlinked c.next_in_hash pr el a =
        rw there (ground arith) in
      record {
        on = ground (arith, s.on);
        match = s.match;
        before = ground (arith, s.before);
        chain =
            rw (other, passed)
              (
                e,
                z,
                subst (λ r. Chain (unlinked c.next_in_hash pr el) r (remove el xs)) at s.chain,
              );
      }

  pub find_value-Chain :
      (n : ℕ) (p prev : Ptr) (xs : List Ptr)
      → Unique (prev ∷ xs)
      → has 0 xs ≡ false
      → Chain c.next_in_hash p xs
      → ((a : Ptr) → has a xs ≡ true → c.live a ≡ true)
      → length xs < n
      → (pr el : Ptr) × (find_value n c prev p k v ≡ some (pr, el))
        × ((((el == 0) ≡ true) × NoMatch c k v xs)
            ⊎ (((el == 0) ≡ false) × Spot c k v p prev xs pr el))
  unfolding find_value
  find_value-Chain zero p prev xs u out ch l h = absurd (omega arith)
  find_value-Chain (suc n) p prev [] u out ch l h = (prev, 0, rw ch refl, inl (refl, λ a g. cc))
  find_value-Chain (suc n) p prev (a ∷ xs) u out (e, z, ch) l h =
      let live : c.live a ≡ true = l a (ground (arith, ==_refl a)) in
      elim (Bool-cases (matches c k v a)) [
        | inl m ↦ (prev, a, rw (e, z, live, m) refl, inr (z, Spot-first p prev a xs u (e, z, ch) m))
        | inr m ↦
            let (pr, el, run, r) =
              find_value-Chain n (c.next_in_hash a) a xs u.1 (ground (arith, out)) ch
                (λ b g. l b (ground (arith, g))) (omega arith) in
            (
              pr,
              el,
              rw (e, z, live, m) run,
              elim r [
                | inl (g, f) ↦ inl (
                  g,
                  λ b i. elim (Bool-cases (b == a)) [
                    | inl j ↦ subst (λ x. matches c k v x ≡ false) (sym (==→eq b a j)) m
                    | inr j ↦ f b (ground (arith, i, j))
                  ],
                )
                | inr (g, s) ↦ inr (g, Spot-later p prev a xs pr el u out (e, z, ch) s)
              ],
            )
      ]
