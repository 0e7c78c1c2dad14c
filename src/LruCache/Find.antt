-- ===== src/LruCache/Find.antt =====
-- Look-ups of src/utils/cache.h.
use lc.Base.{
  ℕ, suc, ◌+◌, ◌≡◌, refl, sym, ap, subst, ◌∙◌, true, false, ◌&&◌, ◌==◌, ==→eq, ==_refl, arith, List,
  [], ◌∷◌, some, Bool-cases, inl, inr, ◌⊎◌, if◌then◌else◌,
}
use lc.LruCache.{Ptr, Key, LruCache, update, bucket, find, contains_key, lookup_and_pin}
use lc.Base.Distinct.{has}
use lc.LruCache.Chain.{first_with, find-Chain}
use lc.LruCache.Invariant.{IsCache, in_chain, live_in, chain-length, not_null, repin}
use lc.LruCache.Entries.{
  Fresh, entries, has_key, value_of, has_key-Fresh, has_key-item, value_of-Fresh, value_of-item,
  entries-frame,
}

first_with-cases :
    (key : Ptr → Key) (k : Key) (xs : List Ptr)
    → ((first_with key k xs ≡ 0) × ((a : Ptr) → has a xs ≡ true → (k == key a) ≡ false))
      ⊎ ((has (first_with key k xs) xs ≡ true) × ((k == key (first_with key k xs)) ≡ true))
first_with-cases key k [] = inl (refl, λ a h. cc)
first_with-cases key k (a ∷ xs) = elim (Bool-cases (k == key a)) [
  | inl e ↦ inr (rw e (ground (arith, ==_refl a), e))
  | inr e ↦ elim (first_with-cases key k xs) [
    | inl (z, f) ↦ inl (rw e (z, λ b h. other b e f h))
    | inr (h, g) ↦ inr (
        subst (λ r. (has r (a ∷ xs) ≡ true) × ((k == key r) ≡ true)) (sym (passed e))
          (ground (arith, h), g))
  ]
]
  where
    passed : (k == key a) ≡ false → first_with key k (a ∷ xs) ≡ first_with key k xs
    passed e = rw e refl

    other :
        (b : Ptr)
        → (k == key a) ≡ false
        → ((c : Ptr) → has c xs ≡ true → (k == key c) ≡ false)
        → has b (a ∷ xs) ≡ true
        → (k == key b) ≡ false
    other b e f h = elim (Bool-cases (b == a)) [
      | inl g ↦ let same = ap key (==→eq b a g) in ground (arith, e, same)
      | inr g ↦ f b (ground (arith, h, g))
    ]

-- What a look-up finds: null if no item on the queue has the key, else the one that has it.
pub record Hit (c : LruCache) (k : Key) (q : List Ptr) (iter : Ptr) : Type 0 where
  pub on : has iter q ≡ true
  pub there : (iter == 0) ≡ false
  pub only : (a : Ptr) → has a q ≡ true → (k == c.key a) ≡ (iter == a)

module _ {hasher : Key → ℕ} {c : LruCache} {q ev : List Ptr} {ch : ℕ → List Ptr}
    (v : IsCache hasher c q ev ch) (k : Key) where
  abbrev home : ℕ
  home = bucket hasher c k

  pub locate :
      (iter : Ptr) × (find (suc c.size) c (c.hash home) k ≡ some iter)
      × ((((iter == 0) ≡ true) × Fresh c k q) ⊎ Hit c k q iter)
  locate =
      let iter = first_with c.key k (ch home) in
      (
        iter,
        find-Chain (suc c.size) c (c.hash home) k (ch home) (v.chains home)
            (λ a h. live_in v a (in_chain v home a h)) (omega (arith, chain-length v home)),
        elim (first_with-cases c.key k (ch home)) [
          | inl (z, f) ↦ inl (
            ground (arith, z),
            λ a h. elim (Bool-cases (k == c.key a)) [
              | inl e ↦
                  let at = ap (bucket hasher c) (sym (==→eq k (c.key a) e)) in
                  let member : has a (ch home) ≡ true = ground (arith, v.placed home a, at, h) in
                  f a member
              | inr e ↦ e
            ],
          )
          | inr (h, e) ↦
              let on = in_chain v home iter h in
              inr (record {
                on = on;
                there = not_null v iter on;
                only = λ a g. elim (Bool-cases (iter == a)) [
                  | inl i ↦ let same = ap c.key (==→eq iter a i) in ground (arith, e, same, i)
                  | inr i ↦ elim (Bool-cases (k == c.key a)) [
                    | inl j ↦
                        let same = v.keys a iter g on (ground (arith, e, j)) in
                        absurd (ground (arith, same, i))
                    | inr j ↦ ground (arith, i, j)
                  ]
                ];
              })
        ],
      )

  -- `ContainsKey` ends and says whether an entry has the key.
  pub contains_key_lem :
      (c.capacity == 0) ≡ false → contains_key hasher c k ≡ some (has_key k (entries c q))
  unfolding contains_key
  contains_key_lem cap = elim (locate.2) [
    | inl (z, f) ↦ rw (cap, locate.1, z, has_key-Fresh c k q f) refl
    | inr h ↦
        rw
          (
            cap,
            locate.1,
            h.there,
            has_key-item c k locate.0 q h.on
                (ground (arith, h.only locate.0 h.on, ==_refl locate.0)),
          )
          refl
  ]

  -- `LookupAndPin` of a key that has no entry.
  pub lookup_miss :
      (c.capacity == 0) ≡ false
      → (locate.0 == 0) ≡ true
      → Fresh c k q
      → lookup_and_pin hasher c k ≡ some (value_of k (entries c q), c)
  unfolding lookup_and_pin
  lookup_miss cap z f = rw (cap, locate.1, z, value_of-Fresh c k q f) refl

  pub lookup_hit :
      (c.capacity == 0) ≡ false
      → Hit c k q locate.0
      → lookup_and_pin hasher c k
        ≡ some (
          value_of k (entries c q),
          record c { pins = update c.pins locate.0 (c.pins locate.0 + 1) },
        )
  unfolding lookup_and_pin
  lookup_hit cap h = rw (cap, locate.1, h.there, value_of-item c k locate.0 q h.on h.only) refl

  -- With a capacity that is not 0, `LookupAndPin` returns the value of the entry with the key, or null; that item has one more pin, and
  -- the entries and their order stay.
  pub lookup_and_pin_lem :
      (c.capacity == 0) ≡ false
      → (d : LruCache) × (lookup_and_pin hasher c k ≡ some (value_of k (entries c q), d))
        × IsCache hasher d q ev ch
        × (entries d q ≡ entries c q)
        × ((a : Ptr) → d.pins a ≡ (if has a q && (k == c.key a) then c.pins a + 1 else c.pins a))
  lookup_and_pin_lem cap = elim (locate.2) [
    | inl (z, f) ↦ (c, lookup_miss cap z f, v, refl, λ a. ground (arith, f a))
    | inr h ↦
        let iter = locate.0 in
        let pins = update c.pins iter (c.pins iter + 1) in
        let d = record c { pins = pins } in
        (
          d,
          lookup_hit cap h,
          repin v pins (λ a g. ground (arith, v.pinned a g)),
          entries-frame c d q (λ a g. (refl, refl)),
          λ a. elim (Bool-cases (a == iter)) [
            | inl e ↦
                let same = ==→eq a iter e in
                let here : has a q ≡ true = ap (λ x. has x q) same ∙ h.on in
                ground (arith, e, here, h.only a, ap c.pins same)
            | inr e ↦ ground (arith, e, h.only a)
          ],
        )
  ]
