-- ===== src/LruCache/Entries.antt =====
-- What a cache of src/utils/cache.h is from the outside: its keys with their values, from the newest.
use lc.Base.{
  ℕ, zero, suc, ◌≡◌, refl, sym, ap, ◌∙◌, Bool, true, false, ◌||◌, ◌==◌, ==→eq, ==_refl, arith, List,
  [], ◌∷◌, take, Bool-cases, inl, inr, if◌then◌else◌,
}
use lc.LruCache.{Ptr, Key, LruCache}
use lc.Base.Distinct.{has, remove, Unique, apart}

abbrev pub Entries : Type 0
Entries = List (Key × Ptr)

abbrev pub entries : LruCache → List Ptr → Entries
entries c [] = []
entries c (a ∷ q) = (c.key a, c.value a) ∷ entries c q

-- Without the key.
abbrev pub without : Key → Entries → Entries
without k [] = []
without k ((l, w) ∷ es) = if k == l then without k es else (l, w) ∷ without k es

-- The value of the key, or null.
abbrev pub value_of : Key → Entries → Ptr
value_of k [] = 0
value_of k ((l, w) ∷ es) = if k == l then w else value_of k es

abbrev pub has_key : Key → Entries → Bool
has_key k [] = false
has_key k ((l, w) ∷ es) = (k == l) || has_key k es

-- No item on the queue has the key.
abbrev pub Fresh : LruCache → Key → List Ptr → Type 0
Fresh c k q = (a : Ptr) → has a q ≡ true → (k == c.key a) ≡ false

pub entries-without :
    (c : LruCache) (k : Key) (q : List Ptr) → Fresh c k q → entries c q ≡ without k (entries c q)
entries-without c k [] f = refl
entries-without c k (a ∷ q) f =
    rw (f a (ground (arith, ==_refl a))) (
      ap (λ es. (c.key a, c.value a) ∷ es) (entries-without c k q (λ b h. f b (ground (arith, h)))))

pub entries-remove :
    (c : LruCache) (k : Key) (item : Ptr) (q : List Ptr)
    → Unique q
    → ((a : Ptr) → has a q ≡ true → (k == c.key a) ≡ (item == a))
    → entries c (remove item q) ≡ without k (entries c q)
unfolding remove
entries-remove c k item [] u h = refl
entries-remove c k item (a ∷ q) u h =
    let here = h a (ground (arith, ==_refl a)) in
    elim (Bool-cases (item == a)) [
      | inl e ↦
          rw (here, e)
            (entries-without c k q
              (λ b g. h b (ground (arith, g)) ∙ ground (arith, ==→eq item a e, apart a b q u.0 g)))
      | inr e ↦
          rw (here, e)
            (ap (λ es. (c.key a, c.value a) ∷ es)
              (entries-remove c k item q u.1 (λ b g. h b (ground (arith, g)))))
    ]

pub entries-take :
    (c : LruCache) (n : ℕ) (q : List Ptr) → entries c (take n q) ≡ take n (entries c q)
entries-take c zero q = refl
entries-take c (suc n) [] = refl
entries-take c (suc n) (a ∷ q) = ap (λ es. (c.key a, c.value a) ∷ es) (entries-take c n q)

pub entries-frame :
    (c d : LruCache) (q : List Ptr)
    → ((a : Ptr) → has a q ≡ true → (d.key a ≡ c.key a) × (d.value a ≡ c.value a))
    → entries d q ≡ entries c q
entries-frame c d [] h = refl
entries-frame c d (a ∷ q) h =
    let here = h a (ground (arith, ==_refl a)) in
    rw (here.0, here.1)
      (ap (λ es. (c.key a, c.value a) ∷ es) (entries-frame c d q (λ b g. h b (ground (arith, g)))))

pub has_key-Fresh :
    (c : LruCache) (k : Key) (q : List Ptr) → Fresh c k q → has_key k (entries c q) ≡ false
has_key-Fresh c k [] f = refl
has_key-Fresh c k (a ∷ q) f =
    rw (f a (ground (arith, ==_refl a))) (has_key-Fresh c k q (λ b h. f b (ground (arith, h))))

pub value_of-Fresh :
    (c : LruCache) (k : Key) (q : List Ptr) → Fresh c k q → value_of k (entries c q) ≡ 0
value_of-Fresh c k [] f = refl
value_of-Fresh c k (a ∷ q) f =
    rw (f a (ground (arith, ==_refl a))) (value_of-Fresh c k q (λ b h. f b (ground (arith, h))))

pub has_key-item :
    (c : LruCache) (k : Key) (item : Ptr) (q : List Ptr)
    → has item q ≡ true
    → (k == c.key item) ≡ true
    → has_key k (entries c q) ≡ true
has_key-item c k item [] h e = cc
has_key-item c k item (a ∷ q) h e = elim (Bool-cases (item == a)) [
  | inl g ↦ let same = ap c.key (==→eq item a g) in ground (arith, e, same)
  | inr g ↦ ground (arith, has_key-item c k item q (ground (arith, h, g)) e)
]

pub value_of-item :
    (c : LruCache) (k : Key) (item : Ptr) (q : List Ptr)
    → has item q ≡ true
    → ((a : Ptr) → has a q ≡ true → (k == c.key a) ≡ (item == a))
    → value_of k (entries c q) ≡ c.value item
value_of-item c k item [] h g = cc
value_of-item c k item (a ∷ q) h g =
    let here = g a (ground (arith, ==_refl a)) in
    elim (Bool-cases (item == a)) [
      | inl e ↦ rw (here, e) (ap c.value (sym (==→eq item a e)))
      | inr e ↦
          rw (here, e)
            (value_of-item c k item q (ground (arith, h, e)) (λ b i. g b (ground (arith, i))))
    ]
