-- ===== src/LruCache/Lock.antt =====
-- `LruCacheLock` of src/utils/cache.h, which pins an item as long as it lives.
use lc.Base.{
  ℕ, ◌+◌, ◌≡◌, refl, ap, ◌∙◌, Bool, true, false, not, ◌==◌, ==→eq, ==_refl, arith, List, Option,
  some, ◌>>=◌, Bool-cases, inl, inr, if◌then◌else◌,
}
use lc.LruCache.{Ptr, Key, LruCache, update, lookup_and_pin, unpin}
use lc.Base.Distinct.{has}
use lc.LruCache.Invariant.{IsCache, repin}
use lc.LruCache.Entries.{
  entries, entries-frame, value_of, value_of-Fresh, value_of-item, has_key, has_key-Fresh,
  has_key-item,
}
use lc.LruCache.Find.{Hit, locate, lookup_hit, lookup_miss}
use lc.LruCache.Spot.{NoMatch}
use lc.LruCache.Unpin.{Held, Unpinned, unpin_lem}

pub record LruCacheLock : Type 0 where
  pub key : Key
  pub value : Ptr

-- The constructor, in the state of the cache.
unfoldable pub lock : (Key → ℕ) → LruCache → Key → Option (LruCacheLock × LruCache)
lock hasher c k = do (v, d) ← lookup_and_pin hasher c k; some (record { key = k; value = v }, d)

unfoldable pub unlock : (Key → ℕ) → LruCache → LruCacheLock → Option LruCache
unlock hasher c l = if l.value == 0 then some c else unpin hasher c l.key l.value

abbrev pub holds : LruCacheLock → Bool
holds l = not (l.value == 0)

-- `operator=(LruCacheLock&&)` of another lock of the same cache: the two locks after it.
unfoldable pub move_assign : LruCacheLock → LruCacheLock → LruCacheLock × LruCacheLock
move_assign l other = (other, record other { value = 0 })

-- What a lock leaves when it goes: the cache with the pins that it had.
pub record Released (hasher : Key → ℕ) (c : LruCache) (q ev : List Ptr) (ch : ℕ → List Ptr)
    (e : LruCache) : Type 0 where
  pub evicted : List Ptr
  pub valid : IsCache hasher e q evicted ch
  pub entries_lem : entries e q ≡ entries c q
  pub pins_lem : (a : Ptr) → e.pins a ≡ c.pins a
  pub evicted_lem : (a : Ptr) → has a evicted ≡ has a ev

module _ {hasher : Key → ℕ} {c : LruCache} {q ev : List Ptr} {ch : ℕ → List Ptr}
    (v : IsCache hasher c q ev ch) (k : Key) where
  module _ (h : Hit c k q (locate v k).0) (owned : NoMatch c k (value_of k (entries c q)) ev) where
    abbrev item : Ptr
    item = (locate v k).0

    abbrev pinned : LruCache
    pinned = record c { pins = update c.pins item (c.pins item + 1) }

    pinned-IsCache : IsCache hasher pinned q ev ch
    pinned-IsCache =
        repin v (update c.pins item (c.pins item + 1)) (λ a g. ground (arith, v.pinned a g))

    pinned-Held : Held pinned-IsCache k (value_of k (entries c q))
    pinned-Held = record {
      owner = item;
      kept = ground (arith, h.on);
      owns = ground (
        arith,
        h.only item h.on,
        value_of-item c k item q h.on h.only,
        ==_refl item,
        ==_refl (c.value item),
      );
      held = ground (arith, ==_refl item);
    }

    released :
        {e : LruCache}
        → Unpinned hasher pinned q ev ch k (value_of k (entries c q)) e
        → Released hasher c q ev ch e
    released {e} u =
        let item_out : has item ev ≡ false = ground (arith, v.separate item, h.on) in
        let none_evicted = owned u.item in
        let same : (item == u.item) ≡ true =
          ground (arith, u.match, none_evicted, h.only u.item, u.kept) in
        record {
          evicted = u.evicted;
          valid = u.valid;
          entries_lem = u.entries_lem ∙ entries-frame c pinned q (λ a g. (refl, refl));
          pins_lem = λ a. elim (Bool-cases (a == item)) [
            | inl g ↦ ground (arith, u.pins_lem a, g, ==→eq a item g, same)
            | inr g ↦ ground (arith, u.pins_lem a, g, ==→eq item u.item same)
          ];
          evicted_lem = λ a. elim (Bool-cases (a == item)) [
            | inl g ↦
                let out : has a ev ≡ false = ap (λ x. has x ev) (==→eq a item g) ∙ item_out in
                ground (arith, u.evicted_lem a, out)
            | inr g ↦ ground (arith, u.evicted_lem a, g, ==→eq item u.item same)
          ];
        }

  -- With a capacity that is not 0, a lock holds the value of the key, if there is one, and at its end the
  -- cache has the entries and the pins that it had. No evicted item has the key and that value, and values
  -- are not null.
  pub unlock-lock :
      (c.capacity == 0) ≡ false
      → NoMatch c k (value_of k (entries c q)) ev
      → (has_key k (entries c q) ≡ true → (value_of k (entries c q) == 0) ≡ false)
      → (l : LruCacheLock) × (d e : LruCache) × (lock hasher c k ≡ some (l, d))
        × (unlock hasher d l ≡ some e)
        × (holds l ≡ has_key k (entries c q))
        × (l.value ≡ value_of k (entries c q))
        × Released hasher c q ev ch e
  unfolding lock unlock
  unlock-lock cap owned there = elim ((locate v k).2) [
    | inl (z, f) ↦ (
      record { key = k; value = value_of k (entries c q) },
      c,
      c,
      rw (lookup_miss v k cap z f) refl,
      rw (value_of-Fresh c k q f) refl,
      ground (arith, value_of-Fresh c k q f, has_key-Fresh c k q f),
      refl,
      record {
        evicted = ev;
        valid = v;
        entries_lem = refl;
        pins_lem = λ a. refl;
        evicted_lem = λ a. refl;
      },
    )
    | inr h ↦
        let has_it =
          has_key-item c k (locate v k).0 q h.on
            (ground (arith, h.only (locate v k).0 h.on, ==_refl (locate v k).0)) in
        let some_value = there has_it in
        let (e, run, u) =
          unpin_lem (pinned-IsCache h owned) k (value_of k (entries c q)) (pinned-Held h owned) in
        (
          record { key = k; value = value_of k (entries c q) },
          pinned h owned,
          e,
          rw (lookup_hit v k cap h) refl,
          rw some_value run,
          ground (arith, some_value, has_it),
          refl,
          released h owned u,
        )
  ]
