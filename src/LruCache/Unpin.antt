-- ===== src/LruCache/Unpin.antt =====
-- `Unpin` of src/utils/cache.h.
use lc.Base.{
  ℕ, suc, ◌-◌, ◌≡◌, refl, sym, ap, ◌∙◌, true, false, not, ◌&&◌, ◌||◌, ◌==◌, ==→eq, arith, List,
  none, some, Bool-cases, inl, inr, ◌⊎◌, if◌then◌else◌,
}
use lc.LruCache.{Ptr, Key, LruCache, update, bucket, find_value, unpin_evicted, unpin_active, unpin}
use lc.Base.Distinct.{has, remove, apart, has-remove, remove-Unique, length-remove}
use lc.LruCache.Chain.{Chain, Chain-update}
use lc.LruCache.Invariant.{
  IsCache, null_out, null_out_evicted, in_chain, live_in, chain-length, repin,
}
use lc.LruCache.Entries.{entries, entries-frame}
use lc.LruCache.Spot.{Spot, NoMatch, matches, unlinked, find_value-Chain}

-- What `Unpin` leaves: one of the items with the key and the value has one pin fewer. An evicted item
-- goes with its last pin.
pub record Unpinned (hasher : Key → ℕ) (c : LruCache) (q ev : List Ptr) (ch : ℕ → List Ptr)
    (k : Key) (val : Ptr) (d : LruCache) : Type 0 where
  pub item : Ptr
  pub evicted : List Ptr
  pub valid : IsCache hasher d q evicted ch
  pub entries_lem : entries d q ≡ entries c q
  pub kept : (has item q || has item ev) ≡ true
  pub match : matches c k val item ≡ true
  pub was_pinned : (c.pins item == 0) ≡ false
  pub pins_lem : (a : Ptr) → d.pins a ≡ (if a == item then c.pins a - 1 else c.pins a)
  pub evicted_lem : (a : Ptr) → has a evicted ≡ (has a ev && not ((a == item) && (c.pins a == 1)))

module _ {hasher : Key → ℕ} {c : LruCache} {q ev : List Ptr} {ch : ℕ → List Ptr}
    (v : IsCache hasher c q ev ch) (k : Key) (val : Ptr) where
  among_evicted :
      (pr el : Ptr) × (find_value (suc c.allocated) c 0 c.evicted_head k val ≡ some (pr, el))
      × ((((el == 0) ≡ true) × NoMatch c k val ev)
          ⊎ (((el == 0) ≡ false) × Spot c k val c.evicted_head 0 ev pr el))
  among_evicted =
      find_value-Chain c k val (suc c.allocated) c.evicted_head 0 ev
        (null_out_evicted v, v.evicted_unique) (null_out_evicted v) v.evicted
        (λ a h. ground (arith, v.live a, h)) (omega (arith, v.allocated))

  abbrev home : ℕ
  home = bucket hasher c k

  on_chain :
      (pr el : Ptr) × (find_value (suc c.size) c 0 (c.hash home) k val ≡ some (pr, el))
      × ((((el == 0) ≡ true) × NoMatch c k val (ch home))
          ⊎ (((el == 0) ≡ false) × Spot c k val (c.hash home) 0 (ch home) pr el))
  on_chain =
      let out : has 0 (ch home) ≡ false = ground (arith, v.placed home 0, null_out v) in
      find_value-Chain c k val (suc c.size) (c.hash home) 0 (ch home) (out, v.chains_unique home)
        out (v.chains home) (λ a h. live_in v a (in_chain v home a h))
        (omega (arith, chain-length v home))

  module _ (pr el : Ptr) (s : Spot c k val c.evicted_head 0 ev pr el) where
    abbrev gone : LruCache
    gone = record c {
      pins = update c.pins el 0;
      evicted_head = if pr == 0 then c.next_in_hash el else c.evicted_head;
      next_in_hash = unlinked c.next_in_hash pr el;
      allocated = c.allocated - 1;
      live = update c.live el false;
    }

    -- Other chains do not meet the item before.
    elsewhere : (b : ℕ) → Chain (unlinked c.next_in_hash pr el) (c.hash b) (ch b)
    elsewhere b = elim (Bool-cases (pr == 0)) [
      | inl e ↦ rw e (v.chains b)
      | inr e ↦
          let out : has pr (ch b) ≡ false =
            ground (arith, s.before, e, v.separate pr, v.placed b pr) in
          rw e
            (Chain-update c.next_in_hash (c.hash b) pr (c.next_in_hash el) (ch b) out (v.chains b))
    ]

    gone-IsCache : (c.pins el == 1) ≡ true → IsCache hasher gone q (remove el ev) ch
    gone-IsCache e =
        let out : (a : Ptr) → has a (remove el ev) ≡ (has a ev && not (el == a)) =
          λ a. has-remove el a ev v.evicted_unique in
        record {
          queue = v.queue;
          queue_unique = v.queue_unique;
          evicted = s.chain;
          evicted_unique = remove-Unique el ev v.evicted_unique;
          chains = elsewhere;
          chains_unique = v.chains_unique;
          placed = v.placed;
          separate = λ a. ground (arith, v.separate a, out a);
          live = λ a. elim (Bool-cases (a == el)) [
            | inl g ↦
                let here : has a ev ≡ true = ap (λ x. has x ev) (==→eq a el g) ∙ s.on in
                ground (arith, v.separate a, here, g, out a)
            | inr g ↦ ground (arith, v.live a, out a, g)
          ];
          null_dead = ground (arith, v.null_dead);
          below_fresh = λ a h. v.below_fresh a (ground (arith, h));
          fresh_not_null = v.fresh_not_null;
          size = v.size;
          allocated = omega (arith, v.allocated, length-remove el ev s.on);
          fits = v.fits;
          keys = v.keys;
          pinned = λ a h. ground (arith, v.pinned a, out a, h);
        }

    drop_one :
        (a : Ptr)
        → update c.pins el (c.pins el - 1) a ≡ (if a == el then c.pins a - 1 else c.pins a)
    drop_one a = elim (Bool-cases (a == el)) [
      | inl g ↦ rw g (ap (λ x. c.pins x - 1) (sym (==→eq a el g)))
      | inr g ↦ rw g refl
    ]

    last_pin : (c.pins el == 1) ≡ true → Unpinned hasher c q ev ch k val (unpin_evicted c pr el)
    unfolding unpin_evicted
    last_pin e = rw e (record {
      item = el;
      evicted = remove el ev;
      valid = gone-IsCache e;
      entries_lem = entries-frame c gone q (λ a h. (refl, refl));
      kept = ground (arith, s.on);
      match = s.match;
      was_pinned = v.pinned el s.on;
      pins_lem = λ a. elim (Bool-cases (a == el)) [
        | inl g ↦ rw g (ground (arith, e, ap c.pins (==→eq a el g)))
        | inr g ↦ rw g refl
      ];
      evicted_lem = λ a. elim (Bool-cases (a == el)) [
        | inl g ↦
            ground (arith, e, ap c.pins (==→eq a el g), has-remove el a ev v.evicted_unique, g)
        | inr g ↦ ground (arith, has-remove el a ev v.evicted_unique, g)
      ];
    })

    more_pins : (c.pins el == 1) ≡ false → Unpinned hasher c q ev ch k val (unpin_evicted c pr el)
    unfolding unpin_evicted
    more_pins e =
        let same : (a : Ptr) → (a == el) ≡ true → c.pins a ≡ c.pins el =
          λ a g. ap c.pins (==→eq a el g) in
        rw e (record {
          item = el;
          evicted = ev;
          valid =
              repin v (update c.pins el (c.pins el - 1))
                (λ a h. ground (arith, v.pinned a h, same a, e));
          entries_lem =
              entries-frame c (record c { pins = update c.pins el (c.pins el - 1) }) q
                (λ a h. (refl, refl));
          kept = ground (arith, s.on);
          match = s.match;
          was_pinned = v.pinned el s.on;
          pins_lem = drop_one;
          evicted_lem = λ a. ground (arith, same a, e);
        })

  -- The item that the key and the value belong to, which is pinned.
  pub record Held : Type 0 where
    pub owner : Ptr
    pub kept : (has owner q || has owner ev) ≡ true
    pub owns : matches c k val owner ≡ true
    pub held : (c.pins owner == 0) ≡ false

  module _ (h : Held) (none_evicted : NoMatch c k val ev) where
    on_queue : has h.owner q ≡ true
    on_queue = ground (arith, h.kept, none_evicted h.owner, h.owns)

    in_home : has h.owner (ch home) ≡ true
    in_home =
        let at : bucket hasher c (c.key h.owner) ≡ home =
          ap (bucket hasher c) (sym (==→eq k (c.key h.owner) (ground (arith, h.owns)))) in
        ground (arith, v.placed home h.owner, on_queue, at)

    active :
        (pr el : Ptr)
        → (el == 0) ≡ false
        → Spot c k val (c.hash home) 0 (ch home) pr el
        → (d : LruCache) × (unpin_active c el ≡ some d) × Unpinned hasher c q ev ch k val d
    unfolding unpin_active
    active pr el there s =
        let on : has el q ≡ true = in_chain v home el s.on in
        let same : el ≡ h.owner = v.keys el h.owner on on_queue (ground (arith, s.match, h.owns)) in
        let pinned : (c.pins el == 0) ≡ false = ap (λ x. c.pins x == 0) same ∙ h.held in
        let d = record c { pins = update c.pins el (c.pins el - 1) } in
        (
          d,
          rw (there, pinned) refl,
          record {
            item = el;
            evicted = ev;
            valid =
                repin v (update c.pins el (c.pins el - 1))
                  (λ a g. ground (arith, v.pinned a g, apart_from el on a g));
            entries_lem = entries-frame c d q (λ a g. (refl, refl));
            kept = ground (arith, s.on);
            match = s.match;
            was_pinned = pinned;
            pins_lem = λ a. elim (Bool-cases (a == el)) [
              | inl g ↦ rw g (ap (λ x. c.pins x - 1) (sym (==→eq a el g)))
              | inr g ↦ rw g refl
            ];
            evicted_lem = λ a. ground (arith, apart_from el on a);
          },
        )
      where
        apart_from : (el : Ptr) → has el q ≡ true → (a : Ptr) → has a ev ≡ true → (a == el) ≡ false
        apart_from el on a g = ground (arith, apart el a ev (ground (arith, v.separate el, on)) g)

  -- `Unpin` of a key and a value that a pinned item has ends without a fault: one such item has one pin
  -- fewer, the entries stay, and an evicted item is deleted with its last pin.
  pub unpin_lem :
      Held → (d : LruCache) × (unpin hasher c k val ≡ some d) × Unpinned hasher c q ev ch k val d
  unfolding unpin
  unpin_lem h =
      let (pr, el, run, r) = among_evicted in
      elim r [
        | inl (z, f) ↦
            let (pr', el', run', r') = on_chain in
            elim r' [
              | inl (z', f') ↦
                  let none_there = f' h.owner (in_home h f) in
                  absurd (ground (arith, none_there, h.owns))
              | inr (there, s) ↦
                  let (d, run'', u) = active h f pr' el' there s in
                  (d, rw (run, z, run', run'') refl, u)
            ]
        | inr (there, s) ↦ (
          unpin_evicted c pr el,
          rw (run, there) refl,
          elim (Bool-cases (c.pins el == 1)) [
            | inl e ↦ last_pin pr el s e
            | inr e ↦ more_pins pr el s e
          ],
        )
      ]

  -- `Unpin` of an item that is not pinned runs into an assertion.
  pub unpin_cases : Held ⊎ (unpin hasher c k val ≡ none)
  unfolding unpin unpin_active
  unpin_cases =
      let (pr, el, run, r) = among_evicted in
      elim r [
        | inl (z, f) ↦
            let (pr', el', run', r') = on_chain in
            elim r' [
              | inl (z', f') ↦ inr (rw (run, z, run', z') refl)
              | inr (there, s) ↦ elim (Bool-cases (c.pins el' == 0)) [
                | inl free ↦ inr (rw (run, z, run', there, free) refl)
                | inr held ↦ inl (record {
                  owner = el';
                  kept = ground (arith, in_chain v home el' s.on);
                  owns = s.match;
                  held = held;
                })
              ]
            ]
        | inr (there, s) ↦ inl (record {
          owner = el;
          kept = ground (arith, s.on);
          owns = s.match;
          held = v.pinned el s.on;
        })
      ]
