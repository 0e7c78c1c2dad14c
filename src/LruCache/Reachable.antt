-- ===== src/LruCache/Reachable.antt =====
-- The states that the operations of src/utils/cache.h reach, from a new cache to its destruction.
use lc.Base.{
  subst, some-injective, ℕ, ◌≡◌, sym, ap, ◌∙◌, true, ◌||◌, ◌==◌, arith, List, [], some, Bool-cases,
  inl, inr,
}
use lc.LruCache.{Ptr, Key, LruCache, make, insert, lookup_and_pin, unpin, clear, set_capacity}
use lc.LruCache.Invariant.{IsCache, make-IsCache}
use lc.LruCache.Find.{lookup_and_pin_lem}
use lc.LruCache.Insert.{insert_lem}
use lc.LruCache.Resize.{set_capacity_lem}
use lc.LruCache.Shrink.{Shrunk, shrinks}
use lc.LruCache.Unpin.{unpin_lem, unpin_cases}

-- An operation that ended without a fault.
pub data Step (hasher : Key → ℕ) (c d : LruCache) : Type 0 where
  inserted : (k : Key) (v : Ptr) → insert hasher c k v ≡ some d → Step hasher c d
  looked_up : (k : Key) (v : Ptr) → lookup_and_pin hasher c k ≡ some (v, d) → Step hasher c d
  unpinned : (k : Key) (v : Ptr) → unpin hasher c k v ≡ some d → Step hasher c d
  -- `SetCapacity` where no item is left to be put into the new table.
  resized :
      (n : ℕ)
      → ((n == 0) || (c.size == 0)) ≡ true
      → set_capacity hasher n c ≡ some d
      → Step hasher c d
  cleared : clear hasher c ≡ some d → Step hasher c d

pub data Reachable (hasher : Key → ℕ) : LruCache → Type 0 where
  start : (capacity : ℕ) → Reachable hasher (make capacity)
  next : {c d : LruCache} → Reachable hasher c → Step hasher c d → Reachable hasher d

-- The cache is well formed for some items.
pub record WellFormed (hasher : Key → ℕ) (c : LruCache) : Type 0 where
  pub queue : List Ptr
  pub evicted : List Ptr
  pub chains : ℕ → List Ptr
  pub valid : IsCache hasher c queue evicted chains

clears :
    {hasher : Key → ℕ} {c : LruCache} {q ev : List Ptr} {ch : ℕ → List Ptr}
    → IsCache hasher c q ev ch
    → (d : LruCache) × (clear hasher c ≡ some d) × Shrunk hasher 0 c q ev d
unfolding clear
clears {c = c} {q} v = shrinks c.size 0 q v (omega (arith, v.size))

module _ {hasher : Key → ℕ} where
  WellFormed-Step : {c d : LruCache} → WellFormed hasher c → Step hasher c d → WellFormed hasher d
  unfolding insert lookup_and_pin set_capacity
  WellFormed-Step {c} {d} w (inserted k v run) = elim (Bool-cases (c.capacity == 0)) [
    | inl e ↦ subst (λ x. WellFormed hasher x) (some-injective (rw e at run)) w
    | inr e ↦
        let (d', run', i) = insert_lem w.valid k v e in
        subst (λ x. WellFormed hasher x) (some-injective (sym run' ∙ run))
          (record { queue = i.queue; evicted = i.evicted; chains = i.chains; valid = i.valid })
  ]
  WellFormed-Step {c} {d} w (looked_up k v run) = elim (Bool-cases (c.capacity == 0)) [
    | inl e ↦
        let same = some-injective (rw e at run) in
        subst (λ x. WellFormed hasher x) (ap (λ p. p.1) same) w
    | inr e ↦
        let (d', run', valid, same, pins) = lookup_and_pin_lem w.valid k e in
        subst (λ x. WellFormed hasher x) (ap (λ p. p.1) (some-injective (sym run' ∙ run)))
          (record { queue = w.queue; evicted = w.evicted; chains = w.chains; valid = valid })
  ]
  WellFormed-Step {c} {d} w (unpinned k v run) = elim (unpin_cases w.valid k v) [
    | inl h ↦
        let (d', run', i) = unpin_lem w.valid k v h in
        subst (λ x. WellFormed hasher x) (some-injective (sym run' ∙ run))
          (record { queue = w.queue; evicted = i.evicted; chains = w.chains; valid = i.valid })
    | inr n ↦ let bad = sym n ∙ run in cc
  ]
  WellFormed-Step {c} {d} w (resized n e run) = elim (Bool-cases (c.capacity == n)) [
    | inl g ↦ subst (λ x. WellFormed hasher x) (some-injective (rw g at run)) w
    | inr g ↦
        let (d', ev, run', valid, same) = set_capacity_lem w.valid n g e in
        subst (λ x. WellFormed hasher x) (some-injective (sym run' ∙ run))
          (record { queue = []; evicted = ev; chains = λ b. []; valid = valid })
  ]
  WellFormed-Step {c} {d} w (cleared run) =
      let (d', run', i) = clears w.valid in
      subst (λ x. WellFormed hasher x) (some-injective (sym run' ∙ run))
        (record { queue = []; evicted = i.evicted; chains = i.chains; valid = i.valid })

  -- Every state that the operations reach is well formed.
  pub reachable-WellFormed : {c : LruCache} → Reachable hasher c → WellFormed hasher c
  reachable-WellFormed (start capacity) = record {
    queue = [];
    evicted = [];
    chains = λ b. [];
    valid = make-IsCache hasher capacity;
  }
  reachable-WellFormed (next r s) = WellFormed-Step (reachable-WellFormed r) s
