-- ===== src/Base/Distinct.antt =====
-- Lists of numbers without repetition.
use Prim.Native.Nat.{ℕ, zero, suc, ◌≤◌, ◌<◌}
use mathlib.Core.Path.{◌≡◌, refl, ap, ◌∙◌}
use mathlib.Core.Logic.{inl, inr}
use mathlib.Core.Bool.{Bool, true, false, not, ◌&&◌, ◌||◌}
use mathlib.Core.List.{List, [], ◌∷◌}
use native.Mathlib.Omega.{arith}
use lc.Base.Tests.{◌==◌, ==→eq, ==_refl, if◌then◌else◌, Bool-cases}
use lc.Base.Lists.{length, take}

abbrev pub has : ℕ → List ℕ → Bool
has a [] = false
has a (x ∷ xs) = (a == x) || has a xs

-- The list without the first `a`.
unfoldable pub remove : ℕ → List ℕ → List ℕ
remove a [] = []
remove a (x ∷ xs) = if a == x then xs else x ∷ remove a xs

abbrev pub Unique : List ℕ → Type 0
Unique [] = Unit
Unique (x ∷ xs) = (has x xs ≡ false) × Unique xs

pub has-remove-false : (a b : ℕ) (xs : List ℕ) → has b xs ≡ false → has b (remove a xs) ≡ false
unfolding remove
has-remove-false a b [] h = refl
has-remove-false a b (x ∷ xs) h = ground (arith, has-remove-false a b xs)

pub has-remove :
    (a b : ℕ) (xs : List ℕ) → Unique xs → has b (remove a xs) ≡ (has b xs && not (a == b))
unfolding remove
has-remove a b [] u = refl
has-remove a b (x ∷ xs) u = elim (Bool-cases (a == x)) [
  | inl e ↦
      rw (e, ==→eq a x e)
        (elim (Bool-cases (x == b)) [
          | inl g ↦ let same = ap (λ y. has y xs) (==→eq x b g) in ground (arith, u)
          | inr g ↦ ground arith
        ])
  | inr e ↦ rw e (ground (arith, has-remove a b xs u.1, ==→eq b x))
]

pub remove-Unique : (a : ℕ) (xs : List ℕ) → Unique xs → Unique (remove a xs)
unfolding remove
remove-Unique a [] u = tt
remove-Unique a (x ∷ xs) u = elim (Bool-cases (a == x)) [
  | inl e ↦ rw e u.1
  | inr e ↦ rw e (has-remove-false a x xs u.0, remove-Unique a xs u.1)
]

pub length-remove : (a : ℕ) (xs : List ℕ) → has a xs ≡ true → suc (length (remove a xs)) ≡ length xs
unfolding remove
length-remove a [] h = cc
length-remove a (x ∷ xs) h = elim (Bool-cases (a == x)) [
  | inl e ↦ rw e
  | inr e ↦ rw e (ap suc (length-remove a xs (ground (arith, h))))
]

pub has-remove_other : (a b : ℕ) (xs : List ℕ) → (a == b) ≡ false → has b (remove a xs) ≡ has b xs
unfolding remove
has-remove_other a b [] h = refl
has-remove_other a b (x ∷ xs) h = elim (Bool-cases (a == x)) [
  | inl e ↦ rw e (ground (arith, ==→eq a x e))
  | inr e ↦ rw e (rw (has-remove_other a b xs h))
]

-- Members of one list and not of another differ.
pub apart : (a b : ℕ) (xs : List ℕ) → has a xs ≡ false → has b xs ≡ true → (a == b) ≡ false
apart a b xs h g = elim (Bool-cases (a == b)) [
  | inl e ↦ let same = ap (λ y. has y xs) (==→eq a b e) in absurd (ground (arith, same))
  | inr e ↦ e
]

-- A list without repetition whose members are all in another is no longer than it.
pub length_le :
    (xs ys : List ℕ)
    → Unique xs
    → ((a : ℕ) → has a xs ≡ true → has a ys ≡ true)
    → length xs ≤ length ys
length_le [] ys u sub = omega arith
length_le (x ∷ xs) ys u sub =
    let shorter =
      length_le xs (remove x ys) u.1
        (λ b h. has-remove_other x b ys (apart x b xs u.0 h) ∙ sub b (ground (arith, h))) in
    omega (arith, shorter, length-remove x ys (sub x (ground (arith, ==_refl x))))

pub has-take : (a : ℕ) (n : ℕ) (xs : List ℕ) → has a xs ≡ false → has a (take n xs) ≡ false
has-take a zero xs h = refl
has-take a (suc n) [] h = refl
has-take a (suc n) (x ∷ xs) h = ground (arith, h, has-take a n xs)

pub length-take_le : (n : ℕ) (xs : List ℕ) → length (take n xs) ≤ n
length-take_le zero xs = omega arith
length-take_le (suc n) [] = omega arith
length-take_le (suc n) (x ∷ xs) = omega (arith, length-take_le n xs)

pub take-has : (a : ℕ) (n : ℕ) (xs : List ℕ) → has a (take n xs) ≡ true → has a xs ≡ true
take-has a zero xs h = cc
take-has a (suc n) [] h = cc
take-has a (suc n) (x ∷ xs) h = ground (arith, h, take-has a n xs)

pub not_zero : (n : ℕ) → (n == 0) ≡ false → 0 < n
not_zero n h = ground (arith, h)
