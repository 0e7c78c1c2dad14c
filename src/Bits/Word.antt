-- ===== src/Bits/Word.antt =====
-- Words of a fixed width: equality by bits, powers of two, complement and shifts.
use native.Mathlib.Nat.{pow-suc, one-le-pow, div-div-eq-div-mul, div-add-mod'}
use lc.Base.{
  ℕ, zero, suc, ◌+◌, ◌-◌, ◌*◌, ◌/◌, ◌%◌, ◌^◌, ◌≤◌, ◌<◌, ◌≡◌, refl, sym, ap, ◌∙◌, false, not, ◌&&◌,
  ◌==◌, leb, arith, Bool-cases, inl, inr,
}
use lc.Bits.{bit}
use lc.Bits.Logic.{bit-zero}

-- Two numbers below 2 ^ w with the same w bits are equal.
pub eq_of_bits : (w a b : ℕ) → a < 2 ^ w → b < 2 ^ w → ((i : ℕ) → i < w → bit a i ≡ bit b i) → a ≡ b
unfolding bit
eq_of_bits zero a b p q h = omega arith
eq_of_bits (suc w) a b p q h =
    let two = pow-suc 2 w in
    let high =
      eq_of_bits w (a / 2) (b / 2) (omega arith) (omega arith) (λ i l. h (suc i) (omega arith)) in
    ground (arith, h 0 (omega arith))

lt_pow : (a : ℕ) → a < 2 ^ a
lt_pow zero = omega arith
lt_pow (suc a) = omega (arith, pow-suc 2 a, lt_pow a)

pow_mono : (a b : ℕ) → a ≤ b → 2 ^ a ≤ 2 ^ b
pow_mono a zero h = let e : a ≡ 0 = omega arith in rw e (omega arith)
pow_mono a (suc b) h = elim (Bool-cases (leb a b)) [
  | inl l ↦ omega (arith, pow-suc 2 b, pow_mono a b (ground arith))
  | inr l ↦ let e : a ≡ suc b = ground arith in rw e (omega arith)
]

-- Two numbers with the same bits are equal.
pub eq_of_all_bits : (a b : ℕ) → ((i : ℕ) → bit a i ≡ bit b i) → a ≡ b
eq_of_all_bits a b h =
    eq_of_bits (a + b) a b (omega (arith, lt_pow a, pow_mono a (a + b) (omega arith)))
      (omega (arith, lt_pow b, pow_mono b (a + b) (omega arith))) (λ i l. h i)

-- No bit of a number below 2 ^ w stands at w or above.
pub bit-above : (w a i : ℕ) → a < 2 ^ w → w ≤ i → bit a i ≡ false
unfolding bit
bit-above zero a i p h = let e : a ≡ 0 = omega arith in rw e (bit-zero i)
bit-above (suc w) a zero p h = absurd (omega arith)
bit-above (suc w) a (suc i) p h = bit-above w (a / 2) i (omega (arith, pow-suc 2 w)) (omega arith)

-- A number whose bits from w on are clear is below 2 ^ w.
pub lt_of_bits : (w a : ℕ) → ((i : ℕ) → w ≤ i → bit a i ≡ false) → a < 2 ^ w
unfolding bit
lt_of_bits zero a h =
    let e : a ≡ 0 = eq_of_all_bits a 0 (λ i. h i (omega arith) ∙ sym (bit-zero i)) in omega arith
lt_of_bits (suc w) a h =
    omega (arith, pow-suc 2 w, lt_of_bits w (a / 2) (λ i l. h (suc i) (omega arith)))

pub bit-pow : (k i : ℕ) → bit (2 ^ k) i ≡ (k == i)
unfolding bit
bit-pow zero zero = refl
bit-pow zero (suc i) = bit-zero i ∙ (ground arith)
bit-pow (suc k) zero = ground (arith, pow-suc 2 k)
bit-pow (suc k) (suc i) =
    let e : 2 ^ suc k / 2 ≡ 2 ^ k = omega (arith, pow-suc 2 k) in rw (e, bit-pow k i) (ground arith)

-- The bits of 2 ^ w - 1 - a are those of a turned over.
pub bit-complement : (w a i : ℕ) → a < 2 ^ w → i < w → bit (2 ^ w - 1 - a) i ≡ not (bit a i)
unfolding bit
bit-complement zero a i p h = absurd (omega arith)
bit-complement (suc w) a zero p h = ground (arith, pow-suc 2 w, one-le-pow w 2)
bit-complement (suc w) a (suc i) p h =
    let e : (2 ^ suc w - 1 - a) / 2 ≡ 2 ^ w - 1 - a / 2 =
      omega (arith, pow-suc 2 w, one-le-pow w 2) in
    rw e (bit-complement w (a / 2) i (omega (arith, pow-suc 2 w)) (omega arith))

pub bit-shl : (a k i : ℕ) → bit (a * 2 ^ k) i ≡ (leb k i && bit a (i - k))
unfolding bit
bit-shl a zero i = ground (arith)
bit-shl a (suc k) zero = ground (arith, pow-suc 2 k, ap (λ (t : ℕ). a * t) (pow-suc 2 k))
bit-shl a (suc k) (suc i) =
    let e : a * 2 ^ suc k / 2 ≡ a * 2 ^ k = omega (arith, ap (λ (t : ℕ). a * t) (pow-suc 2 k)) in
    rw (e, bit-shl a k i) (ground arith)

div-two-pow : (a k : ℕ) → a / 2 / 2 ^ k ≡ a / 2 ^ suc k
div-two-pow a k =
    let e : 2 ^ suc k ≡ 2 * 2 ^ k = omega (arith, pow-suc 2 k) in
    rw e (div-div-eq-div-mul a 2 (2 ^ k))

mod-two-pow : (a w : ℕ) → a % 2 ^ suc w ≡ a / 2 % 2 ^ w * 2 + a % 2
mod-two-pow a w =
    let e : 2 ^ suc w ≡ 2 ^ w + 2 ^ w = omega (arith, pow-suc 2 w) in
    omega (
      arith,
      div-add-mod' (a / 2) (2 ^ w),
      div-add-mod' a (2 ^ suc w),
      ap (λ (t : ℕ). t * 2 ^ w) (div-two-pow a w),
      ap (λ (t : ℕ). a / 2 ^ suc w * t) e,
    )

pub bit-shr : (a k i : ℕ) → bit (a / 2 ^ k) i ≡ bit a (k + i)
unfolding bit
bit-shr a zero i = ground arith
bit-shr a (suc k) i =
    let e : suc k + i ≡ suc (k + i) = omega arith in rw (← div-two-pow a k, e) (bit-shr (a / 2) k i)

pub bit-low : (w a i : ℕ) → i < w → bit (a % 2 ^ w) i ≡ bit a i
unfolding bit
bit-low zero a i h = absurd (omega arith)
bit-low (suc w) a zero h = ground (arith, mod-two-pow a w)
bit-low (suc w) a (suc i) h =
    let e : a % 2 ^ suc w / 2 ≡ a / 2 % 2 ^ w = omega (arith, mod-two-pow a w) in
    rw e (bit-low w (a / 2) i (omega arith))
