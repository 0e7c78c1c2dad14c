-- ===== src/Bits/Logic.antt =====
-- The native bit operations, one digit at a time.
use Prim.Native.Nat.{digits, differ, bit_and-bitwise, bit_or-bitwise, bit_xor-bitwise}
use mathlib.Core.Bool.{xor}
use lc.Base.{
  ℕ, zero, suc, ◌+◌, ◌*◌, ◌/◌, ◌%◌, ◌≤◌, ◌<◌, min, max, bit_and, bit_or, bit_xor, ◌≡◌, refl, ◌∙◌,
  Bool, false, ◌&&◌, ◌||◌, ◌==◌, arith,
}
use lc.Bits.{bit}

bit-double : (q r i : ℕ) → r < 2 → bit (q * 2 + r) (suc i) ≡ bit q i
unfolding bit
bit-double q r i h = let e : (q * 2 + r) / 2 ≡ q = omega arith in rw e refl

bit-double_zero : (q r : ℕ) → r < 2 → bit (q * 2 + r) 0 ≡ (r == 1)
unfolding bit
bit-double_zero q r h = let e : (q * 2 + r) % 2 ≡ r = omega arith in rw e refl

pub bit-zero : (i : ℕ) → bit 0 i ≡ false
unfolding bit
bit-zero zero = refl
bit-zero (suc i) = bit-zero i

-- `digits` works on each digit by itself.
module _ (z : ℕ → ℕ) (f : ℕ → ℕ → ℕ) (op : Bool → Bool → Bool)
    (rest : (b i : ℕ) → bit (z b) i ≡ op false (bit b i))
    (digit : (x y : ℕ) → x < 2 → y < 2 → (f x y < 2) × ((f x y == 1) ≡ op (x == 1) (y == 1))) where
  bit-digits : (n a b i : ℕ) → a ≤ n → bit (digits z f n a b) i ≡ op (bit a i) (bit b i)
  unfolding bit
  bit-digits zero zero b i h = rw bit-zero (rest b i)
  bit-digits zero (suc a) b i h = absurd (omega arith)
  bit-digits (suc n) zero b i h = rw bit-zero (rest b i)
  bit-digits (suc n) (suc a) b zero h =
      let d = digit (suc a % 2) (b % 2) (omega arith) (omega arith) in bit-double_zero _ _ d.0 ∙ d.1
  bit-digits (suc n) (suc a) b (suc i) h =
      let d = digit (suc a % 2) (b % 2) (omega arith) (omega arith) in
      bit-double _ _ i d.0 ∙ bit-digits n (suc a / 2) (b / 2) i (omega arith)

pub bit-bit_and : (a b i : ℕ) → bit (bit_and a b) i ≡ (bit a i && bit b i)
bit-bit_and a b i = rw (bit_and-bitwise a b) (
    bit-digits (λ b. 0) min ◌&&◌ (λ b j. bit-zero j) (λ x y p q. ground arith) a a b i
      (omega arith))

pub bit-bit_or : (a b i : ℕ) → bit (bit_or a b) i ≡ (bit a i || bit b i)
bit-bit_or a b i =
    rw (bit_or-bitwise a b)
      (bit-digits (λ b. b) max ◌||◌ (λ b j. refl) (λ x y p q. ground arith) a a b i (omega arith))

differ_digit :
    (x y : ℕ) → x < 2 → y < 2 → (differ x y < 2) × ((differ x y == 1) ≡ xor (x == 1) (y == 1))
unfolding xor
differ_digit zero zero p q = ground arith
differ_digit zero (suc zero) p q = ground arith
differ_digit (suc zero) zero p q = ground arith
differ_digit (suc zero) (suc zero) p q = ground arith
differ_digit (suc (suc x)) y p q = absurd (omega arith)
differ_digit x (suc (suc y)) p q = absurd (omega arith)

pub bit-bit_xor : (a b i : ℕ) → bit (bit_xor a b) i ≡ xor (bit a i) (bit b i)
unfolding xor
bit-bit_xor a b i =
    rw (bit_xor-bitwise a b)
      (bit-digits (λ b. b) differ xor (λ b j. ground arith) differ_digit a a b i (omega arith))
