-- ===== src/BitBoard/Laws.antt =====
-- A bitboard is a set of squares: what `get` sees after each operation.
use lc.Base.{
  ℕ, zero, suc, ◌*◌, ◌/◌, ◌%◌, ◌^◌, ◌≤◌, ◌<◌, ◌≡◌, sym, ap, ◌∙◌, bit_and, Bool, true, false, not,
  ◌&&◌, ◌||◌, ◌==◌, arith, Bool-cases, inl, inr, ltb, ◌⊎◌, ◌↔◌, ==→eq, ==_refl,
}
use native.Mathlib.Nat.{mod-eq_of_lt, pow-suc}
use lc.Bits.{bit}
use lc.Bits.Logic.{bit-zero, bit-bit_and, bit-bit_or}
use lc.Bits.Word.{eq_of_bits, eq_of_all_bits, bit-above, lt_of_bits, bit-pow, bit-complement}
use lc.Square.{BoardSquare}
use lc.BitBoard.{
  BitBoard, word64, one_at, not64, get, set, set_if, reset, intersects, union, intersection,
  minus_square, difference,
}

abbrev pub IsWord : BitBoard → Type 0
IsWord b = b < word64

pow-lt : (p : ℕ) → p < 64 → 2 ^ p < word64
pow-lt p h = lt_of_bits 64 (2 ^ p) (λ i l. bit-pow p i ∙ ground arith)

pub one_at-pow : (p : ℕ) → p < 64 → one_at p ≡ 2 ^ p
one_at-pow p h = mod-eq_of_lt (pow-lt p h)

pub bit-one_at : (p i : ℕ) → p < 64 → bit (one_at p) i ≡ (p == i)
bit-one_at p i h = rw (one_at-pow p h) (bit-pow p i)

pub bit-not64 : (x i : ℕ) → IsWord x → i < 64 → bit (not64 x) i ≡ not (bit x i)
bit-not64 x i p h = bit-complement 64 x i p h

-- A number all of whose bits are clear is 0.
pub zero_of_bits : (x : ℕ) → ((i : ℕ) → bit x i ≡ false) → x ≡ 0
zero_of_bits x h = eq_of_all_bits x 0 (λ i. h i ∙ sym (bit-zero i))

pub nonzero_of_bit : (x i : ℕ) → bit x i ≡ true → (x == 0) ≡ false
nonzero_of_bit x i h = elim (Bool-cases (x == 0)) [
  | inl e ↦
      let z : x ≡ 0 = ==→eq x 0 e in absurd (ground (arith, bit-zero i, ap (λ (t : ℕ). bit t i) z))
  | inr e ↦ e
]

-- `get` reads the bit.
pub get-bit : (b : BitBoard) (p : BoardSquare) → p < 64 → get b p ≡ bit b p
unfolding get
get-bit b p h = elim (Bool-cases (bit b p)) [
  | inl e ↦
      rw
        (nonzero_of_bit (bit_and b (one_at p)) p
          (bit-bit_and b (one_at p) p ∙ (rw (e, bit-one_at p p h) (==_refl p))))
        (sym e)
  | inr e ↦
      rw
        (zero_of_bits (bit_and b (one_at p)) (λ i.
          bit-bit_and b (one_at p) i
          ∙ (rw (bit-one_at p i h) (ground (arith, ap (bit b) {x = p} {y = i})))))
        (sym e)
]

-- A word has no bit at 64 or above.
pub bit-high : (b i : ℕ) → IsWord b → (ltb i 64 ≡ false) → bit b i ≡ false
bit-high b i w h = bit-above 64 b i w (ground arith)

pub IsWord-of_bits : (b : ℕ) → ((i : ℕ) → 64 ≤ i → bit b i ≡ false) → IsWord b
IsWord-of_bits b h = lt_of_bits 64 b h

-- Two words with the same squares are equal.
pub eq_of_get :
    (a b : BitBoard)
    → IsWord a
    → IsWord b
    → ((p : BoardSquare) → p < 64 → get a p ≡ get b p)
    → a ≡ b
eq_of_get a b v w h = eq_of_bits 64 a b v w (λ i l. sym (get-bit a i l) ∙ h i l ∙ get-bit b i l)

pub bit-set : (b p i : ℕ) → p < 64 → bit (set b p) i ≡ (bit b i || (p == i))
unfolding set
bit-set b p i h = rw (bit-bit_or, bit-one_at p i h)

one_at-IsWord : (p : ℕ) → IsWord (one_at p)
one_at-IsWord p = omega arith

bit-and_not :
    (a b i : ℕ) → IsWord a → IsWord b → bit (bit_and a (not64 b)) i ≡ (bit a i && not (bit b i))
bit-and_not a b i v w = elim (Bool-cases (ltb i 64)) [
  | inl l ↦ rw (bit-bit_and, bit-not64 b i w (ground arith))
  | inr l ↦ rw (bit-bit_and, bit-high a i v l)
]

pub bit-difference :
    (a b i : ℕ) → IsWord a → IsWord b → bit (difference a b) i ≡ (bit a i && not (bit b i))
unfolding difference
bit-difference a b i v w = bit-and_not a b i v w

pub bit-reset : (b p i : ℕ) → IsWord b → p < 64 → bit (reset b p) i ≡ (bit b i && not (p == i))
unfolding reset
bit-reset b p i w h = bit-and_not b (one_at p) i w (one_at-IsWord p) ∙ rw (bit-one_at p i h)

pub bit-minus_square :
    (b p i : ℕ) → IsWord b → p < 64 → bit (minus_square b p) i ≡ (bit b i && not (p == i))
unfolding minus_square
bit-minus_square b p i w h = bit-and_not b (one_at p) i w (one_at-IsWord p) ∙ rw (bit-one_at p i h)

pub bit-set_if :
    (b p i : ℕ) (c : Bool) → p < 64 → bit (set_if b p c) i ≡ (bit b i || (c && (p == i)))
unfolding set_if
bit-set_if b p i true h =
    let e : 1 * 2 ^ p ≡ 2 ^ p = omega arith in rw (bit-bit_or, e, bit-one_at p i h)
bit-set_if b p i false h = let e : 0 * 2 ^ p ≡ 0 = omega arith in rw (bit-bit_or, e, bit-zero i)

pub bit-union : (a b i : ℕ) → bit (union a b) i ≡ (bit a i || bit b i)
unfolding union
bit-union a b i = bit-bit_or a b i

pub bit-intersection : (a b i : ℕ) → bit (intersection a b) i ≡ (bit a i && bit b i)
unfolding intersection
bit-intersection a b i = bit-bit_and a b i

or-IsWord :
    (a b c : ℕ) → IsWord a → IsWord b → ((i : ℕ) → bit c i ≡ (bit a i || bit b i)) → IsWord c
or-IsWord a b c v w h =
    IsWord-of_bits c (λ i l. h i ∙ rw (bit-above 64 a i v l, bit-above 64 b i w l))

and-IsWord : (a c : ℕ) (f : ℕ → Bool) → IsWord a → ((i : ℕ) → bit c i ≡ (bit a i && f i)) → IsWord c
and-IsWord a c f v h = IsWord-of_bits c (λ i l. h i ∙ rw (bit-above 64 a i v l))

pub set-IsWord : (b p : ℕ) → IsWord b → IsWord (set b p)
unfolding set
set-IsWord b p w = or-IsWord b (one_at p) (set b p) w (one_at-IsWord p) (bit-bit_or b (one_at p))

pub set_if-IsWord : (b p : ℕ) (c : Bool) → IsWord b → IsWord (set_if b p c)
unfolding set_if
set_if-IsWord b p c w = or-IsWord b _ (set_if b p c) w (omega arith) (bit-bit_or b _)

pub reset-IsWord : (b p : ℕ) → IsWord b → IsWord (reset b p)
unfolding reset
reset-IsWord b p w = and-IsWord b (reset b p) _ w (bit-bit_and b _)

pub minus_square-IsWord : (b p : ℕ) → IsWord b → IsWord (minus_square b p)
unfolding minus_square
minus_square-IsWord b p w = and-IsWord b (minus_square b p) _ w (bit-bit_and b _)

pub union-IsWord : (a b : ℕ) → IsWord a → IsWord b → IsWord (union a b)
unfolding union
union-IsWord a b v w = or-IsWord a b (union a b) v w (bit-bit_or a b)

pub intersection-IsWord : (a b : ℕ) → IsWord a → IsWord (intersection a b)
unfolding intersection
intersection-IsWord a b w = and-IsWord a (intersection a b) _ w (bit-bit_and a b)

pub difference-IsWord : (a b : ℕ) → IsWord a → IsWord (difference a b)
unfolding difference
difference-IsWord a b w = and-IsWord a (difference a b) _ w (bit-bit_and a _)

pub get-set : (a p q : ℕ) → p < 64 → q < 64 → get (set a p) q ≡ (get a q || (p == q))
get-set a p q hp hq = rw (get-bit (set a p) q hq, get-bit a q hq) (bit-set a p q hp)

pub get-set_if :
    (a p q : ℕ) (c : Bool) → p < 64 → q < 64 → get (set_if a p c) q ≡ (get a q || (c && (p == q)))
get-set_if a p q c hp hq = rw (get-bit (set_if a p c) q hq, get-bit a q hq) (bit-set_if a p q c hp)

pub get-reset :
    (a p q : ℕ) → IsWord a → p < 64 → q < 64 → get (reset a p) q ≡ (get a q && not (p == q))
get-reset a p q v hp hq = rw (get-bit (reset a p) q hq, get-bit a q hq) (bit-reset a p q v hp)

pub get-minus_square :
    (a p q : ℕ) → IsWord a → p < 64 → q < 64 → get (minus_square a p) q ≡ (get a q && not (p == q))
get-minus_square a p q v hp hq =
    rw (get-bit (minus_square a p) q hq, get-bit a q hq) (bit-minus_square a p q v hp)

pub get-union : (a b q : ℕ) → q < 64 → get (union a b) q ≡ (get a q || get b q)
get-union a b q hq = rw (get-bit (union a b) q hq, get-bit a q hq, get-bit b q hq) (bit-union a b q)

pub get-intersection : (a b q : ℕ) → q < 64 → get (intersection a b) q ≡ (get a q && get b q)
get-intersection a b q hq =
    rw (get-bit (intersection a b) q hq, get-bit a q hq, get-bit b q hq) (bit-intersection a b q)

pub get-difference :
    (a b q : ℕ) → IsWord a → IsWord b → q < 64 → get (difference a b) q ≡ (get a q && not (get b q))
get-difference a b q v w hq =
    rw (get-bit (difference a b) q hq, get-bit a q hq, get-bit b q hq) (bit-difference a b q v w)

-- On words and the squares of the board, the operations of the class are those on sets: what `get`
-- sees on a word after a square is put in or taken out, and after union, intersection and
-- difference.
pub get_after :
    (a b : BitBoard) (p q : BoardSquare) (cond : Bool)
    → IsWord a
    → IsWord b
    → p < 64
    → q < 64
    → (get (set a p) q ≡ (get a q || (p == q)))
      × (get (set_if a p cond) q ≡ (get a q || (cond && (p == q))))
      × (get (reset a p) q ≡ (get a q && not (p == q)))
      × (get (minus_square a p) q ≡ (get a q && not (p == q)))
      × (get (union a b) q ≡ (get a q || get b q))
      × (get (intersection a b) q ≡ (get a q && get b q))
      × (get (difference a b) q ≡ (get a q && not (get b q)))
get_after a b p q cond v w hp hq = (
  get-set a p q hp hq,
  get-set_if a p q cond hp hq,
  get-reset a p q v hp hq,
  get-minus_square a p q v hp hq,
  get-union a b q hq,
  get-intersection a b q hq,
  get-difference a b q v w hq,
)

zero-or-bit : (n x : ℕ) → x < 2 ^ n → (x ≡ 0) ⊎ ((i : ℕ) × (bit x i ≡ true) × (i < n))
unfolding bit
zero-or-bit zero x h = inl (omega arith)
zero-or-bit (suc n) x h = elim (Bool-cases (x % 2 == 1)) [
  | inl e ↦ inr (0, e, omega arith)
  | inr e ↦ elim (zero-or-bit n (x / 2) (omega (arith, pow-suc 2 n))) [
    | inl z ↦ inl (ground arith)
    | inr (i, b, l) ↦ inr (suc i, b, omega arith)
  ]
]

-- Two boards, the first of them a word, intersect exactly when some square is on both.
pub intersects_iff :
    (a b : BitBoard)
    → IsWord a
    → (intersects a b ≡ true) ↔ ((p : BoardSquare) × (p < 64) × (get a p ≡ true) × (get b p ≡ true))
unfolding intersects
intersects_iff a b v = (there, back)
  where
    there :
        not (bit_and a b == 0) ≡ true
        → (p : BoardSquare) × (p < 64) × (get a p ≡ true) × (get b p ≡ true)
    there h =
        elim (zero-or-bit 64 (bit_and a b) (and-IsWord a (bit_and a b) _ v (bit-bit_and a b))) [
          | inl z ↦ absurd (ground arith)
          | inr (i, e, l) ↦ (
            i,
            l,
            rw (get-bit a i l) (ground (arith, bit-bit_and a b i)),
            rw (get-bit b i l) (ground (arith, bit-bit_and a b i)),
          )
        ]

    back :
        (p : BoardSquare) × (p < 64) × (get a p ≡ true) × (get b p ≡ true)
        → not (bit_and a b == 0) ≡ true
    back (p, l, x, y) = rw (
        nonzero_of_bit (bit_and a b) p
          (ground (arith, bit-bit_and a b p, get-bit a p l, get-bit b p l)))
