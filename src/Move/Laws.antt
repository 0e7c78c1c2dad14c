-- ===== src/Move/Laws.antt =====
-- What is written into a move is read back, and each setter leaves the other fields alone.
use lc.Base.{
  ℕ, ◌+◌, ◌*◌, ◌/◌, ◌%◌, ◌^◌, ◌≤◌, ◌<◌, ◌≡◌, refl, sym, ap, ◌∙◌, bit_or, Bool, true, ◌&&◌, ◌||◌,
  ◌==◌, ltb, leb, arith, Bool-cases, inl, inr, ==→eq, ==_refl, all_below, ◌↔◌,
}
use mathlib.Core.Bool.{xor}
use lc.Bits.{bit}
use lc.Bits.Logic.{bit-bit_xor}
use lc.Bits.Word.{eq_of_all_bits, lt_of_bits, bit-low, bit-above}
use lc.Square
use lc.Square.{BoardSquare}
use lc.Move.{
  Move, Promotion, promotion_code, make, make_promotion, to, from, promo_bits, castling,
  set_castling, set_to, set_from, set_promotion, to_mask, from_mask, promo_mask, castle_mask, same,
  mirror,
}
use lc.BitBoard.{get}
use lc.BitBoard.Laws.{get-bit}
use lc.Move.Fields.{
  field, bit-field, field-or_mask, bit-or_mask, field-xor, xor-zero, covers, mask-field, field-put,
  field-put_other, put-lt,
}

to_table : all_below 16 (covers 0 6 to_mask) ≡ true
unfolding all_below bit
to_table = refl

from_table : all_below 16 (covers 6 6 from_mask) ≡ true
unfolding all_below bit
from_table = refl

promo_table : all_below 16 (covers 12 3 promo_mask) ≡ true
unfolding all_below bit
promo_table = refl

castle_table : all_below 16 (covers 15 1 castle_mask) ≡ true
unfolding all_below bit
castle_table = refl

pub to-field : (m : Move) → to m ≡ m % 64
unfolding to
to-field m = omega (arith, mask-field 0 6 to_mask (omega arith) to_table (omega arith) m)

pub from-field : (m : Move) → from m ≡ m / 64 % 64
unfolding from
from-field m = omega (arith, mask-field 6 6 from_mask (omega arith) from_table (omega arith) m)

pub promo_bits-field : (m : Move) → promo_bits m ≡ m / 4096 % 8
unfolding promo_bits
promo_bits-field m =
    omega (arith, mask-field 12 3 promo_mask (omega arith) promo_table (omega arith) m)

pub to-lt : (m : Move) → to m < 64
to-lt m = omega (arith, to-field m)

pub from-lt : (m : Move) → from m < 64
from-lt m = omega (arith, from-field m)

abbrev pub IsMove : Move → Type 0
IsMove m = m < 2 ^ 16

-- A move made from two squares of the board and a promotion whose code is below 8 reads back as its
-- squares and its promotion, and fits 16 bits; without a promotion it is what the constructor from
-- two squares makes.
pub make_promotion_fields :
    (f t : BoardSquare) (p : Promotion)
    → f < 64
    → t < 64
    → promotion_code p < 8
    → (from (make_promotion f t p) ≡ f)
      × (to (make_promotion f t p) ≡ t)
      × (promo_bits (make_promotion f t p) ≡ promotion_code p)
      × (make_promotion f t Promotion.no_promotion ≡ make f t)
      × IsMove (make_promotion f t p)
unfolding make_promotion make
make_promotion_fields f t p hf ht hp = (
  omega (arith, from-field (make_promotion f t p)),
  omega (arith, to-field (make_promotion f t p)),
  omega (arith, promo_bits-field (make_promotion f t p)),
  omega arith,
  omega arith,
)

pub castling-bit : (m : Move) → castling m ≡ bit m 15
unfolding castling get
castling-bit m = get-bit m 15 (omega arith)

field-castling : (m n : Move) → field 15 1 m ≡ field 15 1 n → castling m ≡ castling n
field-castling m n e =
    rw (castling-bit m, castling-bit n)
      (bit-field_zero m ∙ ap (λ (t : ℕ). bit t 0) e ∙ sym (bit-field_zero n))
  where
    bit-field_zero : (x : ℕ) → bit x 15 ≡ bit (field 15 1 x) 0
    bit-field_zero x = sym (bit-field 15 1 x 0)

-- The four parts of a move.
abbrev pub parts : Move → BoardSquare × BoardSquare × ℕ × Bool
parts m = (from m, to m, promo_bits m, castling m)

pub set_to-parts :
    (m : Move) (t : BoardSquare)
    → t < 64
    → parts (set_to m t) ≡ (from m, t, promo_bits m, castling m)
unfolding set_to
set_to-parts m t h =
    let e : t * 2 ^ 0 ≡ t = omega arith in
    ground (
      arith,
      e,
      from-field (set_to m t),
      to-field (set_to m t),
      promo_bits-field (set_to m t),
      from-field m,
      to-field m,
      promo_bits-field m,
      field-castling (set_to m t) m,
      field-put 0 6 to_mask (omega arith) to_table (omega arith) m t,
      field-put_other 0 6 to_mask (omega arith) to_table (omega arith) 6 6 m t,
      field-put_other 0 6 to_mask (omega arith) to_table (omega arith) 12 3 m t,
      field-put_other 0 6 to_mask (omega arith) to_table (omega arith) 15 1 m t,
    )

pub set_from-parts :
    (m : Move) (f : BoardSquare)
    → f < 64
    → parts (set_from m f) ≡ (f, to m, promo_bits m, castling m)
unfolding set_from
set_from-parts m f h = ground (
  arith,
  from-field (set_from m f),
  to-field (set_from m f),
  promo_bits-field (set_from m f),
  from-field m,
  to-field m,
  promo_bits-field m,
  field-castling (set_from m f) m,
  field-put 6 6 from_mask (omega arith) from_table (omega arith) m f,
  field-put_other 6 6 from_mask (omega arith) from_table (omega arith) 0 6 m f,
  field-put_other 6 6 from_mask (omega arith) from_table (omega arith) 12 3 m f,
  field-put_other 6 6 from_mask (omega arith) from_table (omega arith) 15 1 m f,
)

pub set_promotion-parts :
    (m : Move) (p : Promotion)
    → promotion_code p < 8
    → parts (set_promotion m p) ≡ (from m, to m, promotion_code p, castling m)
unfolding set_promotion
set_promotion-parts m p h = ground (
  arith,
  from-field (set_promotion m p),
  to-field (set_promotion m p),
  promo_bits-field (set_promotion m p),
  from-field m,
  to-field m,
  promo_bits-field m,
  field-castling (set_promotion m p) m,
  field-put 12 3 promo_mask (omega arith) promo_table (omega arith) m (promotion_code p),
  field-put_other 12 3 promo_mask (omega arith) promo_table (omega arith) 0 6 m (promotion_code p),
  field-put_other 12 3 promo_mask (omega arith) promo_table (omega arith) 6 6 m (promotion_code p),
  field-put_other 12 3 promo_mask (omega arith) promo_table (omega arith) 15 1 m (promotion_code p),
)

or_castle_field : (k w m : ℕ) → k + w ≤ 15 → field k w (bit_or m castle_mask) ≡ field k w m
or_castle_field k w m h =
    field-or_mask 15 1 castle_mask (omega arith) castle_table (omega arith) k w m (inl h)

pub set_castling-parts : (m : Move) → parts (set_castling m) ≡ (from m, to m, promo_bits m, true)
unfolding set_castling
set_castling-parts m = ground (
  arith,
  from-field (set_castling m),
  to-field (set_castling m),
  promo_bits-field (set_castling m),
  from-field m,
  to-field m,
  promo_bits-field m,
  castling-bit (set_castling m),
  or_castle_field 0 6 m,
  or_castle_field 6 6 m,
  or_castle_field 12 3 m,
  bit-or_mask 15 1 castle_mask (omega arith) castle_table (omega arith) m 15,
)

-- For a square of the board and a promotion whose code is below 8, each setter gives its part of
-- the move the value, and leaves the other three parts alone.
pub setters_lem :
    (m : Move) (s : BoardSquare) (p : Promotion)
    → s < 64
    → promotion_code p < 8
    → (parts (set_to m s) ≡ (from m, s, promo_bits m, castling m))
      × (parts (set_from m s) ≡ (s, to m, promo_bits m, castling m))
      × (parts (set_promotion m p) ≡ (from m, to m, promotion_code p, castling m))
      × (parts (set_castling m) ≡ (from m, to m, promo_bits m, true))
setters_lem m s p hs hp =
    (set_to-parts m s hs, set_from-parts m s hs, set_promotion-parts m p hp, set_castling-parts m)

-- The mirrored move goes between the mirrored squares, with the same promotion and castling flag.
pub mirror-parts :
    (m : Move)
    → parts (mirror m) ≡ (Square.mirror (from m), Square.mirror (to m), promo_bits m, castling m)
unfolding mirror Square.mirror
mirror-parts m = ground (
  arith,
  from-field (mirror m),
  to-field (mirror m),
  promo_bits-field (mirror m),
  from-field m,
  to-field m,
  promo_bits-field m,
  field-castling (mirror m) m,
  field-xor 0 6 m 0b111000111000,
  field-xor 6 6 m 0b111000111000,
  field-xor 12 3 m 0b111000111000,
  field-xor 15 1 m 0b111000111000,
  xor-zero (m / 4096 % 8),
  xor-zero (field 15 1 m),
)

move_split :
    (m n : Move)
    → from m ≡ from n
    → to m ≡ to n
    → promo_bits m ≡ promo_bits n
    → m % 2 ^ 15 ≡ n % 2 ^ 15
move_split m n a b c = omega (
  arith,
  from-field m,
  from-field n,
  to-field m,
  to-field n,
  promo_bits-field m,
  promo_bits-field n,
  a,
  b,
  c,
)

or_castle-congr :
    (m n : Move)
    → IsMove m
    → IsMove n
    → m % 2 ^ 15 ≡ n % 2 ^ 15
    → bit_or m castle_mask ≡ bit_or n castle_mask
or_castle-congr m n hm hn e = eq_of_all_bits _ _ (λ i.
    rw (or_bit m i, or_bit n i)
      (elim (Bool-cases (ltb i 15)) [
        | inl l ↦
            let low = ap (λ (t : ℕ). bit t i) e in
            ground (arith, bit-low 15 m i (ground arith), bit-low 15 n i (ground arith), low)
        | inr l ↦ ground (arith, bit-above 16 m i hm, bit-above 16 n i hn)
      ]))
  where
    or_bit : (k i : ℕ) → bit (bit_or k castle_mask) i ≡ (bit k i || (leb 15 i && ltb i 16))
    or_bit k i = bit-or_mask 15 1 castle_mask (omega arith) castle_table (omega arith) k i

-- Two moves of 16 bits are the same exactly when they agree on the two squares and the promotion.
pub same_iff :
    (m n : Move)
    → IsMove m
    → IsMove n
    → (same m n ≡ true) ↔ ((from m ≡ from n) × (to m ≡ to n) × (promo_bits m ≡ promo_bits n))
unfolding same
same_iff m n hm hn =
    (there, λ (a, b, c). rw (or_castle-congr m n hm hn (move_split m n a b c)) (==_refl _))
  where
    there :
        (bit_or m castle_mask == bit_or n castle_mask) ≡ true
        → (from m ≡ from n) × (to m ≡ to n) × (promo_bits m ≡ promo_bits n)
    there h =
        let e = ==→eq _ _ h in
        ground (
          arith,
          from-field m,
          to-field m,
          promo_bits-field m,
          from-field n,
          to-field n,
          promo_bits-field n,
          or_castle_field 0 6 m,
          or_castle_field 6 6 m,
          or_castle_field 12 3 m,
          or_castle_field 0 6 n,
          or_castle_field 6 6 n,
          or_castle_field 12 3 n,
        )

pub set_to-IsMove : (m : Move) (t : BoardSquare) → t < 64 → IsMove (set_to m t)
unfolding set_to
set_to-IsMove m t h =
    let e : t * 2 ^ 0 ≡ t = omega arith in
    rw e at (put-lt 0 6 to_mask (omega arith) to_table (omega arith) m t h)

pub set_promotion-IsMove :
    (m : Move) (p : Promotion) → promotion_code p < 8 → IsMove (set_promotion m p)
unfolding set_promotion
set_promotion-IsMove m p h =
    put-lt 12 3 promo_mask (omega arith) promo_table (omega arith) m (promotion_code p) h

pub mirror-IsMove : (m : Move) → IsMove m → IsMove (mirror m)
unfolding mirror xor
mirror-IsMove m h = lt_of_bits 16 _ (λ i l.
    bit-bit_xor m 0b111000111000 i
    ∙ rw (bit-above 16 m i h l, bit-above 16 0b111000111000 i (omega arith) l))
