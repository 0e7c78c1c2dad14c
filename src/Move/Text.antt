-- ===== src/Move/Text.antt =====
-- Moves as UCI text: `Move::as_string` and the constructor from a string.
use lc.Base.{
  ℕ, ◌+◌, ◌-◌, ◌*◌, ◌/◌, ◌%◌, ◌^◌, ◌<◌, ◌≡◌, refl, sym, ap, ◌∙◌, Bool, true, false, ◌==◌, arith,
  ==→eq, all_below, all_below_sound, List, [], ◌∷◌, ◌++◌, some,
}
use lc.Bits.{bit}
use lc.Bits.Word.{bit-shr}
use lc.Square
use lc.Square.{BoardSquare, row, col}
use lc.BitBoard.Mirror.{square_mirror-lt}
use lc.Move.{
  Move, Promotion, promotion_code, promotion_of_code, promotion_suffix, make_promotion, castling,
  as_string, of_string, set_to, set_from, set_promotion, mirror,
}
use lc.Move.Laws.{
  IsMove, parts, castling-bit, to-field, from-field, promo_bits-field, make_promotion_fields,
  set_to-parts, set_from-parts, set_promotion-parts, mirror-parts, set_to-IsMove,
  set_promotion-IsMove, mirror-IsMove,
}

castling-div : (m : Move) → castling m ≡ (m / 2 ^ 15 % 2 == 1)
unfolding bit
castling-div m = castling-bit m ∙ sym (bit-shr m 15 0)

-- A move is its four parts.
parts_eq : (m n : Move) → IsMove m → IsMove n → parts m ≡ parts n → m ≡ n
parts_eq m n hm hn e = ground (
  arith,
  to-field m,
  from-field m,
  promo_bits-field m,
  castling-div m,
  to-field n,
  from-field n,
  promo_bits-field n,
  castling-div n,
)

turned_table : all_below 64 (λ s. Square.mirror s == (7 - s / 8) * 8 + s % 8) ≡ true
unfolding all_below Square.mirror
turned_table = refl

square_turned : (s : BoardSquare) → s < 64 → Square.mirror s ≡ (7 - s / 8) * 8 + s % 8
square_turned s h =
    ==→eq _ _
      (all_below_sound 64 (λ s. Square.mirror s == (7 - s / 8) * 8 + s % 8) s turned_table h)

square_of_string :
    (s : BoardSquare)
    → s < 64
    → (Square.of_string (Square.as_string s) false ≡ s)
      × (Square.of_string (Square.as_string s) true ≡ Square.mirror s)
unfolding Square.of_string Square.as_string
square_of_string s h = (omega arith, omega (arith, square_turned s h))

-- The text of a move.
abbrev text : BoardSquare → BoardSquare → List ℕ → List ℕ
text f t suffix = (Square.as_string f ++ Square.as_string t) ++ suffix

make_promotion-IsMove : (f t : BoardSquare) (p : Promotion) → IsMove (make_promotion f t p)
unfolding make_promotion
make_promotion-IsMove f t p = omega arith

make_promotion-lt :
    (f t : BoardSquare) (p : Promotion)
    → f < 64
    → t < 64
    → promotion_code p < 8
    → make_promotion f t p < 2 ^ 15
unfolding make_promotion
make_promotion-lt f t p hf ht hp = omega arith

make_promotion-parts :
    (f t : BoardSquare) (p : Promotion)
    → f < 64
    → t < 64
    → promotion_code p < 8
    → parts (make_promotion f t p) ≡ (f, t, promotion_code p, false)
make_promotion-parts f t p hf ht hp = ground (
  arith,
  make_promotion_fields f t p hf ht hp,
  castling-div (make_promotion f t p),
  make_promotion-lt f t p hf ht hp,
)

mirror-make :
    (f t : BoardSquare) (p : Promotion)
    → f < 64
    → t < 64
    → promotion_code p < 8
    → make_promotion (Square.mirror f) (Square.mirror t) p ≡ mirror (make_promotion f t p)
mirror-make f t p hf ht hp =
    let there =
      make_promotion-parts (Square.mirror f) (Square.mirror t) p (square_mirror-lt f hf)
        (square_mirror-lt t ht) hp in
    parts_eq _ _ (make_promotion-IsMove _ _ p) (mirror-IsMove _ (make_promotion-IsMove f t p)) (
      ground
        (arith, there, mirror-parts (make_promotion f t p), make_promotion-parts f t p hf ht hp))

-- What the constructor from a string sets, for a text that is long enough.
squares_set :
    (f t : BoardSquare) → f < 64 → t < 64 → parts (set_to (set_from 0 f) t) ≡ (f, t, 0, false)
squares_set f t hf ht = ground (
  arith,
  set_to-parts (set_from 0 f) t ht,
  set_from-parts 0 f hf,
  promo_bits-field 0,
  castling-div 0,
)

named_code :
    (p : Promotion) (suffix : List ℕ)
    → promotion_suffix p ≡ some suffix
    → (promotion_code p < 8) × (promotion_of_code (promotion_code p) ≡ p)
named_code Promotion.no_promotion suffix e = (omega arith, refl)
named_code Promotion.queen suffix e = (omega arith, refl)
named_code Promotion.rook suffix e = (omega arith, refl)
named_code Promotion.bishop suffix e = (omega arith, refl)
named_code Promotion.knight suffix e = (omega arith, refl)
named_code (Promotion.unnamed n) suffix e = cc

as_string-make :
    (f t : BoardSquare) (p : Promotion) (suffix : List ℕ)
    → f < 64
    → t < 64
    → promotion_suffix p ≡ some suffix
    → as_string (make_promotion f t p) ≡ some (text f t suffix)
unfolding as_string
as_string-make f t p suffix hf ht e =
    let (small, back) = named_code p suffix e in
    let (ef, et, ep, _, _) = make_promotion_fields f t p hf ht small in rw (ef, et, ep, back, e)

set_promotion-make :
    (f t g u : BoardSquare) (p : Promotion)
    → g < 64
    → u < 64
    → promotion_code p < 8
    → parts (set_promotion (set_to (set_from 0 g) u) p) ≡ (g, u, promotion_code p, false)
set_promotion-make f t g u p hg hu small =
    ground (arith, set_promotion-parts (set_to (set_from 0 g) u) p small, squares_set g u hg hu)

of_string-text :
    (black : Bool) (f t g u : BoardSquare) (p : Promotion) (suffix : List ℕ)
    → Square.of_string (Square.as_string f) black ≡ g
    → Square.of_string (Square.as_string t) black ≡ u
    → g < 64
    → u < 64
    → promotion_suffix p ≡ some suffix
    → of_string (text f t suffix) black ≡ some (make_promotion g u p)
unfolding of_string Square.as_string
of_string-text black f t g u p suffix ef et hg hu e = read p suffix e
  where
    promoted :
        (q : Promotion)
        → promotion_code q < 8
        → set_promotion (set_to (set_from 0 g) u) q ≡ make_promotion g u q
    promoted q small =
        parts_eq _ _ (set_promotion-IsMove _ q small) (make_promotion-IsMove g u q)
          (set_promotion-make g u g u q hg hu small ∙ sym (make_promotion-parts g u q hg hu small))

    plain : set_to (set_from 0 g) u ≡ make_promotion g u Promotion.no_promotion
    plain = parts_eq _ _ (set_to-IsMove _ u hu) (make_promotion-IsMove g u _) (
        squares_set g u hg hu
        ∙ sym (make_promotion-parts g u Promotion.no_promotion hg hu (omega arith)))

    read :
        (q : Promotion) (s : List ℕ)
        → promotion_suffix q ≡ some s
        → of_string (text f t s) black ≡ some (make_promotion g u q)
    read Promotion.no_promotion s e = let es : [] ≡ s = cc in rw (← es, ef, et) (ap some plain)
    read Promotion.queen s e =
        let es : b'q' ∷ [] ≡ s = cc in
        rw (← es, ef, et) (ap some (promoted Promotion.queen (omega arith)))
    read Promotion.rook s e =
        let es : b'r' ∷ [] ≡ s = cc in
        rw (← es, ef, et) (ap some (promoted Promotion.rook (omega arith)))
    read Promotion.bishop s e =
        let es : b'b' ∷ [] ≡ s = cc in
        rw (← es, ef, et) (ap some (promoted Promotion.bishop (omega arith)))
    read Promotion.knight s e =
        let es : b'n' ∷ [] ≡ s = cc in
        rw (← es, ef, et) (ap some (promoted Promotion.knight (omega arith)))
    read (Promotion.unnamed n) s e = cc

-- The text of a move between two squares of the board, with a named promotion or none, parses back
-- to the move, and, read for black, to the mirrored move.
pub of_string-as_string :
    (f t : BoardSquare) (p : Promotion) (suffix : List ℕ)
    → f < 64
    → t < 64
    → promotion_suffix p ≡ some suffix
    → (str : List ℕ) × (as_string (make_promotion f t p) ≡ some str)
      × (of_string str false ≡ some (make_promotion f t p))
      × (of_string str true ≡ some (mirror (make_promotion f t p)))
of_string-as_string f t p suffix hf ht e =
    let (small, _) = named_code p suffix e in
    (
      text f t suffix,
      as_string-make f t p suffix hf ht e,
      of_string-text false f t f t p suffix (square_of_string f hf).0 (square_of_string t ht).0 hf
          ht e,
      of_string-text true f t _ _ p suffix (square_of_string f hf).1 (square_of_string t ht).1
            (square_mirror-lt f hf) (square_mirror-lt t ht) e
          ∙ ap some (mirror-make f t p hf ht small),
    )
