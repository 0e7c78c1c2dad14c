-- ===== src/Move.antt =====
-- `Move` of src/chess/bitboard.h and src/chess/bitboard.cc: a move packed into a `uint16_t`, bits 0 to 5
-- for the square it goes to, 6 to 11 for the one it comes from, 12 to 14 for the promotion and bit 15
-- for castling.
pub mod Fields
pub mod Laws
pub mod Text
pub mod Index
use lc.Base.{
  ℕ, zero, suc, ◌+◌, ◌-◌, ◌*◌, ◌/◌, ◌%◌, ◌^◌, bit_and, bit_or, bit_xor, Bool, true, false, not,
  ◌==◌, ltb, List, [], ◌∷◌, ◌++◌, Option, none, some, if◌then◌else◌, length, get_or, take, drop,
}
use mathlib.Core.Option
use lc.Square
use lc.Square.{BoardSquare, col}

pub data Promotion : Type 0 where
  no_promotion queen rook bishop knight : Promotion
  -- A value of the underlying type that is none of the enumerators.
  unnamed : ℕ → Promotion

-- static_cast<uint8_t>(promotion)
abbrev pub promotion_code : Promotion → ℕ
promotion_code no_promotion = 0
promotion_code queen = 1
promotion_code rook = 2
promotion_code bishop = 3
promotion_code knight = 4
promotion_code (unnamed n) = n

-- Promotion(code)
abbrev pub promotion_of_code : ℕ → Promotion
promotion_of_code zero = no_promotion
promotion_of_code (suc zero) = queen
promotion_of_code (suc (suc zero)) = rook
promotion_of_code (suc (suc (suc zero))) = bishop
promotion_of_code (suc (suc (suc (suc zero)))) = knight
promotion_of_code (suc (suc (suc (suc (suc n))))) = unnamed (5 + n)

abbrev pub Move : Type 0
Move = ℕ

abbrev pub to_mask : ℕ
to_mask = 0b0000000000111111

abbrev pub from_mask : ℕ
from_mask = 0b0000111111000000

abbrev pub promo_mask : ℕ
promo_mask = 0b0111000000000000

abbrev pub castle_mask : ℕ
castle_mask = 0b1000000000000000

-- ~mask, as far as the 16 bits of the data go
abbrev pub not16 : ℕ → ℕ
not16 x = 2 ^ 16 - 1 - x

-- Move(BoardSquare from, BoardSquare to)
unfoldable pub make : BoardSquare → BoardSquare → Move
make f t = (t + f * 2 ^ 6) % 2 ^ 16

-- Move(BoardSquare from, BoardSquare to, Promotion promotion)
unfoldable pub make_promotion : BoardSquare → BoardSquare → Promotion → Move
make_promotion f t p = (t + f * 2 ^ 6 + promotion_code p * 2 ^ 12) % 2 ^ 16

unfoldable pub to : Move → BoardSquare
to m = bit_and m to_mask

unfoldable pub from : Move → BoardSquare
from m = bit_and m from_mask / 2 ^ 6

-- The value of the promotion's bits.
unfoldable pub promo_bits : Move → ℕ
promo_bits m = bit_and m promo_mask / 2 ^ 12

abbrev pub promotion : Move → Promotion
promotion m = promotion_of_code (promo_bits m)

unfoldable pub castling : Move → Bool
castling m = not (bit_and m castle_mask == 0)

unfoldable pub set_castling : Move → Move
set_castling m = bit_or m castle_mask

unfoldable pub set_to : Move → BoardSquare → Move
set_to m t = bit_or (bit_and m (not16 to_mask)) t

unfoldable pub set_from : Move → BoardSquare → Move
set_from m f = bit_or (bit_and m (not16 from_mask)) (f * 2 ^ 6)

unfoldable pub set_promotion : Move → Promotion → Move
set_promotion m p = bit_or (bit_and m (not16 promo_mask)) (promotion_code p * 2 ^ 12)

-- operator==: the castling bit is ignored.
unfoldable pub same : Move → Move → Bool
same m n = bit_or m castle_mask == bit_or n castle_mask

-- operator bool
abbrev pub is_set : Move → Bool
is_set m = not (m == 0)

unfoldable pub mirror : Move → Move
mirror m = bit_xor m 0b111000111000

abbrev pub promotion_suffix : Promotion → Option (List ℕ)
promotion_suffix no_promotion = some []
promotion_suffix queen = some (b'q' ∷ [])
promotion_suffix rook = some (b'r' ∷ [])
promotion_suffix bishop = some (b'b' ∷ [])
promotion_suffix knight = some (b'n' ∷ [])
promotion_suffix (unnamed n) = none

-- `none` is the failed assertion at the end.
unfoldable pub as_string : Move → Option (List ℕ)
as_string m =
    Option.map (λ suffix. (Square.as_string (from m) ++ Square.as_string (to m)) ++ suffix)
      (promotion_suffix (promotion m))

abbrev pub promotion_of_char : ℕ → Option Promotion
promotion_of_char c =
    if c == b'q'
    then some queen
    else if c == b'Q'
    then some queen
    else if c == b'r'
    then some rook
    else if c == b'R'
    then some rook
    else if c == b'b'
    then some bishop
    else if c == b'B'
    then some bishop
    else if c == b'n'
    then some knight
    else if c == b'N'
    then some knight
    else none

-- Move(const std::string& str, bool black); `none` is the exception "Bad move".
unfoldable pub of_string : List ℕ → Bool → Option Move
of_string str black =
    let f = Square.of_string (take 2 str) black in
    let t = Square.of_string (take 2 (drop 2 str)) black in
    let squares = set_to (set_from 0 f) t in
    if ltb (length str) 4
    then none
    else if length str == 4
    then some squares
    else if length str == 5
    then Option.map (set_promotion squares) (promotion_of_char (get_or str 4 0))
    else none

abbrev is_knight : Promotion → Bool
is_knight knight = true
is_knight p = false

unfoldable pub as_packed_int : Move → ℕ
as_packed_int m =
    if is_knight (promotion m)
    then from m * 64 + to m
    else promotion_code (promotion m) * 64 * 64 + from m * 64 + to m
