-- ===== src/BitBoard.antt =====
-- `BitBoard` of src/chess/bitboard.h and the iterators of src/utils/bititer.h: a set of squares as a
-- `uint64_t`. The word is a number below 2 ^ 64, and each shift keeps its wrap-around.
pub mod Laws
pub mod Iterate
pub mod Mirror
pub mod Count
use lc.Base.{
  ℕ, zero, suc, ◌+◌, ◌-◌, ◌*◌, ◌/◌, ◌%◌, ◌^◌, bit_and, bit_or, Bool, true, false, not, ◌==◌, List,
  [], ◌∷◌, ◌++◌, if◌then◌else◌,
}
use lc.Bits.{bit}
use lc.Square.{BoardSquare, square}

abbrev pub BitBoard : Type 0
BitBoard = ℕ

abbrev pub word64 : ℕ
word64 = 2 ^ 64

-- std::uint64_t(1) << pos
abbrev pub one_at : BoardSquare → BitBoard
one_at p = 2 ^ p % word64

-- ~x
abbrev pub not64 : BitBoard → BitBoard
not64 x = word64 - 1 - x

unfoldable pub get : BitBoard → BoardSquare → Bool
get b p = not (bit_and b (one_at p) == 0)

unfoldable pub set : BitBoard → BoardSquare → BitBoard
set b p = bit_or b (one_at p)

unfoldable pub set_if : BitBoard → BoardSquare → Bool → BitBoard
set_if b p cond = bit_or b ((if cond then 1 else 0) * 2 ^ p % word64)

unfoldable pub reset : BitBoard → BoardSquare → BitBoard
reset b p = bit_and b (not64 (one_at p))

abbrev pub empty : BitBoard → Bool
empty b = b == 0

unfoldable pub intersects : BitBoard → BitBoard → Bool
intersects a b = not (bit_and a b == 0)

unfoldable pub union : BitBoard → BitBoard → BitBoard
union a b = bit_or a b

unfoldable pub intersection : BitBoard → BitBoard → BitBoard
intersection a b = bit_and a b

-- operator-(BitBoard, BoardSquare)
unfoldable pub minus_square : BitBoard → BoardSquare → BitBoard
minus_square a p = bit_and a (not64 (one_at p))

-- operator-(BitBoard, BitBoard)
unfoldable pub difference : BitBoard → BitBoard → BitBoard
difference a b = bit_and a (not64 b)

-- One line of `Mirror`: two groups of bits change places.
unfoldable pub exchange : ℕ → ℕ → ℕ → BitBoard → BitBoard
exchange k low high b = bit_or (bit_and b low * 2 ^ k % word64) (bit_and b high / 2 ^ k)

unfoldable pub mirror : BitBoard → BitBoard
mirror b = exchange 8 0x00FF00FF00FF00FF 0xFF00FF00FF00FF00 (
    exchange 16 0x0000FFFF0000FFFF 0xFFFF0000FFFF0000
      (exchange 32 0x00000000FFFFFFFF 0xFFFFFFFF00000000 b))

-- __builtin_ctzll, which is undefined at 0: the place of the lowest bit.
unfoldable pub lowest_bit_from : ℕ → ℕ → ℕ
lowest_bit_from zero v = 0
lowest_bit_from (suc n) v =
    let rest = lowest_bit_from n (v / 2) in if v % 2 == 1 then 0 else suc rest

-- GetLowestBit
unfoldable pub get_lowest_bit : BitBoard → ℕ
get_lowest_bit v = lowest_bit_from 64 v

-- BitIterator::operator++
unfoldable pub next : BitBoard → BitBoard
next v = bit_and v (v - 1)

-- The loop `for (auto square : board)` as the list of the squares it visits, with the rounds that
-- are left for fuel.
unfoldable pub iterate : ℕ → BitBoard → List BoardSquare
iterate zero v = []
iterate (suc n) v = let rest = iterate n (next v) in if v == 0 then [] else get_lowest_bit v ∷ rest

abbrev pub squares : BitBoard → List BoardSquare
squares b = iterate 64 b

-- The loop of `count_few`: it clears the lowest bit until none is left.
unfoldable pub count_few_from : ℕ → BitBoard → ℕ → ℕ
count_few_from zero x count = count
count_few_from (suc n) x count =
    let rest = count_few_from n (next x) (count + 1) in if x == 0 then count else rest

unfoldable pub count_few : BitBoard → ℕ
count_few b = count_few_from 64 b 0

-- __builtin_popcountll: the bits added up.
unfoldable pub popcount_from : ℕ → BitBoard → ℕ
popcount_from zero v = 0
popcount_from (suc n) v = v % 2 + popcount_from n (v / 2)

unfoldable pub count : BitBoard → ℕ
count b = popcount_from 64 b

-- The same by sums within groups of bits (`NO_POPCNT`).
unfoldable pub count_groups : BitBoard → ℕ
count_groups b =
    let x1 = (b + word64 - bit_and (b / 2) 0x5555555555555555) % word64 in
    let x2 = (bit_and x1 0x3333333333333333 + bit_and (x1 / 4) 0x3333333333333333) % word64 in
    let x3 = bit_and ((x2 + x2 / 16) % word64) 0x0F0F0F0F0F0F0F0F in
    x3 * 0x0101010101010101 % word64 / 2 ^ 56

unfoldable pub debug_row : BitBoard → ℕ → ℕ → ℕ → List ℕ
debug_row b i j zero = b'\n' ∷ []
debug_row b i j (suc n) = (if get b (square i j) then b'#' else b'.') ∷ debug_row b i (suc j) n

-- The rows from `i` down to 0.
unfoldable pub debug_rows : BitBoard → ℕ → List ℕ
debug_rows b zero = debug_row b 0 0 8
debug_rows b (suc i) = debug_row b (suc i) 0 8 ++ debug_rows b i

unfoldable pub debug_string : BitBoard → List ℕ
debug_string b = debug_rows b 7
