-- ===== src/Tests/Words.antt =====
-- The theorems on boards of bits, on packed moves and on castling rights at concrete values.
use lc.Base.{
  ℕ, ◌<◌, ◌≡◌, refl, true, false, ◌||◌, ◌==◌, arith, List, [], ◌∷◌, some, ◌↔◌, length, filter,
  range,
}
use lc.Square
use lc.Square.{BoardSquare, square}
use lc.BitBoard
use lc.BitBoard.{BitBoard, get}
use lc.BitBoard.Laws.{get_after, intersects_iff}
use lc.BitBoard.Iterate.{squares-filter}
use lc.BitBoard.Count.{count_lem}
use lc.BitBoard.Mirror.{get-mirror, mirror-mirror}
use lc.Move
use lc.Move.{Move, Promotion, make, make_promotion}
use lc.Move.Laws.{parts, make_promotion_fields, setters_lem, mirror-parts, same_iff, IsMove}
use lc.Move.Text.{of_string-as_string}
use lc.Board
use lc.Board.{ChessBoard}
use lc.Board.Words.{board_mirror-mirror}
use lc.Board.Rights.{rights_lem}
use lc.Tests.Data.{start, start-IsBoard}

board_mirror-mirror_example : Board.mirror (Board.mirror start) ≡ start
board_mirror-mirror_example = board_mirror-mirror start start-IsBoard

rights_lem_example : Board.set_we_can_00 9 < 16
rights_lem_example = (rights_lem 9 (omega arith)).0.1

get_after_example : get (BitBoard.set 0xFF00 0) 0 ≡ (get 0xFF00 0 || (0 == 0))
get_after_example =
    (get_after 0xFF00 0x0F00 0 0 true (omega arith) (omega arith) (omega arith) (omega arith)).0

intersects_iff_example :
    (BitBoard.intersects 0xFF00 0x0F00 ≡ true)
    ↔ ((p : BoardSquare) × (p < 64) × (get 0xFF00 p ≡ true) × (get 0x0F00 p ≡ true))
intersects_iff_example = intersects_iff 0xFF00 0x0F00 (omega arith)

squares-filter_example : BitBoard.squares 0x8001 ≡ filter (get 0x8001) (range 64)
squares-filter_example = squares-filter 0x8001 (omega arith)

count_lem_example :
    (BitBoard.count 0x8001 ≡ length (BitBoard.squares 0x8001))
    × (BitBoard.count_few 0x8001 ≡ length (BitBoard.squares 0x8001))
count_lem_example = count_lem 0x8001 (omega arith)

get-mirror_example : get (BitBoard.mirror 0x8001) 56 ≡ get 0x8001 (Square.mirror 56)
get-mirror_example = get-mirror 0x8001 56 (omega arith)

mirror-mirror_example : BitBoard.mirror (BitBoard.mirror 0x8001) ≡ 0x8001
mirror-mirror_example = mirror-mirror 0x8001 (omega arith)

make_promotion_fields_example :
    (Move.from (make_promotion 49 56 Promotion.queen) ≡ 49)
    × (Move.to (make_promotion 49 56 Promotion.queen) ≡ 56)
    × (Move.promo_bits (make_promotion 49 56 Promotion.queen) ≡ 1)
    × (make_promotion 49 56 Promotion.no_promotion ≡ make 49 56)
    × IsMove (make_promotion 49 56 Promotion.queen)
make_promotion_fields_example =
    make_promotion_fields 49 56 Promotion.queen (omega arith) (omega arith) (omega arith)

setters_lem_example :
    (parts (Move.set_to 796 20) ≡ (Move.from 796, 20, Move.promo_bits 796, Move.castling 796))
    × (parts (Move.set_from 796 20) ≡ (20, Move.to 796, Move.promo_bits 796, Move.castling 796))
    × (parts (Move.set_promotion 796 Promotion.queen)
        ≡ (Move.from 796, Move.to 796, 1, Move.castling 796))
    × (parts (Move.set_castling 796) ≡ (Move.from 796, Move.to 796, Move.promo_bits 796, true))
setters_lem_example = setters_lem 796 20 Promotion.queen (omega arith) (omega arith)

mirror-parts_example : parts (Move.mirror 796) ≡ (
  Square.mirror (Move.from 796),
  Square.mirror (Move.to 796),
  Move.promo_bits 796,
  Move.castling 796,
)
mirror-parts_example = mirror-parts 796

same_iff_example : (Move.same 262 33030 ≡ true) ↔ (
    (Move.from 262 ≡ Move.from 33030)
    × (Move.to 262 ≡ Move.to 33030)
    × (Move.promo_bits 262 ≡ Move.promo_bits 33030))
same_iff_example = same_iff 262 33030 (omega arith) (omega arith)

of_string-as_string_example :
    (str : List ℕ) × (Move.as_string (make_promotion 49 56 Promotion.queen) ≡ some str)
    × (Move.of_string str false ≡ some (make_promotion 49 56 Promotion.queen))
    × (Move.of_string str true ≡ some (Move.mirror (make_promotion 49 56 Promotion.queen)))
of_string-as_string_example =
    of_string-as_string 49 56 Promotion.queen (b'q' ∷ []) (omega arith) (omega arith) refl
