-- ===== src/Board/Mating.antt =====
-- `ChessBoard::HasMatingMaterial` of src/chess/board.cc.
use lc.Base.{Bool, true, false, not, ◌&&◌, ◌||◌, ltb, if◌then◌else◌}
use lc.BitBoard.{BitBoard, empty, count, union, intersects}
use lc.Board.{ChessBoard}
use lc.Board.Pieces.{our_knights, their_knights}

abbrev pub light_squares : BitBoard
light_squares = 0x55AA55AA55AA55AA

abbrev pub dark_squares : BitBoard
dark_squares = 0xAA55AA55AA55AA55

unfoldable pub has_mating_material : ChessBoard → Bool
has_mating_material b =
    if not (empty b.rooks) || not (empty b.pawns)
    then true
    else if ltb (count (union b.our_pieces b.their_pieces)) 4
    then false
    else if not (empty (our_knights b)) || not (empty (their_knights b))
    then true
    else intersects b.bishops light_squares && intersects b.bishops dark_squares
