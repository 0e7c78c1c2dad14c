-- ===== src/Board/Attack.antt =====
-- `ChessBoard::IsUnderAttack` and `IsUnderCheck` of src/chess/board.cc.
use lc.Base.{Bool, true, ◌&&◌, leb, if◌then◌else◌}
use lc.Base.Int.{pos, ◌-ℤ◌, abs}
use lc.Square.{BoardSquare, row, col}
use lc.BitBoard.{BitBoard, intersects, union, intersection, difference, minus_square}
use lc.Board.{ChessBoard}
use lc.Board.Tables.{pawn_mask, pawn_attacks, knight_attacks}
use lc.Board.Magic.{Magic, get_rook_attacks, get_bishop_attacks}

-- Is the square next to their king, or the king's own?
unfoldable pub near_their_king : ChessBoard → BoardSquare → Bool
near_their_king b s =
    leb (abs (pos (row b.their_king) -ℤ pos (row s))) 1
    && leb (abs (pos (col b.their_king) -ℤ pos (col s))) 1

-- Their pieces that are neither the king nor on one of the other boards.
unfoldable pub attacking_knights : ChessBoard → BitBoard
attacking_knights b =
    difference
      (difference (difference (minus_square b.their_pieces b.their_king) b.rooks) b.bishops)
      (intersection b.pawns pawn_mask)

unfoldable pub is_under_attack : Magic → ChessBoard → BoardSquare → Bool
is_under_attack g b s =
    let occupied = union b.our_pieces b.their_pieces in
    if near_their_king b s
    then true
    else if intersects (get_rook_attacks g s occupied) (intersection b.their_pieces b.rooks)
    then true
    else if intersects (get_bishop_attacks g s occupied) (intersection b.their_pieces b.bishops)
    then true
    else if intersects (pawn_attacks s) (intersection b.their_pieces b.pawns)
    then true
    else intersects (knight_attacks s) (attacking_knights b)

abbrev pub is_under_check : Magic → ChessBoard → Bool
is_under_check g b = is_under_attack g b b.our_king
