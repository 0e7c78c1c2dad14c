-- ===== src/Board/Pieces.antt =====
-- The queries of src/chess/board.h and src/chess/board.cc for one kind of piece.
use lc.BitBoard.{BitBoard, one_at, intersection, difference, minus_square}
use lc.Board.{ChessBoard}
use lc.Board.Tables.{pawn_mask}

abbrev pub ours : ChessBoard → BitBoard
ours b = b.our_pieces

abbrev pub theirs : ChessBoard → BitBoard
theirs b = b.their_pieces

unfoldable pub pawns : ChessBoard → BitBoard
pawns b = intersection b.pawns pawn_mask

unfoldable pub en_passant : ChessBoard → BitBoard
en_passant b = difference b.pawns (pawns b)

unfoldable pub bishops : ChessBoard → BitBoard
bishops b = difference b.bishops b.rooks

unfoldable pub rooks : ChessBoard → BitBoard
rooks b = difference b.rooks b.bishops

unfoldable pub queens : ChessBoard → BitBoard
queens b = intersection b.rooks b.bishops

unfoldable pub our_knights : ChessBoard → BitBoard
our_knights b =
    difference (difference (minus_square (difference b.our_pieces (pawns b)) b.our_king) b.rooks)
      b.bishops

unfoldable pub their_knights : ChessBoard → BitBoard
their_knights b =
    difference
      (difference (minus_square (difference b.their_pieces (pawns b)) b.their_king) b.rooks)
      b.bishops

unfoldable pub our_king : ChessBoard → BitBoard
our_king b = one_at b.our_king

unfoldable pub their_king : ChessBoard → BitBoard
their_king b = one_at b.their_king
