-- ===== src/Board/Apply/Passing.antt =====
-- The en passant flag after `ApplyMove`.
use lc.Base.{◌+◌, ◌-◌, Bool, ◌&&◌, ◌==◌}
use lc.Square.{BoardSquare, row, col, square}
use lc.BitBoard.{get, intersects, intersection}
use lc.Move
use lc.Move.{Move}
use lc.Board.{ChessBoard}
use lc.Board.Tables.{pawn_attacks}
use lc.Board.Apply.{prepare, leave_corner, move_ordinary}

-- The board before the flag is set.
abbrev pub unflagged : ChessBoard → BoardSquare → BoardSquare → ChessBoard
unflagged b f t = move_ordinary (leave_corner (prepare b f t) f) f t

-- Did a pawn go two rows, over a square that a pawn of theirs attacks?
abbrev pub passes_over : ChessBoard → BoardSquare → BoardSquare → Bool
passes_over b f t =
    (row t == row f + 2)
    && get b.pawns t
    && intersects (pawn_attacks (square (row t - 1) (col t))) (intersection b.their_pieces b.pawns)
