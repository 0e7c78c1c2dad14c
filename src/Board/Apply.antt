-- ===== src/Board/Apply.antt =====
-- `ChessBoard::ApplyMove` of src/chess/board.cc, in the blocks of the source. The result is the board
-- and whether the move resets the counter of the fifty-move rule.
pub mod Squares
pub mod Valid
pub mod Effect
pub mod King
pub mod Promote
pub mod Counter
pub mod Apart
pub mod Passing
pub mod Castling
use lc.Base.{ℕ, ◌+◌, ◌-◌, Bool, true, false, not, ◌&&◌, ◌||◌, ◌==◌, ltb, if◌then◌else◌}
use lc.Square.{BoardSquare, row, col, square}
use lc.BitBoard.{BitBoard, get, set, set_if, reset, intersection, intersects}
use lc.Move
use lc.Move.{Move, Promotion}
use lc.Board.{ChessBoard, reset_we_can_00, reset_we_can_000, reset_they_can_00, reset_they_can_000}
use lc.Board.Tables.{pawn_mask, pawn_attacks}

-- Move in our pieces.
unfoldable pub move_pieces : ChessBoard → BoardSquare → BoardSquare → ChessBoard
move_pieces b f t = record b { our_pieces = set (reset b.our_pieces f) t }

-- Remove captured piece.
unfoldable pub remove_captured : ChessBoard → BoardSquare → ChessBoard
remove_captured b t =
    let c = if t == 63 then reset_they_can_00 b.castlings else b.castlings in
    record b {
      their_pieces = reset b.their_pieces t;
      rooks = reset b.rooks t;
      bishops = reset b.bishops t;
      pawns = reset b.pawns t;
      castlings = if t == 56 then reset_they_can_000 c else c;
    }

-- En passant.
unfoldable pub takes_en_passant : ChessBoard → BoardSquare → BoardSquare → Bool
takes_en_passant b f t =
    (row f == 4) && get b.pawns f && not (col f == col t) && get b.pawns (square 7 (col t))

unfoldable pub remove_en_passant : ChessBoard → BoardSquare → BoardSquare → ChessBoard
remove_en_passant b f t =
    if takes_en_passant b f t
    then record b {
      pawns = reset b.pawns (square 4 (col t));
      their_pieces = reset b.their_pieces (square 4 (col t));
    }
    else b

-- Remove en passant flags.
unfoldable pub remove_flags : ChessBoard → ChessBoard
remove_flags b = record b { pawns = intersection b.pawns pawn_mask }

-- The rook's part of a castling: from its corner to its new square.
unfoldable pub move_rook : ChessBoard → BoardSquare → BoardSquare → ChessBoard
move_rook b corner target = record b {
  our_pieces = set (reset b.our_pieces corner) target;
  rooks = set (reset b.rooks corner) target;
}

-- King. `to_col - from_col > 1` on `int` is `from_col + 1 < to_col`.
unfoldable pub move_king : ChessBoard → BoardSquare → BoardSquare → ChessBoard
move_king b f t =
    let k = record b { castlings = reset_we_can_000 (reset_we_can_00 b.castlings); our_king = t } in
    if ltb (col f + 1) (col t)
    then move_rook k 7 5
    else if ltb (col t + 1) (col f)
    then move_rook k 0 3
    else k

abbrev pub is_promotion : Promotion → Bool
is_promotion Promotion.no_promotion = false
is_promotion p = true

-- Promotion.
abbrev pub place_promoted : ChessBoard → BoardSquare → Promotion → ChessBoard
place_promoted b t Promotion.rook = record b { rooks = set b.rooks t }
place_promoted b t Promotion.bishop = record b { bishops = set b.bishops t }
place_promoted b t Promotion.queen = record b { rooks = set b.rooks t; bishops = set b.bishops t }
place_promoted b t p = b

unfoldable pub promote : ChessBoard → BoardSquare → BoardSquare → Promotion → ChessBoard
promote b f t p = let q = place_promoted b t p in record q { pawns = reset q.pawns f }

-- Reset castling rights.
unfoldable pub leave_corner : ChessBoard → BoardSquare → ChessBoard
leave_corner b f =
    let c = if f == 0 then reset_we_can_000 b.castlings else b.castlings in
    record b { castlings = if f == 7 then reset_we_can_00 c else c }

-- Ordinary move.
unfoldable pub move_ordinary : ChessBoard → BoardSquare → BoardSquare → ChessBoard
move_ordinary b f t = record b {
  rooks = reset (set_if b.rooks t (get b.rooks f)) f;
  bishops = reset (set_if b.bishops t (get b.bishops f)) f;
  pawns = reset (set_if b.pawns t (get b.pawns f)) f;
}

-- Set en passant flag. `to_row - from_row == 2` on `int` is `to_row == from_row + 2`.
unfoldable pub set_flag : ChessBoard → BoardSquare → BoardSquare → ChessBoard
set_flag b f t =
    if (row t == row f + 2)
      && get b.pawns t
      && intersects (pawn_attacks (square (row t - 1) (col t)))
          (intersection b.their_pieces b.pawns)
    then record b { pawns = set b.pawns (square 0 (col t)) }
    else b

-- The blocks before the moved piece is looked at.
unfoldable pub prepare : ChessBoard → BoardSquare → BoardSquare → ChessBoard
prepare b f t = remove_flags (remove_en_passant (remove_captured (move_pieces b f t) t) f t)

unfoldable pub apply_move : ChessBoard → Move → ChessBoard × Bool
apply_move b m =
    let f = Move.from m in
    let t = Move.to m in
    let p = prepare b f t in
    let reset_50_moves = get b.their_pieces t || get p.pawns f in
    if f == p.our_king
    then (move_king p f t, reset_50_moves)
    else if is_promotion (Move.promotion m)
    then (promote p f t (Move.promotion m), true)
    else (set_flag (move_ordinary (leave_corner p f) f t) f t, reset_50_moves)
