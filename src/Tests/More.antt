-- ===== src/Tests/More.antt =====
-- The theorems on rights, marks, tables and legal moves at concrete boards.
use lc.Base.{◌+◌, ◌*◌, ◌≡◌, refl, true, false, not, ◌&&◌, ◌==◌, arith, some, get_or, ◌↔◌}
use lc.Square
use lc.Square.{BoardSquare}
use lc.BitBoard.{get}
use lc.Move
use lc.Move.Index.{read_moves, idx_texts, as_nn_index, build_move_indices}
use lc.Move.Index.Geometry.{network_moves}
use lc.Move.Index.Numbers.{as_nn_index-network}
use lc.Board
use lc.Board.{ChessBoard, same_board, we_can_00, we_can_000, they_can_00, they_can_000}
use lc.Board.Rights.{flags}
use lc.Board.Tables.{rook_attacks, bishop_attacks, knight_attacks, pawn_attacks}
use lc.Board.Tables.Geometry.{on_rook_line, on_bishop_line, knight_jump, pawn_capture, attacks_lem}
use lc.Board.Apply.{apply_move, is_promotion}
use lc.Board.Apply.Castling.{castlings-apply_move}
use lc.Board.Apply.Effect.{piece_at}
use lc.Board.Apply.Apart.{IsApartAt, target_free, apply_move-IsApartAt}
use lc.Board.Apply.King.{rook_trip}
use lc.Board.Sight.{same_board_iff, other_side, piece_at-mirror}
use lc.Tests.Data.{start, start-IsBoard, two_steps}

-- The rook's pawn's neighbour: the rook h1 takes a right with it.
abbrev rook_away : Move.Move
rook_away = 7 * 64 + 63

castlings-apply_move_example : flags (apply_move start rook_away).0.castlings ≡ (
  we_can_00 15
      && not (Move.from rook_away == 4)
      && not (not (is_promotion (Move.promotion rook_away)) && (Move.from rook_away == 7)),
  we_can_000 15
      && not (Move.from rook_away == 4)
      && not (not (is_promotion (Move.promotion rook_away)) && (Move.from rook_away == 0)),
  they_can_00 15 && not (Move.to rook_away == 63),
  they_can_000 15 && not (Move.to rook_away == 56),
)
castlings-apply_move_example = castlings-apply_move start rook_away start-IsBoard

attacks_lem_example :
    (get (rook_attacks 27) 31 ≡ on_rook_line 27 31)
    × (get (bishop_attacks 27) 31 ≡ on_bishop_line 27 31)
    × (get (knight_attacks 27) 31 ≡ knight_jump 27 31)
    × (get (pawn_attacks 27) 31 ≡ pawn_capture 27 31)
attacks_lem_example = attacks_lem 27 31 (omega arith) (omega arith)

same_board_iff_example : (same_board start start ≡ true) ↔ (start ≡ start)
same_board_iff_example = same_board_iff start start

apart_there :
    (get start.our_pieces (Square.mirror 60) && get start.their_pieces (Square.mirror 60)) ≡ false
unfolding get Square.mirror
apart_there = refl

piece_at-mirror_example :
    piece_at (Board.mirror start) 60 ≡ other_side (piece_at start (Square.mirror 60))
piece_at-mirror_example = piece_at-mirror start 60 start-IsBoard (omega arith) apart_there

as_nn_index-network_example :
    (read_moves idx_texts ≡ some network_moves)
    × (as_nn_index (build_move_indices network_moves) (get_or network_moves 7 0) ≡ 7)
as_nn_index-network_example = as_nn_index-network 7 (omega arith)

apart_before : IsApartAt 28 start
unfolding get
apart_before = refl

no_rook_target : target_free start (rook_trip (Move.from two_steps) (Move.to two_steps)) ≡ true
unfolding Move.from Move.to
no_rook_target = refl

apply_move-IsApartAt_example : IsApartAt 28 (apply_move start two_steps).0
apply_move-IsApartAt_example =
    apply_move-IsApartAt start two_steps 28 start-IsBoard (omega arith) no_rook_target apart_before
