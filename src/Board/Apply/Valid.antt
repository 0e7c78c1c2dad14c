-- ===== src/Board/Apply/Valid.antt =====
-- Each block of `ApplyMove` leaves words, squares and flags within their ranges.
use lc.Base.{◌<◌, Bool, arith, ltb, ◌+◌, ◌==◌, if_both}
use lc.Square.{BoardSquare, col}
use lc.BitBoard.Laws.{set-IsWord, set_if-IsWord, reset-IsWord, intersection-IsWord}
use lc.Move
use lc.Move.{Move, Promotion}
use lc.Move.Laws.{to-lt}
use lc.Board.{ChessBoard, reset_we_can_00, reset_we_can_000}
use lc.Board.Rights.{reset-small}
use lc.Board.Words.{IsBoard}
use lc.Board.Apply.{
  move_pieces, remove_captured, remove_en_passant, remove_flags, move_rook, move_king, promote,
  leave_corner, move_ordinary, set_flag, prepare, apply_move, is_promotion,
}

module _ {b : ChessBoard} (f t : BoardSquare) (v : IsBoard b) where
  pub move_pieces-IsBoard : IsBoard (move_pieces b f t)
  unfolding move_pieces
  move_pieces-IsBoard = grind (arith, set-IsWord, reset-IsWord)

  pub remove_captured-IsBoard : IsBoard (remove_captured b t)
  unfolding remove_captured
  remove_captured-IsBoard = grind (arith, reset-IsWord, reset-small)

  pub remove_en_passant-IsBoard : IsBoard (remove_en_passant b f t)
  unfolding remove_en_passant
  remove_en_passant-IsBoard = grind (arith, reset-IsWord)

  pub remove_flags-IsBoard : IsBoard (remove_flags b)
  unfolding remove_flags
  remove_flags-IsBoard = grind (arith, intersection-IsWord)

  pub move_rook-IsBoard : IsBoard (move_rook b f t)
  unfolding move_rook
  move_rook-IsBoard = grind (arith, set-IsWord, reset-IsWord)

  pub promote-IsBoard : (p : Promotion) → IsBoard (promote b f t p)
  unfolding promote
  promote-IsBoard Promotion.no_promotion = grind (arith, set-IsWord, reset-IsWord)
  promote-IsBoard p = grind (arith, set-IsWord, reset-IsWord)

  pub leave_corner-IsBoard : IsBoard (leave_corner b f)
  unfolding leave_corner
  leave_corner-IsBoard = grind (arith, reset-small)

  pub move_ordinary-IsBoard : IsBoard (move_ordinary b f t)
  unfolding move_ordinary
  move_ordinary-IsBoard = grind (arith, set_if-IsWord, reset-IsWord)

  pub set_flag-IsBoard : IsBoard (set_flag b f t)
  unfolding set_flag
  set_flag-IsBoard = grind (arith, set-IsWord)

pub move_king-IsBoard :
    {b : ChessBoard} (f t : BoardSquare) → t < 64 → IsBoard b → IsBoard (move_king b f t)
unfolding move_king
move_king-IsBoard {b} f t h v =
    if_both IsBoard (ltb (col f + 1) (col t)) (move_rook-IsBoard 7 5 moved)
      (if_both IsBoard (ltb (col t + 1) (col f)) (move_rook-IsBoard 0 3 moved) moved)
  where
    moved :
        IsBoard
          (record b { castlings = reset_we_can_000 (reset_we_can_00 b.castlings); our_king = t })
    moved = grind (arith, reset-small)

pub prepare-IsBoard : {b : ChessBoard} (f t : BoardSquare) → IsBoard b → IsBoard (prepare b f t)
unfolding prepare
prepare-IsBoard f t v =
    remove_flags-IsBoard f t
      (remove_en_passant-IsBoard f t (remove_captured-IsBoard f t (move_pieces-IsBoard f t v)))

abbrev Outcome : ChessBoard × Bool → Type 0
Outcome r = IsBoard r.0

pub apply_move-IsBoard : (b : ChessBoard) (m : Move) → IsBoard b → IsBoard (apply_move b m).0
unfolding apply_move
apply_move-IsBoard b m v =
    if_both Outcome (f == p.our_king) (move_king-IsBoard f t (to-lt m) prepared) (
      if_both Outcome (is_promotion (Move.promotion m))
        (promote-IsBoard f t prepared (Move.promotion m))
        (set_flag-IsBoard f t (move_ordinary-IsBoard f t (leave_corner-IsBoard f t prepared))))
  where
    f : BoardSquare
    f = Move.from m

    t : BoardSquare
    t = Move.to m

    p : ChessBoard
    p = prepare b f t

    prepared : IsBoard p
    prepared = prepare-IsBoard f t v
