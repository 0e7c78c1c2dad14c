-- ===== src/Tests/Fen.antt =====
-- Reading and printing at fixed texts.
use lc.Base.{◌≡◌, refl, some}
use lc.Base.Int.{pos}
use lc.Base.Text.{codes}
use lc.Square
use lc.BitBoard
use lc.Board
use lc.Board.Fen.{
  set_from_fen, read_word, skip_space, split_word, read_int, read_digits, read_board, place_kind,
  place_side, read_right, read_rights, read_castlings, read_en_passant,
}
use lc.Tests.Data.{start}

fen_start :
    set_from_fen (codes "rnbqkbnr/pppppppp/8/8/8/8/PPPPPPPP/RNBQKBNR w KQkq - 0 1")
    ≡ some (record { board = start; no_capture_ply = pos 0; moves = pos 1 })
unfolding set_from_fen read_word skip_space split_word read_int read_digits read_board place_kind
    place_side read_right read_rights read_castlings read_en_passant BitBoard.set Board.cleared
    Board.set_we_can_00 Board.set_we_can_000 Board.set_they_can_00 Board.set_they_can_000
    Square.of_string
fen_start = refl
