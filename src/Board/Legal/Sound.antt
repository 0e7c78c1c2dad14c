-- ===== src/Board/Legal/Sound.antt =====
-- The legal moves of src/chess/board.cc are pseudolegal moves that pass the test.
use lc.Board.Magic.{Magic}
