-- ===== src/Position/Result.antt =====
-- `ComputeGameResult` of src/chess/position.cc against the rules of the end of a game.
use lc.Base.{Bool, not, ◌&&◌, ◌||◌, ltb}
use lc.Base.Int.{pos, leb_ℤ}
use lc.Board.Magic.{Magic}
use lc.Board.Attack.{is_under_check}
use lc.Board.Legal.{generate_legal_moves}
use lc.Board.Mating.{has_mating_material}
use lc.Position.{Position, is_nil}

-- The player to move has no legal move and is in check.
abbrev pub checkmated : Magic → Position → Bool
checkmated g p = is_nil (generate_legal_moves g p.us_board) && is_under_check g p.us_board

abbrev pub stalemated : Magic → Position → Bool
stalemated g p = is_nil (generate_legal_moves g p.us_board) && not (is_under_check g p.us_board)

-- The rules that end a game while there are moves.
abbrev pub drawn_by_rule : Position → Bool
drawn_by_rule p =
    not (has_mating_material p.us_board)
    || leb_ℤ (pos 100) p.no_capture_ply
    || leb_ℤ (pos 450) p.ply_count
    || ltb 1 p.repetitions
