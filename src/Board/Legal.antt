-- ===== src/Board/Legal.antt =====
-- `ChessBoard::IsLegalMove` and `GenerateLegalMoves` of src/chess/board.cc.
pub mod Sound
use lc.Base.{Bool, true, false, not, ◌==◌, List, filter, if◌then◌else◌}
use lc.Base.Int.{pos, ◌-ℤ◌, ◌*ℤ◌, eq_ℤ}
use lc.Square.{BoardSquare, row, col}
use lc.Move
use lc.Move.{Move}
use lc.Board.{ChessBoard}
use lc.Board.Magic.{Magic}
use lc.Board.Attack.{is_under_check}
use lc.Board.Apply.{apply_move, takes_en_passant}
use lc.Board.Generate.{generate_pseudolegal_moves}
use lc.Board.KingInfo.{
  KingAttackInfo, in_check, in_double_check, is_pinned, is_on_attack_line,
  generate_king_attack_info,
}

-- Apply the move and see that our king is not under check.
unfoldable pub leaves_king_safe : Magic → ChessBoard → Move → Bool
leaves_king_safe g b m = not (is_under_check g (apply_move b m).0)

-- Does the destination stand on the line of the king and the origin?
unfoldable pub stays_on_line : ChessBoard → BoardSquare → BoardSquare → Bool
stays_on_line b f t =
    let dx_from = pos (col f) -ℤ pos (col b.our_king) in
    let dy_from = pos (row f) -ℤ pos (row b.our_king) in
    let dx_to = pos (col t) -ℤ pos (col b.our_king) in
    let dy_to = pos (row t) -ℤ pos (row b.our_king) in
    if eq_ℤ dx_from (pos 0)
    then eq_ℤ dx_from dx_to
    else if eq_ℤ dx_to (pos 0)
    then eq_ℤ dx_from dx_to
    else eq_ℤ (dx_from *ℤ dy_to) (dx_to *ℤ dy_from)

unfoldable pub is_legal_move : Magic → ChessBoard → Move → KingAttackInfo → Bool
is_legal_move g b m info =
    let f = Move.from m in
    let t = Move.to m in
    if takes_en_passant b f t
    then leaves_king_safe g b m
    else if in_check info
    then (if f == b.our_king
        then leaves_king_safe g b m
        else if is_pinned info f
        then false
        else if in_double_check info
        then false
        else is_on_attack_line info t)
    else if f == b.our_king
    then true
    else if not (is_pinned info f)
    then true
    else stays_on_line b f t

unfoldable pub generate_legal_moves : Magic → ChessBoard → List Move
generate_legal_moves g b =
    let info = generate_king_attack_info b in
    filter (λ m. is_legal_move g b m info) (generate_pseudolegal_moves g b)
