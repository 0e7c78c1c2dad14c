-- ===== src/Board/KingInfo.antt =====
-- `KingAttackInfo` and `ChessBoard::GenerateKingAttackInfo` of src/chess/board.h and src/chess/board.cc:
-- the pieces that give check, the lines on which a check can be met, and the pinned pieces.
use lc.Base.{ℕ, zero, suc, ◌+◌, Bool, true, false, not, ◌&&◌, ◌==◌, List, [], ◌∷◌, if◌then◌else◌}
use lc.Base.Int.{ℤ, pos, ◌+ℤ◌}
use lc.Square.{BoardSquare, row, col, square_int, is_valid}
use lc.BitBoard.{BitBoard, get, set, union, intersection, intersects}
use lc.Board.{ChessBoard}
use lc.Board.Tables.{
  Direction, rook_directions, bishop_directions, rook_attacks, bishop_attacks, pawn_attacks,
  knight_attacks,
}
use lc.Board.Magic.{ray_fuel}
use lc.Board.Attack.{attacking_knights}

pub record KingAttackInfo : Type 0 where
  pub double_check : Bool
  pub pinned_pieces : BitBoard
  pub attack_lines : BitBoard

unfoldable pub in_check : KingAttackInfo → Bool
in_check k = not (k.attack_lines == 0)

abbrev pub in_double_check : KingAttackInfo → Bool
in_double_check k = k.double_check

abbrev pub is_pinned : KingAttackInfo → BoardSquare → Bool
is_pinned k s = get k.pinned_pieces s

abbrev pub is_on_attack_line : KingAttackInfo → BoardSquare → Bool
is_on_attack_line k s = get k.attack_lines s

-- What the loops gather: the two boards and the number of attackers.
pub record Gathered : Type 0 where
  pub pinned : BitBoard
  pub lines : BitBoard
  pub attackers : ℕ

-- The variables of the loop along one direction.
pub record Line : Type 0 where
  pub attack_line : BitBoard
  pub possible_pinned_piece_found : Bool
  pub possible_pinned_piece : BoardSquare

-- A first piece of ours on the line may be pinned; a second one ends the search by the `break`.
abbrev pub pass_ours : Line → BoardSquare → Line
pass_ours l destination = record l {
  possible_pinned_piece_found = true;
  possible_pinned_piece = destination;
}

-- The first piece of theirs on the line: `sliders` are the pieces that attack along it.
abbrev pub meet_theirs : BitBoard → BoardSquare → Line → Gathered → Gathered
meet_theirs sliders destination l s =
    if get sliders destination
    then (if l.possible_pinned_piece_found
        then record s { pinned = set s.pinned l.possible_pinned_piece }
        else record s { lines = union s.lines l.attack_line; attackers = s.attackers + 1 })
    else s

-- The loop along one direction.
unfoldable pub line_attack :
    ℕ → ChessBoard → BitBoard → Direction → ℤ → ℤ → Line → Gathered → Gathered
line_attack zero b sliders d r c l s = s
line_attack (suc fuel) b sliders d r c l s =
    let r' = r +ℤ d.0 in
    let c' = c +ℤ d.1 in
    let destination = square_int r' c' in
    let own = get b.our_pieces destination in
    let l1 = if own then pass_ours l destination else l in
    let l2 =
      if l1.possible_pinned_piece_found
      then l1
      else record l1 { attack_line = set l1.attack_line destination } in
    let rest = line_attack fuel b sliders d r' c' l2 s in
    if not (is_valid r' c')
    then s
    else if own && l.possible_pinned_piece_found
    then s
    else if get b.their_pieces destination
    then meet_theirs sliders destination l2 s
    else rest

abbrev pub fresh_line : Line
fresh_line = record {
  attack_line = 0;
  possible_pinned_piece_found = false;
  possible_pinned_piece = 0;
}

unfoldable pub lines_attack : ChessBoard → BitBoard → List Direction → Gathered → Gathered
lines_attack b sliders [] s = s
lines_attack b sliders (d ∷ ds) s =
    lines_attack b sliders ds
      (line_attack ray_fuel b sliders d (pos (row b.our_king)) (pos (col b.our_king)) fresh_line s)

-- The sliders of one kind, looked for only if one stands on a line of the empty board.
unfoldable pub slider_checks :
    ChessBoard → (BoardSquare → BitBoard) → BitBoard → List Direction → Gathered → Gathered
slider_checks b attacks sliders directions s =
    if intersects (attacks b.our_king) (intersection b.their_pieces sliders)
    then lines_attack b sliders directions s
    else s

-- Pawns and knights: they give check from where they stand.
unfoldable pub add_attackers : BitBoard → Gathered → Gathered
add_attackers pieces s = record s {
  lines = union s.lines pieces;
  attackers = if pieces == 0 then s.attackers else s.attackers + 1;
}

unfoldable pub gather : ChessBoard → Gathered
gather b =
    let s1 =
      slider_checks b rook_attacks b.rooks rook_directions
        (record { pinned = 0; lines = 0; attackers = 0 }) in
    let s2 = slider_checks b bishop_attacks b.bishops bishop_directions s1 in
    let s3 =
      add_attackers (intersection (intersection (pawn_attacks b.our_king) b.their_pieces) b.pawns)
        s2 in
    add_attackers (intersection (knight_attacks b.our_king) (attacking_knights b)) s3

-- The assertion that there are at most two attackers is left out, as in a release build.
unfoldable pub generate_king_attack_info : ChessBoard → KingAttackInfo
generate_king_attack_info b =
    let s = gather b in
    record { double_check = s.attackers == 2; pinned_pieces = s.pinned; attack_lines = s.lines }
