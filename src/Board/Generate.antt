-- ===== src/Board/Generate.antt =====
-- `ChessBoard::GeneratePseudolegalMoves` of src/chess/board.cc: the moves of each piece of ours, in the
-- order in which the source appends them.
pub mod Own
pub mod Sound
use lc.Base.{
  ℕ, ◌+◌, Bool, true, false, not, ◌&&◌, ◌||◌, ◌==◌, List, [], ◌∷◌, ◌++◌, map, any, if◌then◌else◌,
}
use lc.Base.Int.{ℤ, pos, negsuc, ◌+ℤ◌}
use lc.Square.{BoardSquare, row, col, square, square_int, is_valid, is_valid_coord}
use lc.BitBoard.{BitBoard, get, union, intersection, difference, squares}
use lc.Move.{Move, Promotion, make, make_promotion, set_castling}
use lc.Board.{ChessBoard, we_can_00, we_can_000}
use lc.Board.Tables.{
  Direction, pawn_mask, king_moves, attackers_00, attackers_000, promotions, knight_attacks,
}
use lc.Board.Magic.{Magic, get_rook_attacks, get_bishop_attacks}
use lc.Board.Attack.{is_under_attack}

-- The loop over the king's steps.
unfoldable pub king_steps : Magic → ChessBoard → BoardSquare → List Direction → List Move
king_steps g b source [] = []
king_steps g b source (d ∷ ds) =
    let r = pos (row source) +ℤ d.0 in
    let c = pos (col source) +ℤ d.1 in
    let destination = square_int r c in
    let rest = king_steps g b source ds in
    if not (is_valid r c)
    then rest
    else if get b.our_pieces destination
    then rest
    else if is_under_attack g b destination
    then rest
    else make source destination ∷ rest

abbrev pub is_occupied : ChessBoard → BoardSquare → Bool
is_occupied b s = get b.our_pieces s || get b.their_pieces s

-- One castling: the squares between are empty, and none of the king's is attacked.
unfoldable pub castle :
    Magic
    → ChessBoard
    → BoardSquare
    → Bool
    → List BoardSquare
    → List BoardSquare
    → BoardSquare
    → List Move
castle g b source right between attackers destination =
    if right && not (any (is_occupied b) between) && not (any (is_under_attack g b) attackers)
    then set_castling (make source destination) ∷ []
    else []

unfoldable pub castlings : Magic → ChessBoard → BoardSquare → List Move
castlings g b source =
    castle g b source (we_can_00 b.castlings) (5 ∷ 6 ∷ []) attackers_00 (square 0 6)
    ++ castle g b source (we_can_000 b.castlings) (1 ∷ 2 ∷ 3 ∷ []) attackers_000 (square 0 2)

-- The moves to each square of a board.
unfoldable pub moves_to : BoardSquare → BitBoard → List Move
moves_to source attacked = map (make source) (squares attacked)

unfoldable pub rook_moves : Magic → ChessBoard → BoardSquare → List Move
rook_moves g b source =
    moves_to source
      (difference (get_rook_attacks g source (union b.our_pieces b.their_pieces)) b.our_pieces)

unfoldable pub bishop_moves : Magic → ChessBoard → BoardSquare → List Move
bishop_moves g b source =
    moves_to source
      (difference (get_bishop_attacks g source (union b.our_pieces b.their_pieces)) b.our_pieces)

abbrev promotions_to : BoardSquare → BoardSquare → List Move
promotions_to source destination = map (make_promotion source destination) promotions

unfoldable pub pawn_forward : ChessBoard → BoardSquare → List Move
pawn_forward b source =
    let r = row source + 1 in
    let c = col source in
    let destination = square r c in
    if is_occupied b destination
    then []
    else if r == 7
    then promotions_to source destination
    else make source destination
      ∷ (if (r == 2) && not (is_occupied b (square 3 c)) then make source (square 3 c) ∷ [] else [])

-- One round of the loop over the two directions of a capture.
unfoldable pub pawn_capture : ChessBoard → BoardSquare → ℤ → List Move
pawn_capture b source direction =
    let r = row source + 1 in
    let c = pos (col source) +ℤ direction in
    let destination = square_int (pos r) c in
    if not (is_valid_coord c)
    then []
    else if get b.their_pieces destination
    then (if r == 7 then promotions_to source destination else make source destination ∷ [])
    else if (r == 5) && get b.pawns (square_int (pos 7) c)
    then make source destination ∷ []
    else []

unfoldable pub pawn_moves : ChessBoard → BoardSquare → List Move
pawn_moves b source =
    pawn_forward b source ++ pawn_capture b source (negsuc 0) ++ pawn_capture b source (pos 1)

unfoldable pub knight_moves : ChessBoard → BoardSquare → List Move
knight_moves b source = moves_to source (difference (knight_attacks source) b.our_pieces)

-- The body of the loop over our pieces.
unfoldable pub piece_moves : Magic → ChessBoard → BoardSquare → List Move
piece_moves g b source =
    let rook = get b.rooks source in
    let bishop = get b.bishops source in
    if source == b.our_king
    then king_steps g b source king_moves ++ castlings g b source
    else if rook || bishop
    then (if rook then rook_moves g b source else [])
      ++ (if bishop then bishop_moves g b source else [])
    else if get (intersection b.pawns pawn_mask) source
    then pawn_moves b source
    else knight_moves b source

unfoldable pub moves_of : Magic → ChessBoard → List BoardSquare → List Move
moves_of g b [] = []
moves_of g b (source ∷ rest) = piece_moves g b source ++ moves_of g b rest

unfoldable pub generate_pseudolegal_moves : Magic → ChessBoard → List Move
generate_pseudolegal_moves g b = moves_of g b (squares b.our_pieces)
