-- ===== src/Board/Apply/Counter.antt =====
-- What `ApplyMove` returns: whether the move starts the counter of the fifty-move rule again.
use lc.Base.{◌≡◌, refl, Bool, true, false, ◌||◌, arith, Option, none, some}
use lc.BitBoard.{get}
use lc.Move
use lc.Move.{Move}
use lc.Move.Laws.{to-lt, from-lt}
use lc.Board.{ChessBoard}
use lc.Board.Words.{IsBoard}
use lc.Board.Apply.{apply_move, is_promotion, prepare}
use lc.Board.Apply.Squares.{at-prepare}
use lc.Board.Apply.Effect.{Piece, Kind, piece_at, kings-prepare, IsOrdinary, distinct, passes-apart}

abbrev pub is_some {ℓ} : {A : Type ℓ} → Option A → Bool
is_some none = false
is_some (some x) = true

abbrev is_pawn_kind : Kind → Bool
is_pawn_kind Kind.pawn = true
is_pawn_kind k = false

abbrev pub is_pawn : Option Piece → Bool
is_pawn none = false
is_pawn (some (s, k)) = is_pawn_kind k

apply_move-counter :
    (b : ChessBoard) (m : Move)
    → IsOrdinary b (Move.from m) (Move.to m)
    → is_promotion (Move.promotion m) ≡ false
    → (apply_move b m).1 ≡ (
        get b.their_pieces (Move.to m)
        || get (prepare b (Move.from m) (Move.to m)).pawns (Move.from m))
unfolding apply_move
apply_move-counter b m o p =
    let k = kings-prepare b (Move.from m) (Move.to m) in rw (k.0, o.no_king, p) refl

-- On a well-formed board, an ordinary move (`IsOrdinary`) that is no promotion starts the counter
-- again exactly when a piece stands on its destination or the piece that moves is a pawn.
pub apply_move-counter_lem :
    (b : ChessBoard) (m : Move)
    → IsBoard b
    → IsOrdinary b (Move.from m) (Move.to m)
    → is_promotion (Move.promotion m) ≡ false
    → (apply_move b m).1 ≡ (is_some (piece_at b (Move.to m)) || is_pawn (piece_at b (Move.from m)))
apply_move-counter_lem b m v o p =
    let f = Move.from m in
    let t = Move.to m in
    ground (
      arith,
      apply_move-counter b m o p,
      at-prepare f (from-lt m) b f t v (from-lt m) (to-lt m),
      distinct b v f t (from-lt m) (to-lt m) o,
      passes-apart b f t,
    )
