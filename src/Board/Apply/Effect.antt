-- ===== src/Board/Apply/Effect.antt =====
-- `ApplyMove` on the mailbox board: which piece stands on each square after a move.
use lc.Base.{
  ◌<◌, ◌≡◌, refl, ap, Bool, true, false, not, ◌&&◌, ◌||◌, ◌==◌, arith, Bool-cases, inl, inr,
  if◌then◌else◌, Option, none, some, ==→eq,
}
use lc.Square.{BoardSquare}
use lc.BitBoard.{get}
use lc.Move
use lc.Move.{Move, Promotion}
use lc.Board.{ChessBoard}
use lc.Board.Words.{IsBoard}
use lc.Board.Tables.{pawn_mask}
use lc.Board.Apply.{
  move_pieces, takes_en_passant, remove_captured, remove_en_passant, remove_flags, leave_corner,
  move_ordinary, set_flag, prepare, apply_move, is_promotion,
}
use lc.Board.Apply.Squares.{At, at, seen, passes, victim}

pub data Kind : Type 0 where
  pawn knight bishop rook queen king : Kind

pub data Side : Type 0 where
  us them : Side

abbrev pub Piece : Type 0
Piece = Side × Kind

abbrev pub kind_of : Bool → At → Kind
kind_of is_king a =
    if is_king
    then Kind.king
    else if a.pawn
    then Kind.pawn
    else if a.bishop
    then (if a.rook then Kind.queen else Kind.bishop)
    else if a.rook
    then Kind.rook
    else Kind.knight

abbrev pub piece_of : Bool → Bool → At → Option Piece
piece_of our_king their_king a =
    if a.our
    then some (Side.us, kind_of our_king a)
    else if a.their
    then some (Side.them, kind_of their_king a)
    else none

-- The piece on a square.
abbrev pub piece_at : ChessBoard → BoardSquare → Option Piece
piece_at b s = piece_of (b.our_king == s) (b.their_king == s) (seen b s)

pub leave_corner_seen : (b : ChessBoard) (f s : BoardSquare) → at (leave_corner b f) s ≡ at b s
unfolding leave_corner
leave_corner_seen b f s = refl

-- The kings stay where they are while the other pieces move.
module _ (b : ChessBoard) (f t : BoardSquare) where
  pub kings-prepare :
      ((prepare b f t).our_king ≡ b.our_king) × ((prepare b f t).their_king ≡ b.their_king)
  unfolding prepare remove_flags remove_en_passant remove_captured move_pieces
  kings-prepare = ground arith

unfoldable pub ordinary : ChessBoard → BoardSquare → BoardSquare → ChessBoard
ordinary b f t = set_flag (move_ordinary (leave_corner (prepare b f t) f) f t) f t

-- The bits of one board after the piece of `f` has moved to `t`.
abbrev moved : Bool → Bool → Bool → Bool → Bool
moved here there is_f is_t = (here || (there && is_t)) && not is_f

-- A move of a piece of ours other than the king to a square that is free of ours. A pawn does not go
-- to the last rank by it, and what it takes en passant is not ours.
pub record IsOrdinary (b : ChessBoard) (f t : BoardSquare) : Type 0 where
  pub own : get b.our_pieces f ≡ true
  pub free : get b.our_pieces t ≡ false
  pub not_theirs : get b.their_pieces f ≡ false
  pub no_king : (f == b.our_king) ≡ false
  pub off_our_king : (t == b.our_king) ≡ false
  pub off_their_king : (t == b.their_king) ≡ false
  pub passing : (passes b f t && get b.our_pieces (victim t)) ≡ false
  pub stays : (get b.pawns f && get pawn_mask f && not (get pawn_mask t)) ≡ false

-- The pawn that takes en passant does not stand where the victim stands.
pub passes-apart :
    (b : ChessBoard) (f t : BoardSquare) → passes b f t ≡ true → (victim t == f) ≡ false
unfolding takes_en_passant
passes-apart b f t h = ground arith

pub apply_move-is-ordinary :
    (b : ChessBoard) (m : Move)
    → IsOrdinary b (Move.from m) (Move.to m)
    → is_promotion (Move.promotion m) ≡ false
    → (apply_move b m).0 ≡ ordinary b (Move.from m) (Move.to m)
unfolding apply_move ordinary
apply_move-is-ordinary b m o p =
    let k = kings-prepare b (Move.from m) (Move.to m) in rw (k.0, o.no_king, p)

module _ (b : ChessBoard) (v : IsBoard b) (f t : BoardSquare) (hf : f < 64) (ht : t < 64)
    (o : IsOrdinary b f t) where
  pub distinct : (f == t) ≡ false
  distinct = elim (Bool-cases (f == t)) [
    | inl e ↦ let same = ap (get b.our_pieces) (==→eq f t e) in absurd (ground (arith, same))
    | inr e ↦ e
  ]
