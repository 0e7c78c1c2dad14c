-- ===== src/Board/Apply/Promote.antt =====
-- `ApplyMove` on the mailbox board for a promotion, and the counter of the fifty-move rule.
use lc.Base.{
  ◌<◌, ◌≡◌, refl, ap, Bool, true, false, not, ◌&&◌, ◌||◌, ◌==◌, arith, Bool-cases, inl, inr,
  if◌then◌else◌, none, some, ==→eq, or-false_right,
}
use lc.Square.{BoardSquare, row}
use lc.BitBoard.{get}
use lc.BitBoard.Laws.{get-set, get-reset}
use lc.Move
use lc.Move.{Move, Promotion}
use lc.Move.Laws.{to-lt, from-lt}
use lc.Board.{ChessBoard}
use lc.Board.Words.{IsBoard}
use lc.Board.Tables.{pawn_mask}
use lc.Board.Apply.{takes_en_passant, prepare, apply_move, is_promotion, promote}
use lc.Board.Apply.Valid.{prepare-IsBoard}
use lc.Board.Apply.Squares.{at, seen, passes, at-prepare}
use lc.Board.Apply.Effect.{Kind, Side, piece_at, kings-prepare}

-- The kind of piece a pawn becomes; what has no name, or no board of its own, is a knight.
abbrev pub promoted_kind : Promotion → Kind
promoted_kind Promotion.queen = Kind.queen
promoted_kind Promotion.rook = Kind.rook
promoted_kind Promotion.bishop = Kind.bishop
promoted_kind p = Kind.knight

-- A piece of ours on the seventh rank that is not the king goes to a square of the eighth that is
-- free of ours.
pub record IsPromotion (b : ChessBoard) (f t : BoardSquare) : Type 0 where
  pub own : get b.our_pieces f ≡ true
  pub free : get b.our_pieces t ≡ false
  pub not_theirs : get b.their_pieces f ≡ false
  pub no_king : (f == b.our_king) ≡ false
  pub off_our_king : (t == b.our_king) ≡ false
  pub seventh : row f ≡ 6

abbrev is_rook : Promotion → Bool
is_rook Promotion.rook = true
is_rook Promotion.queen = true
is_rook p = false

abbrev is_bishop : Promotion → Bool
is_bishop Promotion.bishop = true
is_bishop Promotion.queen = true
is_bishop p = false

module _ (b : ChessBoard) (v : IsBoard b) (f t : BoardSquare) (hf : f < 64) (ht : t < 64) where
  at-promote :
      (p : Promotion) (s : BoardSquare)
      → s < 64
      → at (promote b f t p) s ≡ record (at b s) {
        rook = get b.rooks s || (is_rook p && (t == s));
        bishop = get b.bishops s || (is_bishop p && (t == s));
        pawn = get b.pawns s && not (f == s);
      }
  unfolding promote
  at-promote p s hs = ground (
    arith,
    get-set b.rooks t s ht hs,
    get-set b.bishops t s ht hs,
    get-reset b.pawns f s,
    or-false_right (get b.rooks s),
    or-false_right (get b.bishops s),
  )

  kings-promote :
      (p : Promotion)
      → ((promote b f t p).our_king ≡ b.our_king) × ((promote b f t p).their_king ≡ b.their_king)
  unfolding promote
  kings-promote p = ground arith

module _ (b : ChessBoard) (v : IsBoard b) (f t : BoardSquare) (hf : f < 64) (ht : t < 64)
    (o : IsPromotion b f t) where
  no_passing : passes b f t ≡ false
  unfolding takes_en_passant
  no_passing = ground (arith, o.seventh)

  prepared-promote :
      (p : Promotion) (s : BoardSquare)
      → s < 64
      → seen (promote (prepare b f t) f t p) s ≡ record {
        our = (get b.our_pieces s && not (f == s)) || (t == s);
        their = get b.their_pieces s && not (t == s);
        rook = (get b.rooks s && not (t == s)) || (is_rook p && (t == s));
        bishop = (get b.bishops s && not (t == s)) || (is_bishop p && (t == s));
        pawn = (get b.pawns s && not (t == s)) && get pawn_mask s && not (f == s);
      }
  prepared-promote p s hs = ground (
    arith,
    at-promote (prepare b f t) (prepare-IsBoard f t v) f t hf ht p s hs,
    at-prepare s hs b f t v hf ht,
    no_passing,
  )

  piece-promote :
      (p : Promotion) (s : BoardSquare)
      → is_promotion p ≡ true
      → s < 64
      → piece_at (promote (prepare b f t) f t p) s ≡ (
          if t == s then some (Side.us, promoted_kind p) else if f == s then none else piece_at b s)
  piece-promote p s hp hs =
      let k = kings-promote (prepare b f t) (prepare-IsBoard f t v) f t hf ht p in
      let l = kings-prepare b f t in
      elim (Bool-cases (t == s)) [
        | inl e ↦ ground (arith, prepared-promote p s hs, k, l, ==→eq t s e)
        | inr e ↦ elim (Bool-cases (f == s)) [
          | inl g ↦
              let same = ap (get b.their_pieces) (==→eq f s g) in
              ground (arith, prepared-promote p s hs, same)
          | inr g ↦ ground (arith, prepared-promote p s hs, k, l)
        ]
      ]

apply_move-is-promote :
    (b : ChessBoard) (m : Move)
    → IsPromotion b (Move.from m) (Move.to m)
    → is_promotion (Move.promotion m) ≡ true
    → let f = Move.from m in
      apply_move b m ≡ (promote (prepare b f (Move.to m)) f (Move.to m) (Move.promotion m), true)
unfolding apply_move
apply_move-is-promote b m o p =
    let k = kings-prepare b (Move.from m) (Move.to m) in rw (k.0, o.no_king, p) refl

-- On a well-formed board, after a promotion (`IsPromotion`) the new piece stands on the
-- destination, the pawn's square is empty, every other square is as before, and the counter of the
-- fifty-move rule starts again.
pub piece_at-promote :
    (b : ChessBoard) (m : Move) (s : BoardSquare)
    → IsBoard b
    → IsPromotion b (Move.from m) (Move.to m)
    → is_promotion (Move.promotion m) ≡ true
    → s < 64
    → ((apply_move b m).1 ≡ true)
      × (piece_at (apply_move b m).0 s ≡ (
          if Move.to m == s
          then some (Side.us, promoted_kind (Move.promotion m))
          else if Move.from m == s
          then none
          else piece_at b s))
piece_at-promote b m s v o hp hs =
    rw (apply_move-is-promote b m o hp)
      (refl, piece-promote b v f t hf ht o (Move.promotion m) s hp hs)
  where
    f : BoardSquare
    f = Move.from m

    t : BoardSquare
    t = Move.to m

    hf : f < 64
    hf = from-lt m

    ht : t < 64
    ht = to-lt m
