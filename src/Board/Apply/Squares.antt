-- ===== src/Board/Apply/Squares.antt =====
-- What each square holds after the blocks of `ApplyMove`, as the bits of the boards.
use lc.Base.{
  ℕ, ◌<◌, ◌≡◌, refl, Bool, true, not, ◌&&◌, ◌||◌, ◌==◌, ltb, arith, and-true_right, or-false_right,
  if_both, leb, all_below, all_below_sound,
}
use lc.Square.{BoardSquare, col, square}
use lc.BitBoard.{get, set, set_if, reset}
use lc.BitBoard.Laws.{get-set, get-set_if, get-reset, get-intersection, set_if-IsWord}
use lc.Board.{ChessBoard, bool_eq}
use lc.Board.Rights.{bool_eq→eq}
use lc.Board.Words.{IsBoard}
use lc.Board.Tables.{pawn_mask}
use lc.Board.Apply.Valid.{move_pieces-IsBoard, remove_captured-IsBoard}
use lc.Board.Apply.{
  move_pieces, remove_captured, takes_en_passant, remove_en_passant, remove_flags, move_rook,
  move_ordinary, set_flag, prepare,
}

-- Where the pawn stands that is taken en passant.
abbrev pub victim : BoardSquare → BoardSquare
victim t = square 4 (col t)

-- The boards at one square.
pub record At : Type 0 where
  pub our : Bool
  pub their : Bool
  pub rook : Bool
  pub bishop : Bool
  pub pawn : Bool

abbrev pub at : ChessBoard → BoardSquare → At
at b s = record {
  our = get b.our_pieces s;
  their = get b.their_pieces s;
  rook = get b.rooks s;
  bishop = get b.bishops s;
  pawn = get b.pawns s;
}

-- The same with the pawns of the ranks from the second to the seventh, without the flags.
abbrev pub seen : ChessBoard → BoardSquare → At
seen b s = record (at b s) { pawn = get b.pawns s && get pawn_mask s }

-- Is the move, with the captured piece off the board, a capture en passant?
abbrev pub passes : ChessBoard → BoardSquare → BoardSquare → Bool
passes b f t = takes_en_passant (remove_captured (move_pieces b f t) t) f t

in_ranks : ℕ → Bool
in_ranks s = bool_eq (get pawn_mask s) (leb 8 s && ltb s 56)

mask_table : all_below 64 in_ranks ≡ true
unfolding in_ranks all_below get bool_eq
mask_table = refl

-- The mask holds the ranks from the second to the seventh.
pub mask-rank : (s : BoardSquare) → s < 64 → get pawn_mask s ≡ (leb 8 s && ltb s 56)
unfolding in_ranks
mask-rank s h = bool_eq→eq _ _ (all_below_sound 64 in_ranks s mask_table h)

module _ (s : BoardSquare) (hs : s < 64) where
  at-move_pieces :
      (b : ChessBoard) (f t : BoardSquare)
      → IsBoard b
      → f < 64
      → t < 64
      → at (move_pieces b f t) s
        ≡ record (at b s) { our = (get b.our_pieces s && not (f == s)) || (t == s) }
  unfolding move_pieces
  at-move_pieces b f t v hf ht =
      ground (arith, get-set (reset b.our_pieces f) t s, get-reset b.our_pieces f s)

  at-remove_captured :
      (b : ChessBoard) (t : BoardSquare)
      → IsBoard b
      → t < 64
      → at (remove_captured b t) s ≡ record (at b s) {
        their = get b.their_pieces s && not (t == s);
        rook = get b.rooks s && not (t == s);
        bishop = get b.bishops s && not (t == s);
        pawn = get b.pawns s && not (t == s);
      }
  unfolding remove_captured
  at-remove_captured b t v ht = ground (
    arith,
    get-reset b.their_pieces t s,
    get-reset b.rooks t s,
    get-reset b.bishops t s,
    get-reset b.pawns t s,
  )

  at-remove_en_passant :
      (b : ChessBoard) (f t : BoardSquare)
      → IsBoard b
      → at (remove_en_passant b f t) s ≡ record (at b s) {
        their = get b.their_pieces s && not (takes_en_passant b f t && (victim t == s));
        pawn = get b.pawns s && not (takes_en_passant b f t && (victim t == s));
      }
  unfolding remove_en_passant
  at-remove_en_passant b f t v = ground (
    arith,
    get-reset b.their_pieces (victim t) s,
    get-reset b.pawns (victim t) s,
    and-true_right (get b.their_pieces s),
    and-true_right (get b.pawns s),
  )

  at-remove_flags :
      (b : ChessBoard)
      → at (remove_flags b) s ≡ record (at b s) { pawn = get b.pawns s && get pawn_mask s }
  unfolding remove_flags
  at-remove_flags b = ground (arith, get-intersection b.pawns pawn_mask s)

  pub at-move_rook :
      (b : ChessBoard) (corner target : BoardSquare)
      → IsBoard b
      → corner < 64
      → target < 64
      → at (move_rook b corner target) s ≡ record (at b s) {
        our = (get b.our_pieces s && not (corner == s)) || (target == s);
        rook = (get b.rooks s && not (corner == s)) || (target == s);
      }
  unfolding move_rook
  at-move_rook b corner target v hc ht = ground (
    arith,
    get-set (reset b.our_pieces corner) target s,
    get-reset b.our_pieces corner s,
    get-set (reset b.rooks corner) target s,
    get-reset b.rooks corner s,
  )

  pub at-move_ordinary :
      (b : ChessBoard) (f t : BoardSquare)
      → IsBoard b
      → f < 64
      → t < 64
      → at (move_ordinary b f t) s ≡ record (at b s) {
        rook = (get b.rooks s || (get b.rooks f && (t == s))) && not (f == s);
        bishop = (get b.bishops s || (get b.bishops f && (t == s))) && not (f == s);
        pawn = (get b.pawns s || (get b.pawns f && (t == s))) && not (f == s);
      }
  unfolding move_ordinary
  at-move_ordinary b f t v hf ht = ground (
    arith,
    get-reset (set_if b.rooks t (get b.rooks f)) f s
        (set_if-IsWord b.rooks t (get b.rooks f) v.rooks_word),
    get-reset (set_if b.bishops t (get b.bishops f)) f s
        (set_if-IsWord b.bishops t (get b.bishops f) v.bishops_word),
    get-reset (set_if b.pawns t (get b.pawns f)) f s
        (set_if-IsWord b.pawns t (get b.pawns f) v.pawns_word),
    get-set_if b.rooks t s (get b.rooks f),
    get-set_if b.bishops t s (get b.bishops f),
    get-set_if b.pawns t s (get b.pawns f),
  )

  -- The flag stands on rank 1 only.
  pub seen-set_flag : (b : ChessBoard) (f t : BoardSquare) → seen (set_flag b f t) s ≡ seen b s
  unfolding set_flag
  seen-set_flag b f t =
      if_both (λ (r : ChessBoard). seen r s ≡ seen b s) _ (λ i. record (seen b s) { pawn = kept i })
        refl
    where
      kept :
          (get (set b.pawns (square 0 (col t))) s && get pawn_mask s)
          ≡ (get b.pawns s && get pawn_mask s)
      kept = ground (
        arith,
        get-set b.pawns (square 0 (col t)) s (omega arith) hs,
        mask-rank s hs,
        or-false_right (get b.pawns s),
      )

  pub at-prepare :
      (b : ChessBoard) (f t : BoardSquare)
      → IsBoard b
      → f < 64
      → t < 64
      → at (prepare b f t) s ≡ record {
        our = (get b.our_pieces s && not (f == s)) || (t == s);
        their = (get b.their_pieces s && not (t == s)) && not (passes b f t && (victim t == s));
        rook = get b.rooks s && not (t == s);
        bishop = get b.bishops s && not (t == s);
        pawn =
            ((get b.pawns s && not (t == s)) && not (passes b f t && (victim t == s)))
            && get pawn_mask s;
      }
  unfolding prepare
  at-prepare b f t v hf ht =
      let b1 = move_pieces b f t in
      let b2 = remove_captured b1 t in
      let b3 = remove_en_passant b2 f t in
      let v1 = move_pieces-IsBoard f t v in
      let v2 = remove_captured-IsBoard f t v1 in
      ground (
        arith,
        at-move_pieces b f t v hf ht,
        at-remove_captured b1 t v1 ht,
        at-remove_en_passant b2 f t v2,
        at-remove_flags b3,
      )
