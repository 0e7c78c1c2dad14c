-- ===== src/Board/Generate/Sound.antt =====
-- The pseudolegal moves of src/chess/board.cc go from a piece of ours to a square that is free of ours.
use lc.Base.{
  ℕ, ◌+◌, ◌<◌, ◌≡◌, true, false, ◌&&◌, ◌||◌, ◌==◌, arith, List, [], ◌∷◌, ◌++◌, All, All-append,
  if◌then◌else◌, if_both, sym, ==→eq, subst, Bool-cases, inl, inr,
}
use lc.Base.Int.{ℤ, pos, negsuc, ◌+ℤ◌}
use lc.Square.{BoardSquare, row, col, square, square_int, is_valid_coord}
use lc.BitBoard.{get, intersection, squares}
use lc.BitBoard.Laws.{get-intersection}
use lc.Move.{make}
use lc.Board.{ChessBoard}
use lc.Board.Words.{IsBoard}
use lc.Board.Tables.{pawn_mask, king_moves}
use lc.Board.Apply.Squares.{mask-rank}
use lc.Board.Magic.{Magic}
use lc.Board.Generate.{
  king_steps, castlings, rook_moves, bishop_moves, pawn_forward, pawn_capture, pawn_moves,
  knight_moves, piece_moves, moves_of, generate_pseudolegal_moves, is_occupied, promotions_to,
}
use lc.Board.Generate.Own.{
  coord-lt, squares-All, square_int-pos, and_parts, if-All, IsApart, IsOwnMove, make-IsOwnMove,
  king_steps-All, castlings-All, promotions_to-All, moves_to-All,
}

module _ (b : ChessBoard) (f : BoardSquare) (hf : f < 64) (own : get b.our_pieces f ≡ true)
    (w : IsApart b) where
  pawn_forward-All : row f < 7 → All (IsOwnMove b) (pawn_forward b f)
  unfolding pawn_forward
  pawn_forward-All l =
      let r = row f + 1 in
      let c = col f in
      let t = square r c in
      elim (Bool-cases (is_occupied b t)) [
        | inl e ↦ rw e tt
        | inr e ↦ elim (Bool-cases (r == 7)) [
          | inl h ↦ rw (e, h) (promotions_to-All b f hf own t (omega arith) (ground (arith, e)))
          | inr h ↦
              rw (e, h)
                (
                  make-IsOwnMove b f hf own t (omega arith) (ground (arith, e)),
                  if-All (IsOwnMove b) _ (make f (square 3 c)) (λ g.
                      make-IsOwnMove b f hf own (square 3 c) (omega arith) (ground (arith, g))),
                )
        ]
      ]

  their-free : (s : BoardSquare) → s < 64 → get b.their_pieces s ≡ true → get b.our_pieces s ≡ false
  their-free s hs h = ground (arith, w.apart s hs)

  passed-free :
      (c : ℤ)
      → is_valid_coord c ≡ true
      → get b.pawns (square_int (pos 7) c) ≡ true
      → get b.our_pieces (square_int (pos 5) c) ≡ false
  passed-free (pos c) k h =
      rw (square_int-pos 5 c)
        (let g = rw (square_int-pos 7 c) at h in ground (arith, w.behind c (ground arith)))
  passed-free (negsuc c) k h = absurd (ground (arith, k))

  passed-free_row :
      (r : ℕ) (c : ℤ)
      → is_valid_coord c ≡ true
      → ((r == 5) && get b.pawns (square_int (pos 7) c)) ≡ true
      → get b.our_pieces (square_int (pos r) c) ≡ false
  passed-free_row r c k h =
      let (e, g) = and_parts (r == 5) _ h in
      subst (λ (x : ℕ). get b.our_pieces (square_int (pos x) c) ≡ false) (sym (==→eq r 5 e))
        (passed-free c k g)

  capture-All :
      (r : ℕ) (c : ℤ)
      → r < 8
      → is_valid_coord c ≡ true
      → let t = square_int (pos r) c in
        All (IsOwnMove b) (
          if get b.their_pieces t
          then (if r == 7 then promotions_to f t else make f t ∷ [])
          else if (r == 5) && get b.pawns (square_int (pos 7) c)
          then make f t ∷ []
          else [])
  capture-All r c l k =
      let t = square_int (pos r) c in
      elim (Bool-cases (get b.their_pieces t)) [
        | inl e ↦
            let free = their-free t (coord-lt r c l k) e in
            rw e (
              if_both (All (IsOwnMove b)) (r == 7)
                (promotions_to-All b f hf own t (coord-lt r c l k) free)
                (make-IsOwnMove b f hf own t (coord-lt r c l k) free, tt))
        | inr e ↦ rw e (
            if-All (IsOwnMove b) ((r == 5) && get b.pawns (square_int (pos 7) c)) (make f t)
              (λ h. make-IsOwnMove b f hf own t (coord-lt r c l k) (passed-free_row r c k h)))
      ]

  pawn_capture-All : (d : ℤ) → row f < 7 → All (IsOwnMove b) (pawn_capture b f d)
  unfolding pawn_capture
  pawn_capture-All d l =
      let c = pos (col f) +ℤ d in
      elim (Bool-cases (is_valid_coord c)) [
        | inl e ↦ rw e (capture-All (row f + 1) c (omega arith) e)
        | inr e ↦ rw e tt
      ]

  pawn_moves-All : row f < 7 → All (IsOwnMove b) (pawn_moves b f)
  unfolding pawn_moves
  pawn_moves-All l =
      let P = IsOwnMove b in
      All-append P (pawn_forward b f ++ pawn_capture b f (negsuc 0)) (pawn_capture b f (pos 1))
        (All-append P (pawn_forward b f) (pawn_capture b f (negsuc 0)) (pawn_forward-All l)
          (pawn_capture-All (negsuc 0) l))
        (pawn_capture-All (pos 1) l)

  sliding-All :
      (g : Magic)
      → IsBoard b
      → All (IsOwnMove b) (rook_moves g b f)
        × All (IsOwnMove b) (bishop_moves g b f)
        × All (IsOwnMove b) (knight_moves b f)
  unfolding rook_moves bishop_moves knight_moves
  sliding-All g v =
      (moves_to-All b f hf own _ v, moves_to-All b f hf own _ v, moves_to-All b f hf own _ v)

  below_last : get (intersection b.pawns pawn_mask) f ≡ true → row f < 7
  below_last h = ground (arith, get-intersection b.pawns pawn_mask f hf, mask-rank f hf)

  piece_moves-All : (g : Magic) → IsBoard b → All (IsOwnMove b) (piece_moves g b f)
  unfolding piece_moves
  piece_moves-All g v =
      let P = All (IsOwnMove b) in
      let (rooks, bishops, knights) = sliding-All g v in
      if_both P (f == b.our_king)
        (All-append (IsOwnMove b) (king_steps g b f king_moves) (castlings g b f)
          (king_steps-All b f hf own g king_moves) (castlings-All b f hf own g))
        (if_both P (get b.rooks f || get b.bishops f)
          (All-append (IsOwnMove b) (if get b.rooks f then rook_moves g b f else []) _
            (if_both P (get b.rooks f) rooks tt) (if_both P (get b.bishops f) bishops tt))
          (elim (Bool-cases (get (intersection b.pawns pawn_mask) f)) [
            | inl e ↦ rw e (pawn_moves-All (below_last e))
            | inr e ↦ rw e knights
          ]))

moves_of-All :
    (g : Magic) (b : ChessBoard) (sources : List BoardSquare)
    → IsBoard b
    → IsApart b
    → All (λ f. (f < 64) × (get b.our_pieces f ≡ true)) sources
    → All (IsOwnMove b) (moves_of g b sources)
unfolding moves_of
moves_of-All g b [] v w h = tt
moves_of-All g b (f ∷ rest) v w ((hf, own), h) =
    All-append (IsOwnMove b) (piece_moves g b f) (moves_of g b rest)
      (piece_moves-All b f hf own w g v) (moves_of-All g b rest v w h)

-- On a board on which no square holds pieces of both players, and behind a square that can be taken en
-- passant stands no piece of ours, every pseudolegal move starts at a piece of ours and ends at a square
-- that is free of ours, whatever the attack tables hold.
pub generate_pseudolegal_moves-All :
    (g : Magic) (b : ChessBoard)
    → IsBoard b
    → IsApart b
    → All (IsOwnMove b) (generate_pseudolegal_moves g b)
unfolding generate_pseudolegal_moves
generate_pseudolegal_moves-All g b v w = moves_of-All g b (squares b.our_pieces) v w (
    squares-All (λ f. (f < 64) × (get b.our_pieces f ≡ true)) b.our_pieces v.our_word
      (λ f l h. (l, h)))
