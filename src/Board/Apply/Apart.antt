-- ===== src/Board/Apply/Apart.antt =====
-- `ApplyMove` never leaves pieces of both players on one square.
use lc.Base.{
  ◌+◌, ◌<◌, ◌≡◌, ap, Bool, true, false, not, ◌&&◌, ◌==◌, ltb, arith, Bool-cases, inl, inr, Option,
  none, some,
}
use lc.Square.{BoardSquare, col}
use lc.BitBoard.{get}
use lc.Move
use lc.Move.{Move}
use lc.Move.Laws.{to-lt, from-lt}
use lc.Board.{ChessBoard, reset_we_can_00, reset_we_can_000}
use lc.Board.Rights.{reset-small}
use lc.Board.Words.{IsBoard}
use lc.Board.Apply.{
  apply_move, is_promotion, prepare, move_king, move_rook, promote, leave_corner, move_ordinary,
  set_flag,
}
use lc.Board.Apply.Valid.{prepare-IsBoard}
use lc.Board.Apply.Squares.{at-prepare, at-move_rook}
use lc.Board.Apply.King.{rook_trip}

-- Not both players have a piece on the square.
abbrev pub IsApartAt : BoardSquare → ChessBoard → Type 0
IsApartAt s b = (get b.our_pieces s && get b.their_pieces s) ≡ false

-- No piece of theirs stands where the rook goes.
abbrev pub target_free : ChessBoard → Option (BoardSquare × BoardSquare) → Bool
target_free b none = true
target_free b (some (corner, target)) = not (get b.their_pieces target)

module _ (b : ChessBoard) (v : IsBoard b) (f t s : BoardSquare) (hf : f < 64) (ht : t < 64)
    (hs : s < 64) where
  prepare-IsApartAt : IsApartAt s b → IsApartAt s (prepare b f t)
  prepare-IsApartAt a = ground (arith, at-prepare s hs b f t v hf ht)

  move_rook-IsApartAt :
      (p : ChessBoard) (corner target : BoardSquare)
      → IsBoard p
      → corner < 64
      → target < 64
      → get p.their_pieces target ≡ false
      → IsApartAt s p
      → IsApartAt s (move_rook p corner target)
  move_rook-IsApartAt p corner target w hc hg free a = ground (
    arith,
    at-move_rook s hs p corner target w hc hg,
    ap (get p.their_pieces) {x = target} {y = s},
  )

  no_their :
      (u : BoardSquare)
      → u < 64
      → get b.their_pieces u ≡ false
      → get (prepare b f t).their_pieces u ≡ false
  no_their u hu h = ground (arith, at-prepare u hu b f t v hf ht)

  move_king-IsApartAt :
      IsApartAt s b
      → target_free b (rook_trip f t) ≡ true
      → IsApartAt s (move_king (prepare b f t) f t)
  unfolding move_king
  move_king-IsApartAt a free =
      let p = prepare b f t in
      let w = prepare-IsBoard f t v in
      let k : ChessBoard = record p {
        castlings = reset_we_can_000 (reset_we_can_00 p.castlings);
        our_king = t;
      } in
      let k-IsBoard : IsBoard k = grind (arith, reset-small) in
      elim (Bool-cases (ltb (col f + 1) (col t))) [
        | inl e ↦ rw e (
            move_rook-IsApartAt k 7 5 k-IsBoard (omega arith) (omega arith)
              (no_their 5 (omega arith) (ground (arith, free))) (prepare-IsApartAt a))
        | inr e ↦ elim (Bool-cases (ltb (col t + 1) (col f))) [
          | inl g ↦
              rw (e, g)
                (move_rook-IsApartAt k 0 3 k-IsBoard (omega arith) (omega arith)
                  (no_their 3 (omega arith) (ground (arith, free))) (prepare-IsApartAt a))
          | inr g ↦ rw (e, g) (prepare-IsApartAt a)
        ]
      ]

  others-IsApartAt :
      (p : ChessBoard) (k : Move.Promotion)
      → IsApartAt s p
      → IsApartAt s (promote p f t k)
        × IsApartAt s (set_flag (move_ordinary (leave_corner p f) f t) f t)
  unfolding promote set_flag move_ordinary leave_corner
  others-IsApartAt p k a = ground arith

-- On a well-formed board, a square that does not hold pieces of both players does not do so after any move,
-- if no piece of theirs stands where the rook of a castling goes.
pub apply_move-IsApartAt :
    (b : ChessBoard) (m : Move) (s : BoardSquare)
    → IsBoard b
    → s < 64
    → target_free b (rook_trip (Move.from m) (Move.to m)) ≡ true
    → IsApartAt s b
    → IsApartAt s (apply_move b m).0
unfolding apply_move
apply_move-IsApartAt b m s v hs free a =
    let f = Move.from m in
    let t = Move.to m in
    let p = prepare b f t in
    let kept = prepare-IsApartAt b v f t s (from-lt m) (to-lt m) hs a in
    let others = others-IsApartAt b v f t s (from-lt m) (to-lt m) hs p (Move.promotion m) kept in
    elim (Bool-cases (f == p.our_king)) [
      | inl e ↦ rw e (move_king-IsApartAt b v f t s (from-lt m) (to-lt m) hs a free)
      | inr e ↦ elim (Bool-cases (is_promotion (Move.promotion m))) [
        | inl g ↦ rw (e, g) others.0
        | inr g ↦ rw (e, g) others.1
      ]
    ]
