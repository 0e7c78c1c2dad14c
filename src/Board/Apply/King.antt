-- ===== src/Board/Apply/King.antt =====
-- `ApplyMove` on the mailbox board for the moves of our king, castling included.
use lc.Base.{
  ◌+◌, ◌<◌, ◌≡◌, refl, ap, true, false, ◌&&◌, ◌==◌, ltb, arith, Bool-cases, inl, inr, if◌then◌else◌,
  Option, none, some, ==→eq,
}
use lc.Square.{BoardSquare, col}
use lc.BitBoard.{get}
use lc.BitBoard.Laws.{get-reset}
use lc.Move
use lc.Move.{Move}
use lc.Move.Laws.{to-lt, from-lt}
use lc.Board.{ChessBoard, reset_we_can_00, reset_we_can_000}
use lc.Board.Words.{IsBoard}
use lc.Board.Rights.{reset-small}
use lc.Board.Tables.{pawn_mask}
use lc.Board.Apply.{
  move_pieces, takes_en_passant, remove_captured, prepare, apply_move, move_king, move_rook,
}
use lc.Board.Apply.Valid.{prepare-IsBoard}
use lc.Board.Apply.Squares.{passes, at-prepare, at-move_rook, mask-rank}
use lc.Board.Apply.Effect.{Piece, Kind, Side, piece_at, kings-prepare}

-- The corner and the new square of the rook, if the king goes more than one column.
abbrev pub rook_trip : BoardSquare → BoardSquare → Option (BoardSquare × BoardSquare)
rook_trip f t =
    if ltb (col f + 1) (col t)
    then some (7, 5)
    else if ltb (col t + 1) (col f)
    then some (0, 3)
    else none

-- The rook that castles is a rook of ours, and no bishop or queen stands on its new square.
abbrev pub RookReady :
    ChessBoard → BoardSquare → BoardSquare → Option (BoardSquare × BoardSquare) → Type 0
RookReady b f t none = Unit {0}
RookReady b f t (some (corner, target)) =
    (get b.our_pieces corner ≡ true)
    × (get b.their_pieces corner ≡ false)
    × (get b.bishops target ≡ false)
    × ((corner == t) ≡ false)
    × ((target == t) ≡ false)
    × ((corner == f) ≡ false)
    × ((target == f) ≡ false)

-- A move of our king, which is on no other board, to a square that is free of ours.
pub record IsKingMove (b : ChessBoard) (f t : BoardSquare) : Type 0 where
  pub king : (f == b.our_king) ≡ true
  pub own : get b.our_pieces f ≡ true
  pub free : get b.our_pieces t ≡ false
  pub not_theirs : get b.their_pieces f ≡ false
  pub no_pawn : (get b.pawns f && get pawn_mask f) ≡ false
  pub ready : RookReady b f t (rook_trip f t)

-- The squares of the rook's trip after the move; the others are as before.
abbrev pub after_trip : ChessBoard → Option (BoardSquare × BoardSquare) → BoardSquare → Option Piece
after_trip b none s = piece_at b s
after_trip b (some (corner, target)) s =
    if target == s then some (Side.us, Kind.rook) else if corner == s then none else piece_at b s

kings-move_rook :
    (b : ChessBoard) (corner target : BoardSquare)
    → ((move_rook b corner target).our_king ≡ b.our_king)
      × ((move_rook b corner target).their_king ≡ b.their_king)
unfolding move_rook
kings-move_rook b corner target = (refl, refl)

module _ (b : ChessBoard) (v : IsBoard b) (f t : BoardSquare) (hf : f < 64) (ht : t < 64)
    (o : IsKingMove b f t) where
  distinct : (f == t) ≡ false
  distinct = elim (Bool-cases (f == t)) [
    | inl e ↦ let same = ap (get b.our_pieces) (==→eq f t e) in absurd (ground (arith, same))
    | inr e ↦ e
  ]

  no_passing : passes b f t ≡ false
  unfolding takes_en_passant remove_captured move_pieces
  no_passing = ground (arith, get-reset b.pawns t f v.pawns_word ht hf, mask-rank f hf)

  -- The board before the rook's trip.
  abbrev placed : ChessBoard
  placed = record (prepare b f t) {
    castlings = reset_we_can_000 (reset_we_can_00 (prepare b f t).castlings);
    our_king = t;
  }

  placed-IsBoard : IsBoard placed
  placed-IsBoard = let p = prepare-IsBoard f t v in grind (arith, reset-small)

  king_elsewhere :
      (s : BoardSquare) → (t == s) ≡ false → (f == s) ≡ false → (b.our_king == s) ≡ false
  king_elsewhere s e g = ground (arith, ==→eq f b.our_king o.king)

  placed-piece :
      (s : BoardSquare)
      → s < 64
      → piece_at placed s
        ≡ (if t == s then some (Side.us, Kind.king) else if f == s then none else piece_at b s)
  placed-piece s hs = elim (Bool-cases (t == s)) [
    | inl e ↦ ground (arith, at-prepare s hs b f t v hf ht, ==→eq t s e)
    | inr e ↦ elim (Bool-cases (f == s)) [
      | inl g ↦
          let same = ap (get b.their_pieces) (==→eq f s g) in
          ground (arith, at-prepare s hs b f t v hf ht, no_passing, same)
      | inr g ↦
          let k = kings-prepare b f t in
          ground (arith, at-prepare s hs b f t v hf ht, no_passing, k, king_elsewhere s e g)
    ]
  ]

  trip-piece :
      (corner target s : BoardSquare)
      → corner < 64
      → target < 8
      → s < 64
      → RookReady b f t (some (corner, target))
      → piece_at (move_rook placed corner target) s ≡ (
          if t == s
          then some (Side.us, Kind.king)
          else if f == s
          then none
          else after_trip b (some (corner, target)) s)
  trip-piece corner target s hc hg hs r = elim (Bool-cases (target == s)) [
    | inl e ↦
        let there = ==→eq target s e in
        let bishops = ap (get b.bishops) there in
        ground (
          arith,
          at-move_rook s hs placed corner target placed-IsBoard hc,
          kings-move_rook placed corner target,
          at-prepare s hs b f t v hf ht,
          mask-rank s hs,
          there,
          bishops,
        )
    | inr e ↦ elim (Bool-cases (corner == s)) [
      | inl g ↦
          let there = ==→eq corner s g in
          let theirs = ap (get b.their_pieces) there in
          ground (
            arith,
            at-move_rook s hs placed corner target placed-IsBoard hc,
            kings-move_rook placed corner target,
            at-prepare s hs b f t v hf ht,
            no_passing,
            there,
            theirs,
          )
      | inr g ↦ ground (
        arith,
        at-move_rook s hs placed corner target placed-IsBoard hc,
        kings-move_rook placed corner target,
        placed-piece s hs,
      )
    ]
  ]

king_trip :
    (b : ChessBoard) (m : Move)
    → IsKingMove b (Move.from m) (Move.to m)
    → (apply_move b m).0 ≡ move_king (prepare b (Move.from m) (Move.to m)) (Move.from m) (Move.to m)
unfolding apply_move
king_trip b m o = let k = kings-prepare b (Move.from m) (Move.to m) in rw (k.0, o.king)

-- On a well-formed board, after a move of our king (`IsKingMove`), the king stands on its
-- destination and its origin is empty; if it went more than one column, the rook of that side has
-- gone from its corner to its new square; every other square is as before.
pub piece_at-king_move :
    (b : ChessBoard) (m : Move) (s : BoardSquare)
    → IsBoard b
    → IsKingMove b (Move.from m) (Move.to m)
    → s < 64
    → piece_at (apply_move b m).0 s ≡ (
        if Move.to m == s
        then some (Side.us, Kind.king)
        else if Move.from m == s
        then none
        else after_trip b (rook_trip (Move.from m) (Move.to m)) s)
unfolding move_king
piece_at-king_move b m s v o hs =
    rw (king_trip b m o, move_king)
      (elim (Bool-cases (ltb (col f + 1) (col t))) [
        | inl e ↦
            let ready = o.ready in
            rw e (trip-piece b v f t hf ht o 7 5 s (omega arith) (omega arith) hs (rw e at ready))
        | inr e ↦ elim (Bool-cases (ltb (col t + 1) (col f))) [
          | inl g ↦
              let ready = o.ready in
              rw (e, g)
                (trip-piece b v f t hf ht o 0 3 s (omega arith) (omega arith) hs
                  (rw (e, g) at ready))
          | inr g ↦ rw (e, g) (placed-piece b v f t hf ht o s hs)
        ]
      ])
  where
    f : BoardSquare
    f = Move.from m

    t : BoardSquare
    t = Move.to m

    hf : f < 64
    hf = from-lt m

    ht : t < 64
    ht = to-lt m
