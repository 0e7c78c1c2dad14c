-- ===== src/Tests/Boards.antt =====
-- The theorems on moves at concrete boards.
use lc.Base.{
  ℕ, ◌+◌, ◌*◌, ◌≡◌, refl, Bool, true, false, not, ◌&&◌, ◌||◌, ◌==◌, arith, none, some,
  if◌then◌else◌, all_below, all_below_sound, All,
}
use lc.Square.{BoardSquare, square}
use lc.BitBoard.{get}
use lc.Move
use lc.Move.{Move, Promotion, make, make_promotion}
use lc.Board.Apply.{apply_move, is_promotion}
use lc.Board.Apply.Effect.{Kind, Side, piece_at}
use lc.Board.Apply.King.{IsKingMove, rook_trip, after_trip, piece_at-king_move}
use lc.Board.Apply.Promote.{IsPromotion, promoted_kind, piece_at-promote}
use lc.Board.Apply.Counter.{is_some, is_pawn, apply_move-counter_lem}
use lc.Board.Generate.{generate_pseudolegal_moves}
use lc.Board.Generate.Own.{IsApart, IsOwnMove}
use lc.Board.Generate.Sound.{generate_pseudolegal_moves-All}
use lc.Tests.Data.{
  two_steps, two_steps-IsOrdinary, two_steps-plain, start, start-IsBoard, ready_to_castle,
  ready_to_castle-IsBoard, about_to_promote, about_to_promote-IsBoard, the_tables,
}

apply_move-counter_lem_example : (apply_move start two_steps).1 ≡ (
    is_some (piece_at start (Move.to two_steps)) || is_pawn (piece_at start (Move.from two_steps)))
apply_move-counter_lem_example =
    apply_move-counter_lem start two_steps start-IsBoard two_steps-IsOrdinary two_steps-plain

-- e1g1
abbrev castle_short : Move
castle_short = 4 * 64 + 6

castle_short-IsKingMove : IsKingMove ready_to_castle (Move.from castle_short) (Move.to castle_short)
unfolding Move.from Move.to get
castle_short-IsKingMove = record {
  king = refl;
  own = refl;
  free = refl;
  not_theirs = refl;
  no_pawn = refl;
  ready = (refl, refl, refl, refl, refl, refl, refl);
}

piece_at-king_move_example : piece_at (apply_move ready_to_castle castle_short).0 5 ≡ (
    if Move.to castle_short == 5
    then some (Side.us, Kind.king)
    else if Move.from castle_short == 5
    then none
    else after_trip ready_to_castle (rook_trip (Move.from castle_short) (Move.to castle_short)) 5)
piece_at-king_move_example =
    piece_at-king_move ready_to_castle castle_short 5 ready_to_castle-IsBoard
      castle_short-IsKingMove (omega arith)

-- b7a8q
abbrev take_and_promote : Move
take_and_promote = 4096 + 49 * 64 + 56

take_and_promote-IsPromotion :
    IsPromotion about_to_promote (Move.from take_and_promote) (Move.to take_and_promote)
unfolding Move.from Move.to get
take_and_promote-IsPromotion = record {
  own = refl;
  free = refl;
  not_theirs = refl;
  no_king = refl;
  off_our_king = refl;
  seventh = refl;
}

take_and_promote-promotes : is_promotion (Move.promotion take_and_promote) ≡ true
unfolding Move.promo_bits
take_and_promote-promotes = refl

piece_at-promote_example :
    ((apply_move about_to_promote take_and_promote).1 ≡ true)
    × (piece_at (apply_move about_to_promote take_and_promote).0 56 ≡ (
        if Move.to take_and_promote == 56
        then some (Side.us, promoted_kind (Move.promotion take_and_promote))
        else if Move.from take_and_promote == 56
        then none
        else piece_at about_to_promote 56))
piece_at-promote_example =
    piece_at-promote about_to_promote take_and_promote 56 about_to_promote-IsBoard
      take_and_promote-IsPromotion take_and_promote-promotes (omega arith)

apart_at : BoardSquare → Bool
apart_at s = not (get start.our_pieces s && get start.their_pieces s)

apart_table : all_below 64 apart_at ≡ true
unfolding apart_at all_below get
apart_table = refl

behind_at : ℕ → Bool
behind_at c = not (get start.pawns (square 7 c) && get start.our_pieces (square 5 c))

behind_table : all_below 8 behind_at ≡ true
unfolding behind_at all_below get
behind_table = refl

not-false : (a : Bool) → not a ≡ true → a ≡ false
not-false a h = ground arith

start-IsApart : IsApart start
unfolding apart_at behind_at
start-IsApart = record {
  apart = λ s h. not-false _ (all_below_sound 64 apart_at s apart_table h);
  behind = λ c h. not-false _ (all_below_sound 8 behind_at c behind_table h);
}

generate_pseudolegal_moves-All_example :
    All (IsOwnMove start) (generate_pseudolegal_moves the_tables start)
generate_pseudolegal_moves-All_example =
    generate_pseudolegal_moves-All the_tables start start-IsBoard start-IsApart
