-- ===== src/Tests/Data.antt =====
-- Boards and attack tables for the tests.
use lc.Base.{◌+◌, ◌*◌, ◌≡◌, refl, false, arith}
use lc.BitBoard
use lc.BitBoard.{get}
use lc.Move
use lc.Move.{Move}
use lc.Board
use lc.Board.Apply.{is_promotion}
use lc.Board.Apply.Effect.{IsOrdinary}
use lc.Board.{ChessBoard}
use lc.Board.Words.{IsBoard}
use lc.Board.Magic.{Magic, AttackTables, initialize_magic_bitboards}

-- The position that a game starts from.
abbrev pub start : ChessBoard
start = record {
  our_pieces = 0xFFFF;
  their_pieces = 0xFFFF000000000000;
  rooks = 0x8900000000000089;
  bishops = 0x2C0000000000002C;
  pawns = 0x00FF00000000FF00;
  our_king = 4;
  their_king = 60;
  castlings = 15;
  flipped = false;
}

pub start-IsBoard : IsBoard start
start-IsBoard = record {
  our_word = ground arith;
  their_word = ground arith;
  rooks_word = ground arith;
  bishops_word = ground arith;
  pawns_word = ground arith;
  our_king_square = ground arith;
  their_king_square = ground arith;
  rights = ground arith;
}

-- The same without our bishop and knight of the king's side.
abbrev pub ready_to_castle : ChessBoard
ready_to_castle = record start { our_pieces = 0xFF9F; bishops = 0x2C0000000000000C }

pub ready_to_castle-IsBoard : IsBoard ready_to_castle
ready_to_castle-IsBoard = record {
  our_word = ground arith;
  their_word = ground arith;
  rooks_word = ground arith;
  bishops_word = ground arith;
  pawns_word = ground arith;
  our_king_square = ground arith;
  their_king_square = ground arith;
  rights = ground arith;
}

-- The king e1 and a pawn on b7 against the king e8 and a rook on a8.
abbrev pub about_to_promote : ChessBoard
about_to_promote = record {
  our_pieces = 0x0002000000000010;
  their_pieces = 0x1100000000000000;
  rooks = 0x0100000000000000;
  bishops = 0;
  pawns = 0x0002000000000000;
  our_king = 4;
  their_king = 60;
  castlings = 0;
  flipped = false;
}

pub about_to_promote-IsBoard : IsBoard about_to_promote
about_to_promote-IsBoard = record {
  our_word = ground arith;
  their_word = ground arith;
  rooks_word = ground arith;
  bishops_word = ground arith;
  pawns_word = ground arith;
  our_king_square = ground arith;
  their_king_square = ground arith;
  rights = ground arith;
}

abbrev pub no_tables : AttackTables
no_tables = record { magic_params = λ s. record { mask = 0; attacks_table = 0 }; table = λ i. 0 }

-- The tables as the program builds them.
unfoldable pub the_tables : Magic
the_tables = initialize_magic_bitboards (record { rook = no_tables; bishop = no_tables })

-- e2e4
abbrev pub two_steps : Move
two_steps = 12 * 64 + 28

pub two_steps-IsOrdinary : IsOrdinary start (Move.from two_steps) (Move.to two_steps)
unfolding Move.from Move.to get Board.Apply.takes_en_passant Board.Apply.remove_captured
    Board.Apply.move_pieces BitBoard.reset BitBoard.set
two_steps-IsOrdinary = record {
  own = refl;
  free = refl;
  not_theirs = refl;
  no_king = refl;
  off_our_king = refl;
  off_their_king = refl;
  passing = refl;
  stays = refl;
}

pub two_steps-plain : is_promotion (Move.promotion two_steps) ≡ false
unfolding Move.promo_bits
two_steps-plain = refl
