-- ===== src/Board.antt =====
-- `ChessBoard` of src/chess/board.h and src/chess/board.cc: the state, its castling rights and the
-- operations that change the whole of it. The board is always seen by the player to move.
pub mod Words
pub mod Rights
pub mod Tables
pub mod Pieces
pub mod Magic
pub mod Attack
pub mod Apply
pub mod Generate
pub mod KingInfo
pub mod Legal
pub mod Fen
pub mod Mating
pub mod Print
pub mod Sight
use lc.Base.{
  ℕ, ◌+◌, ◌-◌, ◌*◌, ◌/◌, ◌%◌, bit_and, bit_or, Bool, true, false, not, ◌&&◌, ◌==◌, List, [], ◌∷◌,
  ◌++◌, if◌then◌else◌,
}
use lc.Square
use lc.Square.{BoardSquare}
use lc.BitBoard
use lc.BitBoard.{BitBoard}

-- ChessBoard::Castlings: four flags in a byte.
abbrev pub Castlings : Type 0
Castlings = ℕ

-- data_ |= flag
abbrev grant : ℕ → Castlings → Castlings
grant flag c = bit_or c flag

-- data_ &= ~flag
abbrev revoke : ℕ → Castlings → Castlings
revoke flag c = bit_and c (255 - flag)

abbrev holds : ℕ → Castlings → Bool
holds flag c = not (bit_and c flag == 0)

unfoldable pub set_we_can_00 : Castlings → Castlings
set_we_can_00 c = grant 1 c

unfoldable pub set_we_can_000 : Castlings → Castlings
set_we_can_000 c = grant 2 c

unfoldable pub set_they_can_00 : Castlings → Castlings
set_they_can_00 c = grant 4 c

unfoldable pub set_they_can_000 : Castlings → Castlings
set_they_can_000 c = grant 8 c

unfoldable pub reset_we_can_00 : Castlings → Castlings
reset_we_can_00 c = revoke 1 c

unfoldable pub reset_we_can_000 : Castlings → Castlings
reset_we_can_000 c = revoke 2 c

unfoldable pub reset_they_can_00 : Castlings → Castlings
reset_they_can_00 c = revoke 4 c

unfoldable pub reset_they_can_000 : Castlings → Castlings
reset_they_can_000 c = revoke 8 c

unfoldable pub we_can_00 : Castlings → Bool
we_can_00 c = holds 1 c

unfoldable pub we_can_000 : Castlings → Bool
we_can_000 c = holds 2 c

unfoldable pub they_can_00 : Castlings → Bool
they_can_00 c = holds 4 c

unfoldable pub they_can_000 : Castlings → Bool
they_can_000 c = holds 8 c

abbrev pub no_legal_castle : Castlings → Bool
no_legal_castle c = c == 0

unfoldable pub mirror_castlings : Castlings → Castlings
mirror_castlings c = (bit_and c 0b11 * 4 + bit_and c 0b1100 / 4) % 256

unfoldable pub castlings_string : Castlings → List ℕ
castlings_string c =
    if c == 0
    then b'-' ∷ []
    else (if we_can_00 c then b'K' ∷ [] else [])
      ++ (if we_can_000 c then b'Q' ∷ [] else [])
      ++ (if they_can_00 c then b'k' ∷ [] else [])
      ++ (if they_can_000 c then b'q' ∷ [] else [])

pub record ChessBoard : Type 0 where
  -- All white pieces, and all black ones.
  pub our_pieces : BitBoard
  pub their_pieces : BitBoard
  -- Rooks and queens.
  pub rooks : BitBoard
  -- Bishops and queens.
  pub bishops : BitBoard
  -- Pawns; one on rank 1 or 8 says that the pawn of that file can be taken en passant.
  pub pawns : BitBoard
  pub our_king : BoardSquare
  pub their_king : BoardSquare
  pub castlings : Castlings
  pub flipped : Bool

-- ChessBoard::Clear
unfoldable pub cleared : ChessBoard
cleared = record {
  our_pieces = 0;
  their_pieces = 0;
  rooks = 0;
  bishops = 0;
  pawns = 0;
  our_king = 0;
  their_king = 0;
  castlings = 0;
  flipped = false;
}

unfoldable pub mirror : ChessBoard → ChessBoard
mirror b = record {
  our_pieces = BitBoard.mirror b.their_pieces;
  their_pieces = BitBoard.mirror b.our_pieces;
  rooks = BitBoard.mirror b.rooks;
  bishops = BitBoard.mirror b.bishops;
  pawns = BitBoard.mirror b.pawns;
  our_king = Square.mirror b.their_king;
  their_king = Square.mirror b.our_king;
  castlings = mirror_castlings b.castlings;
  flipped = not b.flipped;
}

unfoldable pub bool_eq : Bool → Bool → Bool
bool_eq true b = b
bool_eq false b = not b

-- operator==
unfoldable pub same_board : ChessBoard → ChessBoard → Bool
same_board a b =
    (a.our_pieces == b.our_pieces)
    && (a.their_pieces == b.their_pieces)
    && (a.rooks == b.rooks)
    && (a.bishops == b.bishops)
    && (a.pawns == b.pawns)
    && (a.our_king == b.our_king)
    && (a.their_king == b.their_king)
    && (a.castlings == b.castlings)
    && bool_eq a.flipped b.flipped
