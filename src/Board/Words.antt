-- ===== src/Board/Words.antt =====
-- What a board is made of: five words, two squares and four flags. Mirroring keeps this, and undoes
-- itself.
use lc.Base.{◌<◌, ◌≡◌, Bool, not, arith}
use lc.BitBoard.Laws.{IsWord}
use lc.BitBoard.Mirror.{mirror-IsWord, mirror-mirror, square_mirror-lt, square_mirror-mirror}
use lc.Board.{ChessBoard, mirror}
use lc.Board.Rights.{rights_lem, mirror_castlings-mirror_castlings}

pub record IsBoard (b : ChessBoard) : Type 0 where
  pub our_word : IsWord b.our_pieces
  pub their_word : IsWord b.their_pieces
  pub rooks_word : IsWord b.rooks
  pub bishops_word : IsWord b.bishops
  pub pawns_word : IsWord b.pawns
  pub our_king_square : b.our_king < 64
  pub their_king_square : b.their_king < 64
  pub rights : b.castlings < 16

pub mirror-IsBoard : {b : ChessBoard} → IsBoard b → IsBoard (mirror b)
unfolding mirror
mirror-IsBoard {b} v = record {
  our_word = mirror-IsWord _ v.their_word;
  their_word = mirror-IsWord _ v.our_word;
  rooks_word = mirror-IsWord _ v.rooks_word;
  bishops_word = mirror-IsWord _ v.bishops_word;
  pawns_word = mirror-IsWord _ v.pawns_word;
  our_king_square = square_mirror-lt _ v.their_king_square;
  their_king_square = square_mirror-lt _ v.our_king_square;
  rights = (rights_lem b.castlings v.rights).8.1;
}

not-not : (b : Bool) → not (not b) ≡ b
not-not b = ground arith

-- To mirror a well-formed board twice gives the board back.
pub board_mirror-mirror : (b : ChessBoard) → IsBoard b → mirror (mirror b) ≡ b
unfolding mirror
board_mirror-mirror b v = λ i. record {
  our_pieces = mirror-mirror b.our_pieces v.our_word i;
  their_pieces = mirror-mirror b.their_pieces v.their_word i;
  rooks = mirror-mirror b.rooks v.rooks_word i;
  bishops = mirror-mirror b.bishops v.bishops_word i;
  pawns = mirror-mirror b.pawns v.pawns_word i;
  our_king = square_mirror-mirror b.our_king v.our_king_square i;
  their_king = square_mirror-mirror b.their_king v.their_king_square i;
  castlings = mirror_castlings-mirror_castlings b.castlings v.rights i;
  flipped = not-not b.flipped i;
}
