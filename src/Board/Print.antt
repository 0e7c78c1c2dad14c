-- ===== src/Board/Print.antt =====
-- `ChessBoard::Hash` and `DebugString` of src/chess/board.h and src/chess/board.cc.
use lc.Base.{
  ℕ, zero, suc, ◌+◌, ◌-◌, ◌*◌, ◌/◌, ◌%◌, ◌^◌, bit_or, not, ◌&&◌, ◌==◌, leb, List, [], ◌∷◌, ◌++◌,
  if◌then◌else◌,
}
use lc.Base.Text.{codes}
use lc.Hash.{hash_cat_list}
use lc.Square.{square}
use lc.BitBoard.{get, intersection}
use lc.Board.{ChessBoard, castlings_string}
use lc.Board.Tables.{pawn_mask}

unfoldable pub hash_board : ChessBoard → ℕ
hash_board b = hash_cat_list (
    b.our_pieces
    ∷ b.their_pieces
    ∷ b.rooks
    ∷ b.bishops
    ∷ b.pawns
    ∷ bit_or (bit_or (bit_or (b.our_king * 2 ^ 24) (b.their_king * 2 ^ 16)) (b.castlings * 2 ^ 8))
        (if b.flipped then 1 else 0)
    ∷ [])

-- std::to_string of a `uint64_t`, which has at most twenty digits; the first argument is fuel.
unfoldable pub to_decimal : ℕ → ℕ → List ℕ
to_decimal zero n = []
to_decimal (suc fuel) n =
    let front = to_decimal fuel (n / 10) in
    let digit = (b'0' + n % 10) ∷ [] in if n / 10 == 0 then digit else front ++ digit

abbrev to_upper : ℕ → ℕ
to_upper c = if leb b'a' c && leb c b'z' then c - 32 else c

-- The letter of the piece on a square that is not empty.
unfoldable pub piece_letter : ChessBoard → ℕ → ℕ → ℕ
piece_letter b i j =
    let s = square i j in
    let c =
      if get (intersection b.pawns pawn_mask) s
      then b'p'
      else if get b.bishops s
      then (if get b.rooks s then b'q' else b'b')
      else if get b.rooks s
      then b'r'
      else b'n' in
    if b.our_king == i * 8 + j
    then b'K'
    else if b.their_king == i * 8 + j
    then b'k'
    else if get b.our_pieces s
    then to_upper c
    else c

unfoldable pub square_letter : ChessBoard → ℕ → ℕ → ℕ
square_letter b i j =
    let s = square i j in
    if not (get b.our_pieces s) && not (get b.their_pieces s)
    then (if (i == 2) && get b.pawns (square 0 j)
        then b'*'
        else if (i == 5) && get b.pawns (square 7 j)
        then b'*'
        else b'.')
    else piece_letter b i j

-- The letters of row `i` from column `j` on.
unfoldable pub row_letters : ChessBoard → ℕ → ℕ → ℕ → List ℕ
row_letters b i j zero = []
row_letters b i j (suc n) = square_letter b i j ∷ row_letters b i (suc j) n

-- What stands after the last row.
unfoldable pub summary : ChessBoard → List ℕ
summary b =
    (b' ' ∷ castlings_string b.castlings)
    ++ codes (if b.flipped then " (from black's eyes)" else " (from white's eyes)")
    ++ codes " Hash: "
    ++ to_decimal 20 (hash_board b)

-- The rows from `i` down to 0.
unfoldable pub rows : ChessBoard → ℕ → List ℕ
rows b zero = row_letters b 0 0 8 ++ summary b ++ b'\n' ∷ []
rows b (suc i) = (row_letters b (suc i) 0 8 ++ b'\n' ∷ []) ++ rows b i

unfoldable pub debug_string : ChessBoard → List ℕ
debug_string b = rows b 7
