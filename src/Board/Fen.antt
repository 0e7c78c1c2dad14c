-- ===== src/Board/Fen.antt =====
-- `ChessBoard::SetFromFen` of src/chess/board.cc, over the bytes of the string. `none` is the exception
-- "Bad fen string". A square outside the board, which the source shifts by and leaves undefined, is
-- on no bitboard here.
use lc.Base.{
  ℕ, ◌+◌, ◌-◌, ◌*◌, ◌^◌, Bool, true, false, not, ◌&&◌, ◌||◌, ◌==◌, ltb, leb, List, [], ◌∷◌, Option,
  none, some, if◌then◌else◌,
}
use lc.Base.Int.{ℤ, pos, sub_ℕ, ◌-ℤ◌}
use lc.Square
use lc.Square.{BoardSquare, row, col, square, square_int}
use lc.BitBoard.{set}
use lc.Board.{
  ChessBoard, cleared, mirror, set_we_can_00, set_we_can_000, set_they_can_00, set_they_can_000,
}

infixl 5 ◌>>=◌
abbrev ◌>>=◌ {ℓ κ} : {A : Type ℓ} {B : Type κ} → Option A → (A → Option B) → Option B
none >>= f = none
some a >>= f = f a

-- The characters at which `>>` splits.
abbrev is_space : ℕ → Bool
is_space c = (c == 32) || (leb 9 c && leb c 13)

abbrev is_digit : ℕ → Bool
is_digit c = leb b'0' c && leb c b'9'

abbrev is_upper : ℕ → Bool
is_upper c = leb b'A' c && leb c b'Z'

unfoldable pub skip_space : List ℕ → List ℕ
skip_space [] = []
skip_space (c ∷ cs) = let rest = skip_space cs in if is_space c then rest else c ∷ cs

-- The characters up to the next space, and what follows.
unfoldable pub split_word : List ℕ → List ℕ × List ℕ
split_word [] = ([], [])
split_word (c ∷ cs) =
    let (word, rest) = split_word cs in if is_space c then ([], c ∷ cs) else (c ∷ word, rest)

-- A word that is empty is a failure of the stream.
abbrev nonempty : List ℕ × List ℕ → Option (List ℕ × List ℕ)
nonempty ([], rest) = none
nonempty (c ∷ word, rest) = some (c ∷ word, rest)

-- stream >> string
unfoldable pub read_word : List ℕ → Option (List ℕ × List ℕ)
read_word cs = nonempty (split_word (skip_space cs))

-- The value of the leading digits, whether there are any, and what follows.
unfoldable pub read_digits : ℕ → Bool → List ℕ → ℕ × Bool × List ℕ
read_digits value seen [] = (value, seen, [])
read_digits value seen (c ∷ cs) =
    let rest = read_digits (value * 10 + (c - b'0')) true cs in
    if is_digit c then rest else (value, seen, c ∷ cs)

-- An `int` within its 32 bits, or a failure of the stream.
abbrev to_int : Bool → ℕ × Bool × List ℕ → Option (ℤ × List ℕ)
to_int negative (value, seen, rest) =
    if not seen
    then none
    else if negative
    then (if leb value (2 ^ 31) then some (sub_ℕ 0 value, rest) else none)
    else (if ltb value (2 ^ 31) then some (pos value, rest) else none)

abbrev read_signed : List ℕ → Option (ℤ × List ℕ)
read_signed [] = none
read_signed (c ∷ cs) =
    if c == b'-'
    then to_int true (read_digits 0 false cs)
    else if c == b'+'
    then to_int false (read_digits 0 false cs)
    else to_int false (read_digits 0 false (c ∷ cs))

-- stream >> int
unfoldable pub read_int : List ℕ → Option (ℤ × List ℕ)
read_int cs = read_signed (skip_space cs)

-- The piece that a letter names, on its kind's board; `none` for no such letter.
unfoldable pub place_kind : ℕ → ℤ → ℤ → ChessBoard → Option ChessBoard
place_kind c r k b =
    let s = square_int r k in
    if c == b'K'
    then some (record b { our_king = s })
    else if c == b'k'
    then some (record b { their_king = s })
    else if (c == b'R') || (c == b'r')
    then some (record b { rooks = set b.rooks s })
    else if (c == b'B') || (c == b'b')
    then some (record b { bishops = set b.bishops s })
    else if (c == b'Q') || (c == b'q')
    then some (record b { rooks = set b.rooks s; bishops = set b.bishops s })
    else if (c == b'P') || (c == b'p')
    then some (record b { pawns = set b.pawns s })
    else if (c == b'N') || (c == b'n')
    then some b
    else none

unfoldable pub place_side : ℕ → ℤ → ℤ → ChessBoard → ChessBoard
place_side c r k b =
    if is_upper c
    then record b { our_pieces = set b.our_pieces (square_int r k) }
    else record b { their_pieces = set b.their_pieces (square_int r k) }

-- The loop over the characters of the board, with the coordinates of the next square.
unfoldable pub read_board : List ℕ → ℤ → ℕ → ChessBoard → Option ChessBoard
read_board [] r k b = some b
read_board (c ∷ cs) r k b =
    let next_row = read_board cs (r -ℤ pos 1) 0 b in
    let gap = read_board cs r (k + (c - b'0')) b in
    let piece = place_kind c r (pos k) (place_side c r (pos k) b) >>= read_board cs r (k + 1) in
    if c == b'/' then next_row else if is_digit c then gap else piece

unfoldable pub read_right : ℕ → ℕ → Option ℕ
read_right c rights =
    if c == b'K'
    then some (set_we_can_00 rights)
    else if c == b'k'
    then some (set_they_can_00 rights)
    else if c == b'Q'
    then some (set_we_can_000 rights)
    else if c == b'q'
    then some (set_they_can_000 rights)
    else none

unfoldable pub read_rights : List ℕ → ℕ → Option ℕ
read_rights [] rights = some rights
read_rights (c ∷ cs) rights = read_right c rights >>= read_rights cs

abbrev is_dash : List ℕ → Bool
is_dash (c ∷ []) = c == b'-'
is_dash cs = false

unfoldable pub read_castlings : List ℕ → ChessBoard → Option ChessBoard
read_castlings text b =
    if is_dash text
    then some b
    else (read_rights text b.castlings >>= λ c. some (record b { castlings = c }))

unfoldable pub read_en_passant : List ℕ → ChessBoard → Option ChessBoard
read_en_passant text b =
    let s = Square.of_string text false in
    if is_dash text
    then some b
    else if not (row s == 2) && not (row s == 5)
    then none
    else some (record b { pawns = set b.pawns (square (if row s == 2 then 0 else 7) (col s)) })

abbrev is_black : List ℕ → Bool
is_black (c ∷ []) = (c == b'b') || (c == b'B')
is_black cs = false

pub record Fen : Type 0 where
  pub board : ChessBoard
  pub no_capture_ply : ℤ
  pub moves : ℤ

unfoldable pub set_from_fen : List ℕ → Option Fen
set_from_fen fen = do
  (board, rest1) ← read_word fen
  (who_to_move, rest2) ← read_word rest1
  (castlings, rest3) ← read_word rest2
  (en_passant, rest4) ← read_word rest3
  (no_capture_halfmoves, rest5) ← read_int rest4
  (total_moves, _) ← read_int rest5
  b1 ← read_board board (pos 7) 0 cleared
  b2 ← read_castlings castlings b1
  b3 ← read_en_passant en_passant b2
  some (record {
    board = if is_black who_to_move then mirror b3 else b3;
    no_capture_ply = no_capture_halfmoves;
    moves = total_moves;
  })
