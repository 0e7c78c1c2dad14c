-- ===== src/Move/Index/Geometry.antt =====
-- The table `kIdxToMove` of src/chess/bitboard.cc against the geometry of the pieces.
use lc.Base.{
  ℕ, ◌+◌, ◌-◌, ◌*◌, ◌≡◌, refl, Bool, not, ◌&&◌, ◌||◌, ◌==◌, ltb, List, [], ◌∷◌, ◌++◌, map, filter,
  range, range_from, some,
}
use lc.Square
use lc.Square.{BoardSquare, row, col}
use lc.Move
use lc.Move.{Move, Promotion, make, make_promotion}
use lc.Move.Index.{read_moves, idx_texts}
use lc.Move.Index.Part1.{moves_1, moves_2, moves_3, moves_4}
use lc.Move.Index.Part2.{moves_5, moves_6, moves_7, moves_8}
use lc.Move.Index.Part3.{moves_9, moves_10, moves_11, moves_12}
use lc.Move.Index.Part4.{moves_13, moves_14, moves_15, moves_16}

abbrev distance : ℕ → ℕ → ℕ
distance a b = (a - b) + (b - a)

-- A queen or a knight goes from one square to the other on an empty board.
abbrev pub reaches : BoardSquare → BoardSquare → Bool
reaches f t =
    let r = distance (row f) (row t) in
    let c = distance (col f) (col t) in
    not (f == t) && ((r == 0) || (c == 0) || (r == c) || (r * c == 2))

abbrev pub concat {ℓ} : {A : Type ℓ} → List (List A) → List A
concat [] = []
concat (xs ∷ xss) = xs ++ concat xss

abbrev pub plain_from : BoardSquare → List Move
plain_from f = map (make f) (filter (reaches f) (range 64))

-- A pawn goes to the last rank straight on or to a neighbouring file.
abbrev pub promotes_to : BoardSquare → BoardSquare → Bool
promotes_to f t = ltb (distance (col f) (col t)) 2

abbrev pub promotions_on : BoardSquare → BoardSquare → List Move
promotions_on f t =
    make_promotion f t Promotion.queen
    ∷ make_promotion f t Promotion.rook
    ∷ make_promotion f t Promotion.bishop
    ∷ []

abbrev pub promotions_from : BoardSquare → List Move
promotions_from f = concat (map (promotions_on f) (filter (promotes_to f) (range_from 56 8)))

-- The moves of a queen or a knight from each square, then the promotions from each square of the seventh
-- rank to a queen, a rook or a bishop.
abbrev pub network_moves : List Move
network_moves = concat (map plain_from (range 64)) ++ concat (map promotions_from (range_from 48 8))

pub read_moves-network : read_moves idx_texts ≡ some network_moves
unfolding read_moves Move.of_string Move.set_to Move.set_from Move.set_promotion Square.of_string
    make make_promotion moves_1 moves_2 moves_3 moves_4 moves_5 moves_6 moves_7 moves_8 moves_9
    moves_10 moves_11 moves_12 moves_13 moves_14 moves_15 moves_16
read_moves-network = refl
