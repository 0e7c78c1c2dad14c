-- ===== src/Move/Index.antt =====
-- The numbers of the moves for the network: `kIdxToMove`, `BuildMoveIndices` and `as_nn_index` of
-- src/chess/bitboard.cc. The table `kMoveToIdx`, which is filled before `main`, is an argument.
pub mod Part1
pub mod Part2
pub mod Part3
pub mod Part4
pub mod Geometry
pub mod Numbers
use Prim.Native.String.{String}
use lc.Base.{
  ℕ, ◌+◌, ◌*◌, Bool, false, ltb, ◌==◌, List, [], ◌∷◌, ◌++◌, Option, none, some, if◌then◌else◌,
}
use mathlib.Core.Option
use lc.Base.Text.{codes}
use lc.Square.{col}
use lc.Move.{Move, of_string, as_packed_int, castling, from, to}
use lc.Move.Index.Part1.{moves_1, moves_2, moves_3, moves_4}
use lc.Move.Index.Part2.{moves_5, moves_6, moves_7, moves_8}
use lc.Move.Index.Part3.{moves_9, moves_10, moves_11, moves_12}
use lc.Move.Index.Part4.{moves_13, moves_14, moves_15, moves_16}

abbrev pub idx_texts : List String
idx_texts =
    moves_1
    ++ (moves_2
        ++ (moves_3
            ++ (moves_4
                ++ (moves_5
                    ++ (moves_6
                        ++ (moves_7
                            ++ (moves_8
                                ++ (moves_9
                                    ++ (moves_10
                                        ++ (moves_11
                                            ++ (moves_12
                                                ++ (moves_13
                                                    ++ (moves_14
                                                        ++ (moves_15 ++ moves_16))))))))))))))

abbrev add_move : Option Move → Option (List Move) → Option (List Move)
add_move none ms = none
add_move (some m) none = none
add_move (some m) (some ms) = some (m ∷ ms)

-- The constructor `Move(const char*)`, for each text of the table; `none` is its exception.
unfoldable pub read_moves : List String → Option (List Move)
read_moves [] = some []
read_moves (s ∷ rest) = add_move (of_string (codes s) false) (read_moves rest)

-- The loop of `BuildMoveIndices`, from the index `i` on; the vector is a function, 0 at first.
unfoldable pub write_indices : ℕ → List Move → (ℕ → ℕ) → ℕ → ℕ
write_indices i [] res = res
write_indices i (m ∷ ms) res =
    write_indices (1 + i) ms (λ k. if k == as_packed_int m then i else res k)

unfoldable pub build_move_indices : List Move → ℕ → ℕ
build_move_indices ms = write_indices 0 ms (λ k. 0)

-- The squares e1, h1 and a1.
abbrev king_castle_index : (ℕ → ℕ) → ℕ
king_castle_index move_to_idx = move_to_idx (4 * 64 + 7)

abbrev queen_castle_index : (ℕ → ℕ) → ℕ
queen_castle_index move_to_idx = move_to_idx (4 * 64 + 0)

unfoldable pub as_nn_index : (ℕ → ℕ) → Move → ℕ
as_nn_index move_to_idx m =
    if castling m
    then (if ltb (col (from m)) (col (to m))
        then king_castle_index move_to_idx
        else queen_castle_index move_to_idx)
    else move_to_idx (as_packed_int m)
