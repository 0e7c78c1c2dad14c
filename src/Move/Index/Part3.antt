-- ===== src/Move/Index/Part3.antt =====
-- Rows of `kIdxToMove` of src/chess/bitboard.cc.
use lc.Base.{List, [], ◌∷◌}
use Prim.Native.String.{String}

unfoldable pub moves_9 : List String
moves_9 =
    "b5a7" ∷ "b5b7" ∷ "b5c7" ∷ "b5d7" ∷ "b5b8" ∷ "b5e8" ∷ "c5c1" ∷ "c5g1" ∷ "c5c2" ∷ "c5f2" ∷ "c5a3"
    ∷ "c5b3" ∷ "c5c3" ∷ "c5d3" ∷ "c5e3" ∷ "c5a4" ∷ "c5b4" ∷ "c5c4" ∷ "c5d4" ∷ "c5e4" ∷ "c5a5"
    ∷ "c5b5" ∷ "c5d5" ∷ "c5e5" ∷ "c5f5" ∷ "c5g5" ∷ "c5h5" ∷ "c5a6" ∷ "c5b6" ∷ "c5c6" ∷ "c5d6"
    ∷ "c5e6" ∷ "c5a7" ∷ "c5b7" ∷ "c5c7" ∷ "c5d7" ∷ "c5e7" ∷ "c5c8" ∷ "c5f8" ∷ "d5d1" ∷ "d5h1"
    ∷ "d5a2" ∷ "d5d2" ∷ "d5g2" ∷ "d5b3" ∷ "d5c3" ∷ "d5d3" ∷ "d5e3" ∷ "d5f3" ∷ "d5b4" ∷ "d5c4"
    ∷ "d5d4" ∷ "d5e4" ∷ "d5f4" ∷ "d5a5" ∷ "d5b5" ∷ "d5c5" ∷ "d5e5" ∷ "d5f5" ∷ "d5g5" ∷ "d5h5"
    ∷ "d5b6" ∷ "d5c6" ∷ "d5d6" ∷ "d5e6" ∷ "d5f6" ∷ "d5b7" ∷ "d5c7" ∷ "d5d7" ∷ "d5e7" ∷ "d5f7"
    ∷ "d5a8" ∷ "d5d8" ∷ "d5g8" ∷ "e5a1" ∷ "e5e1" ∷ "e5b2" ∷ "e5e2" ∷ "e5h2" ∷ "e5c3" ∷ "e5d3"
    ∷ "e5e3" ∷ "e5f3" ∷ "e5g3" ∷ "e5c4" ∷ "e5d4" ∷ "e5e4" ∷ "e5f4" ∷ "e5g4" ∷ "e5a5" ∷ "e5b5"
    ∷ "e5c5" ∷ "e5d5" ∷ "e5f5" ∷ "e5g5" ∷ "e5h5" ∷ "e5c6" ∷ "e5d6" ∷ "e5e6" ∷ "e5f6" ∷ "e5g6"
    ∷ "e5c7" ∷ "e5d7" ∷ "e5e7" ∷ "e5f7" ∷ "e5g7" ∷ "e5b8" ∷ "e5e8" ∷ "e5h8" ∷ "f5b1" ∷ "f5f1"
    ∷ "f5c2" ∷ "f5f2" ∷ "f5d3" ∷ "f5e3" ∷ "f5f3" ∷ "f5g3" ∷ "f5h3" ∷ "f5d4" ∷ "f5e4" ∷ []

unfoldable pub moves_10 : List String
moves_10 =
    "f5f4" ∷ "f5g4" ∷ "f5h4" ∷ "f5a5" ∷ "f5b5" ∷ "f5c5" ∷ "f5d5" ∷ "f5e5" ∷ "f5g5" ∷ "f5h5" ∷ "f5d6"
    ∷ "f5e6" ∷ "f5f6" ∷ "f5g6" ∷ "f5h6" ∷ "f5d7" ∷ "f5e7" ∷ "f5f7" ∷ "f5g7" ∷ "f5h7" ∷ "f5c8"
    ∷ "f5f8" ∷ "g5c1" ∷ "g5g1" ∷ "g5d2" ∷ "g5g2" ∷ "g5e3" ∷ "g5f3" ∷ "g5g3" ∷ "g5h3" ∷ "g5e4"
    ∷ "g5f4" ∷ "g5g4" ∷ "g5h4" ∷ "g5a5" ∷ "g5b5" ∷ "g5c5" ∷ "g5d5" ∷ "g5e5" ∷ "g5f5" ∷ "g5h5"
    ∷ "g5e6" ∷ "g5f6" ∷ "g5g6" ∷ "g5h6" ∷ "g5e7" ∷ "g5f7" ∷ "g5g7" ∷ "g5h7" ∷ "g5d8" ∷ "g5g8"
    ∷ "h5d1" ∷ "h5h1" ∷ "h5e2" ∷ "h5h2" ∷ "h5f3" ∷ "h5g3" ∷ "h5h3" ∷ "h5f4" ∷ "h5g4" ∷ "h5h4"
    ∷ "h5a5" ∷ "h5b5" ∷ "h5c5" ∷ "h5d5" ∷ "h5e5" ∷ "h5f5" ∷ "h5g5" ∷ "h5f6" ∷ "h5g6" ∷ "h5h6"
    ∷ "h5f7" ∷ "h5g7" ∷ "h5h7" ∷ "h5e8" ∷ "h5h8" ∷ "a6a1" ∷ "a6f1" ∷ "a6a2" ∷ "a6e2" ∷ "a6a3"
    ∷ "a6d3" ∷ "a6a4" ∷ "a6b4" ∷ "a6c4" ∷ "a6a5" ∷ "a6b5" ∷ "a6c5" ∷ "a6b6" ∷ "a6c6" ∷ "a6d6"
    ∷ "a6e6" ∷ "a6f6" ∷ "a6g6" ∷ "a6h6" ∷ "a6a7" ∷ "a6b7" ∷ "a6c7" ∷ "a6a8" ∷ "a6b8" ∷ "a6c8"
    ∷ "b6b1" ∷ "b6g1" ∷ "b6b2" ∷ "b6f2" ∷ "b6b3" ∷ "b6e3" ∷ "b6a4" ∷ "b6b4" ∷ "b6c4" ∷ "b6d4"
    ∷ "b6a5" ∷ "b6b5" ∷ "b6c5" ∷ "b6d5" ∷ "b6a6" ∷ "b6c6" ∷ "b6d6" ∷ "b6e6" ∷ "b6f6" ∷ []

unfoldable pub moves_11 : List String
moves_11 =
    "b6g6" ∷ "b6h6" ∷ "b6a7" ∷ "b6b7" ∷ "b6c7" ∷ "b6d7" ∷ "b6a8" ∷ "b6b8" ∷ "b6c8" ∷ "b6d8" ∷ "c6c1"
    ∷ "c6h1" ∷ "c6c2" ∷ "c6g2" ∷ "c6c3" ∷ "c6f3" ∷ "c6a4" ∷ "c6b4" ∷ "c6c4" ∷ "c6d4" ∷ "c6e4"
    ∷ "c6a5" ∷ "c6b5" ∷ "c6c5" ∷ "c6d5" ∷ "c6e5" ∷ "c6a6" ∷ "c6b6" ∷ "c6d6" ∷ "c6e6" ∷ "c6f6"
    ∷ "c6g6" ∷ "c6h6" ∷ "c6a7" ∷ "c6b7" ∷ "c6c7" ∷ "c6d7" ∷ "c6e7" ∷ "c6a8" ∷ "c6b8" ∷ "c6c8"
    ∷ "c6d8" ∷ "c6e8" ∷ "d6d1" ∷ "d6d2" ∷ "d6h2" ∷ "d6a3" ∷ "d6d3" ∷ "d6g3" ∷ "d6b4" ∷ "d6c4"
    ∷ "d6d4" ∷ "d6e4" ∷ "d6f4" ∷ "d6b5" ∷ "d6c5" ∷ "d6d5" ∷ "d6e5" ∷ "d6f5" ∷ "d6a6" ∷ "d6b6"
    ∷ "d6c6" ∷ "d6e6" ∷ "d6f6" ∷ "d6g6" ∷ "d6h6" ∷ "d6b7" ∷ "d6c7" ∷ "d6d7" ∷ "d6e7" ∷ "d6f7"
    ∷ "d6b8" ∷ "d6c8" ∷ "d6d8" ∷ "d6e8" ∷ "d6f8" ∷ "e6e1" ∷ "e6a2" ∷ "e6e2" ∷ "e6b3" ∷ "e6e3"
    ∷ "e6h3" ∷ "e6c4" ∷ "e6d4" ∷ "e6e4" ∷ "e6f4" ∷ "e6g4" ∷ "e6c5" ∷ "e6d5" ∷ "e6e5" ∷ "e6f5"
    ∷ "e6g5" ∷ "e6a6" ∷ "e6b6" ∷ "e6c6" ∷ "e6d6" ∷ "e6f6" ∷ "e6g6" ∷ "e6h6" ∷ "e6c7" ∷ "e6d7"
    ∷ "e6e7" ∷ "e6f7" ∷ "e6g7" ∷ "e6c8" ∷ "e6d8" ∷ "e6e8" ∷ "e6f8" ∷ "e6g8" ∷ "f6a1" ∷ "f6f1"
    ∷ "f6b2" ∷ "f6f2" ∷ "f6c3" ∷ "f6f3" ∷ "f6d4" ∷ "f6e4" ∷ "f6f4" ∷ "f6g4" ∷ "f6h4" ∷ []

unfoldable pub moves_12 : List String
moves_12 =
    "f6d5" ∷ "f6e5" ∷ "f6f5" ∷ "f6g5" ∷ "f6h5" ∷ "f6a6" ∷ "f6b6" ∷ "f6c6" ∷ "f6d6" ∷ "f6e6" ∷ "f6g6"
    ∷ "f6h6" ∷ "f6d7" ∷ "f6e7" ∷ "f6f7" ∷ "f6g7" ∷ "f6h7" ∷ "f6d8" ∷ "f6e8" ∷ "f6f8" ∷ "f6g8"
    ∷ "f6h8" ∷ "g6b1" ∷ "g6g1" ∷ "g6c2" ∷ "g6g2" ∷ "g6d3" ∷ "g6g3" ∷ "g6e4" ∷ "g6f4" ∷ "g6g4"
    ∷ "g6h4" ∷ "g6e5" ∷ "g6f5" ∷ "g6g5" ∷ "g6h5" ∷ "g6a6" ∷ "g6b6" ∷ "g6c6" ∷ "g6d6" ∷ "g6e6"
    ∷ "g6f6" ∷ "g6h6" ∷ "g6e7" ∷ "g6f7" ∷ "g6g7" ∷ "g6h7" ∷ "g6e8" ∷ "g6f8" ∷ "g6g8" ∷ "g6h8"
    ∷ "h6c1" ∷ "h6h1" ∷ "h6d2" ∷ "h6h2" ∷ "h6e3" ∷ "h6h3" ∷ "h6f4" ∷ "h6g4" ∷ "h6h4" ∷ "h6f5"
    ∷ "h6g5" ∷ "h6h5" ∷ "h6a6" ∷ "h6b6" ∷ "h6c6" ∷ "h6d6" ∷ "h6e6" ∷ "h6f6" ∷ "h6g6" ∷ "h6f7"
    ∷ "h6g7" ∷ "h6h7" ∷ "h6f8" ∷ "h6g8" ∷ "h6h8" ∷ "a7a1" ∷ "a7g1" ∷ "a7a2" ∷ "a7f2" ∷ "a7a3"
    ∷ "a7e3" ∷ "a7a4" ∷ "a7d4" ∷ "a7a5" ∷ "a7b5" ∷ "a7c5" ∷ "a7a6" ∷ "a7b6" ∷ "a7c6" ∷ "a7b7"
    ∷ "a7c7" ∷ "a7d7" ∷ "a7e7" ∷ "a7f7" ∷ "a7g7" ∷ "a7h7" ∷ "a7a8" ∷ "a7b8" ∷ "a7c8" ∷ "b7b1"
    ∷ "b7h1" ∷ "b7b2" ∷ "b7g2" ∷ "b7b3" ∷ "b7f3" ∷ "b7b4" ∷ "b7e4" ∷ "b7a5" ∷ "b7b5" ∷ "b7c5"
    ∷ "b7d5" ∷ []
