-- ===== src/Move/Index/Part4.antt =====
-- Rows of `kIdxToMove` of src/chess/bitboard.cc.
use lc.Base.{List, [], ◌∷◌}
use Prim.Native.String.{String}

unfoldable pub moves_13 : List String
moves_13 =
    "b7a6" ∷ "b7b6" ∷ "b7c6" ∷ "b7d6" ∷ "b7a7" ∷ "b7c7" ∷ "b7d7" ∷ "b7e7" ∷ "b7f7" ∷ "b7g7" ∷ "b7h7"
    ∷ "b7a8" ∷ "b7b8" ∷ "b7c8" ∷ "b7d8" ∷ "c7c1" ∷ "c7c2" ∷ "c7h2" ∷ "c7c3" ∷ "c7g3" ∷ "c7c4"
    ∷ "c7f4" ∷ "c7a5" ∷ "c7b5" ∷ "c7c5" ∷ "c7d5" ∷ "c7e5" ∷ "c7a6" ∷ "c7b6" ∷ "c7c6" ∷ "c7d6"
    ∷ "c7e6" ∷ "c7a7" ∷ "c7b7" ∷ "c7d7" ∷ "c7e7" ∷ "c7f7" ∷ "c7g7" ∷ "c7h7" ∷ "c7a8" ∷ "c7b8"
    ∷ "c7c8" ∷ "c7d8" ∷ "c7e8" ∷ "d7d1" ∷ "d7d2" ∷ "d7d3" ∷ "d7h3" ∷ "d7a4" ∷ "d7d4" ∷ "d7g4"
    ∷ "d7b5" ∷ "d7c5" ∷ "d7d5" ∷ "d7e5" ∷ "d7f5" ∷ "d7b6" ∷ "d7c6" ∷ "d7d6" ∷ "d7e6" ∷ "d7f6"
    ∷ "d7a7" ∷ "d7b7" ∷ "d7c7" ∷ "d7e7" ∷ "d7f7" ∷ "d7g7" ∷ "d7h7" ∷ "d7b8" ∷ "d7c8" ∷ "d7d8"
    ∷ "d7e8" ∷ "d7f8" ∷ "e7e1" ∷ "e7e2" ∷ "e7a3" ∷ "e7e3" ∷ "e7b4" ∷ "e7e4" ∷ "e7h4" ∷ "e7c5"
    ∷ "e7d5" ∷ "e7e5" ∷ "e7f5" ∷ "e7g5" ∷ "e7c6" ∷ "e7d6" ∷ "e7e6" ∷ "e7f6" ∷ "e7g6" ∷ "e7a7"
    ∷ "e7b7" ∷ "e7c7" ∷ "e7d7" ∷ "e7f7" ∷ "e7g7" ∷ "e7h7" ∷ "e7c8" ∷ "e7d8" ∷ "e7e8" ∷ "e7f8"
    ∷ "e7g8" ∷ "f7f1" ∷ "f7a2" ∷ "f7f2" ∷ "f7b3" ∷ "f7f3" ∷ "f7c4" ∷ "f7f4" ∷ "f7d5" ∷ "f7e5"
    ∷ "f7f5" ∷ "f7g5" ∷ "f7h5" ∷ "f7d6" ∷ "f7e6" ∷ "f7f6" ∷ "f7g6" ∷ "f7h6" ∷ "f7a7" ∷ []

unfoldable pub moves_14 : List String
moves_14 =
    "f7b7" ∷ "f7c7" ∷ "f7d7" ∷ "f7e7" ∷ "f7g7" ∷ "f7h7" ∷ "f7d8" ∷ "f7e8" ∷ "f7f8" ∷ "f7g8" ∷ "f7h8"
    ∷ "g7a1" ∷ "g7g1" ∷ "g7b2" ∷ "g7g2" ∷ "g7c3" ∷ "g7g3" ∷ "g7d4" ∷ "g7g4" ∷ "g7e5" ∷ "g7f5"
    ∷ "g7g5" ∷ "g7h5" ∷ "g7e6" ∷ "g7f6" ∷ "g7g6" ∷ "g7h6" ∷ "g7a7" ∷ "g7b7" ∷ "g7c7" ∷ "g7d7"
    ∷ "g7e7" ∷ "g7f7" ∷ "g7h7" ∷ "g7e8" ∷ "g7f8" ∷ "g7g8" ∷ "g7h8" ∷ "h7b1" ∷ "h7h1" ∷ "h7c2"
    ∷ "h7h2" ∷ "h7d3" ∷ "h7h3" ∷ "h7e4" ∷ "h7h4" ∷ "h7f5" ∷ "h7g5" ∷ "h7h5" ∷ "h7f6" ∷ "h7g6"
    ∷ "h7h6" ∷ "h7a7" ∷ "h7b7" ∷ "h7c7" ∷ "h7d7" ∷ "h7e7" ∷ "h7f7" ∷ "h7g7" ∷ "h7f8" ∷ "h7g8"
    ∷ "h7h8" ∷ "a8a1" ∷ "a8h1" ∷ "a8a2" ∷ "a8g2" ∷ "a8a3" ∷ "a8f3" ∷ "a8a4" ∷ "a8e4" ∷ "a8a5"
    ∷ "a8d5" ∷ "a8a6" ∷ "a8b6" ∷ "a8c6" ∷ "a8a7" ∷ "a8b7" ∷ "a8c7" ∷ "a8b8" ∷ "a8c8" ∷ "a8d8"
    ∷ "a8e8" ∷ "a8f8" ∷ "a8g8" ∷ "a8h8" ∷ "b8b1" ∷ "b8b2" ∷ "b8h2" ∷ "b8b3" ∷ "b8g3" ∷ "b8b4"
    ∷ "b8f4" ∷ "b8b5" ∷ "b8e5" ∷ "b8a6" ∷ "b8b6" ∷ "b8c6" ∷ "b8d6" ∷ "b8a7" ∷ "b8b7" ∷ "b8c7"
    ∷ "b8d7" ∷ "b8a8" ∷ "b8c8" ∷ "b8d8" ∷ "b8e8" ∷ "b8f8" ∷ "b8g8" ∷ "b8h8" ∷ "c8c1" ∷ "c8c2"
    ∷ "c8c3" ∷ "c8h3" ∷ "c8c4" ∷ "c8g4" ∷ "c8c5" ∷ "c8f5" ∷ "c8a6" ∷ "c8b6" ∷ "c8c6" ∷ []

unfoldable pub moves_15 : List String
moves_15 =
    "c8d6" ∷ "c8e6" ∷ "c8a7" ∷ "c8b7" ∷ "c8c7" ∷ "c8d7" ∷ "c8e7" ∷ "c8a8" ∷ "c8b8" ∷ "c8d8" ∷ "c8e8"
    ∷ "c8f8" ∷ "c8g8" ∷ "c8h8" ∷ "d8d1" ∷ "d8d2" ∷ "d8d3" ∷ "d8d4" ∷ "d8h4" ∷ "d8a5" ∷ "d8d5"
    ∷ "d8g5" ∷ "d8b6" ∷ "d8c6" ∷ "d8d6" ∷ "d8e6" ∷ "d8f6" ∷ "d8b7" ∷ "d8c7" ∷ "d8d7" ∷ "d8e7"
    ∷ "d8f7" ∷ "d8a8" ∷ "d8b8" ∷ "d8c8" ∷ "d8e8" ∷ "d8f8" ∷ "d8g8" ∷ "d8h8" ∷ "e8e1" ∷ "e8e2"
    ∷ "e8e3" ∷ "e8a4" ∷ "e8e4" ∷ "e8b5" ∷ "e8e5" ∷ "e8h5" ∷ "e8c6" ∷ "e8d6" ∷ "e8e6" ∷ "e8f6"
    ∷ "e8g6" ∷ "e8c7" ∷ "e8d7" ∷ "e8e7" ∷ "e8f7" ∷ "e8g7" ∷ "e8a8" ∷ "e8b8" ∷ "e8c8" ∷ "e8d8"
    ∷ "e8f8" ∷ "e8g8" ∷ "e8h8" ∷ "f8f1" ∷ "f8f2" ∷ "f8a3" ∷ "f8f3" ∷ "f8b4" ∷ "f8f4" ∷ "f8c5"
    ∷ "f8f5" ∷ "f8d6" ∷ "f8e6" ∷ "f8f6" ∷ "f8g6" ∷ "f8h6" ∷ "f8d7" ∷ "f8e7" ∷ "f8f7" ∷ "f8g7"
    ∷ "f8h7" ∷ "f8a8" ∷ "f8b8" ∷ "f8c8" ∷ "f8d8" ∷ "f8e8" ∷ "f8g8" ∷ "f8h8" ∷ "g8g1" ∷ "g8a2"
    ∷ "g8g2" ∷ "g8b3" ∷ "g8g3" ∷ "g8c4" ∷ "g8g4" ∷ "g8d5" ∷ "g8g5" ∷ "g8e6" ∷ "g8f6" ∷ "g8g6"
    ∷ "g8h6" ∷ "g8e7" ∷ "g8f7" ∷ "g8g7" ∷ "g8h7" ∷ "g8a8" ∷ "g8b8" ∷ "g8c8" ∷ "g8d8" ∷ "g8e8"
    ∷ "g8f8" ∷ "g8h8" ∷ "h8a1" ∷ "h8h1" ∷ "h8b2" ∷ "h8h2" ∷ "h8c3" ∷ "h8h3" ∷ "h8d4" ∷ []

unfoldable pub moves_16 : List String
moves_16 =
    "h8h4" ∷ "h8e5" ∷ "h8h5" ∷ "h8f6" ∷ "h8g6" ∷ "h8h6" ∷ "h8f7" ∷ "h8g7" ∷ "h8h7" ∷ "h8a8" ∷ "h8b8"
    ∷ "h8c8" ∷ "h8d8" ∷ "h8e8" ∷ "h8f8" ∷ "h8g8" ∷ "a7a8q" ∷ "a7a8r" ∷ "a7a8b" ∷ "a7b8q" ∷ "a7b8r"
    ∷ "a7b8b" ∷ "b7a8q" ∷ "b7a8r" ∷ "b7a8b" ∷ "b7b8q" ∷ "b7b8r" ∷ "b7b8b" ∷ "b7c8q" ∷ "b7c8r"
    ∷ "b7c8b" ∷ "c7b8q" ∷ "c7b8r" ∷ "c7b8b" ∷ "c7c8q" ∷ "c7c8r" ∷ "c7c8b" ∷ "c7d8q" ∷ "c7d8r"
    ∷ "c7d8b" ∷ "d7c8q" ∷ "d7c8r" ∷ "d7c8b" ∷ "d7d8q" ∷ "d7d8r" ∷ "d7d8b" ∷ "d7e8q" ∷ "d7e8r"
    ∷ "d7e8b" ∷ "e7d8q" ∷ "e7d8r" ∷ "e7d8b" ∷ "e7e8q" ∷ "e7e8r" ∷ "e7e8b" ∷ "e7f8q" ∷ "e7f8r"
    ∷ "e7f8b" ∷ "f7e8q" ∷ "f7e8r" ∷ "f7e8b" ∷ "f7f8q" ∷ "f7f8r" ∷ "f7f8b" ∷ "f7g8q" ∷ "f7g8r"
    ∷ "f7g8b" ∷ "g7f8q" ∷ "g7f8r" ∷ "g7f8b" ∷ "g7g8q" ∷ "g7g8r" ∷ "g7g8b" ∷ "g7h8q" ∷ "g7h8r"
    ∷ "g7h8b" ∷ "h7g8q" ∷ "h7g8r" ∷ "h7g8b" ∷ "h7h8q" ∷ "h7h8r" ∷ "h7h8b" ∷ []
