-- ===== src/Move/Index/Part2.antt =====
-- Rows of `kIdxToMove` of src/chess/bitboard.cc.
use lc.Base.{List, [], ◌∷◌}
use Prim.Native.String.{String}

unfoldable pub moves_5 : List String
moves_5 =
    "c3b2" ∷ "c3c2" ∷ "c3d2" ∷ "c3e2" ∷ "c3a3" ∷ "c3b3" ∷ "c3d3" ∷ "c3e3" ∷ "c3f3" ∷ "c3g3" ∷ "c3h3"
    ∷ "c3a4" ∷ "c3b4" ∷ "c3c4" ∷ "c3d4" ∷ "c3e4" ∷ "c3a5" ∷ "c3b5" ∷ "c3c5" ∷ "c3d5" ∷ "c3e5"
    ∷ "c3c6" ∷ "c3f6" ∷ "c3c7" ∷ "c3g7" ∷ "c3c8" ∷ "c3h8" ∷ "d3b1" ∷ "d3c1" ∷ "d3d1" ∷ "d3e1"
    ∷ "d3f1" ∷ "d3b2" ∷ "d3c2" ∷ "d3d2" ∷ "d3e2" ∷ "d3f2" ∷ "d3a3" ∷ "d3b3" ∷ "d3c3" ∷ "d3e3"
    ∷ "d3f3" ∷ "d3g3" ∷ "d3h3" ∷ "d3b4" ∷ "d3c4" ∷ "d3d4" ∷ "d3e4" ∷ "d3f4" ∷ "d3b5" ∷ "d3c5"
    ∷ "d3d5" ∷ "d3e5" ∷ "d3f5" ∷ "d3a6" ∷ "d3d6" ∷ "d3g6" ∷ "d3d7" ∷ "d3h7" ∷ "d3d8" ∷ "e3c1"
    ∷ "e3d1" ∷ "e3e1" ∷ "e3f1" ∷ "e3g1" ∷ "e3c2" ∷ "e3d2" ∷ "e3e2" ∷ "e3f2" ∷ "e3g2" ∷ "e3a3"
    ∷ "e3b3" ∷ "e3c3" ∷ "e3d3" ∷ "e3f3" ∷ "e3g3" ∷ "e3h3" ∷ "e3c4" ∷ "e3d4" ∷ "e3e4" ∷ "e3f4"
    ∷ "e3g4" ∷ "e3c5" ∷ "e3d5" ∷ "e3e5" ∷ "e3f5" ∷ "e3g5" ∷ "e3b6" ∷ "e3e6" ∷ "e3h6" ∷ "e3a7"
    ∷ "e3e7" ∷ "e3e8" ∷ "f3d1" ∷ "f3e1" ∷ "f3f1" ∷ "f3g1" ∷ "f3h1" ∷ "f3d2" ∷ "f3e2" ∷ "f3f2"
    ∷ "f3g2" ∷ "f3h2" ∷ "f3a3" ∷ "f3b3" ∷ "f3c3" ∷ "f3d3" ∷ "f3e3" ∷ "f3g3" ∷ "f3h3" ∷ "f3d4"
    ∷ "f3e4" ∷ "f3f4" ∷ "f3g4" ∷ "f3h4" ∷ "f3d5" ∷ "f3e5" ∷ "f3f5" ∷ "f3g5" ∷ "f3h5" ∷ []

unfoldable pub moves_6 : List String
moves_6 =
    "f3c6" ∷ "f3f6" ∷ "f3b7" ∷ "f3f7" ∷ "f3a8" ∷ "f3f8" ∷ "g3e1" ∷ "g3f1" ∷ "g3g1" ∷ "g3h1" ∷ "g3e2"
    ∷ "g3f2" ∷ "g3g2" ∷ "g3h2" ∷ "g3a3" ∷ "g3b3" ∷ "g3c3" ∷ "g3d3" ∷ "g3e3" ∷ "g3f3" ∷ "g3h3"
    ∷ "g3e4" ∷ "g3f4" ∷ "g3g4" ∷ "g3h4" ∷ "g3e5" ∷ "g3f5" ∷ "g3g5" ∷ "g3h5" ∷ "g3d6" ∷ "g3g6"
    ∷ "g3c7" ∷ "g3g7" ∷ "g3b8" ∷ "g3g8" ∷ "h3f1" ∷ "h3g1" ∷ "h3h1" ∷ "h3f2" ∷ "h3g2" ∷ "h3h2"
    ∷ "h3a3" ∷ "h3b3" ∷ "h3c3" ∷ "h3d3" ∷ "h3e3" ∷ "h3f3" ∷ "h3g3" ∷ "h3f4" ∷ "h3g4" ∷ "h3h4"
    ∷ "h3f5" ∷ "h3g5" ∷ "h3h5" ∷ "h3e6" ∷ "h3h6" ∷ "h3d7" ∷ "h3h7" ∷ "h3c8" ∷ "h3h8" ∷ "a4a1"
    ∷ "a4d1" ∷ "a4a2" ∷ "a4b2" ∷ "a4c2" ∷ "a4a3" ∷ "a4b3" ∷ "a4c3" ∷ "a4b4" ∷ "a4c4" ∷ "a4d4"
    ∷ "a4e4" ∷ "a4f4" ∷ "a4g4" ∷ "a4h4" ∷ "a4a5" ∷ "a4b5" ∷ "a4c5" ∷ "a4a6" ∷ "a4b6" ∷ "a4c6"
    ∷ "a4a7" ∷ "a4d7" ∷ "a4a8" ∷ "a4e8" ∷ "b4b1" ∷ "b4e1" ∷ "b4a2" ∷ "b4b2" ∷ "b4c2" ∷ "b4d2"
    ∷ "b4a3" ∷ "b4b3" ∷ "b4c3" ∷ "b4d3" ∷ "b4a4" ∷ "b4c4" ∷ "b4d4" ∷ "b4e4" ∷ "b4f4" ∷ "b4g4"
    ∷ "b4h4" ∷ "b4a5" ∷ "b4b5" ∷ "b4c5" ∷ "b4d5" ∷ "b4a6" ∷ "b4b6" ∷ "b4c6" ∷ "b4d6" ∷ "b4b7"
    ∷ "b4e7" ∷ "b4b8" ∷ "b4f8" ∷ "c4c1" ∷ "c4f1" ∷ "c4a2" ∷ "c4b2" ∷ "c4c2" ∷ "c4d2" ∷ []

unfoldable pub moves_7 : List String
moves_7 =
    "c4e2" ∷ "c4a3" ∷ "c4b3" ∷ "c4c3" ∷ "c4d3" ∷ "c4e3" ∷ "c4a4" ∷ "c4b4" ∷ "c4d4" ∷ "c4e4" ∷ "c4f4"
    ∷ "c4g4" ∷ "c4h4" ∷ "c4a5" ∷ "c4b5" ∷ "c4c5" ∷ "c4d5" ∷ "c4e5" ∷ "c4a6" ∷ "c4b6" ∷ "c4c6"
    ∷ "c4d6" ∷ "c4e6" ∷ "c4c7" ∷ "c4f7" ∷ "c4c8" ∷ "c4g8" ∷ "d4a1" ∷ "d4d1" ∷ "d4g1" ∷ "d4b2"
    ∷ "d4c2" ∷ "d4d2" ∷ "d4e2" ∷ "d4f2" ∷ "d4b3" ∷ "d4c3" ∷ "d4d3" ∷ "d4e3" ∷ "d4f3" ∷ "d4a4"
    ∷ "d4b4" ∷ "d4c4" ∷ "d4e4" ∷ "d4f4" ∷ "d4g4" ∷ "d4h4" ∷ "d4b5" ∷ "d4c5" ∷ "d4d5" ∷ "d4e5"
    ∷ "d4f5" ∷ "d4b6" ∷ "d4c6" ∷ "d4d6" ∷ "d4e6" ∷ "d4f6" ∷ "d4a7" ∷ "d4d7" ∷ "d4g7" ∷ "d4d8"
    ∷ "d4h8" ∷ "e4b1" ∷ "e4e1" ∷ "e4h1" ∷ "e4c2" ∷ "e4d2" ∷ "e4e2" ∷ "e4f2" ∷ "e4g2" ∷ "e4c3"
    ∷ "e4d3" ∷ "e4e3" ∷ "e4f3" ∷ "e4g3" ∷ "e4a4" ∷ "e4b4" ∷ "e4c4" ∷ "e4d4" ∷ "e4f4" ∷ "e4g4"
    ∷ "e4h4" ∷ "e4c5" ∷ "e4d5" ∷ "e4e5" ∷ "e4f5" ∷ "e4g5" ∷ "e4c6" ∷ "e4d6" ∷ "e4e6" ∷ "e4f6"
    ∷ "e4g6" ∷ "e4b7" ∷ "e4e7" ∷ "e4h7" ∷ "e4a8" ∷ "e4e8" ∷ "f4c1" ∷ "f4f1" ∷ "f4d2" ∷ "f4e2"
    ∷ "f4f2" ∷ "f4g2" ∷ "f4h2" ∷ "f4d3" ∷ "f4e3" ∷ "f4f3" ∷ "f4g3" ∷ "f4h3" ∷ "f4a4" ∷ "f4b4"
    ∷ "f4c4" ∷ "f4d4" ∷ "f4e4" ∷ "f4g4" ∷ "f4h4" ∷ "f4d5" ∷ "f4e5" ∷ "f4f5" ∷ "f4g5" ∷ []

unfoldable pub moves_8 : List String
moves_8 =
    "f4h5" ∷ "f4d6" ∷ "f4e6" ∷ "f4f6" ∷ "f4g6" ∷ "f4h6" ∷ "f4c7" ∷ "f4f7" ∷ "f4b8" ∷ "f4f8" ∷ "g4d1"
    ∷ "g4g1" ∷ "g4e2" ∷ "g4f2" ∷ "g4g2" ∷ "g4h2" ∷ "g4e3" ∷ "g4f3" ∷ "g4g3" ∷ "g4h3" ∷ "g4a4"
    ∷ "g4b4" ∷ "g4c4" ∷ "g4d4" ∷ "g4e4" ∷ "g4f4" ∷ "g4h4" ∷ "g4e5" ∷ "g4f5" ∷ "g4g5" ∷ "g4h5"
    ∷ "g4e6" ∷ "g4f6" ∷ "g4g6" ∷ "g4h6" ∷ "g4d7" ∷ "g4g7" ∷ "g4c8" ∷ "g4g8" ∷ "h4e1" ∷ "h4h1"
    ∷ "h4f2" ∷ "h4g2" ∷ "h4h2" ∷ "h4f3" ∷ "h4g3" ∷ "h4h3" ∷ "h4a4" ∷ "h4b4" ∷ "h4c4" ∷ "h4d4"
    ∷ "h4e4" ∷ "h4f4" ∷ "h4g4" ∷ "h4f5" ∷ "h4g5" ∷ "h4h5" ∷ "h4f6" ∷ "h4g6" ∷ "h4h6" ∷ "h4e7"
    ∷ "h4h7" ∷ "h4d8" ∷ "h4h8" ∷ "a5a1" ∷ "a5e1" ∷ "a5a2" ∷ "a5d2" ∷ "a5a3" ∷ "a5b3" ∷ "a5c3"
    ∷ "a5a4" ∷ "a5b4" ∷ "a5c4" ∷ "a5b5" ∷ "a5c5" ∷ "a5d5" ∷ "a5e5" ∷ "a5f5" ∷ "a5g5" ∷ "a5h5"
    ∷ "a5a6" ∷ "a5b6" ∷ "a5c6" ∷ "a5a7" ∷ "a5b7" ∷ "a5c7" ∷ "a5a8" ∷ "a5d8" ∷ "b5b1" ∷ "b5f1"
    ∷ "b5b2" ∷ "b5e2" ∷ "b5a3" ∷ "b5b3" ∷ "b5c3" ∷ "b5d3" ∷ "b5a4" ∷ "b5b4" ∷ "b5c4" ∷ "b5d4"
    ∷ "b5a5" ∷ "b5c5" ∷ "b5d5" ∷ "b5e5" ∷ "b5f5" ∷ "b5g5" ∷ "b5h5" ∷ "b5a6" ∷ "b5b6" ∷ "b5c6"
    ∷ "b5d6" ∷ []
