-- ===== src/Move/Index/Part1.antt =====
-- Rows of `kIdxToMove` of src/chess/bitboard.cc.
use lc.Base.{List, [], ◌∷◌}
use Prim.Native.String.{String}

unfoldable pub moves_1 : List String
moves_1 =
    "a1b1" ∷ "a1c1" ∷ "a1d1" ∷ "a1e1" ∷ "a1f1" ∷ "a1g1" ∷ "a1h1" ∷ "a1a2" ∷ "a1b2" ∷ "a1c2" ∷ "a1a3"
    ∷ "a1b3" ∷ "a1c3" ∷ "a1a4" ∷ "a1d4" ∷ "a1a5" ∷ "a1e5" ∷ "a1a6" ∷ "a1f6" ∷ "a1a7" ∷ "a1g7"
    ∷ "a1a8" ∷ "a1h8" ∷ "b1a1" ∷ "b1c1" ∷ "b1d1" ∷ "b1e1" ∷ "b1f1" ∷ "b1g1" ∷ "b1h1" ∷ "b1a2"
    ∷ "b1b2" ∷ "b1c2" ∷ "b1d2" ∷ "b1a3" ∷ "b1b3" ∷ "b1c3" ∷ "b1d3" ∷ "b1b4" ∷ "b1e4" ∷ "b1b5"
    ∷ "b1f5" ∷ "b1b6" ∷ "b1g6" ∷ "b1b7" ∷ "b1h7" ∷ "b1b8" ∷ "c1a1" ∷ "c1b1" ∷ "c1d1" ∷ "c1e1"
    ∷ "c1f1" ∷ "c1g1" ∷ "c1h1" ∷ "c1a2" ∷ "c1b2" ∷ "c1c2" ∷ "c1d2" ∷ "c1e2" ∷ "c1a3" ∷ "c1b3"
    ∷ "c1c3" ∷ "c1d3" ∷ "c1e3" ∷ "c1c4" ∷ "c1f4" ∷ "c1c5" ∷ "c1g5" ∷ "c1c6" ∷ "c1h6" ∷ "c1c7"
    ∷ "c1c8" ∷ "d1a1" ∷ "d1b1" ∷ "d1c1" ∷ "d1e1" ∷ "d1f1" ∷ "d1g1" ∷ "d1h1" ∷ "d1b2" ∷ "d1c2"
    ∷ "d1d2" ∷ "d1e2" ∷ "d1f2" ∷ "d1b3" ∷ "d1c3" ∷ "d1d3" ∷ "d1e3" ∷ "d1f3" ∷ "d1a4" ∷ "d1d4"
    ∷ "d1g4" ∷ "d1d5" ∷ "d1h5" ∷ "d1d6" ∷ "d1d7" ∷ "d1d8" ∷ "e1a1" ∷ "e1b1" ∷ "e1c1" ∷ "e1d1"
    ∷ "e1f1" ∷ "e1g1" ∷ "e1h1" ∷ "e1c2" ∷ "e1d2" ∷ "e1e2" ∷ "e1f2" ∷ "e1g2" ∷ "e1c3" ∷ "e1d3"
    ∷ "e1e3" ∷ "e1f3" ∷ "e1g3" ∷ "e1b4" ∷ "e1e4" ∷ "e1h4" ∷ "e1a5" ∷ "e1e5" ∷ "e1e6" ∷ []

unfoldable pub moves_2 : List String
moves_2 =
    "e1e7" ∷ "e1e8" ∷ "f1a1" ∷ "f1b1" ∷ "f1c1" ∷ "f1d1" ∷ "f1e1" ∷ "f1g1" ∷ "f1h1" ∷ "f1d2" ∷ "f1e2"
    ∷ "f1f2" ∷ "f1g2" ∷ "f1h2" ∷ "f1d3" ∷ "f1e3" ∷ "f1f3" ∷ "f1g3" ∷ "f1h3" ∷ "f1c4" ∷ "f1f4"
    ∷ "f1b5" ∷ "f1f5" ∷ "f1a6" ∷ "f1f6" ∷ "f1f7" ∷ "f1f8" ∷ "g1a1" ∷ "g1b1" ∷ "g1c1" ∷ "g1d1"
    ∷ "g1e1" ∷ "g1f1" ∷ "g1h1" ∷ "g1e2" ∷ "g1f2" ∷ "g1g2" ∷ "g1h2" ∷ "g1e3" ∷ "g1f3" ∷ "g1g3"
    ∷ "g1h3" ∷ "g1d4" ∷ "g1g4" ∷ "g1c5" ∷ "g1g5" ∷ "g1b6" ∷ "g1g6" ∷ "g1a7" ∷ "g1g7" ∷ "g1g8"
    ∷ "h1a1" ∷ "h1b1" ∷ "h1c1" ∷ "h1d1" ∷ "h1e1" ∷ "h1f1" ∷ "h1g1" ∷ "h1f2" ∷ "h1g2" ∷ "h1h2"
    ∷ "h1f3" ∷ "h1g3" ∷ "h1h3" ∷ "h1e4" ∷ "h1h4" ∷ "h1d5" ∷ "h1h5" ∷ "h1c6" ∷ "h1h6" ∷ "h1b7"
    ∷ "h1h7" ∷ "h1a8" ∷ "h1h8" ∷ "a2a1" ∷ "a2b1" ∷ "a2c1" ∷ "a2b2" ∷ "a2c2" ∷ "a2d2" ∷ "a2e2"
    ∷ "a2f2" ∷ "a2g2" ∷ "a2h2" ∷ "a2a3" ∷ "a2b3" ∷ "a2c3" ∷ "a2a4" ∷ "a2b4" ∷ "a2c4" ∷ "a2a5"
    ∷ "a2d5" ∷ "a2a6" ∷ "a2e6" ∷ "a2a7" ∷ "a2f7" ∷ "a2a8" ∷ "a2g8" ∷ "b2a1" ∷ "b2b1" ∷ "b2c1"
    ∷ "b2d1" ∷ "b2a2" ∷ "b2c2" ∷ "b2d2" ∷ "b2e2" ∷ "b2f2" ∷ "b2g2" ∷ "b2h2" ∷ "b2a3" ∷ "b2b3"
    ∷ "b2c3" ∷ "b2d3" ∷ "b2a4" ∷ "b2b4" ∷ "b2c4" ∷ "b2d4" ∷ "b2b5" ∷ "b2e5" ∷ "b2b6" ∷ []

unfoldable pub moves_3 : List String
moves_3 =
    "b2f6" ∷ "b2b7" ∷ "b2g7" ∷ "b2b8" ∷ "b2h8" ∷ "c2a1" ∷ "c2b1" ∷ "c2c1" ∷ "c2d1" ∷ "c2e1" ∷ "c2a2"
    ∷ "c2b2" ∷ "c2d2" ∷ "c2e2" ∷ "c2f2" ∷ "c2g2" ∷ "c2h2" ∷ "c2a3" ∷ "c2b3" ∷ "c2c3" ∷ "c2d3"
    ∷ "c2e3" ∷ "c2a4" ∷ "c2b4" ∷ "c2c4" ∷ "c2d4" ∷ "c2e4" ∷ "c2c5" ∷ "c2f5" ∷ "c2c6" ∷ "c2g6"
    ∷ "c2c7" ∷ "c2h7" ∷ "c2c8" ∷ "d2b1" ∷ "d2c1" ∷ "d2d1" ∷ "d2e1" ∷ "d2f1" ∷ "d2a2" ∷ "d2b2"
    ∷ "d2c2" ∷ "d2e2" ∷ "d2f2" ∷ "d2g2" ∷ "d2h2" ∷ "d2b3" ∷ "d2c3" ∷ "d2d3" ∷ "d2e3" ∷ "d2f3"
    ∷ "d2b4" ∷ "d2c4" ∷ "d2d4" ∷ "d2e4" ∷ "d2f4" ∷ "d2a5" ∷ "d2d5" ∷ "d2g5" ∷ "d2d6" ∷ "d2h6"
    ∷ "d2d7" ∷ "d2d8" ∷ "e2c1" ∷ "e2d1" ∷ "e2e1" ∷ "e2f1" ∷ "e2g1" ∷ "e2a2" ∷ "e2b2" ∷ "e2c2"
    ∷ "e2d2" ∷ "e2f2" ∷ "e2g2" ∷ "e2h2" ∷ "e2c3" ∷ "e2d3" ∷ "e2e3" ∷ "e2f3" ∷ "e2g3" ∷ "e2c4"
    ∷ "e2d4" ∷ "e2e4" ∷ "e2f4" ∷ "e2g4" ∷ "e2b5" ∷ "e2e5" ∷ "e2h5" ∷ "e2a6" ∷ "e2e6" ∷ "e2e7"
    ∷ "e2e8" ∷ "f2d1" ∷ "f2e1" ∷ "f2f1" ∷ "f2g1" ∷ "f2h1" ∷ "f2a2" ∷ "f2b2" ∷ "f2c2" ∷ "f2d2"
    ∷ "f2e2" ∷ "f2g2" ∷ "f2h2" ∷ "f2d3" ∷ "f2e3" ∷ "f2f3" ∷ "f2g3" ∷ "f2h3" ∷ "f2d4" ∷ "f2e4"
    ∷ "f2f4" ∷ "f2g4" ∷ "f2h4" ∷ "f2c5" ∷ "f2f5" ∷ "f2b6" ∷ "f2f6" ∷ "f2a7" ∷ "f2f7" ∷ []

unfoldable pub moves_4 : List String
moves_4 =
    "f2f8" ∷ "g2e1" ∷ "g2f1" ∷ "g2g1" ∷ "g2h1" ∷ "g2a2" ∷ "g2b2" ∷ "g2c2" ∷ "g2d2" ∷ "g2e2" ∷ "g2f2"
    ∷ "g2h2" ∷ "g2e3" ∷ "g2f3" ∷ "g2g3" ∷ "g2h3" ∷ "g2e4" ∷ "g2f4" ∷ "g2g4" ∷ "g2h4" ∷ "g2d5"
    ∷ "g2g5" ∷ "g2c6" ∷ "g2g6" ∷ "g2b7" ∷ "g2g7" ∷ "g2a8" ∷ "g2g8" ∷ "h2f1" ∷ "h2g1" ∷ "h2h1"
    ∷ "h2a2" ∷ "h2b2" ∷ "h2c2" ∷ "h2d2" ∷ "h2e2" ∷ "h2f2" ∷ "h2g2" ∷ "h2f3" ∷ "h2g3" ∷ "h2h3"
    ∷ "h2f4" ∷ "h2g4" ∷ "h2h4" ∷ "h2e5" ∷ "h2h5" ∷ "h2d6" ∷ "h2h6" ∷ "h2c7" ∷ "h2h7" ∷ "h2b8"
    ∷ "h2h8" ∷ "a3a1" ∷ "a3b1" ∷ "a3c1" ∷ "a3a2" ∷ "a3b2" ∷ "a3c2" ∷ "a3b3" ∷ "a3c3" ∷ "a3d3"
    ∷ "a3e3" ∷ "a3f3" ∷ "a3g3" ∷ "a3h3" ∷ "a3a4" ∷ "a3b4" ∷ "a3c4" ∷ "a3a5" ∷ "a3b5" ∷ "a3c5"
    ∷ "a3a6" ∷ "a3d6" ∷ "a3a7" ∷ "a3e7" ∷ "a3a8" ∷ "a3f8" ∷ "b3a1" ∷ "b3b1" ∷ "b3c1" ∷ "b3d1"
    ∷ "b3a2" ∷ "b3b2" ∷ "b3c2" ∷ "b3d2" ∷ "b3a3" ∷ "b3c3" ∷ "b3d3" ∷ "b3e3" ∷ "b3f3" ∷ "b3g3"
    ∷ "b3h3" ∷ "b3a4" ∷ "b3b4" ∷ "b3c4" ∷ "b3d4" ∷ "b3a5" ∷ "b3b5" ∷ "b3c5" ∷ "b3d5" ∷ "b3b6"
    ∷ "b3e6" ∷ "b3b7" ∷ "b3f7" ∷ "b3b8" ∷ "b3g8" ∷ "c3a1" ∷ "c3b1" ∷ "c3c1" ∷ "c3d1" ∷ "c3e1"
    ∷ "c3a2" ∷ []
