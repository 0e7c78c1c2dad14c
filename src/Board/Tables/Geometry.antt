-- ===== src/Board/Tables/Geometry.antt =====
-- The constant attack tables of src/chess/board.cc against the geometry of the pieces.
use lc.Base.{
  ℕ, ◌+◌, ◌-◌, ◌*◌, ◌<◌, ◌≡◌, refl, Bool, true, not, ◌&&◌, ◌||◌, ◌==◌, ltb, all_below,
  all_below_sound, arith,
}
use lc.Square.{BoardSquare, row, col}
use lc.BitBoard.{get}
use lc.Board.{bool_eq}
use lc.Board.Rights.{bool_eq→eq}
use lc.Board.Tables.{
  rook_attacks, bishop_attacks, knight_attacks, pawn_attacks, rook_attack_table,
  bishop_attack_table, knight_attack_table, pawn_attack_table,
}

abbrev distance : ℕ → ℕ → ℕ
distance a b = (a - b) + (b - a)

abbrev pub rows_apart : BoardSquare → BoardSquare → ℕ
rows_apart s t = distance (row s) (row t)

abbrev pub cols_apart : BoardSquare → BoardSquare → ℕ
cols_apart s t = distance (col s) (col t)

abbrev pub on_rook_line : BoardSquare → BoardSquare → Bool
on_rook_line s t = not (s == t) && ((rows_apart s t == 0) || (cols_apart s t == 0))

abbrev pub on_bishop_line : BoardSquare → BoardSquare → Bool
on_bishop_line s t = not (s == t) && (rows_apart s t == cols_apart s t)

abbrev pub knight_jump : BoardSquare → BoardSquare → Bool
knight_jump s t = rows_apart s t * cols_apart s t == 2

abbrev pub pawn_capture : BoardSquare → BoardSquare → Bool
pawn_capture s t = (row t == row s + 1) && ltb (row t) 7 && (cols_apart s t == 1)

agree : ℕ → ℕ → Bool
agree s t =
    bool_eq (get (rook_attacks s) t) (on_rook_line s t)
    && bool_eq (get (bishop_attacks s) t) (on_bishop_line s t)
    && bool_eq (get (knight_attacks s) t) (knight_jump s t)
    && bool_eq (get (pawn_attacks s) t) (pawn_capture s t)

agree_all : ℕ → Bool
agree_all s = all_below 64 (agree s)

agree_table : all_below 64 agree_all ≡ true
unfolding agree_all agree all_below bool_eq get rook_attacks bishop_attacks knight_attacks
    pawn_attacks rook_attack_table bishop_attack_table knight_attack_table pawn_attack_table
agree_table = refl

-- Between any two squares of the board: the table of the rook has those of the same row or column,
-- that of the bishop those of the same diagonal, that of the knight those two steps one way and one
-- the other, that of the pawn those one row up in a neighbouring column, up to the seventh row.
pub attacks_lem :
    (s t : BoardSquare)
    → s < 64
    → t < 64
    → (get (rook_attacks s) t ≡ on_rook_line s t)
      × (get (bishop_attacks s) t ≡ on_bishop_line s t)
      × (get (knight_attacks s) t ≡ knight_jump s t)
      × (get (pawn_attacks s) t ≡ pawn_capture s t)
unfolding agree_all agree
attacks_lem s t hs ht =
    let row_agrees = all_below_sound 64 agree_all s agree_table hs in
    let h = all_below_sound 64 (agree s) t row_agrees ht in
    ground (
      arith,
      h,
      bool_eq→eq (get (rook_attacks s) t) (on_rook_line s t),
      bool_eq→eq (get (bishop_attacks s) t) (on_bishop_line s t),
      bool_eq→eq (get (knight_attacks s) t) (knight_jump s t),
      bool_eq→eq (get (pawn_attacks s) t) (pawn_capture s t),
    )
