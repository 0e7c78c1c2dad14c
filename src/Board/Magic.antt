-- ===== src/Board/Magic.antt =====
-- The attack tables of src/chess/board.cc for rooks and bishops, built once and indexed by the pieces on
-- the squares that matter (the build with `_pext_u64`). The tables are static variables of the
-- source; here they are a record that each function takes.
pub mod Rays
pub mod Index
pub mod Build
use mathlib.Core.List.{foldl}
use lc.Base.{
  ℕ, zero, suc, ◌+◌, ◌*◌, ◌/◌, ◌%◌, ◌^◌, ◌==◌, List, [], ◌∷◌, if◌then◌else◌, length, range,
}
use lc.Base.Int.{ℤ, pos, ◌+ℤ◌}
use lc.Square.{BoardSquare, row, col, is_valid, square_int}
use lc.BitBoard.{BitBoard, get, set, set_if, squares}
use lc.Board.Tables.{Direction, rook_directions, bishop_directions}

-- The loop that collects the relevant squares in one direction: those before the last one.
unfoldable pub mask_ray : ℕ → Direction → ℤ → ℤ → BitBoard → BitBoard
mask_ray zero d r c mask = mask
mask_ray (suc fuel) d r c mask =
    let r' = r +ℤ d.0 in
    let c' = c +ℤ d.1 in
    let rest = mask_ray fuel d r' c' (set mask (square_int r' c')) in
    if is_valid (r' +ℤ d.0) (c' +ℤ d.1) then rest else mask

-- The loop that collects the squares attacked in one direction, up to the first piece.
unfoldable pub attack_ray : ℕ → Direction → BitBoard → ℤ → ℤ → BitBoard → BitBoard
attack_ray zero d occupancy r c attacks = attacks
attack_ray (suc fuel) d occupancy r c attacks =
    let r' = r +ℤ d.0 in
    let c' = c +ℤ d.1 in
    let destination = square_int r' c' in
    let found = set attacks destination in
    let rest = attack_ray fuel d occupancy r' c' found in
    if is_valid r' c' then (if get occupancy destination then found else rest) else attacks

-- A ray leaves the board within eight steps.
abbrev pub ray_fuel : ℕ
ray_fuel = 8

unfoldable pub relevant_mask : List Direction → BoardSquare → BitBoard
relevant_mask directions s =
    foldl (λ mask d. mask_ray ray_fuel d (pos (row s)) (pos (col s)) mask) 0 directions

unfoldable pub ray_attacks : List Direction → BoardSquare → BitBoard → BitBoard
ray_attacks directions s occupancy =
    foldl (λ attacks d. attack_ray ray_fuel d occupancy (pos (row s)) (pos (col s)) attacks) 0
      directions

-- The occupancy number `i`: bit `k` of `i` decides the square `k` of the list.
unfoldable pub occupancy_of : List BoardSquare → ℕ → BitBoard → BitBoard
occupancy_of [] i occupancy = occupancy
occupancy_of (s ∷ rest) i occupancy = occupancy_of rest (i / 2) (set_if occupancy s (i % 2 == 1))

-- _pext_u64: the bits of `x` under the mask, moved together; the first argument is the width.
unfoldable pub pext : ℕ → BitBoard → BitBoard → ℕ
pext zero x mask = 0
pext (suc n) x mask =
    let rest = pext n (x / 2) (mask / 2) in if mask % 2 == 1 then x % 2 + 2 * rest else rest

pub record MagicParams : Type 0 where
  pub mask : BitBoard
  -- Where the square's part of the table begins.
  pub attacks_table : ℕ

-- What `BuildAttacksTable` fills: the parameters of each square and the table.
pub record AttackTables : Type 0 where
  pub magic_params : BoardSquare → MagicParams
  pub table : ℕ → BitBoard

abbrev pub write {ℓ} : {A : Type ℓ} → (ℕ → A) → ℕ → A → ℕ → A
write f k v j = if j == k then v else f j

-- The loop over the occupancies of one square, from `i` on, `n` of them.
unfoldable pub fill_table :
    List Direction
    → BoardSquare
    → BitBoard
    → List BoardSquare
    → ℕ
    → ℕ
    → ℕ
    → (ℕ → BitBoard)
    → ℕ
    → BitBoard
fill_table directions s mask occupied offset zero i table = table
fill_table directions s mask occupied offset (suc n) i table =
    let occupancy = occupancy_of occupied i 0 in
    fill_table directions s mask occupied offset n (i + 1)
      (write table (offset + pext 64 occupancy mask) (ray_attacks directions s occupancy))

-- The loop that clears the square's part of the table.
unfoldable pub clear_table : ℕ → ℕ → ℕ → (ℕ → BitBoard) → ℕ → BitBoard
clear_table offset zero i table = table
clear_table offset (suc n) i table = clear_table offset n (i + 1) (write table (offset + i) 0)

-- One round of the loop over the squares, with the offset that the next square begins at.
unfoldable pub build_square : List Direction → BoardSquare → AttackTables × ℕ → AttackTables × ℕ
build_square directions s (t, offset) =
    let mask = relevant_mask directions s in
    let occupied = squares mask in
    let size = 2 ^ length occupied in
    (
      record {
        magic_params = write t.magic_params s (record { mask = mask; attacks_table = offset });
        table =
            fill_table directions s mask occupied offset size 0 (clear_table offset size 0 t.table);
      },
      offset + size,
    )

unfoldable pub build_squares :
    List Direction → List BoardSquare → AttackTables × ℕ → AttackTables × ℕ
build_squares directions [] t = t
build_squares directions (s ∷ rest) t = build_squares directions rest (build_square directions s t)

unfoldable pub build_attacks_table : List Direction → AttackTables → AttackTables
build_attacks_table directions t = (build_squares directions (range 64) (t, 0)).0

-- GetRookAttacks and GetBishopAttacks, over the table of the piece.
unfoldable pub get_attacks : AttackTables → BoardSquare → BitBoard → BitBoard
get_attacks t s pieces =
    let p = t.magic_params s in t.table (p.attacks_table + pext 64 pieces p.mask)

-- The static tables of the file.
pub record Magic : Type 0 where
  pub rook : AttackTables
  pub bishop : AttackTables

unfoldable pub initialize_magic_bitboards : Magic → Magic
initialize_magic_bitboards g = record {
  rook = build_attacks_table rook_directions g.rook;
  bishop = build_attacks_table bishop_directions g.bishop;
}

unfoldable pub get_rook_attacks : Magic → BoardSquare → BitBoard → BitBoard
get_rook_attacks g s pieces = get_attacks g.rook s pieces

unfoldable pub get_bishop_attacks : Magic → BoardSquare → BitBoard → BitBoard
get_bishop_attacks g s pieces = get_attacks g.bishop s pieces
