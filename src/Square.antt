-- ===== src/Square.antt =====
-- `BoardSquare` of src/chess/bitboard.h: a square as a number from 0 (a1) to 63 (h8).
use lc.Base.{ℕ, ◌+◌, ◌-◌, ◌*◌, ◌/◌, ◌%◌, bit_xor, Bool, ◌&&◌, List, [], ◌∷◌, if◌then◌else◌, get_or}
use lc.Base.Int.{ℤ, pos, negsuc, ltb_ℤ, leb_ℤ, ◌+ℤ◌, ◌*ℤ◌}

-- The `uint8_t` in which the class keeps the square.
abbrev pub BoardSquare : Type 0
BoardSquare = ℕ

-- An `int` cut to a byte.
abbrev pub to_byte : ℤ → ℕ
to_byte (pos n) = n % 256
to_byte (negsuc n) = 255 - n % 256

-- BoardSquare(int row, int col), for coordinates that are not negative.
abbrev pub square : ℕ → ℕ → BoardSquare
square row col = (row * 8 + col) % 256

-- The same for any coordinates: the sum is cut to a byte.
abbrev pub square_int : ℤ → ℤ → BoardSquare
square_int r c = to_byte (r *ℤ pos 8 +ℤ c)

abbrev pub row : BoardSquare → ℕ
row s = s / 8

abbrev pub col : BoardSquare → ℕ
col s = s % 8

unfoldable pub mirror : BoardSquare → BoardSquare
mirror s = bit_xor s 0b111000

abbrev pub is_valid_coord : ℤ → Bool
is_valid_coord x = leb_ℤ (pos 0) x && ltb_ℤ x (pos 8)

-- BoardSquare::IsValid
abbrev pub is_valid : ℤ → ℤ → Bool
is_valid r c = leb_ℤ (pos 0) r && leb_ℤ (pos 0) c && ltb_ℤ r (pos 8) && ltb_ℤ c (pos 8)

-- The name of the square as the codes of its two characters.
unfoldable pub as_string : BoardSquare → List ℕ
as_string s = (b'a' + col s) % 256 ∷ (b'1' + row s) % 256 ∷ []

-- BoardSquare(const std::string& str, bool black): the arithmetic on `char` is that of `int`, and
-- the result is cut to a byte.
unfoldable pub of_string : List ℕ → Bool → BoardSquare
of_string str black =
    let file = get_or str 0 0 in
    let rank = get_or str 1 0 in
    if black
    then (b'8' * 8 + 2048 - rank * 8 + file + 256 - b'a') % 256
    else (rank * 8 + 2048 - b'1' * 8 + file + 256 - b'a') % 256
