-- ===== src/Position.antt =====
-- `Position` and `PositionHistory` of src/chess/position.h and src/chess/position.cc.
pub mod Laws
pub mod Repetition
pub mod Result
use lc.Base.{
  ℕ, zero, suc, ◌+◌, ◌-◌, ◌%◌, ◌^◌, Bool, true, false, not, ◌&&◌, ◌==◌, ltb, List, [], ◌∷◌, ◌++◌,
  Option, none, some, if◌then◌else◌, length,
}
use lc.Base.Int.{ℤ, pos, negsuc, ◌+ℤ◌, ltb_ℤ, leb_ℤ, eq_ℤ}
use lc.Hash.{hash_cat, hash_cat_list}
use lc.Move.{Move}
use lc.Board
use lc.Board.{ChessBoard, same_board, we_can_00, we_can_000, they_can_00, they_can_000}
use lc.Board.Magic.{Magic}
use lc.Board.Attack.{is_under_check}
use lc.Board.Apply.{apply_move}
use lc.Board.Legal.{generate_legal_moves}
use lc.Board.Mating.{has_mating_material}
use lc.Board.Print
use lc.Board.Print.{hash_board}

pub record Position : Type 0 where
  -- The board from the point of view of the player to move, and of the opponent.
  pub us_board : ChessBoard
  pub them_board : ChessBoard
  -- How many half-moves without capture or pawn move was there.
  pub no_capture_ply : ℤ
  -- How many repetitions this position had before.
  pub repetitions : ℕ
  -- Number of half-moves since beginning of the game.
  pub ply_count : ℤ

-- Position(const Position& parent, Move m). The constructor leaves `repetitions_` without a value:
-- what happens to stand there is an argument.
unfoldable pub of_move : ℕ → Position → Move → Position
of_move uninitialised parent m =
    let (them, capture) = apply_move parent.us_board m in
    record {
      us_board = Board.mirror them;
      them_board = them;
      no_capture_ply = if capture then pos 0 else parent.no_capture_ply +ℤ pos 1;
      repetitions = uninitialised;
      ply_count = parent.ply_count +ℤ pos 1;
    }

-- Position(const ChessBoard& board, int no_capture_ply, int game_ply)
unfoldable pub of_board : ChessBoard → ℤ → ℤ → Position
of_board board no_capture_ply game_ply = record {
  us_board = board;
  them_board = Board.mirror board;
  no_capture_ply = no_capture_ply;
  repetitions = 0;
  ply_count = game_ply;
}

unfoldable pub hash : Position → ℕ
hash p = hash_cat_list (hash_board p.us_board ∷ p.repetitions ∷ [])

abbrev pub is_black_to_move : Position → Bool
is_black_to_move p = p.us_board.flipped

abbrev pub set_repetitions : Position → ℕ → Position
set_repetitions p n = record p { repetitions = n }

pub data Castling : Type 0 where
  we_can_ooo we_can_oo they_can_ooo they_can_oo : Castling

unfoldable pub can_castle : Position → Castling → Bool
can_castle p Castling.we_can_ooo = we_can_000 p.us_board.castlings
can_castle p Castling.we_can_oo = we_can_00 p.us_board.castlings
can_castle p Castling.they_can_ooo = they_can_000 p.us_board.castlings
can_castle p Castling.they_can_oo = they_can_00 p.us_board.castlings

abbrev pub debug_string : Position → List ℕ
debug_string p = Print.debug_string p.us_board

pub data GameResult : Type 0 where
  undecided white_won draw black_won : GameResult

-- PositionHistory: the head of the list is the back of the vector. A read of the back of an empty
-- vector, which is undefined, is `none`.
abbrev pub PositionHistory : Type 0
PositionHistory = List Position

unfoldable pub last : PositionHistory → Option Position
last [] = none
last (p ∷ ps) = some p

unfoldable pub starting : PositionHistory → Option Position
starting [] = none
starting (p ∷ []) = some p
starting (p ∷ q ∷ ps) = starting (q ∷ ps)

abbrev pub get_length : PositionHistory → ℕ
get_length h = length h

-- Trim(size), for a size up to the length: the newest positions go.
unfoldable pub trim : PositionHistory → ℕ → PositionHistory
trim [] size = []
trim (p ∷ ps) size = let rest = trim ps size in if ltb size (length (p ∷ ps)) then rest else p ∷ ps

-- GetPositionAt(idx), 0-based from the oldest.
unfoldable pub get_position_at : PositionHistory → ℕ → Option Position
get_position_at [] idx = none
get_position_at (p ∷ ps) idx =
    let rest = get_position_at ps idx in if idx == length ps then some p else rest

unfoldable pub reset : ChessBoard → ℤ → ℤ → PositionHistory
reset board no_capture_ply game_ply = of_board board no_capture_ply game_ply ∷ []

-- The loop of `ComputeLastMoveRepetitions`, over the positions before the last: it looks at every
-- second one.
unfoldable pub look_back : ChessBoard → List Position → ℕ
look_back board [] = 0
look_back board (p ∷ []) = 0
look_back board (p ∷ q ∷ ps) =
    let rest = look_back board ps in
    if same_board q.us_board board
    then 1 + q.repetitions
    else if ltb_ℤ q.no_capture_ply (pos 2)
    then 0
    else rest

unfoldable pub compute_last_move_repetitions : Position → List Position → ℕ
compute_last_move_repetitions p before =
    if ltb_ℤ p.no_capture_ply (pos 4) then 0 else look_back p.us_board before

unfoldable pub append : ℕ → PositionHistory → Move → Option PositionHistory
append uninitialised [] m = none
append uninitialised (p ∷ ps) m =
    let q = of_move uninitialised p m in
    some (set_repetitions q (compute_last_move_repetitions q (p ∷ ps)) ∷ p ∷ ps)

unfoldable pub pop : PositionHistory → Option PositionHistory
pop [] = none
pop (p ∷ ps) = some ps

unfoldable pub did_repeat_since_last_zeroing_move : PositionHistory → Bool
did_repeat_since_last_zeroing_move [] = false
did_repeat_since_last_zeroing_move (p ∷ ps) =
    let rest = did_repeat_since_last_zeroing_move ps in
    if ltb 0 p.repetitions then true else if eq_ℤ p.no_capture_ply (pos 0) then false else rest

-- The loop of `HashLast`: the newest `positions` positions; for a negative number it does not end
-- before the oldest.
unfoldable pub hash_from : ℕ → ℕ → PositionHistory → ℕ
hash_from h positions [] = h
hash_from h zero (p ∷ ps) = h
hash_from h (suc n) (p ∷ ps) = hash_from (hash_cat h (hash p)) n ps

-- An `int` as a `uint64_t`.
abbrev pub to_word : ℤ → ℕ
to_word (pos n) = n % 2 ^ 64
to_word (negsuc n) = 2 ^ 64 - 1 - n % 2 ^ 64

-- HashLast, for a number of positions that is not negative.
unfoldable pub hash_last : ℕ → PositionHistory → Option ℕ
hash_last positions [] = none
hash_last positions (p ∷ ps) =
    some (hash_cat (hash_from positions positions (p ∷ ps)) (to_word p.no_capture_ply))

abbrev is_nil {ℓ} : {A : Type ℓ} → List A → Bool
is_nil [] = true
is_nil (x ∷ xs) = false

-- ComputeGameResult, for the last position.
unfoldable pub result_of : Magic → Position → GameResult
result_of g p =
    if is_nil (generate_legal_moves g p.us_board)
    then (if is_under_check g p.us_board
        then (if is_black_to_move p then GameResult.white_won else GameResult.black_won)
        else GameResult.draw)
    else if not (has_mating_material p.us_board)
    then GameResult.draw
    else if leb_ℤ (pos 100) p.no_capture_ply
    then GameResult.draw
    else if leb_ℤ (pos 450) p.ply_count
    then GameResult.draw
    else if ltb 1 p.repetitions
    then GameResult.draw
    else GameResult.undecided

unfoldable pub compute_game_result : Magic → PositionHistory → Option GameResult
compute_game_result g [] = none
compute_game_result g (p ∷ ps) = some (result_of g p)
