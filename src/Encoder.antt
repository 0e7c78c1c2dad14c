-- ===== src/Encoder.antt =====
-- `EncodePositionForNN` of src/neural/encoder.cc: the planes of a history for the network. The value of a plane is an
-- integer here, which a `float` holds exactly.
pub mod Planes
use lc.Base.{
  ℕ, zero, suc, ◌+◌, ◌-◌, ◌*◌, ◌%◌, ◌^◌, min, Bool, true, false, not, ◌&&◌, ◌||◌, ◌==◌, ltb, List,
  [], ◌∷◌, ◌++◌, Option, none, some, ◌>>=◌, if◌then◌else◌, length,
}
use lc.Base.Int.{ℤ, pos}
use lc.BitBoard.{BitBoard, intersection, get_lowest_bit}
use lc.Board.{ChessBoard, same_board, we_can_00, we_can_000, they_can_00, they_can_000}
use lc.Board.Pieces.{
  ours, theirs, pawns, bishops, rooks, queens, our_knights, their_knights, our_king, their_king,
  en_passant,
}
use lc.Position.{Position, PositionHistory, last, get_length, get_position_at}

pub record InputPlane : Type 0 where
  pub mask : ℕ
  pub value : ℤ

abbrev pub blank : InputPlane
blank = record { mask = 0; value = pos 1 }

abbrev pub set_all : InputPlane → InputPlane
set_all p = record p { mask = 2 ^ 64 - 1 }

abbrev pub fill : ℤ → InputPlane → InputPlane
fill v p = record { mask = 2 ^ 64 - 1; value = v }

abbrev pub all_if : Bool → InputPlane
all_if b = if b then set_all blank else blank

abbrev pub of_mask : BitBoard → InputPlane
of_mask m = record blank { mask = m }

pub data FillEmptyHistory : Type 0 where
  no : FillEmptyHistory
  fen_only : FillEmptyHistory
  always : FillEmptyHistory

abbrev pub move_history : ℕ
move_history = 8

abbrev pub planes_per_board : ℕ
planes_per_board = 13

-- The planes from kAuxPlaneBase on.
unfoldable pub aux_planes : Position → List InputPlane
aux_planes p =
    let b = p.us_board in
    all_if (we_can_000 b.castlings)
    ∷ all_if (we_can_00 b.castlings)
    ∷ all_if (they_can_000 b.castlings)
    ∷ all_if (they_can_00 b.castlings)
    ∷ all_if b.flipped
    ∷ fill p.no_capture_ply blank
    ∷ blank
    ∷ set_all blank
    ∷ []

-- mask += word << count, in 64 bits
abbrev pub add_shifted : BitBoard → ℕ → ℕ → BitBoard
add_shifted mask word count = (mask + (word * 2 ^ count) % 2 ^ 64) % 2 ^ 64

-- "undo last pawn move by removing the pawn from the new square and putting into pre-move square"
abbrev pub undo_ours : ChessBoard → BitBoard → BitBoard
undo_ours b mask =
    let idx = get_lowest_bit (en_passant b) in
    if ltb idx 8 then add_shifted mask (2 ^ 64 + 0x100 - 0x1000000) idx else mask

abbrev pub undo_theirs : ChessBoard → BitBoard → BitBoard
undo_theirs b mask =
    let idx = get_lowest_bit (en_passant b) in
    if ltb idx 8 then mask else add_shifted mask (0x1000000000000 - 0x100000000) (idx - 56)

-- The 13 planes of a board; `undo` is whether the last pawn move is to be undone.
unfoldable pub board_planes : ChessBoard → ℕ → Bool → List InputPlane
board_planes b repetitions undo =
    let our_pawns = intersection (ours b) (pawns b) in
    let their_pawns = intersection (theirs b) (pawns b) in
    of_mask (if undo then undo_ours b our_pawns else our_pawns)
    ∷ of_mask (our_knights b)
    ∷ of_mask (intersection (ours b) (bishops b))
    ∷ of_mask (intersection (ours b) (rooks b))
    ∷ of_mask (intersection (ours b) (queens b))
    ∷ of_mask (our_king b)
    ∷ of_mask (if undo then undo_theirs b their_pawns else their_pawns)
    ∷ of_mask (their_knights b)
    ∷ of_mask (intersection (theirs b) (bishops b))
    ∷ of_mask (intersection (theirs b) (rooks b))
    ∷ of_mask (intersection (theirs b) (queens b))
    ∷ of_mask (their_king b)
    ∷ all_if (not (repetitions == 0))
    ∷ []

unfoldable pub blanks : ℕ → List InputPlane
blanks zero = []
blanks (suc n) = blank ∷ blanks n

-- Whether the loop ends before a position that the history does not have.
abbrev pub stops : ChessBoard → FillEmptyHistory → Position → Bool
stops start no p = true
stops start fen_only p = same_board p.us_board start
stops start always p = false

-- The loop, with the rounds that are left and the positions that the history has left at this round;
-- the planes of the rounds that it does not come to are blank.
unfoldable pub encode_rounds :
    ℕ → ChessBoard → PositionHistory → FillEmptyHistory → ℕ → Bool → Option (List InputPlane)
encode_rounds zero start h fill_empty left flip = some []
encode_rounds (suc n) start h fill_empty left flip = get_position_at h (left - 1) >>= λ p.
    let board = if flip then p.them_board else p.us_board in
    let missing = left == 0 in
    let flip' = if ltb 1 left then not flip else flip in
    if missing && stops start fill_empty p
    then some (blanks (suc n * planes_per_board))
    else encode_rounds n start h fill_empty (left - 1) flip' >>= λ rest.
        some (board_planes board p.repetitions (missing && not (en_passant board == 0)) ++ rest)

-- `start` is ChessBoard::kStartposBoard.
unfoldable pub encode_position_for_nn :
    ChessBoard → PositionHistory → ℕ → FillEmptyHistory → Option (List InputPlane)
encode_position_for_nn start h history_planes fill_empty = do
  p ← last h
  let rounds = min history_planes move_history
  planes ← encode_rounds rounds start h fill_empty (get_length h) false
  some (planes ++ blanks ((move_history - rounds) * planes_per_board) ++ aux_planes p)
