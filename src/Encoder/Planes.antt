-- ===== src/Encoder/Planes.antt =====
-- The planes of src/neural/encoder.cc, read off the positions of the game.
use lc.Base.{
  ℕ, zero, suc, ◌-◌, ◌*◌, ◌<◌, ◌≡◌, refl, ap, arith, min, Bool, true, false, not, ◌==◌, ltb, List,
  [], ◌∷◌, ◌++◌, some, if◌then◌else◌, length, length-append, Bool-cases, inl, inr,
}
use lc.Board.{ChessBoard}
use lc.Board.Pieces.{en_passant}
use lc.Position.{Position, PositionHistory, last, get_position_at}
use lc.Encoder.{
  InputPlane, FillEmptyHistory, encode_rounds, encode_position_for_nn, blanks, board_planes,
  aux_planes, stops, planes_per_board,
}

-- The board of a position, as the player to move at the end sees it.
abbrev pub side : Bool → Position → ChessBoard
side flip p = if flip then p.them_board else p.us_board

pub repeat : ℕ → List InputPlane → List InputPlane
repeat zero planes = []
repeat (suc n) planes = planes ++ repeat n planes

-- The planes in place of n boards before the oldest position of the history.
pub padding : ℕ → ChessBoard → FillEmptyHistory → Position → ChessBoard → List InputPlane
padding n start f p b =
    if stops start f p
    then blanks (n * planes_per_board)
    else repeat n (board_planes b p.repetitions (not (en_passant b == 0)))

-- The planes of n boards, from the newest position back, with the sides exchanged from each to the next.
pub described : ℕ → ChessBoard → FillEmptyHistory → Bool → PositionHistory → List InputPlane
described n start f flip [] = []
described zero start f flip (p ∷ ps) = []
described (suc n) start f flip (p ∷ []) =
    board_planes (side flip p) p.repetitions false ++ padding n start f p (side flip p)
described (suc n) start f flip (p ∷ q ∷ ps) =
    board_planes (side flip p) p.repetitions false ++ described n start f (not flip) (q ∷ ps)

length-blanks : (n : ℕ) → length (blanks n) ≡ n
unfolding blanks
length-blanks zero = refl
length-blanks (suc n) = ap suc (length-blanks n)

length-aux_planes : (p : Position) → length (aux_planes p) ≡ 8
unfolding aux_planes
length-aux_planes p = refl

length-board_planes : (b : ChessBoard) (n : ℕ) (undo : Bool) → length (board_planes b n undo) ≡ 13
unfolding board_planes
length-board_planes b n undo = refl

get_position_at-append :
    (newer : PositionHistory) (p : Position) (older : PositionHistory)
    → get_position_at (newer ++ p ∷ older) (length older) ≡ some p
unfolding get_position_at
get_position_at-append [] p older = ground arith
get_position_at-append (q ∷ newer) p older =
    let more = length-append newer (p ∷ older) in
    elim (Bool-cases (length older == length (newer ++ p ∷ older))) [
      | inl e ↦ absurd (ground (arith, more, e))
      | inr e ↦ rw (e, get_position_at-append newer p older) refl
    ]

append-cons : {A : Type 0} (xs : List A) (x : A) (ys : List A) → xs ++ x ∷ ys ≡ (xs ++ x ∷ []) ++ ys
append-cons [] x ys = refl
append-cons (z ∷ xs) x ys = ap (z ∷◌) (append-cons xs x ys)

-- The rounds before the oldest position stop at once or repeat it.
encode_rounds-before :
    (n : ℕ) (start : ChessBoard) (h : PositionHistory) (f : FillEmptyHistory) (flip : Bool)
    (p : Position)
    → get_position_at h 0 ≡ some p
    → encode_rounds n start h f 0 flip ≡ some (padding n start f p (side flip p))
unfolding encode_rounds padding repeat blanks
encode_rounds-before zero start h f flip p there = elim (Bool-cases (stops start f p)) [
  | inl e ↦ rw e refl
  | inr e ↦ rw e refl
]
encode_rounds-before (suc n) start h f flip p there =
    let run = encode_rounds-before n start h f flip p there in
    elim (Bool-cases (stops start f p)) [
      | inl e ↦ rw (there, e) refl
      | inr e ↦ rw (there, e, run, e) refl
    ]

-- A round at a position that has one before it.
encode_rounds-there :
    (n : ℕ) (start : ChessBoard) (h : PositionHistory) (f : FillEmptyHistory) (left : ℕ)
    (flip : Bool) (p : Position)
    → (rest : List InputPlane) → get_position_at h (suc left) ≡ some p
    → encode_rounds n start h f (suc left) (not flip) ≡ some rest
    → encode_rounds (suc n) start h f (suc (suc left)) flip
      ≡ some (board_planes (side flip p) p.repetitions false ++ rest)
unfolding encode_rounds
encode_rounds-there n start h f left flip p rest there run =
    let before : suc (suc left) - 1 ≡ suc left = omega arith in
    let above : ltb 1 (suc (suc left)) ≡ true = ground arith in
    let not_first : (suc (suc left) == 0) ≡ false = ground arith in
    rw (before, there, above, not_first, run) refl

-- The loop encodes the positions from one on, whatever the newer ones are.
encode_rounds_lem :
    (n : ℕ) (start : ChessBoard) (f : FillEmptyHistory) (flip : Bool)
    (newer older : PositionHistory)
    → 0 < length older
    → encode_rounds n start (newer ++ older) f (length older) flip
      ≡ some (described n start f flip older)
unfolding encode_rounds described
encode_rounds_lem n start f flip newer [] some_there = absurd (omega arith)
encode_rounds_lem zero start f flip newer (p ∷ []) some_there = refl
encode_rounds_lem zero start f flip newer (p ∷ q ∷ ps) some_there = refl
encode_rounds_lem (suc n) start f flip newer (p ∷ []) some_there =
    let there = get_position_at-append newer p [] in
    rw (there, encode_rounds-before n start (newer ++ p ∷ []) f flip p there) refl
encode_rounds_lem (suc n) start f flip newer (p ∷ q ∷ ps) some_there =
    let there = get_position_at-append newer p (q ∷ ps) in
    let run : encode_rounds n start (newer ++ p ∷ q ∷ ps) f (length (q ∷ ps)) (not flip)
        ≡ some (described n start f (not flip) (q ∷ ps)) =
      rw (append-cons newer p (q ∷ ps))
        (encode_rounds_lem n start f (not flip) (newer ++ p ∷ []) (q ∷ ps) (omega arith)) in
    encode_rounds-there n start (newer ++ p ∷ q ∷ ps) f (length ps) flip p
      (described n start f (not flip) (q ∷ ps)) there run

length-repeat :
    (n : ℕ) (planes : List InputPlane) → length planes ≡ 13 → length (repeat n planes) ≡ n * 13
unfolding repeat
length-repeat zero planes len = refl
length-repeat (suc n) planes len =
    omega (arith, len, length-append planes (repeat n planes), length-repeat n planes len)

length-padding :
    (n : ℕ) (start : ChessBoard) (f : FillEmptyHistory) (p : Position) (b : ChessBoard)
    → length (padding n start f p b) ≡ n * 13
unfolding padding
length-padding n start f p b = elim (Bool-cases (stops start f p)) [
  | inl e ↦ rw e (length-blanks (n * 13))
  | inr e ↦ rw e (length-repeat n _ (length-board_planes b p.repetitions (not (en_passant b == 0))))
]

length-described :
    (n : ℕ) (start : ChessBoard) (f : FillEmptyHistory) (flip : Bool) (h : PositionHistory)
    → 0 < length h
    → length (described n start f flip h) ≡ n * 13
unfolding described
length-described n start f flip [] some_there = absurd (omega arith)
length-described zero start f flip (p ∷ ps) some_there = refl
length-described (suc n) start f flip (p ∷ []) some_there =
    let here = board_planes (side flip p) p.repetitions false in
    let rest = padding n start f p (side flip p) in
    omega (
      arith,
      length-append here rest,
      length-board_planes (side flip p) p.repetitions false,
      length-padding n start f p (side flip p),
    )
length-described (suc n) start f flip (p ∷ q ∷ ps) some_there =
    let here = board_planes (side flip p) p.repetitions false in
    let rest = described n start f (not flip) (q ∷ ps) in
    omega (
      arith,
      length-append here rest,
      length-board_planes (side flip p) p.repetitions false,
      length-described n start f (not flip) (q ∷ ps) (omega arith),
    )

-- A history with a position is encoded into 112 planes: those of up to 8 boards, which are the newest positions, seen
-- from the player to move and then from each side in turn, and before the oldest position what `f` says; blank planes
-- for the boards that are not asked for; and 8 more for the last position.
pub encode_position_for_nn_lem :
    (start : ChessBoard) (p : Position) (ps : PositionHistory) (history_planes : ℕ)
    (f : FillEmptyHistory)
    → let rounds = min history_planes 8 in
      let planes =
        (described rounds start f false (p ∷ ps) ++ blanks ((8 - rounds) * 13)) ++ aux_planes p in
      (encode_position_for_nn start (p ∷ ps) history_planes f ≡ some planes) × (length planes ≡ 112)
unfolding encode_position_for_nn last
encode_position_for_nn_lem start p ps history_planes f =
    let rounds = min history_planes 8 in
    let boards = described rounds start f false (p ∷ ps) in
    let absent = blanks ((8 - rounds) * 13) in
    (
      rw (encode_rounds_lem rounds start f false [] (p ∷ ps) (omega arith)) refl,
      omega (
        arith,
        length-append boards absent,
        length-append (boards ++ absent) (aux_planes p),
        length-described rounds start f false (p ∷ ps) (omega arith),
        length-blanks ((8 - rounds) * 13),
        length-aux_planes p,
      ),
    )
