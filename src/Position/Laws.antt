-- ===== src/Position/Laws.antt =====
-- `PositionHistory` of src/chess/position.h and src/chess/position.cc as a stack of positions, and what
-- each of its operations keeps.
use lc.Base.{
  some-injective, ℕ, ◌≤◌, ◌≡◌, refl, ◌∙◌, sym, ltb, arith, [], ◌∷◌, none, some, if◌then◌else◌,
  length, All, Bool-cases, inl, inr, subst, if_both, min,
}
use lc.Base.Int.{ℤ}
use lc.Move.{Move}
use lc.Board
use lc.Board.{ChessBoard}
use lc.Board.Words.{IsBoard, mirror-IsBoard, board_mirror-mirror}
use lc.Board.Apply.{apply_move}
use lc.Board.Apply.Valid.{apply_move-IsBoard}
use lc.Position.{
  Position, PositionHistory, of_move, of_board, set_repetitions, compute_last_move_repetitions,
  append, pop, trim, reset, get_position_at, get_length,
}

-- A position whose two boards are well formed and mirror each other.
pub record IsPosition (p : Position) : Type 0 where
  pub us_ok : IsBoard p.us_board
  pub them_ok : IsBoard p.them_board
  pub us_is_mirror : p.us_board ≡ Board.mirror p.them_board
  pub them_is_mirror : p.them_board ≡ Board.mirror p.us_board

of_board-IsPosition : (b : ChessBoard) (n g : ℤ) → IsBoard b → IsPosition (of_board b n g)
unfolding of_board
of_board-IsPosition b n g v = record {
  us_ok = v;
  them_ok = mirror-IsBoard v;
  us_is_mirror = sym (board_mirror-mirror b v);
  them_is_mirror = refl;
}

of_move-IsPosition : (u : ℕ) (p : Position) (m : Move) → IsPosition p → IsPosition (of_move u p m)
unfolding of_move
of_move-IsPosition u p m v =
    let w = apply_move-IsBoard p.us_board m v.us_ok in
    record {
      us_ok = mirror-IsBoard w;
      them_ok = w;
      us_is_mirror = refl;
      them_is_mirror = sym (board_mirror-mirror (apply_move p.us_board m).0 w);
    }

set_repetitions-IsPosition :
    (p : Position) (n : ℕ) → IsPosition p → IsPosition (set_repetitions p n)
set_repetitions-IsPosition p n v = record {
  us_ok = v.us_ok;
  them_ok = v.them_ok;
  us_is_mirror = v.us_is_mirror;
  them_is_mirror = v.them_is_mirror;
}

-- The histories that the operations make.
pub data Reachable : PositionHistory → Type 0 where
  started : (b : ChessBoard) (n g : ℤ) → IsBoard b → Reachable (reset b n g)
  appended :
      (u : ℕ) (h k : PositionHistory) (m : Move) → Reachable h → append u h m ≡ some k → Reachable k
  popped : (h k : PositionHistory) → Reachable h → pop h ≡ some k → Reachable k
  trimmed : (h : PositionHistory) (n : ℕ) → Reachable h → Reachable (trim h n)

append-All :
    (u : ℕ) (h k : PositionHistory) (m : Move)
    → All IsPosition h
    → append u h m ≡ some k
    → All IsPosition k
unfolding append
append-All u [] k m v e = cc
append-All u (p ∷ ps) k m v e = subst (All IsPosition) (some-injective e) (
  set_repetitions-IsPosition (of_move u p m)
      (compute_last_move_repetitions (of_move u p m) (p ∷ ps)) (of_move-IsPosition u p m v.0),
  v,
)

pop-All : (h k : PositionHistory) → All IsPosition h → pop h ≡ some k → All IsPosition k
unfolding pop
pop-All [] k v e = cc
pop-All (p ∷ ps) k v e = subst (All IsPosition) (some-injective e) v.1

trim-All : (h : PositionHistory) (n : ℕ) → All IsPosition h → All IsPosition (trim h n)
unfolding trim
trim-All [] n v = v
trim-All (p ∷ ps) n v = if_both (All IsPosition) (ltb n (length (p ∷ ps))) (trim-All ps n v.1) v

-- In every history that the operations make from a well-formed board, each position has two well-formed
-- boards, each the mirror image of the other.
pub Reachable-All : (h : PositionHistory) → Reachable h → All IsPosition h
unfolding reset
Reachable-All _ (started b n g v) = (of_board-IsPosition b n g v, tt)
Reachable-All _ (appended u h k m r e) = append-All u h k m (Reachable-All h r) e
Reachable-All _ (popped h k r e) = pop-All h k (Reachable-All h r) e
Reachable-All _ (trimmed h n r) = trim-All h n (Reachable-All h r)

length-trim : (h : PositionHistory) (n : ℕ) → length (trim h n) ≡ min n (length h)
unfolding trim
length-trim [] n = omega arith
length-trim (p ∷ ps) n = ground (arith, length-trim ps n)

get_position_at-beyond : (h : PositionHistory) (i : ℕ) → length h ≤ i → get_position_at h i ≡ none
unfolding get_position_at
get_position_at-beyond [] i l = refl
get_position_at-beyond (p ∷ ps) i l = ground (arith, get_position_at-beyond ps i)

get-trim :
    (h : PositionHistory) (n i : ℕ)
    → get_position_at (trim h n) i ≡ (if ltb i n then get_position_at h i else none)
unfolding get_position_at trim
get-trim [] n i = ground arith
get-trim (p ∷ ps) n i = elim (Bool-cases (ltb n (length (p ∷ ps)))) [
  | inl e ↦ rw e (get-trim ps n i ∙ ground arith)
  | inr e ↦ rw e (ground (arith, get_position_at-beyond (p ∷ ps) i))
]

-- Trimming keeps the oldest positions, as many as it is told if there are so many, each at its place.
pub trim_lem :
    (h : PositionHistory) (n i : ℕ)
    → (get_length (trim h n) ≡ min n (get_length h))
      × (get_position_at (trim h n) i ≡ (if ltb i n then get_position_at h i else none))
trim_lem h n i = (length-trim h n, get-trim h n i)
