-- ===== src/Tests/Games.antt =====
-- The theorems on positions and histories at concrete games.
use lc.Base.{
  ◌≡◌, false, refl, ◌+◌, ◌-◌, ◌^◌, length, [], ◌∷◌, ◌++◌, none, some, if◌then◌else◌, All, any, min,
  map, take, ltb,
}
use lc.Base.Int.{pos, ◌+ℤ◌, ltb_ℤ, eq_ℤ}
use lc.Hash.{hash_cat}
use lc.Board
use lc.Board.{ChessBoard, same_board}
use lc.Board.Apply.{apply_move}
use lc.Encoder.{FillEmptyHistory, encode_position_for_nn, blanks, aux_planes, add_shifted}
use lc.Encoder.Planes.{described, encode_position_for_nn_lem}
use lc.Position.{
  Position, trim, reset, get_position_at, get_length, hash, hash_last, to_word,
  compute_last_move_repetitions, did_repeat_since_last_zeroing_move,
}
use lc.Position.Laws.{IsPosition, Reachable-All, trim_lem}
use lc.Position.Laws.Reachable.{started, trimmed}
use lc.Position.Repetition.{
  up_to, find, candidates, one_more, fold_hash, compute_last_move_repetitions-find, did_repeat-any,
  hash_last-fold,
}
use lc.Tests.Data.{start, start-IsBoard}

-- The start, with the counters of a new game.
abbrev first : Position
first = record {
  us_board = start;
  them_board = Board.mirror start;
  no_capture_ply = pos 0;
  repetitions = 0;
  ply_count = pos 0;
}

-- The same board later in a game, for the second time.
abbrev repeated : Position
repeated = record first { no_capture_ply = pos 8; repetitions = 1; ply_count = pos 8 }

-- The position after e2e4.
abbrev second : Position
second = record {
  us_board = Board.mirror (apply_move start 796).0;
  them_board = (apply_move start 796).0;
  no_capture_ply = if (apply_move start 796).1 then pos 0 else pos 0 +ℤ pos 1;
  repetitions = 0;
  ply_count = pos 0 +ℤ pos 1;
}

Reachable-All_example : All IsPosition (trim (reset start (pos 0) (pos 0)) 1)
Reachable-All_example =
    Reachable-All (trim (reset start (pos 0) (pos 0)) 1)
      (trimmed (reset start (pos 0) (pos 0)) 1 (started start (pos 0) (pos 0) start-IsBoard))

trim_lem_example :
    (get_length (trim (repeated ∷ first ∷ []) 1) ≡ min 1 2)
    × (get_position_at (trim (repeated ∷ first ∷ []) 1) 0
        ≡ (if ltb 0 1 then get_position_at (repeated ∷ first ∷ []) 0 else none))
trim_lem_example = trim_lem (repeated ∷ first ∷ []) 1 0

compute_last_move_repetitions-find_example :
    compute_last_move_repetitions repeated (first ∷ first ∷ []) ≡ (
      if ltb_ℤ (pos 8) (pos 4)
      then 0
      else one_more
          (find (λ (q : Position). same_board q.us_board start) (candidates (first ∷ first ∷ []))))
compute_last_move_repetitions-find_example =
    compute_last_move_repetitions-find repeated (first ∷ first ∷ [])

did_repeat-any_example :
    did_repeat_since_last_zeroing_move (repeated ∷ first ∷ [])
    ≡ any
        (λ (p : Position). ltb 0 p.repetitions)
        (up_to (λ (p : Position). eq_ℤ p.no_capture_ply (pos 0)) (repeated ∷ first ∷ []))
did_repeat-any_example = did_repeat-any (repeated ∷ first ∷ [])

hash_last-fold_example :
    hash_last 1 (repeated ∷ first ∷ [])
    ≡ some (hash_cat (fold_hash 1 (map hash (take 1 (repeated ∷ first ∷ [])))) (to_word (pos 8)))
hash_last-fold_example = hash_last-fold 1 repeated (first ∷ [])

encode_position_for_nn_lem_example :
    let planes =
      (described 3 start FillEmptyHistory.always false (repeated ∷ first ∷ []) ++ blanks 65)
      ++ aux_planes repeated in
    (encode_position_for_nn start (repeated ∷ first ∷ []) 3 FillEmptyHistory.always ≡ some planes)
    × (length planes ≡ 112)
encode_position_for_nn_lem_example =
    encode_position_for_nn_lem start repeated (first ∷ []) 3 FillEmptyHistory.always

-- The mask of the pawns that went over two squares is moved back: e4 to e2.
undone_pawn : add_shifted 0x10000000 (2 ^ 64 + 0x100 - 0x1000000) 4 ≡ 0x1000
undone_pawn = refl
