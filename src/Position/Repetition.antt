-- ===== src/Position/Repetition.antt =====
-- The loops over a history of src/chess/position.cc against descriptions of what they look for.
use lc.Base.{
  ℕ, zero, suc, ◌+◌, ◌≡◌, refl, Bool, ltb, arith, List, [], ◌∷◌, any, take, map, Option, none, some,
  if◌then◌else◌,
}
use lc.Base.Int.{pos, eq_ℤ, ltb_ℤ}
use lc.Hash.{hash_cat}
use lc.Board.{ChessBoard, same_board}
use lc.Position.{
  Position, PositionHistory, look_back, compute_last_move_repetitions,
  did_repeat_since_last_zeroing_move, hash, hash_from, hash_last, to_word,
}

-- The positions up to the first that passes the test, this one included.
abbrev pub up_to {ℓ} : {A : Type ℓ} → (A → Bool) → List A → List A
up_to stop [] = []
up_to stop (p ∷ ps) = p ∷ (if stop p then [] else up_to stop ps)

-- Every second element, from the second on.
abbrev pub every_second {ℓ} : {A : Type ℓ} → List A → List A
every_second [] = []
every_second (p ∷ []) = []
every_second (p ∷ q ∷ ps) = q ∷ every_second ps

abbrev pub find {ℓ} : {A : Type ℓ} → (A → Bool) → List A → Option A
find test [] = none
find test (p ∷ ps) = if test p then some p else find test ps

-- The positions with the same player to move that may repeat.
abbrev pub candidates : List Position → List Position
candidates before = up_to (λ (q : Position). ltb_ℤ q.no_capture_ply (pos 2)) (every_second before)

abbrev pub one_more : Option Position → ℕ
one_more none = 0
one_more (some q) = 1 + q.repetitions

look_back-find :
    (board : ChessBoard) (before : List Position)
    → look_back board before
      ≡ one_more (find (λ (q : Position). same_board q.us_board board) (candidates before))
unfolding look_back
look_back-find board [] = refl
look_back-find board (p ∷ []) = refl
look_back-find board (p ∷ q ∷ ps) = rw (look_back-find board ps) (ground arith)

-- The repetitions of a new position: none if its fifty-move counter is below 4; else one more than
-- those of the newest earlier position with the same player to move and the same board, which is sought
-- as far back as the first of them whose counter is below 2; none if there is no such position.
pub compute_last_move_repetitions-find :
    (p : Position) (before : List Position)
    → compute_last_move_repetitions p before ≡ (
        if ltb_ℤ p.no_capture_ply (pos 4)
        then 0
        else one_more
            (find (λ (q : Position). same_board q.us_board p.us_board) (candidates before)))
unfolding compute_last_move_repetitions
compute_last_move_repetitions-find p before = rw (look_back-find p.us_board before)

-- `DidRepeatSinceLastZeroingMove` says whether a position from the newest back to the first whose
-- fifty-move counter is 0 has repetitions.
pub did_repeat-any :
    (h : PositionHistory)
    → did_repeat_since_last_zeroing_move h
      ≡ any
          (λ (p : Position). ltb 0 p.repetitions)
          (up_to (λ (p : Position). eq_ℤ p.no_capture_ply (pos 0)) h)
unfolding did_repeat_since_last_zeroing_move
did_repeat-any [] = refl
did_repeat-any (p ∷ ps) = rw (did_repeat-any ps) (ground arith)

abbrev pub fold_hash : ℕ → List ℕ → ℕ
fold_hash h [] = h
fold_hash h (x ∷ xs) = fold_hash (hash_cat h x) xs

hash_from-fold :
    (h n : ℕ) (ps : PositionHistory) → hash_from h n ps ≡ fold_hash h (map hash (take n ps))
unfolding hash_from
hash_from-fold h zero [] = refl
hash_from-fold h (suc n) [] = refl
hash_from-fold h zero (p ∷ ps) = refl
hash_from-fold h (suc n) (p ∷ ps) = hash_from-fold (hash_cat h (hash p)) n ps

-- The hash of the last positions is made of the number asked for, the hashes of so many of the newest
-- positions, from the newest on, and the fifty-move counter of the last.
pub hash_last-fold :
    (n : ℕ) (p : Position) (ps : PositionHistory)
    → hash_last n (p ∷ ps)
      ≡ some (hash_cat (fold_hash n (map hash (take n (p ∷ ps)))) (to_word p.no_capture_ply))
unfolding hash_last
hash_last-fold n p ps = rw (hash_from-fold n n (p ∷ ps))
