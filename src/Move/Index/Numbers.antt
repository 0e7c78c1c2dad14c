-- ===== src/Move/Index/Numbers.antt =====
-- `as_nn_index` of src/chess/bitboard.cc gives each move of the table its place.
use lc.Base.{
  ℕ, zero, suc, ◌+◌, ◌*◌, ◌/◌, ◌%◌, ◌<◌, ◌≤◌, ap, ◌≡◌, refl, ◌∙◌, Bool, true, false, not, ◌&&◌,
  ◌==◌, leb, ltb, List, [], ◌∷◌, get_or, length, ==_of_ne, ==_refl, some, arith, if◌then◌else◌,
}
use lc.Move
use lc.Move.{Move, make, make_promotion, as_packed_int}
use lc.Move.Index.{build_move_indices, write_indices, as_nn_index, read_moves, idx_texts}
use lc.Move.Index.Geometry.{network_moves, read_moves-network}

-- The order in which the table lists the packed moves: the promotions last.
abbrev place : ℕ → ℕ
place k = if ltb k 4096 then k * 4 else 16384 + k % 4096 * 4 + k / 4096

unfoldable ascending : ℕ → List Move → Bool
ascending low [] = true
ascending low (m ∷ ms) =
    not (Move.castling m)
    && leb low (place (as_packed_int m))
    && ascending (1 + place (as_packed_int m)) ms

network_moves-ascending : ascending 0 network_moves ≡ true
unfolding ascending make make_promotion as_packed_int Move.castling Move.from Move.to
    Move.promo_bits
network_moves-ascending = refl

ascending-head :
    (low : ℕ) (m : Move) (ms : List Move)
    → ascending low (m ∷ ms) ≡ true
    → (Move.castling m ≡ false)
      × (low ≤ place (as_packed_int m))
      × (ascending (1 + place (as_packed_int m)) ms ≡ true)
unfolding ascending
ascending-head low m ms h = ground arith

write_indices-other :
    (low i : ℕ) (ms : List Move) (res : ℕ → ℕ) (k : ℕ)
    → ascending low ms ≡ true
    → place k < low
    → write_indices i ms res k ≡ res k
unfolding ascending write_indices
write_indices-other low i [] res k h l = refl
write_indices-other low i (m ∷ ms) res k h l =
    let (_, above, rest) = ascending-head low m ms h in
    write_indices-other (1 + place (as_packed_int m)) (1 + i) ms _ k rest (omega arith)
    ∙ rw (==_of_ne k (as_packed_int m) (λ e. absurd (below e above)))
  where
    below : k ≡ as_packed_int m → low ≤ place (as_packed_int m) → ⊥
    below e above = let e' = ap place e in omega arith

write_indices-own :
    (low i : ℕ) (ms : List Move) (res : ℕ → ℕ) (j : ℕ)
    → ascending low ms ≡ true
    → j < length ms
    → (write_indices i ms res (as_packed_int (get_or ms j 0)) ≡ i + j)
      × (Move.castling (get_or ms j 0) ≡ false)
unfolding ascending write_indices
write_indices-own low i [] res j h l = absurd (omega arith)
write_indices-own low i (m ∷ ms) res zero h l =
    let (plain, _, rest) = ascending-head low m ms h in
    (
      write_indices-other (1 + place (as_packed_int m)) (1 + i) ms _ (as_packed_int m) rest
            (omega arith)
          ∙ rw (==_refl (as_packed_int m)) (omega arith),
      plain,
    )
write_indices-own low i (m ∷ ms) res (suc j) h l =
    let (_, _, rest) = ascending-head low m ms h in
    let (number, plain) =
      write_indices-own (1 + place (as_packed_int m)) (1 + i) ms
        (λ k. if k == as_packed_int m then i else res k) j rest (omega arith) in
    (number ∙ omega arith, plain)

as_nn_index-own :
    (ms : List Move) (i : ℕ)
    → ascending 0 ms ≡ true
    → i < length ms
    → as_nn_index (build_move_indices ms) (get_or ms i 0) ≡ i
unfolding as_nn_index build_move_indices
as_nn_index-own ms i h l =
    let (number, plain) = write_indices-own 0 0 ms (λ k. 0) i h l in
    rw (plain, number) (omega arith)

-- The texts of the table are moves: from each square those of a queen or a knight, then the
-- promotions to a queen, a rook or a bishop from the seventh rank; and the number of the move at
-- each place of the table is that place.
pub as_nn_index-network :
    (i : ℕ)
    → i < length network_moves
    → (read_moves idx_texts ≡ some network_moves)
      × (as_nn_index (build_move_indices network_moves) (get_or network_moves i 0) ≡ i)
as_nn_index-network i l =
    (read_moves-network, as_nn_index-own network_moves i network_moves-ascending l)
