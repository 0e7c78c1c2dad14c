-- ===== src/Board/Generate/Own.antt =====
-- The moves of the king, of the sliding pieces and of the knight in `GeneratePseudolegalMoves` of
-- src/chess/board.cc, and what all pieces share.
use lc.Base.{
  ℕ, zero, suc, ◌+◌, ◌<◌, ◌≡◌, refl, ap, Bool, true, false, ◌&&◌, arith, List, [], ◌∷◌, map, any,
  filter, range_from, All, All-append, if◌then◌else◌, if_both, and-false_right, ◌∙◌, subst,
  Bool-cases, inl, inr,
}
use lc.Base.Int.{ℤ, pos, negsuc, ◌+ℤ◌}
use lc.Square.{BoardSquare, row, col, square, square_int, is_valid, is_valid_coord}
use lc.Bits.Logic.{bit-bit_and}
use lc.Bits.Word.{bit-above, lt_of_bits}
use lc.Board.Attack.{is_under_attack}
use lc.BitBoard.{BitBoard, not64, get, difference, squares}
use lc.BitBoard.Laws.{IsWord, get-bit, bit-not64}
use lc.BitBoard.Iterate.{squares-filter}
use lc.Move
use lc.Move.{Move, Promotion, make, make_promotion, set_castling}
use lc.Move.Laws.{set_castling-parts, make_promotion_fields}
use lc.Board.{ChessBoard}
use lc.Board.Words.{IsBoard}
use lc.Board.Tables.{Direction}
use lc.Board.Magic.{Magic}
use lc.Board.Generate.{king_steps, castle, castlings, moves_to, is_occupied, promotions_to}

valid-lt : (r c : ℤ) → is_valid r c ≡ true → square_int r c < 64
valid-lt (pos r) (pos c) h = ground arith
valid-lt (pos r) (negsuc c) h = ground arith
valid-lt (negsuc r) (pos c) h = ground arith
valid-lt (negsuc r) (negsuc c) h = ground arith

pub coord-lt : (r : ℕ) (c : ℤ) → r < 8 → is_valid_coord c ≡ true → square_int (pos r) c < 64
coord-lt r (pos c) l h = ground arith
coord-lt r (negsuc c) l h = ground arith

filter-All {κ} :
    (P : ℕ → Type κ) (p : ℕ → Bool) (i n : ℕ)
    → ((j : ℕ) → j < i + n → p j ≡ true → P j)
    → All P (filter p (range_from i n))
filter-All P p i zero h = tt
filter-All P p i (suc n) h = elim (Bool-cases (p i)) [
  | inl e ↦ rw e (h i (omega arith) e, filter-All P p (suc i) n (λ j l. h j (omega arith)))
  | inr e ↦ rw e (filter-All P p (suc i) n (λ j l. h j (omega arith)))
]

map-All {κ} : (P : ℕ → Type κ) (g : ℕ → ℕ) (xs : List ℕ) → All (λ x. P (g x)) xs → All P (map g xs)
map-All P g [] h = tt
map-All P g (x ∷ xs) h = (h.0, map-All P g xs h.1)

-- A loop over the squares of a board runs at members only.
pub squares-All {κ} :
    (P : ℕ → Type κ) (b : BitBoard)
    → IsWord b
    → ((j : ℕ) → j < 64 → get b j ≡ true → P j)
    → All P (squares b)
squares-All P b w h = rw (squares-filter b w) (filter-All P (get b) 0 64 h)

-- Whatever `a` is, the difference is a word without the squares of `b`.
difference_right-IsWord : (a b : ℕ) → IsWord b → IsWord (difference a b)
unfolding difference
difference_right-IsWord a b w = lt_of_bits 64 _ (λ i l.
    bit-bit_and a (not64 b) i ∙ rw (bit-above 64 (not64 b) i (omega arith) l) (and-false_right _))

get-difference_free :
    (a b : BitBoard) (s : BoardSquare)
    → IsWord b
    → s < 64
    → get (difference a b) s ≡ true
    → get b s ≡ false
unfolding difference
get-difference_free a b s w hs h = ground (
  arith,
  get-bit (difference a b) s hs,
  get-bit b s hs,
  bit-bit_and a (not64 b) s,
  bit-not64 b s w hs,
)

pub square_int-pos : (r c : ℕ) → square_int (pos r) (pos c) ≡ square r c
square_int-pos r c = ground arith

pub and_parts : (a b : Bool) → (a && b) ≡ true → (a ≡ true) × (b ≡ true)
and_parts a b h = ground arith

-- One move under a condition.
pub if-All {κ} :
    (P : Move → Type κ) (c : Bool) (m : Move) → (c ≡ true → P m) → All P (if c then m ∷ [] else [])
if-All P true m h = (h refl, tt)
if-All P false m h = tt

-- No square holds pieces of both players, and behind a square that can be taken en passant stands no
-- piece of ours.
pub record IsApart (b : ChessBoard) : Type 0 where
  pub apart : (s : BoardSquare) → s < 64 → (get b.our_pieces s && get b.their_pieces s) ≡ false
  pub behind : (c : ℕ) → c < 8 → (get b.pawns (square 7 c) && get b.our_pieces (square 5 c)) ≡ false

-- The move starts at a piece of ours and ends at a square that is free of ours.
abbrev pub IsOwnMove : ChessBoard → Move → Type 0
IsOwnMove b m = (get b.our_pieces (Move.from m) ≡ true) × (get b.our_pieces (Move.to m) ≡ false)

module _ (b : ChessBoard) (f : BoardSquare) (hf : f < 64) (own : get b.our_pieces f ≡ true) where
  make_promotion-IsOwnMove :
      (t : BoardSquare) (p : Promotion)
      → Move.promotion_code p < 8
      → t < 64
      → get b.our_pieces t ≡ false
      → IsOwnMove b (make_promotion f t p)
  make_promotion-IsOwnMove t p hp ht free =
      let e = make_promotion_fields f t p hf ht hp in rw (e.0, e.1) (own, free)

  pub make-IsOwnMove :
      (t : BoardSquare) → t < 64 → get b.our_pieces t ≡ false → IsOwnMove b (make f t)
  make-IsOwnMove t ht free =
      let e = make_promotion_fields f t Promotion.no_promotion hf ht (omega arith) in
      subst (IsOwnMove b) (e.3)
        (make_promotion-IsOwnMove t Promotion.no_promotion (omega arith) ht free)

  pub king_steps-All : (g : Magic) (ds : List Direction) → All (IsOwnMove b) (king_steps g b f ds)
  unfolding king_steps
  king_steps-All g [] = tt
  king_steps-All g (d ∷ ds) =
      let rest = king_steps-All g ds in
      let r = pos (row f) +ℤ d.0 in
      let c = pos (col f) +ℤ d.1 in
      elim (Bool-cases (is_valid r c)) [
        | inr e ↦ rw e rest
        | inl e ↦ elim (Bool-cases (get b.our_pieces (square_int r c))) [
          | inl h ↦ rw (e, h) rest
          | inr h ↦
              let more : All (IsOwnMove b) (make f (square_int r c) ∷ king_steps g b f ds) =
                (make-IsOwnMove (square_int r c) (valid-lt r c e) h, rest) in
              rw (e, h)
                (if_both (All (IsOwnMove b)) (is_under_attack g b (square_int r c))
                  {y = make f (square_int r c) ∷ king_steps g b f ds} rest more)
        ]
      ]

  set_castling-IsOwnMove :
      (t : BoardSquare)
      → t < 64
      → get b.our_pieces t ≡ false
      → IsOwnMove b (set_castling (make f t))
  set_castling-IsOwnMove t ht free =
      let q = set_castling-parts (make f t) in
      let m = make-IsOwnMove t ht free in
      (
        ap (λ (x : BoardSquare × BoardSquare × ℕ × Bool). get b.our_pieces x.0) q ∙ m.0,
        ap (λ (x : BoardSquare × BoardSquare × ℕ × Bool). get b.our_pieces x.1) q ∙ m.1,
      )

  castle-All :
      (g : Magic) (right : Bool) (between attackers : List BoardSquare) (t : BoardSquare)
      → t < 64
      → (any (is_occupied b) between ≡ false → get b.our_pieces t ≡ false)
      → All (IsOwnMove b) (castle g b f right between attackers t)
  unfolding castle
  castle-All g right between attackers t ht free =
      if-All (IsOwnMove b) _ (set_castling (make f t))
        (λ e. set_castling-IsOwnMove t ht (free (ground (arith, e))))

  pub castlings-All : (g : Magic) → All (IsOwnMove b) (castlings g b f)
  unfolding castlings
  castlings-All g =
      All-append (IsOwnMove b) _ _ (castle-All g _ _ _ 6 (omega arith) (λ e. ground (arith, e)))
        (castle-All g _ _ _ 2 (omega arith) (λ e. ground (arith, e)))

  pub promotions_to-All :
      (t : BoardSquare)
      → t < 64
      → get b.our_pieces t ≡ false
      → All (IsOwnMove b) (promotions_to f t)
  promotions_to-All t ht free = (
    make_promotion-IsOwnMove t Promotion.queen (omega arith) ht free,
    (
      make_promotion-IsOwnMove t Promotion.rook (omega arith) ht free,
      (
        make_promotion-IsOwnMove t Promotion.bishop (omega arith) ht free,
        (make_promotion-IsOwnMove t Promotion.knight (omega arith) ht free, tt),
      ),
    ),
  )

  -- What is left of a board without our pieces.
  pub moves_to-All :
      (a : BitBoard) → IsBoard b → All (IsOwnMove b) (moves_to f (difference a b.our_pieces))
  unfolding moves_to
  moves_to-All a v = map-All (IsOwnMove b) (make f) _ (
      squares-All (λ t. IsOwnMove b (make f t)) (difference a b.our_pieces)
        (difference_right-IsWord a b.our_pieces v.our_word)
        (λ t l h. make-IsOwnMove t l (get-difference_free a b.our_pieces t v.our_word l h)))
