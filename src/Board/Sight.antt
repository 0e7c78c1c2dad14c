-- ===== src/Board/Sight.antt =====
-- The mirrored board on the squares, and the comparison of boards.
use lc.Base.{
  ℕ, ◌<◌, ◌≡◌, refl, ap, ◌∙◌, Bool, true, false, ◌&&◌, ◌==◌, arith, Bool-cases, inl, inr, Option,
  none, some, ==→eq, ==_refl, ==_of_ne, subst, ◌↔◌, all_below, all_below_sound,
}
use lc.Square
use lc.Square.{BoardSquare}
use lc.BitBoard.{get}
use lc.BitBoard.Mirror.{get-mirror, square_mirror-mirror}
use lc.Board.{ChessBoard, mirror, same_board, bool_eq}
use lc.Board.Rights.{bool_eq→eq}
use lc.Board.Tables.{pawn_mask}
use lc.Board.Words.{IsBoard}
use lc.Board.Apply.Effect.{Piece, Side, piece_at}

same_board_refl : (a : ChessBoard) → same_board a a ≡ true
unfolding same_board bool_eq
same_board_refl a = elim (Bool-cases a.flipped) [
  | inl e ↦ rw e (ground arith)
  | inr e ↦ rw e (ground arith)
]

same_parts :
    (a b : ChessBoard)
    → same_board a b ≡ true
    → (a.our_pieces ≡ b.our_pieces)
      × (a.their_pieces ≡ b.their_pieces)
      × (a.rooks ≡ b.rooks)
      × (a.bishops ≡ b.bishops)
      × (a.pawns ≡ b.pawns)
      × (a.our_king ≡ b.our_king)
      × (a.their_king ≡ b.their_king)
      × (a.castlings ≡ b.castlings)
      × (a.flipped ≡ b.flipped)
unfolding same_board
same_parts a b h = ground (arith, bool_eq→eq a.flipped b.flipped)

-- `operator==` holds exactly of equal boards.
pub same_board_iff : (a b : ChessBoard) → (same_board a b ≡ true) ↔ (a ≡ b)
same_board_iff a b =
    (there, λ e. subst (λ (x : ChessBoard). same_board a x ≡ true) e (same_board_refl a))
  where
    there : same_board a b ≡ true → a ≡ b
    there h =
        let (p0, p1, p2, p3, p4, p5, p6, p7, p8) = same_parts a b h in
        λ i. record {
          our_pieces = p0 i;
          their_pieces = p1 i;
          rooks = p2 i;
          bishops = p3 i;
          pawns = p4 i;
          our_king = p5 i;
          their_king = p6 i;
          castlings = p7 i;
          flipped = p8 i;
        }

mask_mirrors : ℕ → Bool
mask_mirrors s = bool_eq (get pawn_mask s) (get pawn_mask (Square.mirror s))

mask_table : all_below 64 mask_mirrors ≡ true
unfolding mask_mirrors all_below bool_eq get Square.mirror
mask_table = refl

mask-mirror : (s : BoardSquare) → s < 64 → get pawn_mask s ≡ get pawn_mask (Square.mirror s)
unfolding mask_mirrors
mask-mirror s hs = bool_eq→eq _ _ (all_below_sound 64 mask_mirrors s mask_table hs)

mirror-== : (k s : BoardSquare) → k < 64 → s < 64 → (Square.mirror k == s) ≡ (k == Square.mirror s)
mirror-== k s hk hs = elim (Bool-cases (k == Square.mirror s)) [
  | inl e ↦
      let same = ap Square.mirror (==→eq k (Square.mirror s) e) ∙ square_mirror-mirror s hs in
      rw (same, e) (==_refl s)
  | inr e ↦ rw e (==_of_ne (Square.mirror k) s (λ g. absurd (apart e (ap Square.mirror g))))
]
  where
    apart : (k == Square.mirror s) ≡ false → Square.mirror (Square.mirror k) ≡ Square.mirror s → ⊥
    apart e g = ground (arith, square_mirror-mirror k hk)

-- The piece seen from the other side.
abbrev pub other_side : Option Piece → Option Piece
other_side none = none
other_side (some (Side.us, k)) = some (Side.them, k)
other_side (some (Side.them, k)) = some (Side.us, k)

-- On a board on which no square holds pieces of both players, the mirrored board has on each square the
-- piece of the mirrored square, for the other side.
pub piece_at-mirror :
    (b : ChessBoard) (s : BoardSquare)
    → IsBoard b
    → s < 64
    → (get b.our_pieces (Square.mirror s) && get b.their_pieces (Square.mirror s)) ≡ false
    → piece_at (mirror b) s ≡ other_side (piece_at b (Square.mirror s))
unfolding mirror
piece_at-mirror b s v hs apart = ground (
  arith,
  get-mirror b.our_pieces s hs,
  get-mirror b.their_pieces s hs,
  get-mirror b.rooks s hs,
  get-mirror b.bishops s hs,
  get-mirror b.pawns s hs,
  mask-mirror s hs,
  mirror-== b.our_king s v.our_king_square hs,
  mirror-== b.their_king s v.their_king_square hs,
)
