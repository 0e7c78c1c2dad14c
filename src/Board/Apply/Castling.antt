-- ===== src/Board/Apply/Castling.antt =====
-- The castling rights after `ApplyMove`.
use lc.Base.{◌<◌, ◌≡◌, ap, ◌∙◌, false, not, ◌&&◌, ◌==◌, arith, Bool-cases, inl, inr}
use lc.Square.{BoardSquare}
use lc.Move
use lc.Move.{Move}
use lc.Board.{
  ChessBoard, Castlings, reset_we_can_00, reset_we_can_000, reset_they_can_00, we_can_00,
  we_can_000, they_can_00, they_can_000,
}
use lc.Board.Rights.{flags, rights_lem, reset-small}
use lc.Board.Words.{IsBoard}
use lc.Board.Apply.{
  apply_move, is_promotion, prepare, move_pieces, remove_captured, remove_en_passant, remove_flags,
  move_king, move_rook, promote, leave_corner, move_ordinary, set_flag,
}
use lc.Board.Apply.Valid.{prepare-IsBoard}
use lc.Board.Apply.Effect.{kings-prepare}

castlings-remove_captured :
    (b : ChessBoard) (t : BoardSquare)
    → b.castlings < 16
    → flags (remove_captured b t).castlings ≡ (
      we_can_00 b.castlings,
      we_can_000 b.castlings,
      they_can_00 b.castlings && not (t == 63),
      they_can_000 b.castlings && not (t == 56),
    )
unfolding remove_captured
castlings-remove_captured b t small = ground (
  arith,
  rights_lem b.castlings small,
  rights_lem (reset_they_can_00 b.castlings) (reset-small b.castlings small).2,
)

castlings-prepare :
    (b : ChessBoard) (f t : BoardSquare)
    → (prepare b f t).castlings ≡ (remove_captured b t).castlings
unfolding prepare remove_flags remove_en_passant remove_captured move_pieces
castlings-prepare b f t = ground arith

castlings-move_king :
    (b : ChessBoard) (f t : BoardSquare)
    → (move_king b f t).castlings ≡ reset_we_can_000 (reset_we_can_00 b.castlings)
unfolding move_king move_rook
castlings-move_king b f t = ground arith

castlings-ordinary :
    (b : ChessBoard) (f t : BoardSquare)
    → (set_flag (move_ordinary (leave_corner b f) f t) f t).castlings ≡ (leave_corner b f).castlings
unfolding set_flag move_ordinary
castlings-ordinary b f t = ground arith

castlings-promote :
    (b : ChessBoard) (f t : BoardSquare) (p : Move.Promotion)
    → (promote b f t p).castlings ≡ b.castlings
unfolding promote
castlings-promote b f t p = ground arith

flags-king :
    (c : Castlings)
    → c < 16
    → flags (reset_we_can_000 (reset_we_can_00 c)) ≡ (false, false, they_can_00 c, they_can_000 c)
flags-king c small =
    ground (arith, rights_lem c small, rights_lem (reset_we_can_00 c) (reset-small c small).0)

flags-leave_corner :
    (b : ChessBoard) (f : BoardSquare)
    → b.castlings < 16
    → flags (leave_corner b f).castlings ≡ (
      we_can_00 b.castlings && not (f == 7),
      we_can_000 b.castlings && not (f == 0),
      they_can_00 b.castlings,
      they_can_000 b.castlings,
    )
unfolding leave_corner
flags-leave_corner b f small = ground (
  arith,
  rights_lem b.castlings small,
  rights_lem (reset_we_can_000 b.castlings) (reset-small b.castlings small).1,
)

-- On a well-formed board, after a move, the rights of the other player are those before it, less
-- the right whose rook stood on the destination, h8 or a8. Ours are none after a move of our king;
-- else they are those before, less the right whose rook stood on the origin, h1 or a1, if the move
-- is no promotion.
pub castlings-apply_move :
    (b : ChessBoard) (m : Move)
    → IsBoard b
    → let f = Move.from m in
      let t = Move.to m in
      let stays = not (f == b.our_king) in
      let plain = not (is_promotion (Move.promotion m)) in
      flags (apply_move b m).0.castlings ≡ (
        we_can_00 b.castlings && stays && not (plain && (f == 7)),
        we_can_000 b.castlings && stays && not (plain && (f == 0)),
        they_can_00 b.castlings && not (t == 63),
        they_can_000 b.castlings && not (t == 56),
      )
unfolding apply_move
castlings-apply_move b m v =
    let f = Move.from m in
    let t = Move.to m in
    let p = prepare b f t in
    let small = (prepare-IsBoard f t v).rights in
    let before = ap flags (castlings-prepare b f t) ∙ castlings-remove_captured b t v.rights in
    let k = (kings-prepare b f t).0 in
    let king : (f == p.our_king) ≡ (f == b.our_king) = ap (λ (x : BoardSquare). f == x) k in
    elim (Bool-cases (f == p.our_king)) [
      | inl e ↦ rw e (
          ap flags (castlings-move_king p f t)
          ∙ flags-king p.castlings small
          ∙ ground (arith, before, e, king))
      | inr e ↦ elim (Bool-cases (is_promotion (Move.promotion m))) [
        | inl g ↦
            rw (e, g)
              (ap flags (castlings-promote p f t (Move.promotion m))
                ∙ before
                ∙ ground (arith, e, king))
        | inr g ↦
            rw (e, g)
              (ap flags (castlings-ordinary p f t)
                ∙ flags-leave_corner p f small
                ∙ ground (arith, before, e, king))
      ]
    ]
