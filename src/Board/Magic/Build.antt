-- ===== src/Board/Magic/Build.antt =====
-- `BuildAttacksTable` and the look-up of src/chess/board.cc: after the table is built, a look-up
-- gives the rays.
use lc.Base.{
  ℕ, zero, suc, ◌+◌, ◌^◌, ◌<◌, ◌≤◌, ◌≡◌, refl, sym, subst, ap, ◌∙◌, Bool, true, false, ◌==◌, ==→eq,
  ==_refl, ==_of_ne, ltb→lt, ltb, arith, List, length, range_from, range, Bool-cases, inl, inr,
  all_below, all_below_sound,
}
use lc.Square.{BoardSquare}
use lc.BitBoard.{BitBoard, set, squares}
use lc.BitBoard.Laws.{IsWord}
use lc.Board.Tables.{Direction, rook_directions, bishop_directions}
use lc.Board.Magic.{
  Magic, AttackTables, mask_ray, relevant_mask, ray_attacks, occupancy_of, pext, fill_table,
  clear_table, build_square, build_squares, build_attacks_table, get_attacks,
  initialize_magic_bitboards, get_rook_attacks, get_bishop_attacks,
}
use lc.Board.Magic.Rays.{Slider, directions_of, ray_attacks-relevant}
use lc.Board.Magic.Index.{pext-own, pext-lt, occupancy_of-pext}

module _ (ds : List Direction) (s : BoardSquare) (mask : BitBoard) (occ : List BoardSquare)
    (offset : ℕ) where
  -- The occupancies from `i` on, `n` of them, have their own numbers for index.
  abbrev Numbered : ℕ → ℕ → Type 0
  Numbered n i = (k : ℕ) → i ≤ k → k < i + n → pext 64 (occupancy_of occ k 0) mask ≡ k

  fill_table-before :
      (n i : ℕ) (table : ℕ → BitBoard) (j : ℕ)
      → Numbered n i
      → j < offset + i
      → fill_table ds s mask occ offset n i table j ≡ table j
  unfolding fill_table
  fill_table-before zero i table j own l = refl
  fill_table-before (suc n) i table j own l =
      let e = own i (omega arith) (omega arith) in
      fill_table-before n (i + 1) _ j (λ k a b. own k (omega arith) (omega arith)) (omega arith)
      ∙ rw e (rw (==_of_ne j (offset + i) (λ h. omega arith)))

  fill_table-first :
      (n i : ℕ) (table : ℕ → BitBoard)
      → Numbered (suc n) i
      → fill_table ds s mask occ offset (suc n) i table (offset + i)
        ≡ ray_attacks ds s (occupancy_of occ i 0)
  unfolding fill_table
  fill_table-first n i table own =
      let e = own i (omega arith) (omega arith) in
      fill_table-before n (i + 1) _ (offset + i) (λ k a b. own k (omega arith) (omega arith))
        (omega arith)
      ∙ rw e (rw (==_refl (offset + i)))

  fill_table-at :
      (n i : ℕ) (table : ℕ → BitBoard) (k : ℕ)
      → Numbered n i
      → i ≤ k
      → k < i + n
      → fill_table ds s mask occ offset n i table (offset + k)
        ≡ ray_attacks ds s (occupancy_of occ k 0)
  unfolding fill_table
  fill_table-at zero i table k own a b = absurd (omega arith)
  fill_table-at (suc n) i table k own a b =
      let later : Numbered n (i + 1) = λ j c d. own j (omega arith) (omega arith) in
      elim (Bool-cases (i == k)) [
        | inl e ↦
            subst
              (λ u.
                fill_table ds s mask occ offset (suc n) i table (offset + u)
                ≡ ray_attacks ds s (occupancy_of occ u 0))
              (==→eq i k e) (fill_table-first n i table own)
        | inr e ↦ fill_table-at n (i + 1) _ k later (ground arith) (omega arith)
      ]

  clear_table-before :
      (n i : ℕ) (table : ℕ → BitBoard) (j : ℕ)
      → j < offset
      → clear_table offset n i table j ≡ table j
  unfolding clear_table
  clear_table-before zero i table j l = refl
  clear_table-before (suc n) i table j l =
      clear_table-before n (i + 1) _ j l ∙ rw (==_of_ne j (offset + i) (λ h. omega arith))

abbrev size_at : List Direction → BoardSquare → ℕ
size_at ds s = 2 ^ length (squares (relevant_mask ds s))

-- The part of the table for the square `s` is there, below `end`.
record IsBuilt (ds : List Direction) (t : AttackTables) (s : BoardSquare) (end : ℕ) : Type 0 where
  has_mask : (t.magic_params s).mask ≡ relevant_mask ds s
  within : (t.magic_params s).attacks_table + size_at ds s ≤ end
  filled :
      (k : ℕ)
      → k < size_at ds s
      → t.table ((t.magic_params s).attacks_table + k)
        ≡ ray_attacks ds s (occupancy_of (squares (relevant_mask ds s)) k 0)

module _ (ds : List Direction)
    (words : (s : BoardSquare) → s < 64 → IsWord (relevant_mask ds s)) where
  numbered :
      (s : BoardSquare) (offset : ℕ)
      → s < 64
      → Numbered ds s (relevant_mask ds s) (squares (relevant_mask ds s)) offset (size_at ds s) 0
  numbered s offset hs k a b = pext-own (relevant_mask ds s) k (words s hs) (omega arith)

  build_square-own :
      (t : AttackTables) (offset : ℕ) (s : BoardSquare)
      → s < 64
      → let r = build_square ds s (t, offset) in IsBuilt ds r.0 s r.1
  unfolding build_square
  build_square-own t offset s hs =
      let mask = relevant_mask ds s in
      record {
        has_mask = rw (==_refl s);
        within = rw (==_refl s) (omega arith);
        filled = λ k l. rw (==_refl s) (
            fill_table-at ds s mask (squares mask) offset (size_at ds s) 0 _ k
              (numbered s offset hs) (omega arith) (omega arith));
      }

  build_square-other :
      (t : AttackTables) (offset : ℕ) (s u : BoardSquare)
      → s < 64
      → (u == s) ≡ false
      → IsBuilt ds t u offset
      → let r = build_square ds s (t, offset) in IsBuilt ds r.0 u r.1
  unfolding build_square
  build_square-other t offset s u hs ne v =
      let mask = relevant_mask ds s in
      let start = (t.magic_params u).attacks_table in
      let within = v.within in
      record {
        has_mask = rw ne v.has_mask;
        within = rw ne (omega (arith, within));
        filled = λ k l. rw ne (
            fill_table-before ds s mask (squares mask) offset (size_at ds s) 0 _ (start + k)
              (numbered s offset hs) (omega (arith, within))
            ∙ clear_table-before ds s mask (squares mask) offset (size_at ds s) 0 t.table
                (start + k) (omega (arith, within))
            ∙ v.filled k l);
      }

  build_squares-IsBuilt :
      (n i : ℕ) (t : AttackTables) (offset : ℕ) (s : BoardSquare)
      → i + n ≤ 64
      → s < i + n
      → (s < i → IsBuilt ds t s offset)
      → let r = build_squares ds (range_from i n) (t, offset) in IsBuilt ds r.0 s r.1
  unfolding build_squares
  build_squares-IsBuilt zero i t offset s h l v = v (omega arith)
  build_squares-IsBuilt (suc n) i t offset s h l v =
      let r = build_square ds i (t, offset) in
      build_squares-IsBuilt n (suc i) r.0 r.1 s (omega arith) (omega arith) (λ k.
        elim (Bool-cases (s == i)) [
          | inl e ↦
              subst (λ u. IsBuilt ds r.0 u r.1) (sym (==→eq s i e))
                (build_square-own t offset i (omega arith))
          | inr e ↦ build_square-other t offset i s (omega arith) e (v (ground arith))
        ])

is_word : List Direction → ℕ → Bool
is_word ds s = ltb (relevant_mask ds s) (2 ^ 64)

rook_words : all_below 64 (is_word rook_directions) ≡ true
unfolding is_word all_below relevant_mask mask_ray set
rook_words = refl

bishop_words : all_below 64 (is_word bishop_directions) ≡ true
unfolding is_word all_below relevant_mask mask_ray set
bishop_words = refl

relevant_mask-IsWord :
    (k : Slider) (s : BoardSquare) → s < 64 → IsWord (relevant_mask (directions_of k) s)
unfolding is_word
relevant_mask-IsWord Slider.rook s hs =
    ltb→lt _ _ (all_below_sound 64 (is_word rook_directions) s rook_words hs)
relevant_mask-IsWord Slider.bishop s hs =
    ltb→lt _ _ (all_below_sound 64 (is_word bishop_directions) s bishop_words hs)

get_attacks-rays :
    (k : Slider) (t : AttackTables) (s : BoardSquare) (pieces : BitBoard)
    → s < 64
    → get_attacks (build_attacks_table (directions_of k) t) s pieces
      ≡ ray_attacks (directions_of k) s pieces
unfolding get_attacks build_attacks_table
get_attacks-rays k t s pieces hs =
    let ds = directions_of k in
    let mask = relevant_mask ds s in
    let w = relevant_mask-IsWord k s hs in
    let built =
      build_squares-IsBuilt ds (relevant_mask-IsWord k) 64 0 t 0 s (omega arith) (omega arith)
        (λ l. absurd (omega arith)) in
    let r = (build_squares ds (range 64) (t, 0)).0 in
    ap (λ m. r.table ((r.magic_params s).attacks_table + pext 64 pieces m)) built.has_mask
    ∙ (built.filled (pext 64 pieces mask) (pext-lt mask pieces w)
        ∙ ray_attacks-relevant k s (occupancy_of (squares mask) (pext 64 pieces mask) 0) pieces hs
            (λ u l h. occupancy_of-pext mask pieces u w l h))

-- After `InitializeMagicBitboards`, whatever the tables held before, a look-up for any pieces on
-- the board gives the squares on the rays of the rook, or of the bishop, up to the first piece on
-- each.
pub initialize_magic_bitboards-rays :
    (g : Magic) (s : BoardSquare) (pieces : BitBoard)
    → s < 64
    → (get_rook_attacks (initialize_magic_bitboards g) s pieces
        ≡ ray_attacks rook_directions s pieces)
      × (get_bishop_attacks (initialize_magic_bitboards g) s pieces
          ≡ ray_attacks bishop_directions s pieces)
unfolding get_rook_attacks get_bishop_attacks initialize_magic_bitboards
initialize_magic_bitboards-rays g s pieces hs = (
  get_attacks-rays Slider.rook g.rook s pieces hs,
  get_attacks-rays Slider.bishop g.bishop s pieces hs,
)
