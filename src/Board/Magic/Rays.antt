-- ===== src/Board/Magic/Rays.antt =====
-- The rays of `BuildAttacksTable` in src/chess/board.cc look at the relevant squares only.
use mathlib.Core.List.{foldl}
use lc.Base.{
  ℕ, zero, suc, ◌<◌, ◌≡◌, refl, Bool, true, false, ◌&&◌, arith, List, [], ◌∷◌, ◌++◌, ltb, ltb→lt,
  All, Bool-cases, inl, inr, if◌then◌else◌, all_below, all_below_sound,
}
use lc.Base.Int.{ℤ, pos, ◌+ℤ◌}
use lc.Square.{BoardSquare, row, col, is_valid, square_int}
use lc.BitBoard.{BitBoard, get, set}
use lc.Board.Tables.{Direction, rook_directions, bishop_directions}
use lc.Board.Magic.{mask_ray, attack_ray, relevant_mask, ray_attacks, ray_fuel}

-- The squares of a ray before its last one.
abbrev inner : ℕ → Direction → ℤ → ℤ → List BoardSquare
inner zero d r c = []
inner (suc fuel) d r c =
    let r' = r +ℤ d.0 in
    let c' = c +ℤ d.1 in
    let rest = inner fuel d r' c' in
    if is_valid (r' +ℤ d.0) (c' +ℤ d.1) then square_int r' c' ∷ rest else []

abbrev all : (ℕ → Bool) → List ℕ → Bool
all p [] = true
all p (x ∷ xs) = p x && all p xs

abbrev Agree : BitBoard → BitBoard → List BoardSquare → Type 0
Agree p q ss = All (λ t. get p t ≡ get q t) ss

-- A ray that begins off the board finds nothing.
attack_ray-off :
    (fuel : ℕ) (d : Direction) (p : BitBoard) (r c : ℤ) (found : BitBoard)
    → is_valid (r +ℤ d.0) (c +ℤ d.1) ≡ false
    → attack_ray fuel d p r c found ≡ found
unfolding attack_ray
attack_ray-off zero d p r c found h = refl
attack_ray-off (suc fuel) d p r c found h = rw h refl

if_same {ℓ} : {A : Type ℓ} (c : Bool) (x : A) → (if c then x else x) ≡ x
if_same true x = refl
if_same false x = refl

attack_ray-Agree :
    (fuel : ℕ) (d : Direction) (p q : BitBoard) (r c : ℤ) (found : BitBoard)
    → Agree p q (inner fuel d r c)
    → attack_ray fuel d p r c found ≡ attack_ray fuel d q r c found
unfolding attack_ray
attack_ray-Agree zero d p q r c found h = refl
attack_ray-Agree (suc fuel) d p q r c found h =
    let r' = r +ℤ d.0 in
    let c' = c +ℤ d.1 in
    let t = square_int r' c' in
    elim (Bool-cases (is_valid (r' +ℤ d.0) (c' +ℤ d.1))) [
      | inl e ↦
          let agree : Agree p q (t ∷ inner fuel d r' c') = rw e at h in
          let same = attack_ray-Agree fuel d p q r' c' (set found t) agree.1 in rw (agree.0, same)
      | inr e ↦ rw (
        attack_ray-off fuel d p r' c' (set found t) e,
        attack_ray-off fuel d q r' c' (set found t) e,
        if_same (get p t) (set found t),
        if_same (get q t) (set found t),
      )
    ]

-- The rays of a list of directions, from a square.
abbrev all_inner : List Direction → BoardSquare → List BoardSquare
all_inner [] s = []
all_inner (d ∷ ds) s = inner ray_fuel d (pos (row s)) (pos (col s)) ++ all_inner ds s

All-split {ℓ κ} :
    {A : Type ℓ} (P : A → Type κ) (xs ys : List A) → All P (xs ++ ys) → All P xs × All P ys
All-split P [] ys h = (tt, h)
All-split P (x ∷ xs) ys h = let (l, r) = All-split P xs ys h.1 in ((h.0, l), r)

rays-Agree :
    (ds : List Direction) (s : BoardSquare) (p q found : BitBoard)
    → Agree p q (all_inner ds s)
    → foldl (λ attacks d. attack_ray ray_fuel d p (pos (row s)) (pos (col s)) attacks) found ds
      ≡ foldl (λ attacks d. attack_ray ray_fuel d q (pos (row s)) (pos (col s)) attacks) found ds
rays-Agree [] s p q found h = refl
rays-Agree (d ∷ ds) s p q found h =
    let (l, r) =
      All-split (λ t. get p t ≡ get q t) (inner ray_fuel d (pos (row s)) (pos (col s)))
        (all_inner ds s) h in
    rw (attack_ray-Agree ray_fuel d p q (pos (row s)) (pos (col s)) found l)
      (rays-Agree ds s p q _ r)

-- Every inner square is on the relevant mask, and is a square.
relevant : List Direction → ℕ → Bool
relevant ds s = all (λ t. ltb t 64 && get (relevant_mask ds s) t) (all_inner ds s)

rook_relevant : all_below 64 (relevant rook_directions) ≡ true
unfolding relevant all_below relevant_mask mask_ray get set
rook_relevant = refl

bishop_relevant : all_below 64 (relevant bishop_directions) ≡ true
unfolding relevant all_below relevant_mask mask_ray get set
bishop_relevant = refl

and_parts : (a b : Bool) → (a && b) ≡ true → (a ≡ true) × (b ≡ true)
and_parts a b h = ground arith

all-All {κ} :
    (P : ℕ → Type κ) (p : ℕ → Bool) (xs : List ℕ)
    → ((x : ℕ) → p x ≡ true → P x)
    → all p xs ≡ true
    → All P xs
all-All P p [] f h = tt
all-All P p (x ∷ xs) f h = let (l, r) = and_parts (p x) (all p xs) h in (f x l, all-All P p xs f r)

-- The two kinds of magic table.
pub data Slider : Type 0 where
  rook bishop : Slider

abbrev pub directions_of : Slider → List Direction
directions_of rook = rook_directions
directions_of bishop = bishop_directions

all_relevant : (k : Slider) (s : BoardSquare) → s < 64 → relevant (directions_of k) s ≡ true
all_relevant rook s hs = all_below_sound 64 (relevant rook_directions) s rook_relevant hs
all_relevant bishop s hs = all_below_sound 64 (relevant bishop_directions) s bishop_relevant hs

-- The squares that a rook or a bishop attacks depend on the pieces on the squares of its relevant mask
-- only.
pub ray_attacks-relevant :
    (k : Slider) (s : BoardSquare) (p q : BitBoard)
    → s < 64
    → ((t : BoardSquare)
        → t < 64
        → get (relevant_mask (directions_of k) s) t ≡ true
        → get p t ≡ get q t)
    → ray_attacks (directions_of k) s p ≡ ray_attacks (directions_of k) s q
unfolding ray_attacks relevant
ray_attacks-relevant k s p q hs same = rays-Agree (directions_of k) s p q 0 (
    all-All (λ t. get p t ≡ get q t) _ (all_inner (directions_of k) s)
      (λ t h. let (l, r) = and_parts (ltb t 64) _ h in same t (ltb→lt t 64 l) r)
      (all_relevant k s hs))
