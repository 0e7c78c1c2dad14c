-- ===== src/Board/Magic/Index.antt =====
-- The occupancies of `BuildAttacksTable` in src/chess/board.cc and the index that `_pext_u64` gives them.
use native.Mathlib.Nat.{pow-suc}
use lc.Base.{
  ℕ, zero, suc, ◌+◌, ◌*◌, ◌/◌, ◌%◌, ◌^◌, ◌<◌, ◌≤◌, ◌≡◌, refl, sym, ap, ◌∙◌, Bool, true, false, ◌==◌,
  subst, ==→eq, or-false_right, arith, length, filter, range_from, Bool-cases, inl, inr,
  if◌then◌else◌,
}
use lc.Bits.{bit}
use lc.Bits.Logic.{bit-zero}
use lc.Square.{BoardSquare}
use lc.BitBoard.{BitBoard, get, set_if, squares}
use lc.BitBoard.Laws.{IsWord, get-bit, bit-set_if}
use lc.BitBoard.Iterate.{squares-bits}
use lc.Board.Magic.{occupancy_of, pext}

abbrev digit : Bool → ℕ
digit true = 1
digit false = 0

-- `pext` on the bits from `s` on.
unfoldable gather : ℕ → ℕ → BitBoard → BitBoard → ℕ
gather zero s x m = 0
gather (suc n) s x m =
    let rest = gather n (suc s) x m in if bit m s then digit (bit x s) + 2 * rest else rest

parity : (x : ℕ) → x % 2 ≡ digit (x % 2 == 1)
parity x = ground arith

pext-gather :
    (n s x m X M : ℕ)
    → ((j : ℕ) → bit x j ≡ bit X (s + j))
    → ((j : ℕ) → bit m j ≡ bit M (s + j))
    → pext n x m ≡ gather n s X M
unfolding pext gather bit
pext-gather zero s x m X M hx hm = refl
pext-gather (suc n) s x m X M hx hm =
    let here : s + 0 ≡ s = omega arith in
    let next : (j : ℕ) → s + suc j ≡ suc s + j = λ j. omega arith in
    let rest =
      pext-gather n (suc s) (x / 2) (m / 2) X M (λ j. hx (suc j) ∙ ap (bit X) (next j))
        (λ j. hm (suc j) ∙ ap (bit M) (next j)) in
    let x0 : (x % 2 == 1) ≡ bit X s = hx 0 ∙ ap (bit X) here in
    let m0 : (m % 2 == 1) ≡ bit M s = hm 0 ∙ ap (bit M) here in
    let low : x % 2 ≡ digit (bit X s) = parity x ∙ ap digit x0 in rw (rest, low, m0)

-- The squares from `s` on leave the bits below as they are.
occupancy_of-below :
    (n s : ℕ) (M i acc t : ℕ)
    → s + n ≤ 64
    → t < s
    → bit (occupancy_of (filter (bit M) (range_from s n)) i acc) t ≡ bit acc t
unfolding occupancy_of
occupancy_of-below zero s M i acc t h l = refl
occupancy_of-below (suc n) s M i acc t h l = elim (Bool-cases (bit M s)) [
  | inl e ↦ rw e (
      occupancy_of-below n (suc s) M (i / 2) (set_if acc s (i % 2 == 1)) t (omega arith)
        (omega arith)
      ∙ bit-set_if acc s t (i % 2 == 1) (omega arith)
      ∙ ground (arith, or-false_right (bit acc t)))
  | inr e ↦ rw e (occupancy_of-below n (suc s) M i acc t (omega arith) (omega arith))
]

gather-occupancy_of :
    (n s M i acc : ℕ)
    → s + n ≤ 64
    → i < 2 ^ length (filter (bit M) (range_from s n))
    → ((j : ℕ) → s ≤ j → bit acc j ≡ false)
    → gather n s (occupancy_of (filter (bit M) (range_from s n)) i acc) M ≡ i
unfolding gather occupancy_of
gather-occupancy_of zero s M i acc h l z = omega arith
gather-occupancy_of (suc n) s M i acc h l z = elim (Bool-cases (bit M s)) [
  | inl e ↦
      let rest = filter (bit M) (range_from (suc s) n) in
      let next = set_if acc s (i % 2 == 1) in
      let small : i < 2 ^ suc (length rest) = rw e at l in
      let clear : (j : ℕ) → suc s ≤ j → bit next j ≡ false =
        λ j k. bit-set_if acc s j (i % 2 == 1) (omega arith) ∙ ground (arith, z j) in
      let here : bit (occupancy_of rest (i / 2) next) s ≡ (i % 2 == 1) =
        occupancy_of-below n (suc s) M (i / 2) next s (omega arith) (omega arith)
        ∙ bit-set_if acc s s (i % 2 == 1) (omega arith)
        ∙ ground (arith, z s) in
      rw
        (
          e,
          here,
          gather-occupancy_of n (suc s) M (i / 2) next (omega arith)
              (omega (arith, pow-suc 2 (length rest))) clear,
        )
        (ground (arith, parity i))
  | inr e ↦
      rw e
        (gather-occupancy_of n (suc s) M i acc (omega arith) (rw e at l) (λ j k. z j (omega arith)))
]

gather-parts :
    (n s : ℕ) (x y m : ℕ)
    → gather (suc n) s x m ≡ gather (suc n) s y m
    → (gather n (suc s) x m ≡ gather n (suc s) y m) × (bit m s ≡ true → bit x s ≡ bit y s)
unfolding gather
gather-parts n s x y m g = ground arith

gather-agree :
    (n s : ℕ) (x y m t : ℕ)
    → gather n s x m ≡ gather n s y m
    → s ≤ t
    → t < s + n
    → bit m t ≡ true
    → bit x t ≡ bit y t
gather-agree zero s x y m t g l h b = absurd (omega arith)
gather-agree (suc n) s x y m t g l h b = elim (Bool-cases (s == t)) [
  | inl e ↦
      subst (λ u. bit m u ≡ true → bit x u ≡ bit y u) (==→eq s t e) (gather-parts n s x y m g).1 b
  | inr e ↦
      gather-agree n (suc s) x y m t (gather-parts n s x y m g).0 (ground arith) (omega arith) b
]

gather-lt : (n s x m : ℕ) → gather n s x m < 2 ^ length (filter (bit m) (range_from s n))
unfolding gather
gather-lt zero s x m = omega arith
gather-lt (suc n) s x m = elim (Bool-cases (bit m s)) [
  | inl e ↦
      let l = gather-lt n (suc s) x m in
      rw e (ground (arith, pow-suc 2 (length (filter (bit m) (range_from (suc s) n)))))
  | inr e ↦ rw e (gather-lt n (suc s) x m)
]

pext-whole : (x m : ℕ) → pext 64 x m ≡ gather 64 0 x m
pext-whole x m =
    pext-gather 64 0 x m x m (λ j. ap (bit x) (omega arith)) (λ j. ap (bit m) (omega arith))

pub pext-own :
    (mask k : ℕ)
    → IsWord mask
    → k < 2 ^ length (squares mask)
    → pext 64 (occupancy_of (squares mask) k 0) mask ≡ k
pext-own mask k w l = rw (squares-bits mask w) (
    pext-whole _ mask
    ∙ gather-occupancy_of 64 0 mask k 0 (omega arith) (rw (squares-bits mask w) at l)
        (λ j h. bit-zero j))

pub pext-lt : (mask x : ℕ) → IsWord mask → pext 64 x mask < 2 ^ length (squares mask)
pext-lt mask x w = rw (squares-bits mask w, pext-whole x mask) (gather-lt 64 0 x mask)

pub occupancy_of-pext :
    (mask x t : ℕ)
    → IsWord mask
    → t < 64
    → get mask t ≡ true
    → get (occupancy_of (squares mask) (pext 64 x mask) 0) t ≡ get x t
occupancy_of-pext mask x t w ht on =
    let o = occupancy_of (squares mask) (pext 64 x mask) 0 in
    get-bit o t ht
    ∙ gather-agree 64 0 o x mask t
        (sym (pext-whole o mask)
          ∙ pext-own mask (pext 64 x mask) w (pext-lt mask x w)
          ∙ pext-whole x mask)
        (omega arith) (omega arith) (sym (get-bit mask t ht) ∙ on)
    ∙ sym (get-bit x t ht)

-- For a mask, the occupancies of its squares are numbered by `pext`: the index of the occupancy
-- number `i` is `i`; the index of any board is below their count; and the occupancy with that index
-- has the same squares of the mask as the board.
pub pext-occupancy_of :
    (mask x : BitBoard) (i : ℕ) (t : BoardSquare)
    → IsWord mask
    → i < 2 ^ length (squares mask)
    → t < 64
    → get mask t ≡ true
    → (pext 64 (occupancy_of (squares mask) i 0) mask ≡ i)
      × (pext 64 x mask < 2 ^ length (squares mask))
      × (get (occupancy_of (squares mask) (pext 64 x mask) 0) t ≡ get x t)
pext-occupancy_of mask x i t w hi ht on =
    (pext-own mask i w hi, pext-lt mask x w, occupancy_of-pext mask x t w ht on)
