-- ===== src/BitBoard/Iterate.antt =====
-- The loop over the squares of a board visits its members, each once, from a1 to h8.
use native.Mathlib.Nat.{pow-suc}
use lc.Base.{
  ℕ, zero, suc, ◌+◌, ◌-◌, ◌/◌, ◌%◌, ◌^◌, ◌≤◌, ◌<◌, ◌≡◌, refl, sym, ap, ◌∙◌, Bool, true, false, not,
  ◌&&◌, ◌==◌, arith, Bool-cases, and-false_right, and-true_right, inl, inr, ltb, [], ◌∷◌, filter,
  range_from, range,
}
use lc.Bits.{bit}
use lc.Bits.Logic.{bit-zero, bit-bit_and}
use lc.BitBoard.{BitBoard, get, lowest_bit_from, get_lowest_bit, next, iterate, squares}
use lc.BitBoard.Laws.{IsWord, get-bit, zero_of_bits, nonzero_of_bit}
use lc.Bits.Word.{bit-above, lt_of_bits}

lowest_bit_from-eq :
    (n v s : ℕ)
    → bit v s ≡ true
    → ((j : ℕ) → j < s → bit v j ≡ false)
    → s < n
    → lowest_bit_from n v ≡ s
unfolding lowest_bit_from bit
lowest_bit_from-eq zero v s e h l = absurd (omega arith)
lowest_bit_from-eq (suc n) v zero e h l = rw e
lowest_bit_from-eq (suc n) v (suc s) e h l =
    rw (h 0 (omega arith))
      (ap suc (lowest_bit_from-eq n (v / 2) s e (λ j k. h (suc j) (omega arith)) (omega arith)))

-- `v & (v - 1)` clears the lowest bit.
bit-next_from :
    (n v i : ℕ)
    → 0 < v
    → v < 2 ^ n
    → (bit v i && bit (v - 1) i) ≡ (bit v i && not (lowest_bit_from n v == i))
unfolding lowest_bit_from bit
bit-next_from zero v i p h = absurd (omega arith)
bit-next_from (suc n) v zero p h = elim (Bool-cases (v % 2 == 1)) [
  | inl odd ↦ rw odd (ground arith)
  | inr even ↦ rw even refl
]
bit-next_from (suc n) v (suc i) p h = elim (Bool-cases (v % 2 == 1)) [
  | inl odd ↦ let e : (v - 1) / 2 ≡ v / 2 = ground arith in rw (odd, e) (ground arith)
  | inr even ↦
      let e : (v - 1) / 2 ≡ v / 2 - 1 = ground arith in
      rw (even, e)
        (bit-next_from n (v / 2) i (ground arith) (omega (arith, pow-suc 2 n)) ∙ ground arith)
]

get_lowest_bit-eq :
    (v s : ℕ) → bit v s ≡ true → ((j : ℕ) → j < s → bit v j ≡ false) → s < 64 → get_lowest_bit v ≡ s
unfolding get_lowest_bit
get_lowest_bit-eq v s e h l = lowest_bit_from-eq 64 v s e h l

positive : (v s : ℕ) → bit v s ≡ true → 0 < v
positive zero s e = absurd (ground (arith, bit-zero s))
positive (suc v) s e = omega arith

next-IsWord : (v : ℕ) → IsWord v → IsWord (next v)
unfolding next
next-IsWord v w = lt_of_bits 64 _ (λ i l. bit-bit_and v (v - 1) i ∙ rw (bit-above 64 v i w l))

pub bit-next :
    (v i : ℕ) → 0 < v → IsWord v → bit (next v) i ≡ (bit v i && not (get_lowest_bit v == i))
unfolding next get_lowest_bit
bit-next v i p w = bit-bit_and v (v - 1) i ∙ bit-next_from 64 v i p w

filter_congr :
    (f g : ℕ → Bool) (m s : ℕ)
    → ((j : ℕ) → s ≤ j → f j ≡ g j)
    → filter f (range_from s m) ≡ filter g (range_from s m)
filter_congr f g zero s h = refl
filter_congr f g (suc m) s h =
    rw (h s (omega arith), filter_congr f g m (suc s) (λ j l. h j (omega arith)))

filter_bounded :
    (f g : ℕ → Bool) (m s : ℕ)
    → ((j : ℕ) → j < s + m → f j ≡ g j)
    → filter f (range_from s m) ≡ filter g (range_from s m)
filter_bounded f g zero s h = refl
filter_bounded f g (suc m) s h =
    rw (h s (omega arith), filter_bounded f g m (suc s) (λ j l. h j (omega arith)))

iterate-zero : (n : ℕ) → iterate n 0 ≡ []
unfolding iterate
iterate-zero zero = refl
iterate-zero (suc n) = refl

-- The bits of `v` stand from `s` on, below `s + m`.
abbrev Within : ℕ → ℕ → ℕ → Type 0
Within s m v = ((j : ℕ) → j < s → bit v j ≡ false) × ((j : ℕ) → s + m ≤ j → bit v j ≡ false)

below : (v s m i : ℕ) → Within s m v → bit v s ≡ false → i < suc s → bit v i ≡ false
below v s m i h e l = elim (Bool-cases (ltb i s)) [
  | inl k ↦ h.0 i (ground arith)
  | inr k ↦ let same : i ≡ s = ground arith in rw same e
]

iterate-filter :
    (m s n v : ℕ)
    → m ≤ n
    → s + m ≤ 64
    → IsWord v
    → Within s m v
    → iterate n v ≡ filter (bit v) (range_from s m)
unfolding iterate
iterate-filter zero s n v l k w h = rw z (iterate-zero n)
  where
    clear : (i : ℕ) → bit v i ≡ false
    clear i = elim (Bool-cases (ltb i s)) [
      | inl e ↦ h.0 i (ground arith)
      | inr e ↦ h.1 i (ground arith)
    ]

    z : v ≡ 0
    z = zero_of_bits v clear
iterate-filter (suc m) s zero v l k w h = absurd (omega arith)
iterate-filter (suc m) s (suc n) v l k w h = elim (Bool-cases (bit v s)) [
  | inl e ↦
      rw (e, nonzero_of_bit v s e, lowest e)
        (ap (◌∷◌ s) (
          iterate-filter m (suc s) n (next v) (omega arith) (omega arith) (next-IsWord v w)
            (within e)
          ∙ same_after e))
  | inr e ↦ rw e (
      iterate-filter m (suc s) (suc n) v (omega arith) (omega arith) w
        ((λ j q. below v s (suc m) j h e q), (λ j q. h.1 j (omega arith))))
]
  where
    lowest : bit v s ≡ true → get_lowest_bit v ≡ s
    lowest e = get_lowest_bit-eq v s e h.0 (omega arith)

    next-bit : bit v s ≡ true → (i : ℕ) → bit (next v) i ≡ (bit v i && not (s == i))
    next-bit e i = bit-next v i (positive v s e) w ∙ rw (lowest e)

    within : bit v s ≡ true → Within (suc s) m (next v)
    within e = (
      (λ j q. rw (next-bit e j) (elim (Bool-cases (s == j)) [
        | inl same ↦ rw same (and-false_right _)
        | inr other ↦ rw (h.0 j (ground arith))
      ])),
      (λ j q. rw (next-bit e j, h.1 j (omega arith))),
    )

    same_after :
        bit v s ≡ true
        → filter (bit (next v)) (range_from (suc s) m) ≡ filter (bit v) (range_from (suc s) m)
    same_after e = filter_congr (bit (next v)) (bit v) m (suc s) (λ j q.
        next-bit e j ∙ (let other : (s == j) ≡ false = ground arith in rw other (and-true_right _)))

pub squares-bits : (b : BitBoard) → IsWord b → squares b ≡ filter (bit b) (range 64)
squares-bits b w =
    iterate-filter 64 0 64 b (omega arith) (omega arith) w
      ((λ j q. absurd (omega arith)), (λ j q. bit-above 64 b j w q))

-- The loop over a word visits exactly the squares that are on it, in increasing order.
pub squares-filter : (b : BitBoard) → IsWord b → squares b ≡ filter (get b) (range 64)
squares-filter b w =
    squares-bits b w ∙ filter_bounded (bit b) (get b) 64 0 (λ j q. sym (get-bit b j (omega arith)))
