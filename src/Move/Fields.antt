-- ===== src/Move/Fields.antt =====
-- Fields of a 16-bit word: what a mask and a shift read, and what a masked write leaves.
use native.Mathlib.Nat.{mod-lt, one-le-pow}
use lc.Base.{
  ℕ, ◌+◌, ◌-◌, ◌*◌, ◌/◌, ◌%◌, ◌^◌, ◌≤◌, ◌<◌, ◌≡◌, ap, ◌∙◌, bit_and, bit_or, bit_xor, Bool, true,
  not, ◌&&◌, ◌||◌, ltb, leb, ◌⊎◌, arith, Bool-cases, inl, inr, if◌then◌else◌, all_below,
  all_below_sound,
}
use mathlib.Core.Bool.{xor}
use lc.Bits.{bit}
use lc.Bits.Logic.{bit-bit_and, bit-bit_or, bit-bit_xor, bit-zero}
use lc.Bits.Word.{
  bit-above, lt_of_bits, bit-shl, bit-shr, bit-low, bit-complement, eq_of_bits, eq_of_all_bits,
}
use lc.Move.{not16}

-- The `w` bits from `k` on.
abbrev pub field : ℕ → ℕ → ℕ → ℕ
field k w m = m / 2 ^ k % 2 ^ w

-- Bit `i` of the mask is set exactly from `k` to `k + w`.
abbrev pub covers : ℕ → ℕ → ℕ → ℕ → Bool
covers k w mask i = if leb k i && ltb i (k + w) then bit mask i else not (bit mask i)

mod_pow-lt : (w m : ℕ) → m % 2 ^ w < 2 ^ w
mod_pow-lt w m = mod-lt m (one-le-pow w 2 (omega arith))

pub bit-field : (k w m i : ℕ) → bit (field k w m) i ≡ (ltb i w && bit m (k + i))
bit-field k w m i = elim (Bool-cases (ltb i w)) [
  | inl l ↦ rw (bit-low w (m / 2 ^ k) i (ground arith), bit-shr, l)
  | inr l ↦ rw (bit-above w (field k w m) i (mod_pow-lt w _) (ground arith), l)
]

module _ (k w mask : ℕ) (fits : k + w ≤ 16) (table : all_below 16 (covers k w mask) ≡ true)
    (small : mask < 2 ^ 16) where
  bit-mask : (i : ℕ) → bit mask i ≡ (leb k i && ltb i (k + w))
  bit-mask i = elim (Bool-cases (ltb i 16)) [
    | inl l ↦ ground (arith, all_below_sound 16 (covers k w mask) i table (ground arith))
    | inr l ↦ rw (bit-above 16 mask i small (ground arith)) (ground arith)
  ]

  bit-not_mask : (i : ℕ) → i < 16 → bit (not16 mask) i ≡ not (leb k i && ltb i (k + w))
  bit-not_mask i l = bit-complement 16 mask i small l ∙ ap not (bit-mask i)

  pub mask-field : (m : ℕ) → bit_and m mask / 2 ^ k ≡ field k w m
  mask-field m =
      eq_of_all_bits _ _ (λ i. rw (bit-shr, bit-bit_and, bit-mask, bit-field) (ground arith))

  -- The bits of `(m & ~mask) | v << k`.
  bit-put :
      (m v i : ℕ)
      → i < 16
      → bit (bit_or (bit_and m (not16 mask)) (v * 2 ^ k)) i
        ≡ ((bit m i && not (leb k i && ltb i (k + w))) || (leb k i && bit v (i - k)))
  bit-put m v i l = rw (bit-bit_or, bit-bit_and, bit-not_mask i l, bit-shl)

  pub field-put :
      (m v : ℕ) → v < 2 ^ w → field k w (bit_or (bit_and m (not16 mask)) (v * 2 ^ k)) ≡ v
  field-put m v h = eq_of_bits w _ v (omega arith) h (λ i l.
      rw (bit-field, bit-put m v (k + i) (omega arith))
        (let e : k + i - k ≡ i = omega arith in rw e (ground arith)))

  pub field-put_other :
      (k' w' m v : ℕ)
      → v < 2 ^ w
      → k' + w' ≤ 16
      → (k' + w' ≤ k) ⊎ (k + w ≤ k')
      → field k' w' (bit_or (bit_and m (not16 mask)) (v * 2 ^ k)) ≡ field k' w' m
  field-put_other k' w' m v h f apart = eq_of_all_bits _ _ (λ i. elim (Bool-cases (ltb i w')) [
    | inl l ↦
        rw (bit-field, bit-field, bit-put m v (k' + i) (ground arith))
          (ground (arith, bit-above w v (k' + i - k) h))
    | inr l ↦ rw (bit-field, bit-field, l)
  ])

  pub put-lt : (m v : ℕ) → v < 2 ^ w → bit_or (bit_and m (not16 mask)) (v * 2 ^ k) < 2 ^ 16
  put-lt m v h = lt_of_bits 16 _ (λ i l.
      rw
        (
          bit-bit_or,
          bit-bit_and,
          bit-shl,
          bit-above 16 (not16 mask) i (omega arith) l,
          bit-above w v (i - k) h (omega arith),
        )
        (ground arith))

  pub field-or_mask :
      (k' w' m : ℕ) → (k' + w' ≤ k) ⊎ (k + w ≤ k') → field k' w' (bit_or m mask) ≡ field k' w' m
  field-or_mask k' w' m apart = eq_of_all_bits _ _ (λ i.
      rw (bit-field k' w' m i, bit-field k' w' (bit_or m mask) i, bit-bit_or, bit-mask)
        (ground arith))

  pub bit-or_mask : (m i : ℕ) → bit (bit_or m mask) i ≡ (bit m i || (leb k i && ltb i (k + w)))
  bit-or_mask m i = rw (bit-bit_or, bit-mask)

pub field-xor : (k w m c : ℕ) → field k w (bit_xor m c) ≡ bit_xor (field k w m) (field k w c)
unfolding xor
field-xor k w m c = eq_of_all_bits _ _ (λ i.
    rw
      (
        bit-bit_xor (field k w m) (field k w c) i,
        bit-field k w m i,
        bit-field k w c i,
        bit-field k w (bit_xor m c) i,
        bit-bit_xor m c (k + i),
      )
      (ground arith))

pub xor-zero : (a : ℕ) → bit_xor a 0 ≡ a
unfolding xor
xor-zero a = eq_of_all_bits _ _ (λ i. rw (bit-bit_xor, bit-zero) (ground arith))
