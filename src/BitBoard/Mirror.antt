-- ===== src/BitBoard/Mirror.antt =====
-- `BitBoard::Mirror` turns the board over as `BoardSquare::Mirror` turns over each square.
use lc.Base.{
  ℕ, ◌+◌, ◌-◌, ◌*◌, ◌%◌, ◌^◌, ◌<◌, ◌≡◌, refl, sym, ap, ◌∙◌, bit_and, bit_xor, Bool, true, not, ◌&&◌,
  ◌||◌, ◌==◌, ltb, leb, arith, Bool-cases, inl, inr, if◌then◌else◌, all_below, all_below_sound,
}
use lc.Bits.{bit}
use lc.Bits.Logic.{bit-bit_and, bit-bit_or}
use lc.Bits.Word.{bit-above, lt_of_bits, bit-shl, bit-shr, bit-low}
use lc.Square
use lc.Square.{BoardSquare}
use lc.BitBoard.{BitBoard, word64, get, exchange, mirror}
use lc.BitBoard.Laws.{IsWord, get-bit, eq_of_get}

bit-exchange :
    (k low high b i : ℕ)
    → i < 64
    → bit (exchange k low high b) i
      ≡ ((leb k i && (bit b (i - k) && bit low (i - k))) || (bit b (k + i) && bit high (k + i)))
unfolding exchange
bit-exchange k low high b i l =
    rw (bit-bit_or, bit-low 64 _ i l, bit-shl, bit-shr, bit-bit_and, bit-bit_and)

exchange-IsWord : (k low high b : ℕ) → IsWord b → IsWord (exchange k low high b)
unfolding exchange
exchange-IsWord k low high b w = lt_of_bits 64 _ (λ i l.
    bit-bit_or _ _ i
    ∙ rw (
      bit-above 64 (bit_and b low * 2 ^ k % word64) i (omega arith) l,
      bit-shr,
      bit-bit_and,
      bit-above 64 b (k + i) w (omega arith),
    ))

-- The square from which `exchange` takes the one at `i`.
abbrev source : ℕ → ℕ → ℕ → ℕ
source k low i = if bit low i then k + i else i - k

-- The masks send each bit to one place, inside the word.
abbrev splits : ℕ → ℕ → ℕ → ℕ → Bool
splits k low high i =
    ltb (source k low i) 64
    && (if bit low i
        then bit high (k + i) && not (leb k i && bit low (i - k))
        else (leb k i && bit low (i - k)) && not (bit high (k + i)))

exchange-source :
    (k low high b i : ℕ)
    → splits k low high i ≡ true
    → i < 64
    → (bit (exchange k low high b) i ≡ bit b (source k low i)) × (source k low i < 64)
exchange-source k low high b i s l = elim (Bool-cases (bit low i)) [
  | inl e ↦ ground (arith, bit-exchange k low high b i l)
  | inr e ↦ ground (arith, bit-exchange k low high b i l)
]

splits_8 : all_below 64 (splits 8 0x00FF00FF00FF00FF 0xFF00FF00FF00FF00) ≡ true
unfolding bit all_below
splits_8 = refl

splits_16 : all_below 64 (splits 16 0x0000FFFF0000FFFF 0xFFFF0000FFFF0000) ≡ true
unfolding bit all_below
splits_16 = refl

splits_32 : all_below 64 (splits 32 0x00000000FFFFFFFF 0xFFFFFFFF00000000) ≡ true
unfolding bit all_below
splits_32 = refl

abbrev sources : ℕ → ℕ
sources i =
    source 32 0x00000000FFFFFFFF (source 16 0x0000FFFF0000FFFF (source 8 0x00FF00FF00FF00FF i))

abbrev turns : ℕ → Bool
turns i = (sources i == bit_xor i 56) && ltb (bit_xor i 56) 64 && (bit_xor (bit_xor i 56) 56 == i)

sources_table : all_below 64 turns ≡ true
unfolding bit all_below
sources_table = refl

sources-square :
    (i : ℕ)
    → i < 64
    → (sources i ≡ bit_xor i 56) × (bit_xor i 56 < 64) × (bit_xor (bit_xor i 56) 56 ≡ i)
sources-square i l = let h = all_below_sound 64 turns i sources_table l in ground (arith, h)

bit-mirror : (b i : ℕ) → i < 64 → bit (mirror b) i ≡ bit b (sources i)
unfolding mirror
bit-mirror b i l =
    let b32 = exchange 32 0x00000000FFFFFFFF 0xFFFFFFFF00000000 b in
    let b16 = exchange 16 0x0000FFFF0000FFFF 0xFFFF0000FFFF0000 b32 in
    let i8 = source 8 0x00FF00FF00FF00FF i in
    let i16 = source 16 0x0000FFFF0000FFFF i8 in
    let e8 =
      exchange-source 8 0x00FF00FF00FF00FF 0xFF00FF00FF00FF00 b16 i
        (all_below_sound 64 (splits 8 0x00FF00FF00FF00FF 0xFF00FF00FF00FF00) i splits_8 l) l in
    let e16 =
      exchange-source 16 0x0000FFFF0000FFFF 0xFFFF0000FFFF0000 b32 i8
        (all_below_sound 64 (splits 16 0x0000FFFF0000FFFF 0xFFFF0000FFFF0000) i8 splits_16 e8.1)
        e8.1 in
    let e32 =
      exchange-source 32 0x00000000FFFFFFFF 0xFFFFFFFF00000000 b i16
        (all_below_sound 64 (splits 32 0x00000000FFFFFFFF 0xFFFFFFFF00000000) i16 splits_32 e16.1)
        e16.1 in
    e8.0 ∙ e16.0 ∙ e32.0

pub mirror-IsWord : (b : BitBoard) → IsWord b → IsWord (mirror b)
unfolding mirror
mirror-IsWord b w = exchange-IsWord 8 _ _ _ (exchange-IsWord 16 _ _ _ (exchange-IsWord 32 _ _ b w))

pub square_mirror-lt : (s : BoardSquare) → s < 64 → Square.mirror s < 64
unfolding Square.mirror
square_mirror-lt s l = (sources-square s l).1

pub square_mirror-mirror : (s : BoardSquare) → s < 64 → Square.mirror (Square.mirror s) ≡ s
unfolding Square.mirror
square_mirror-mirror s l = (sources-square s l).2

-- The mirrored board has a square of the board exactly when the board has the mirrored square.
pub get-mirror :
    (b : BitBoard) (s : BoardSquare) → s < 64 → get (mirror b) s ≡ get b (Square.mirror s)
unfolding Square.mirror
get-mirror b s l =
    let e = sources-square s l in
    get-bit (mirror b) s l ∙ bit-mirror b s l ∙ ap (bit b) e.0 ∙ sym (get-bit b (bit_xor s 56) e.1)

-- To mirror a word twice changes nothing.
pub mirror-mirror : (b : BitBoard) → IsWord b → mirror (mirror b) ≡ b
mirror-mirror b w = eq_of_get (mirror (mirror b)) b (mirror-IsWord _ (mirror-IsWord b w)) w (λ p l.
    get-mirror (mirror b) p l
    ∙ get-mirror b (Square.mirror p) (square_mirror-lt p l)
    ∙ ap (get b) (square_mirror-mirror p l))
