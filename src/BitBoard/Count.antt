-- ===== src/BitBoard/Count.antt =====
-- The three ways of counting the squares of a board.
use lc.Base.{
  ℕ, zero, suc, ◌+◌, ◌/◌, ◌%◌, ◌≡◌, refl, sym, ap, ◌∙◌, ◌==◌, arith, Bool-cases, inl, inr, filter,
  range_from, range, length,
}
use lc.Bits.{bit}
use lc.BitBoard.{BitBoard, next, iterate, squares, count_few_from, count_few, popcount_from, count}
use lc.BitBoard.Laws.{IsWord}
use lc.BitBoard.Iterate.{squares-bits}

count_few_from-length : (n x c : ℕ) → count_few_from n x c ≡ c + length (iterate n x)
unfolding count_few_from iterate
count_few_from-length zero x c = omega arith
count_few_from-length (suc n) x c = elim (Bool-cases (x == 0)) [
  | inl e ↦ rw e (omega arith)
  | inr e ↦ rw (e, count_few_from-length n (next x) (c + 1)) (omega arith)
]

length-filter_shift :
    (v n s : ℕ)
    → length (filter (bit v) (range_from (suc s) n))
      ≡ length (filter (bit (v / 2)) (range_from s n))
unfolding bit
length-filter_shift v zero s = refl
length-filter_shift v (suc n) s = ground (arith, length-filter_shift v n (suc s))

popcount_from-length : (n v : ℕ) → popcount_from n v ≡ length (filter (bit v) (range n))
unfolding popcount_from bit
popcount_from-length zero v = refl
popcount_from-length (suc n) v = elim (Bool-cases (v % 2 == 1)) [
  | inl e ↦ rw (e, popcount_from-length n (v / 2), length-filter_shift v n 0) (ground arith)
  | inr e ↦ rw (e, popcount_from-length n (v / 2), length-filter_shift v n 0) (ground arith)
]

-- `count` and `count_few` both give the number of squares of a word that the loop visits.
pub count_lem :
    (b : BitBoard) → IsWord b → (count b ≡ length (squares b)) × (count_few b ≡ length (squares b))
unfolding count count_few
count_lem b w = (
  popcount_from-length 64 b ∙ ap length (sym (squares-bits b w)),
  count_few_from-length 64 b 0 ∙ omega arith,
)
