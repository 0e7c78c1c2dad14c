-- ===== src/Bits.antt =====
-- The binary digits of a number, as Booleans, and the laws by which the bit operations of the
-- source (`&`, `|`, `^`, `~`, `<<`, `>>` on `uint64_t`) are reasoned about.
pub mod Logic
pub mod Word
use lc.Base.{ℕ, zero, suc, ◌/◌, ◌%◌, ◌==◌, Bool}

-- Bit `i` of `a`.
unfoldable pub bit : ℕ → ℕ → Bool
bit a zero = a % 2 == 1
bit a (suc i) = bit (a / 2) i
