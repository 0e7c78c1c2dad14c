-- ===== src/Hash.antt =====
-- src/utils/hashcat.h: hashes of 64-bit words, with the wrap-around of `uint64_t`.
use mathlib.Core.List.{foldl}
use lc.Base.{ℕ, ◌+◌, ◌*◌, ◌/◌, ◌%◌, ◌^◌, bit_xor, List}

abbrev word64 : ℕ
word64 = 2 ^ 64

-- Hash(uint64_t val)
unfoldable pub hash : ℕ → ℕ
hash val =
    (0xfad0d7f2fbb059f1 * ((val + 0xbaad41cdcb839961) % word64)
      + 0x7acec0050bf82f43 * ((val / 2 ^ 31 + 0xd571b3a92b1b2755) % word64))
    % word64

-- HashCat(uint64_t hash, uint64_t x)
unfoldable pub hash_cat : ℕ → ℕ → ℕ
hash_cat h x = bit_xor h ((0x299799adf0d95def + hash x + h * 2 ^ 6 % word64 + h / 4) % word64)

-- HashCat(std::initializer_list<uint64_t> args)
unfoldable pub hash_cat_list : List ℕ → ℕ
hash_cat_list args = foldl hash_cat 0 args
