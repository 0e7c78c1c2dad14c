-- ===== src/Tests/Magic.antt =====
-- The theorems on the magic tables at concrete squares and boards.
use lc.Base.{
  ℕ, ◌^◌, ◌<◌, ◌≡◌, refl, Bool, true, not, ◌||◌, arith, length, all_below, all_below_sound,
}
use lc.BitBoard
use lc.BitBoard.{BitBoard, get, set, squares}
use lc.Board.{bool_eq}
use lc.Board.Rights.{bool_eq→eq}
use lc.Board.Tables.{rook_directions, bishop_directions}
use lc.Board.Magic.{
  Magic, initialize_magic_bitboards, get_rook_attacks, get_bishop_attacks, ray_attacks,
  relevant_mask, mask_ray, occupancy_of, pext,
}
use lc.Board.Magic.Rays.{Slider, directions_of, ray_attacks-relevant}
use lc.Board.Magic.Index.{pext-occupancy_of}
use lc.Board.Magic.Build.{initialize_magic_bitboards-rays}
use lc.Tests.Data.{no_tables}

abbrev unset : Magic
unset = record { rook = no_tables; bishop = no_tables }

initialize_magic_bitboards-rays_example :
    (get_rook_attacks (initialize_magic_bitboards unset) 27 0xFFFF00000000FFFF
      ≡ ray_attacks rook_directions 27 0xFFFF00000000FFFF)
    × (get_bishop_attacks (initialize_magic_bitboards unset) 27 0xFFFF00000000FFFF
        ≡ ray_attacks bishop_directions 27 0xFFFF00000000FFFF)
initialize_magic_bitboards-rays_example =
    initialize_magic_bitboards-rays unset 27 0xFFFF00000000FFFF (omega arith)

-- The pieces on h1 and a8 are irrelevant to a rook on a1.
agree_at : ℕ → Bool
agree_at t =
    not (get (relevant_mask rook_directions 0) t)
    || bool_eq (get 0x0000000000000400 t) (get 0x0100000000000480 t)

agree_table : all_below 64 agree_at ≡ true
unfolding agree_at all_below relevant_mask mask_ray get set bool_eq
agree_table = refl

same_there :
    (t : ℕ)
    → t < 64
    → get (relevant_mask rook_directions 0) t ≡ true
    → get 0x0000000000000400 t ≡ get 0x0100000000000480 t
unfolding agree_at
same_there t l on =
    let h = all_below_sound 64 agree_at t agree_table l in bool_eq→eq _ _ (ground (arith, h, on))

ray_attacks-relevant_example :
    ray_attacks (directions_of Slider.rook) 0 0x0000000000000400
    ≡ ray_attacks (directions_of Slider.rook) 0 0x0100000000000480
ray_attacks-relevant_example =
    ray_attacks-relevant Slider.rook 0 0x0000000000000400 0x0100000000000480 (omega arith)
      same_there

small_index : 5 < 2 ^ length (squares 0x7E)
unfolding BitBoard.iterate BitBoard.next BitBoard.get_lowest_bit BitBoard.lowest_bit_from
small_index = omega arith

on_mask : get 0x7E 3 ≡ true
unfolding get
on_mask = refl

pext-occupancy_of_example :
    (pext 64 (occupancy_of (squares 0x7E) 5 0) 0x7E ≡ 5)
    × (pext 64 0xFF 0x7E < 2 ^ length (squares 0x7E))
    × (get (occupancy_of (squares 0x7E) (pext 64 0xFF 0x7E) 0) 3 ≡ get 0xFF 3)
pext-occupancy_of_example =
    pext-occupancy_of 0x7E 0xFF 5 3 (omega arith) small_index (omega arith) on_mask
