-- ===== src/Board/Rights.antt =====
-- The castling rights: each flag is set and reset by itself, and mirroring exchanges the two sides.
use lc.Base.{
  ◌<◌, ◌≡◌, refl, Bool, true, false, ◌&&◌, ◌==◌, ltb, arith, all_below, all_below_sound, all_true,
  all_true-All, All, sym, ==→eq, [], ◌∷◌, List,
}
use lc.Board.{
  Castlings, set_we_can_00, set_we_can_000, set_they_can_00, set_they_can_000, reset_we_can_00,
  reset_we_can_000, reset_they_can_00, reset_they_can_000, we_can_00, we_can_000, they_can_00,
  they_can_000, mirror_castlings, bool_eq,
}

-- The four flags.
abbrev pub flags : Castlings → Bool × Bool × Bool × Bool
flags c = (we_can_00 c, we_can_000 c, they_can_00 c, they_can_000 c)

abbrev are_flags : Castlings → Bool → Bool → Bool → Bool → Bool
are_flags c a b d e =
    ltb c 16
    && (bool_eq (we_can_00 c) a
        && (bool_eq (we_can_000 c) b && (bool_eq (they_can_00 c) d && bool_eq (they_can_000 c) e)))

abbrev rights_checks : Castlings → List Bool
rights_checks c =
    let a = we_can_00 c in
    let b = we_can_000 c in
    let d = they_can_00 c in
    let e = they_can_000 c in
    are_flags (set_we_can_00 c) true b d e
    ∷ are_flags (set_we_can_000 c) a true d e
    ∷ are_flags (set_they_can_00 c) a b true e
    ∷ are_flags (set_they_can_000 c) a b d true
    ∷ are_flags (reset_we_can_00 c) false b d e
    ∷ are_flags (reset_we_can_000 c) a false d e
    ∷ are_flags (reset_they_can_00 c) a b false e
    ∷ are_flags (reset_they_can_000 c) a b d false
    ∷ are_flags (mirror_castlings c) d e a b
    ∷ (mirror_castlings (mirror_castlings c) == c)
    ∷ []

abbrev rights_hold : Castlings → Bool
rights_hold c = all_true (rights_checks c)

rights_table : all_below 16 rights_hold ≡ true
unfolding all_below bool_eq set_we_can_00 set_we_can_000 set_they_can_00 set_they_can_000
    reset_we_can_00 reset_we_can_000 reset_they_can_00 reset_they_can_000 we_can_00 we_can_000
    they_can_00 they_can_000 mirror_castlings
rights_table = refl

pub bool_eq→eq : (a b : Bool) → bool_eq a b ≡ true → a ≡ b
unfolding bool_eq
bool_eq→eq true b h = sym h
bool_eq→eq false true h = cc
bool_eq→eq false false h = refl

flags-are :
    (c : Castlings) (a b d e : Bool)
    → are_flags c a b d e ≡ true
    → (flags c ≡ (a, b, d, e)) × (c < 16)
flags-are c a b d e h = ground (
  arith,
  bool_eq→eq (we_can_00 c) a,
  bool_eq→eq (we_can_000 c) b,
  bool_eq→eq (they_can_00 c) d,
  bool_eq→eq (they_can_000 c) e,
)

module _ (c : Castlings) (small : c < 16) where
  checks : All (λ b. b ≡ true) (rights_checks c)
  checks = all_true-All (rights_checks c) (all_below_sound 16 rights_hold c rights_table small)

  -- Each setter changes its own flag alone, and mirroring exchanges the flags of the two sides; a
  -- byte below 16 stays below 16.
  pub rights_lem :
      ((flags (set_we_can_00 c) ≡ (true, we_can_000 c, they_can_00 c, they_can_000 c))
        × (set_we_can_00 c < 16))
      × ((flags (set_we_can_000 c) ≡ (we_can_00 c, true, they_can_00 c, they_can_000 c))
          × (set_we_can_000 c < 16))
      × ((flags (set_they_can_00 c) ≡ (we_can_00 c, we_can_000 c, true, they_can_000 c))
          × (set_they_can_00 c < 16))
      × ((flags (set_they_can_000 c) ≡ (we_can_00 c, we_can_000 c, they_can_00 c, true))
          × (set_they_can_000 c < 16))
      × ((flags (reset_we_can_00 c) ≡ (false, we_can_000 c, they_can_00 c, they_can_000 c))
          × (reset_we_can_00 c < 16))
      × ((flags (reset_we_can_000 c) ≡ (we_can_00 c, false, they_can_00 c, they_can_000 c))
          × (reset_we_can_000 c < 16))
      × ((flags (reset_they_can_00 c) ≡ (we_can_00 c, we_can_000 c, false, they_can_000 c))
          × (reset_they_can_00 c < 16))
      × ((flags (reset_they_can_000 c) ≡ (we_can_00 c, we_can_000 c, they_can_00 c, false))
          × (reset_they_can_000 c < 16))
      × ((flags (mirror_castlings c) ≡ (they_can_00 c, they_can_000 c, we_can_00 c, we_can_000 c))
          × (mirror_castlings c < 16))
  rights_lem =
      let (h0, r0) = checks in
      let (h1, r1) = r0 in
      let (h2, r2) = r1 in
      let (h3, r3) = r2 in
      let (h4, r4) = r3 in
      let (h5, r5) = r4 in
      let (h6, r6) = r5 in
      let (h7, r7) = r6 in
      let (h8, r8) = r7 in
      (
        flags-are (set_we_can_00 c) true (we_can_000 c) (they_can_00 c) (they_can_000 c) h0,
        flags-are (set_we_can_000 c) (we_can_00 c) true (they_can_00 c) (they_can_000 c) h1,
        flags-are (set_they_can_00 c) (we_can_00 c) (we_can_000 c) true (they_can_000 c) h2,
        flags-are (set_they_can_000 c) (we_can_00 c) (we_can_000 c) (they_can_00 c) true h3,
        flags-are (reset_we_can_00 c) false (we_can_000 c) (they_can_00 c) (they_can_000 c) h4,
        flags-are (reset_we_can_000 c) (we_can_00 c) false (they_can_00 c) (they_can_000 c) h5,
        flags-are (reset_they_can_00 c) (we_can_00 c) (we_can_000 c) false (they_can_000 c) h6,
        flags-are (reset_they_can_000 c) (we_can_00 c) (we_can_000 c) (they_can_00 c) false h7,
        flags-are (mirror_castlings c) (they_can_00 c) (they_can_000 c) (we_can_00 c) (we_can_000 c)
            h8,
      )

  pub mirror_castlings-mirror_castlings : mirror_castlings (mirror_castlings c) ≡ c
  mirror_castlings-mirror_castlings =
      ==→eq (mirror_castlings (mirror_castlings c)) c checks.1.1.1.1.1.1.1.1.1.0

pub reset-small :
    (c : Castlings)
    → c < 16
    → (reset_we_can_00 c < 16)
      × (reset_we_can_000 c < 16)
      × (reset_they_can_00 c < 16)
      × (reset_they_can_000 c < 16)
reset-small c small = let l = rights_lem c small in (l.4.1, l.5.1, l.6.1, l.7.1)
