-- ===== src/OptionsDict/FreeName.antt =====
-- `GetFreeSubdictName` of src/utils/optionsdict.cc.
use lc.Base.Text.{Text, codes, same_text, same_text→eq}
use lc.Base.{
  ℕ, zero, suc, ◌+◌, ◌-◌, ◌*◌, ◌/◌, ◌%◌, ◌≤◌, ◌<◌, ◌≡◌, refl, ap, subst, ◌∙◌, true, false, ◌==◌,
  ==→eq, ==_refl, ltb, arith, [], ◌∷◌, ◌++◌, some, if◌then◌else◌, Bool-cases, Option-cases, ltb→lt,
  inl, inr, ◌⊎◌, length, map, range_from,
}
use mathlib.Core.List.{append_assoc}
use lc.Base.Distinct.{has, Unique, length_le}
use lc.OptionsDict.{
  OptionsDict, dict, Subdicts, no_subdicts, subdict, subdicts_of, names, has_subdict, find_subdict,
}
use lc.OptionsDict.Parser.{to_digits, numbered, free_name, get_free_subdict_name}

-- The number before `]`.
abbrev value : ℕ → Text → ℕ
value a [] = a
value a (c ∷ cs) = if c == b']' then a else value (a * 10 + (c - b'0')) cs

abbrev number_of : Text → ℕ
number_of [] = 0
number_of (c ∷ cs) = value 0 cs

value-to_digits : (n i : ℕ) (ys : Text) → i < n → value 0 (to_digits n i ++ ys) ≡ value i ys
unfolding to_digits
value-to_digits zero i ys h = absurd (omega arith)
value-to_digits (suc n) i ys h =
    let digit : (b'0' + i % 10 == b']') ≡ false = ground arith in
    elim (Bool-cases (ltb i 10)) [
      | inl e ↦
          let small : 0 + (b'0' + i % 10 - b'0') ≡ i = omega (arith, ltb→lt i 10 e) in
          rw (e, digit, small) refl
      | inr e ↦
          let front = value-to_digits n (i / 10) ((b'0' + i % 10) ∷ ys) (omega (arith, big e)) in
          let whole : (i / 10) * 10 + (b'0' + i % 10 - b'0') ≡ i = omega arith in
          rw (e, append_assoc (to_digits n (i / 10)) ((b'0' + i % 10) ∷ []) ys, front, digit, whole)
            refl
    ]
  where
    big : ltb i 10 ≡ false → 10 ≤ i
    big e = ground (arith, e)

number_of-numbered : (i : ℕ) → number_of (numbered i) ≡ i
number_of-numbered i = value-to_digits (suc i) i (codes "]") (omega arith) ∙ refl

module _ {F : Type 0} where
  used-has :
      (s : Subdicts F) (v : Text) (d : OptionsDict F)
      → find_subdict s v ≡ some d
      → has (number_of v) (map number_of (names s)) ≡ true
  used-has no_subdicts v d h = cc
  used-has (subdict n e rest) v d h = elim (Bool-cases (same_text n v)) [
    | inl g ↦
        let same = ap number_of (same_text→eq n v g) in ground (arith, same, ==_refl (number_of v))
    | inr g ↦ let later = used-has rest v d (rw g at h) in ground (arith, later)
  ]

  length-names : (s : Subdicts F) → length (map number_of (names s)) ≡ length (names s)
  length-names no_subdicts = refl
  length-names (subdict n d rest) = ap suc (length-names rest)

  used-number :
      (d : OptionsDict F) (i : ℕ)
      → has_subdict d (numbered i) ≡ true
      → has i (map number_of (names (subdicts_of d))) ≡ true
  unfolding has_subdict
  used-number (dict v s) i h = elim (Option-cases (find_subdict s (numbered i))) [
    | inl e ↦ let bad = rw (has_subdict, e) at h in cc
    | inr (d, e) ↦
        subst (λ j. has j (map number_of (names s)) ≡ true) (number_of-numbered i)
          (used-has s (numbered i) d e)
  ]

  -- The first number from `idx` on that is free, if one of the next `n` is.
  free_name-cases :
      (n idx : ℕ) (d : OptionsDict F)
      → ((i : ℕ) × (free_name n idx d ≡ numbered i)
          × (has_subdict d (numbered i) ≡ false)
          × ((j : ℕ) → idx ≤ j → j < i → has_subdict d (numbered j) ≡ true))
        ⊎ ((j : ℕ) → idx ≤ j → j < idx + n → has_subdict d (numbered j) ≡ true)
  unfolding free_name
  free_name-cases zero idx d = inr (λ j h g. absurd (omega arith))
  free_name-cases (suc n) idx d = elim (Bool-cases (has_subdict d (numbered idx))) [
    | inr e ↦ inl (idx, rw e refl, e, λ j h g. absurd (omega arith))
    | inl e ↦ elim (free_name-cases n (suc idx) d) [
      | inl (i, same, free, used) ↦
          inl (i, rw e same, free, λ j h g. first e j h (λ h'. used j h' g))
      | inr used ↦ inr (λ j h g. first e j h (λ h'. used j h' (omega (arith, g))))
    ]
  ]
    where
      first :
          has_subdict d (numbered idx) ≡ true
          → (j : ℕ) → idx ≤ j
          → (suc idx ≤ j → has_subdict d (numbered j) ≡ true)
          → has_subdict d (numbered j) ≡ true
      first e j h later = elim (Bool-cases (idx == j)) [
        | inl g ↦ subst (λ k. has_subdict d (numbered k) ≡ true) (==→eq idx j g) e
        | inr g ↦ later (ground (arith, h, g))
      ]

has-range : (a i n : ℕ) → has a (range_from i n) ≡ true → (i ≤ a) × (a < i + n)
has-range a i zero h = cc
has-range a i (suc n) h = elim (Bool-cases (a == i)) [
  | inl e ↦ let same = ==→eq a i e in (omega (arith, same), omega (arith, same))
  | inr e ↦
      let r = has-range a (suc i) n (ground (arith, h, e)) in
      (omega (arith, r.0), omega (arith, r.1))
]

range-Unique : (i n : ℕ) → Unique (range_from i n)
range-Unique i zero = tt
range-Unique i (suc n) = (
  elim (Bool-cases (has i (range_from (suc i) n))) [
    | inl e ↦ absurd (omega (arith, (has-range i (suc i) n e).0))
    | inr e ↦ e
  ],
  range-Unique (suc i) n,
)

length-range : (i n : ℕ) → length (range_from i n) ≡ n
length-range i zero = refl
length-range i (suc n) = ap suc (length-range (suc i) n)

-- The loop finds the first number whose name in brackets no sub-dictionary has.
pub get_free_subdict_name_lem :
    {F : Type 0} (d : OptionsDict F)
    → (i : ℕ) × (get_free_subdict_name d ≡ numbered i)
      × (has_subdict d (numbered i) ≡ false)
      × ((j : ℕ) → j < i → has_subdict d (numbered j) ≡ true)
get_free_subdict_name_lem d =
    let m = length (names (subdicts_of d)) in
    elim (free_name-cases (suc m) 0 d) [
      | inl (i, same, free, used) ↦ (i, same, free, λ j h. used j (omega arith) h)
      | inr used ↦
          let crowded =
            length_le (range_from 0 (suc m)) (map number_of (names (subdicts_of d)))
              (range-Unique 0 (suc m))
              (λ a h.
                let r = has-range a 0 (suc m) h in
                used-number d a (used a (omega arith) (omega (arith, r.1)))) in
          absurd (omega (arith, crowded, length-range 0 (suc m), length-names (subdicts_of d)))
    ]
