-- ===== src/Base/Text.antt =====
-- Texts as lists of character codes, and maps with texts for keys.
use Prim.Native.Nat.{ℕ}
use Prim.Native.Char.{code}
use Prim.Native.String.{String}
use mathlib.Core.Path.{◌≡◌, refl, sym, ap, subst, ◌∙◌}
use mathlib.Core.Logic.{inl, inr}
use mathlib.Core.Bool.{Bool, true, false, ◌&&◌, ◌||◌}
use mathlib.Core.Option.{Option, none, some}
use mathlib.Core.List.{List, [], ◌∷◌}
use native.Mathlib.Omega.{arith}
use lc.Base.Tests.{ltb, leb, ◌==◌, ==→eq, ==_refl, if◌then◌else◌, Bool-cases}

abbrev pub codes : String → List ℕ
codes String.[] = []
codes (String.◌∷◌ c s) = code c ∷ codes s

abbrev pub Text : Type 0
Text = List ℕ

abbrev pub same_text : Text → Text → Bool
same_text [] [] = true
same_text [] (d ∷ ds) = false
same_text (c ∷ cs) [] = false
same_text (c ∷ cs) (d ∷ ds) = (c == d) && same_text cs ds

-- The order of std::string.
abbrev pub less_text : Text → Text → Bool
less_text xs [] = false
less_text [] (d ∷ ds) = true
less_text (c ∷ cs) (d ∷ ds) = if c == d then less_text cs ds else ltb c d

-- A map with its entries.
abbrev pub TextMap : Type 0 → Type 0
TextMap A = List (Text × A)

abbrev pub find : {A : Type 0} → TextMap A → Text → Option A
find [] key = none
find ((k, v) ∷ es) key = if same_text k key then some v else find es key

-- dict_[key] = value
abbrev pub assign : {A : Type 0} → TextMap A → Text → A → TextMap A
assign [] key value = (key, value) ∷ []
assign ((k, v) ∷ es) key value =
    if same_text k key then (k, value) ∷ es else (k, v) ∷ assign es key value

pub same_text→eq : (xs ys : Text) → same_text xs ys ≡ true → xs ≡ ys
same_text→eq [] [] h = refl
same_text→eq [] (y ∷ ys) h = cc
same_text→eq (x ∷ xs) [] h = cc
same_text→eq (x ∷ xs) (y ∷ ys) h =
    let tails = same_text→eq xs ys (ground (arith, h)) in
    let heads : x ≡ y = ==→eq x y (ground (arith, h)) in
    subst (λ z. x ∷ xs ≡ z ∷ ys) heads (ap (λ zs. x ∷ zs) tails)

pub same_text_refl : (xs : Text) → same_text xs xs ≡ true
same_text_refl [] = refl
same_text_refl (x ∷ xs) = rw (==_refl x) (same_text_refl xs)

pub find-assign :
    {A : Type 0} (es : TextMap A) (k : Text) (v : A) (l : Text)
    → find (assign es k v) l ≡ (if same_text k l then some v else find es l)
find-assign [] k v l = refl
find-assign ((m, w) ∷ es) k v l = elim (Bool-cases (same_text m k)) [
  | inl e ↦
      let same = same_text→eq m k e in
      rw e (elim (Bool-cases (same_text m l)) [
        | inl g ↦
            let h : same_text k l ≡ true = sym (ap (λ t. same_text t l) same) ∙ g in rw (g, h) refl
        | inr g ↦
            let h : same_text k l ≡ false = sym (ap (λ t. same_text t l) same) ∙ g in rw (g, h) refl
      ])
  | inr e ↦ rw e (elim (Bool-cases (same_text m l)) [
    | inl g ↦
        let h : same_text k l ≡ false = elim (Bool-cases (same_text k l)) [
          | inl i ↦ absurd (ground (arith, ap (λ t. same_text m t) (same_text→eq k l i), e, g))
          | inr i ↦ i
        ] in
        rw (g, h) refl
    | inr g ↦ rw g (find-assign es k v l)
  ])
]

-- std::isspace, std::isdigit and std::isalnum in the C locale
abbrev pub is_space : ℕ → Bool
is_space c = (c == 32) || (leb 9 c && leb c 13)

abbrev pub is_digit : ℕ → Bool
is_digit c = leb b'0' c && leb c b'9'

abbrev pub is_alnum : ℕ → Bool
is_alnum c = is_digit c || (leb b'A' c && leb c b'Z') || (leb b'a' c && leb c b'z')

pub assign-assign :
    {A : Type 0} (es : TextMap A) (k : Text) (v w : A) → assign (assign es k v) k w ≡ assign es k w
assign-assign [] k v w = rw (same_text_refl k) refl
assign-assign ((m, x) ∷ es) k v w = elim (Bool-cases (same_text m k)) [
  | inl e ↦ rw e (rw e refl)
  | inr e ↦ rw e (rw e (ap (λ fs. (m, x) ∷ fs) (assign-assign es k v w)))
]

pub find-assign_same :
    {A : Type 0} (es : TextMap A) (k : Text) (v : A) → find (assign es k v) k ≡ some v
find-assign_same es k v =
    find-assign es k v k ∙ ap (λ b. if b then some v else find es k) (same_text_refl k)
