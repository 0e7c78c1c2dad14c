-- ===== src/OptionsDict/Progress.antt =====
-- The lexer of src/utils/optionsdict.cc goes on with every token.
use lc.Base.Text.{Text, is_alnum, is_space}
use lc.Base.{
  some-injective, ℕ, suc, ◌+◌, ◌≤◌, ◌<◌, ◌≡◌, refl, ap, Bool, true, false, ◌==◌, arith, [], ◌∷◌,
  Option, none, some, if◌then◌else◌, Bool-cases, Option-cases, inl, inr, length,
}
use lc.OptionsDict.{
  Result, ok, raised, out_of_fuel, ◌>>=◌, string_not_closed, unable_to_parse_number,
}
use lc.OptionsDict.Lexer.{
  Token, integer, float, string, identifier, left_parenthesis, right_parenthesis, comma, equal, eof,
  Lexer, span, to_quote, stoi, single, read_string, read_identifier, read_number, read_token, next,
  allowed_char, number_char, identifier_char, quote_char, any_char, float_char,
}

-- The computation is not out of fuel, and what it returns has the property.
abbrev pub Ends : {A : Type 0} → (A → Type 0) → Result A → Type 0
Ends P (ok a) = P a
Ends P (raised e) = Unit
Ends P out_of_fuel = ⊥

pub Ends-bind :
    {A B : Type 0} (Before : A → Type 0) (After : B → Type 0) (first : Result A)
    (follow : A → Result B)
    → Ends Before first
    → ((x : A) → Before x → Ends After (follow x))
    → Ends After (first >>= follow)
Ends-bind Before After (ok x) follow holds step = step x holds
Ends-bind Before After (raised e) follow holds step = tt
Ends-bind Before After out_of_fuel follow holds step = absurd holds

pub Ends-weaken :
    {A : Type 0} (P Q : A → Type 0) (r : Result A) → ((a : A) → P a → Q a) → Ends P r → Ends Q r
Ends-weaken P Q (ok a) h p = h a p
Ends-weaken P Q (raised e) h p = tt
Ends-weaken P Q out_of_fuel h p = p

pub Ends-elim :
    {A B : Type 0} (P : B → Type 0) (o : Option A) (f : A → Result B) (r : Result B)
    → ((x : A) → o ≡ some x → Ends P (f x))
    → Ends P r
    → Ends P (elim o [ some x ↦ f x | none ↦ r ])
Ends-elim P none f r h e = e
Ends-elim P (some x) f r h e = h x refl

pub Ends-if :
    {A : Type 0} (P : A → Type 0) (b : Bool) (r s : Result A)
    → (b ≡ true → Ends P r)
    → (b ≡ false → Ends P s)
    → Ends P (if b then r else s)
Ends-if P true r s h g = h refl
Ends-if P false r s h g = g refl

-- The characters that are left, and the token.
abbrev pub weight : {F : Type 0} → Token F → ℕ
weight eof = 0
weight _ = 1

weight_le : {F : Type 0} (t : Token F) → weight t ≤ 1
weight_le (integer i) = omega arith
weight_le (float x) = omega arith
weight_le (string s) = omega arith
weight_le (identifier s) = omega arith
weight_le left_parenthesis = omega arith
weight_le right_parenthesis = omega arith
weight_le comma = omega arith
weight_le equal = omega arith
weight_le eof = omega arith

abbrev pub measure : {F : Type 0} → Lexer F → ℕ
measure lexer = length lexer.rest + weight lexer.token

pub measure_le : {F : Type 0} (lexer : Lexer F) → measure lexer ≤ suc (length lexer.rest)
measure_le lexer = omega (arith, weight_le lexer.token)

pub le_measure : {F : Type 0} (lexer : Lexer F) → length lexer.rest ≤ measure lexer
le_measure lexer = omega arith

pub span-length :
    (test : ℕ → Bool) (xs : Text) → length (span test xs).0 + length (span test xs).1 ≡ length xs
unfolding span
span-length test [] = omega arith
span-length test (c ∷ cs) = elim (Bool-cases (test c)) [
  | inl e ↦ rw e (omega (arith, span-length test cs))
  | inr e ↦ rw e (omega arith)
]

-- A first character that passes is taken.
span-first :
    (test : ℕ → Bool) (c : ℕ) (cs : Text)
    → test c ≡ true
    → length (span test (c ∷ cs)).1 ≤ length cs
unfolding span
span-first test c cs e = rw e (omega (arith, span-length test cs))

to_quote-length :
    (quote : ℕ) (cs taken rest : Text)
    → to_quote quote cs ≡ some (taken, rest)
    → length rest < length cs
unfolding to_quote
to_quote-length quote [] taken rest h = cc
to_quote-length quote (c ∷ cs) taken rest h = elim (Bool-cases (c == quote)) [
  | inl e ↦
      let same = some-injective (rw e at h) in let l = ap (λ p. length p.1) same in omega (arith, l)
  | inr e ↦ elim (Option-cases (to_quote quote cs)) [
    | inl n ↦ let bad = rw (e, n) at h in cc
    | inr ((t, r), found) ↦
        let same = some-injective (rw (e, found) at h) in
        let l = ap (λ p. length p.1) same in omega (arith, l, to_quote-length quote cs t r found)
  ]
]

module _ {F : Type 0} (stof : Text → Option F) where
  abbrev Within : ℕ → Lexer F → Type 0
  Within n lexer = measure lexer ≤ n

  read_number-Ends :
      (c : ℕ) (cs : Text) (idx : ℕ)
      → allowed_char c ≡ true
      → Ends (Within (suc (length cs))) (read_number stof (c ∷ cs) idx)
  unfolding read_number
  read_number-Ends c cs idx e =
      let first = span-first allowed_char c cs e in
      let lexer : Token F → Lexer F = λ t. record {
        rest = (span allowed_char (c ∷ cs)).1;
        idx = idx + length (span allowed_char (c ∷ cs)).0;
        last_offset = idx;
        token = t;
      } in
      Ends-if (Within (suc (length cs))) (any_char float_char (span allowed_char (c ∷ cs)).0) _ _
        (λ h.
          Ends-elim (Within (suc (length cs))) (stof (span allowed_char (c ∷ cs)).0)
            (λ x. ok (lexer (float x))) (raised (unable_to_parse_number idx))
            (λ x g. omega (arith, first)) tt)
        (λ h.
          Ends-elim (Within (suc (length cs))) (stoi (span allowed_char (c ∷ cs)).0)
            (λ x. ok (lexer (integer x))) (raised (unable_to_parse_number idx))
            (λ x g. omega (arith, first)) tt)

  read_string-Ends :
      (c : ℕ) (cs : Text) (idx : ℕ)
      → Ends (Within (suc (length cs))) (read_string stof (c ∷ cs) idx)
  unfolding read_string
  read_string-Ends c cs idx =
      Ends-elim (Within (suc (length cs))) (to_quote c cs)
        (λ p. ok (record {
          rest = p.1;
          idx = idx + length p.0 + 2;
          last_offset = idx;
          token = string p.0;
        }))
        (raised (string_not_closed (idx + suc (length cs))))
        (λ p g. omega (arith, to_quote-length c cs p.0 p.1 g)) tt

  read_identifier-Ends :
      (c : ℕ) (cs : Text) (idx : ℕ)
      → identifier_char c ≡ true
      → Ends (Within (suc (length cs))) (read_identifier stof (c ∷ cs) idx)
  unfolding read_identifier
  read_identifier-Ends c cs idx e = omega (arith, span-first identifier_char c cs e)

  read_token-Ends : (xs : Text) (idx : ℕ) → Ends (Within (length xs)) (read_token stof xs idx)
  unfolding read_token
  read_token-Ends [] idx = omega arith
  read_token-Ends (c ∷ cs) idx =
      let P : Lexer F → Type 0 = Within (suc (length cs)) in
      Ends-elim P (single c)
        (λ t. ok (record { rest = cs; idx = suc idx; last_offset = idx; token = t })) _
        (λ t g. omega (arith, weight_le t))
        (Ends-if P (number_char c) _ _ (λ h. read_number-Ends c cs idx (ground (arith, h)))
          (λ h.
            Ends-if P (quote_char c) _ _ (λ h. read_string-Ends c cs idx)
              (λ h.
                Ends-if P (is_alnum c) _ _ (λ h. read_identifier-Ends c cs idx (ground (arith, h)))
                  (λ h. tt))))

  -- The next token takes a character, or it is the end.
  pub next-Ends : (lexer : Lexer F) → Ends (Within (length lexer.rest)) (next stof lexer)
  unfolding next
  next-Ends lexer =
      let read =
        read_token-Ends (span is_space lexer.rest).1
          (lexer.idx + length (span is_space lexer.rest).0) in
      Ends-weaken (Within (length (span is_space lexer.rest).1)) (Within (length lexer.rest)) _
        (λ l h. omega (arith, h, span-length is_space lexer.rest)) read
