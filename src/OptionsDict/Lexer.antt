-- ===== src/OptionsDict/Lexer.antt =====
-- `Lexer` of src/utils/optionsdict.cc. The token carries the value that the source keeps beside its type. `stof` is
-- the conversion of the standard library, which fails by an exception.
use lc.Base.Text.{Text, codes, is_alnum, is_digit, is_space}
use lc.Base.{
  ℕ, suc, ◌+◌, ◌-◌, ◌*◌, ◌^◌, Bool, true, false, not, ◌||◌, ◌==◌, ltb, leb, [], ◌∷◌, Option, none,
  some, if◌then◌else◌, length,
}
use lc.Base.Int.{ℤ, pos, sub_ℕ}
use lc.OptionsDict.{
  Result, ok, raised, unable_to_parse_token, string_not_closed, unable_to_parse_number,
}

pub data Token (F : Type 0) : Type 0 where
  integer : ℤ → Token F
  float : F → Token F
  string : Text → Token F
  identifier : Text → Token F
  left_parenthesis : Token F
  right_parenthesis : Token F
  comma : Token F
  equal : Token F
  eof : Token F

-- The rest of `str_` from `idx_` on, with `idx_`.
pub record Lexer (F : Type 0) : Type 0 where
  pub rest : Text
  pub idx : ℕ
  pub last_offset : ℕ
  pub token : Token F

abbrev pub is_one_of : Text → ℕ → Bool
is_one_of [] c = false
is_one_of (d ∷ ds) c = (c == d) || is_one_of ds c

abbrev pub number_char : ℕ → Bool
number_char = is_one_of (codes "0123456789-.")

abbrev pub allowed_char : ℕ → Bool
allowed_char = is_one_of (codes "+-1234567890.eExX")

abbrev pub float_char : ℕ → Bool
float_char = is_one_of (codes ".eE")

abbrev pub identifier_char : ℕ → Bool
identifier_char c = is_alnum c || is_one_of (codes "_-./") c

-- The characters up to the first that fails the test, and what follows.
unfoldable pub span : (ℕ → Bool) → Text → Text × Text
span test [] = ([], [])
span test (c ∷ cs) =
    let (taken, rest) = span test cs in if test c then (c ∷ taken, rest) else ([], c ∷ cs)

abbrev pub any_char : (ℕ → Bool) → Text → Bool
any_char test [] = false
any_char test (c ∷ cs) = test c || any_char test cs

-- The characters up to the quote, and what follows it.
unfoldable pub to_quote : ℕ → Text → Option (Text × Text)
to_quote quote [] = none
to_quote quote (c ∷ cs) =
    if c == quote
    then some ([], cs)
    else elim (to_quote quote cs) [ some (taken, rest) ↦ some (c ∷ taken, rest) | none ↦ none ]

-- The value of the leading digits, and whether there are any.
unfoldable pub digits_of : ℕ → Bool → Text → ℕ × Bool
digits_of value seen [] = (value, seen)
digits_of value seen (c ∷ cs) =
    let rest = digits_of (value * 10 + (c - b'0')) true cs in
    if is_digit c then rest else (value, seen)

abbrev pub in_range : Bool → ℕ × Bool → Option ℤ
in_range negative (value, seen) =
    if not seen
    then none
    else if negative
    then (if leb value (2 ^ 31) then some (sub_ℕ 0 value) else none)
    else (if ltb value (2 ^ 31) then some (pos value) else none)

-- std::stoi of a text without white space
unfoldable pub stoi : Text → Option ℤ
stoi [] = none
stoi (c ∷ cs) =
    if c == b'-'
    then in_range true (digits_of 0 false cs)
    else if c == b'+'
    then in_range false (digits_of 0 false cs)
    else in_range false (digits_of 0 false (c ∷ cs))

-- kCharacters
abbrev pub single : {F : Type 0} → ℕ → Option (Token F)
single c =
    if c == b','
    then some comma
    else if c == b'('
    then some left_parenthesis
    else if c == b')'
    then some right_parenthesis
    else if c == b'='
    then some equal
    else none

abbrev pub quote_char : ℕ → Bool
quote_char c = (c == 39) || (c == 34)

module _ {F : Type 0} (stof : Text → Option F) where
  unfoldable pub read_string : Text → ℕ → Result (Lexer F)
  read_string [] idx = raised (string_not_closed idx)
  read_string (quote ∷ cs) idx = elim (to_quote quote cs) [
    | some (taken, rest) ↦ ok (record {
      rest = rest;
      idx = idx + length taken + 2;
      last_offset = idx;
      token = string taken;
    })
    | none ↦ raised (string_not_closed (idx + suc (length cs)))
  ]

  unfoldable pub read_identifier : Text → ℕ → Result (Lexer F)
  read_identifier cs idx =
      let (taken, rest) = span identifier_char cs in
      ok (record {
        rest = rest;
        idx = idx + length taken;
        last_offset = idx;
        token = identifier taken;
      })

  unfoldable pub read_number : Text → ℕ → Result (Lexer F)
  read_number cs idx =
      let (taken, rest) = span allowed_char cs in
      let lexer : Token F → Lexer F =
        λ t. record { rest = rest; idx = idx + length taken; last_offset = idx; token = t } in
      let error : Result (Lexer F) = raised (unable_to_parse_number idx) in
      if any_char float_char taken
      then elim (stof taken) [ some x ↦ ok (lexer (float x)) | none ↦ error ]
      else elim (stoi taken) [ some i ↦ ok (lexer (integer i)) | none ↦ error ]

  -- The token at the first character that is no white space.
  unfoldable pub read_token : Text → ℕ → Result (Lexer F)
  read_token [] idx = ok (record { rest = []; idx = idx; last_offset = idx; token = eof })
  read_token (c ∷ cs) idx = elim (single c) [
    | some t ↦ ok (record { rest = cs; idx = suc idx; last_offset = idx; token = t })
    | none ↦
        if number_char c
        then read_number (c ∷ cs) idx
        else if quote_char c
        then read_string (c ∷ cs) idx
        else if is_alnum c
        then read_identifier (c ∷ cs) idx
        else raised (unable_to_parse_token idx)
  ]

  unfoldable pub next : Lexer F → Result (Lexer F)
  next lexer =
      let (spaces, rest) = span is_space lexer.rest in read_token rest (lexer.idx + length spaces)

  -- The constructor.
  abbrev pub lexer_of : Text → Result (Lexer F)
  lexer_of str = next (record { rest = str; idx = 0; last_offset = 0; token = eof })
