-- ===== src/Strings.antt =====
-- src/utils/string.cc, on texts of codes.
pub mod Split
use lc.Base.{
  ℕ, zero, suc, ◌+◌, Bool, true, false, not, ◌&&◌, ◌||◌, ◌==◌, ltb, leb, List, [], ◌∷◌, ◌++◌, map,
  Option, none, some, ◌>>=◌, if◌then◌else◌, length,
}
use lc.Base.Int.{ℤ}
use lc.Base.Text.{Text, codes, is_space}
use lc.OptionsDict.Lexer.{stoi}

abbrev pub is_empty : Text → Bool
is_empty [] = true
is_empty (c ∷ cs) = false

-- The loop of StrJoin with what it has so far.
unfoldable pub join_onto : Text → List Text → Text → Text
join_onto res [] delim = res
join_onto res (s ∷ ss) delim =
    join_onto ((if is_empty res then res else res ++ delim) ++ s) ss delim

abbrev pub str_join : List Text → Text → Text
str_join strings delim = join_onto [] strings delim

-- The words, behind the part `word` of one.
unfoldable pub words_after : Text → Text → List Text
words_after word [] = if is_empty word then [] else word ∷ []
words_after word (c ∷ cs) =
    let here = words_after (word ++ c ∷ []) cs in
    let later = words_after [] cs in
    if is_space c then (if is_empty word then later else word ∷ later) else here

abbrev pub str_split_at_whitespace : Text → List Text
str_split_at_whitespace str = words_after [] str

-- What follows a prefix.
unfoldable pub after_prefix : Text → Text → Option Text
after_prefix [] str = some str
after_prefix (d ∷ ds) [] = none
after_prefix (d ∷ ds) (c ∷ cs) = if c == d then after_prefix ds cs else none

-- str.find(delim): what comes before the first place of it, and what follows it.
unfoldable pub find_delim : Text → Text → Option (Text × Text)
find_delim delim [] = elim (after_prefix delim []) [ some rest ↦ some ([], rest) | none ↦ none ]
find_delim delim (c ∷ cs) =
    let later = find_delim delim cs in
    elim (after_prefix delim (c ∷ cs)) [
      | some rest ↦ some ([], rest)
      | none ↦ elim later [ some (before, rest) ↦ some (c ∷ before, rest) | none ↦ none ]
    ]

-- The loop of StrSplit, which does not end for an empty delimiter.
unfoldable pub split_rounds : ℕ → Text → Text → Option (List Text)
split_rounds zero delim str = none
split_rounds (suc n) delim str = elim (find_delim delim str) [
  | none ↦ some (str ∷ [])
  | some (before, rest) ↦ split_rounds n delim rest >>= λ pieces. some (before ∷ pieces)
]

abbrev pub str_split : Text → Text → Option (List Text)
str_split str delim = split_rounds (suc (length str)) delim str

unfoldable pub left_trim : Text → Text
left_trim [] = []
left_trim (c ∷ cs) = let rest = left_trim cs in if is_space c then rest else c ∷ cs

unfoldable pub right_trim : Text → Text
right_trim [] = []
right_trim (c ∷ cs) =
    let rest = right_trim cs in if is_empty rest && is_space c then [] else c ∷ rest

abbrev pub trim : Text → Text
trim str = left_trim (right_trim str)

-- std::tolower in the C locale
abbrev pub to_lower : ℕ → ℕ
to_lower c = if leb b'A' c && leb c b'Z' then c + 32 else c

unfoldable pub strings_equal_ignore_case : Text → Text → Bool
strings_equal_ignore_case [] [] = true
strings_equal_ignore_case [] (d ∷ ds) = false
strings_equal_ignore_case (c ∷ cs) [] = false
strings_equal_ignore_case (c ∷ cs) (d ∷ ds) =
    (to_lower c == to_lower d) && strings_equal_ignore_case cs ds

-- std::stoi; `none` is an exception of the standard library.
abbrev pub to_int : Text → Option ℤ
to_int str = stoi (left_trim str)

unfoldable pub ints_of : List Text → Option (List ℤ)
ints_of [] = some []
ints_of (x ∷ xs) = to_int x >>= λ i. ints_of xs >>= λ is. some (i ∷ is)

unfoldable pub parse_int_list : Text → Option (List ℤ)
parse_int_list str = str_split str (codes ",") >>= ints_of

-- The words of a paragraph, with the line that is being written.
unfoldable pub flow_words : ℕ → Text → List Text → List Text
flow_words width line [] = line ∷ []
flow_words width line (w ∷ ws) =
    if is_empty line
    then flow_words width w ws
    else if ltb width (length line + length w + 1)
    then line ∷ flow_words width w ws
    else flow_words width (line ++ codes " " ++ w) ws

unfoldable pub flow_paragraphs : ℕ → List Text → Option (List Text)
flow_paragraphs width [] = some []
flow_paragraphs width (p ∷ ps) = str_split p (codes " ") >>= λ ws.
    flow_paragraphs width ps >>= λ lines. some (flow_words width [] ws ++ lines)

unfoldable pub flow_text : Text → ℕ → Option (List Text)
flow_text src width = str_split src (codes "\n") >>= flow_paragraphs width
