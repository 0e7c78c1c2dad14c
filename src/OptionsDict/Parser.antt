-- ===== src/OptionsDict/Parser.antt =====
-- `Parser` of src/utils/optionsdict.cc and `AddSubdictFromString`. The loop of `ParseList` and its recursion through
-- `ReadSubDict` are on fuel; the loop of `GetFreeSubdictName` has one round more than there are names.
use lc.Base.Text.{Text, codes, same_text}
use lc.Base.{
  ℕ, zero, suc, ◌+◌, ◌/◌, ◌%◌, Bool, true, false, ltb, [], ◌∷◌, ◌++◌, Option, none, some,
  if◌then◌else◌, length,
}
use lc.OptionsDict.{
  Result, ok, raised, out_of_fuel, ◌>>=◌, expected_token, expected_value, Values, set, bool_slot,
  int_slot, string_slot, float_slot, OptionsDict, dict, values_of, subdicts_of, empty, replace,
  names, has_subdict, add_subdict,
}
use lc.OptionsDict.Lexer.{
  Token, integer, float, string, identifier, left_parenthesis, right_parenthesis, comma, equal, eof,
  Lexer, next, lexer_of,
}

-- std::to_string of a number that is not negative, with fuel for its digits.
unfoldable pub to_digits : ℕ → ℕ → Text
to_digits zero i = []
to_digits (suc n) i =
    let front = to_digits n (i / 10) in (if ltb i 10 then [] else front) ++ (b'0' + i % 10) ∷ []

abbrev pub to_string : ℕ → Text
to_string i = to_digits (suc i) i

abbrev pub numbered : ℕ → Text
numbered i = codes "[" ++ to_string i ++ codes "]"

unfoldable pub free_name : {F : Type 0} → ℕ → ℕ → OptionsDict F → Text
free_name zero idx d = []
free_name (suc n) idx d =
    let later = free_name n (suc idx) d in
    if has_subdict d (numbered idx) then later else numbered idx

abbrev pub get_free_subdict_name : {F : Type 0} → OptionsDict F → Text
get_free_subdict_name d = free_name (suc (length (names (subdicts_of d)))) 0 d

abbrev pub same_kind : {F : Type 0} → Token F → Token F → Bool
same_kind left_parenthesis left_parenthesis = true
same_kind right_parenthesis right_parenthesis = true
same_kind comma comma = true
same_kind equal equal = true
same_kind eof eof = true
same_kind _ _ = false

-- EnsureToken
unfoldable pub ensure_token : {F : Type 0} → Lexer F → Token F → Result Unit
ensure_token lexer t =
    if same_kind lexer.token t then ok tt else raised (expected_token lexer.last_offset)

module _ {F : Type 0} (stof : Text → Option F) where
  -- The entry that `ReadVal` sets.
  unfoldable pub set_val : Lexer F → Values F → Text → Result (Values F)
  set_val lexer v id = elim lexer.token [
    | float x ↦ ok (set float_slot v id x)
    | integer i ↦ ok (set int_slot v id i)
    | string s ↦ ok (set string_slot v id s)
    | identifier s ↦ ok (
        if same_text s (codes "true")
        then set bool_slot v id true
        else if same_text s (codes "false")
        then set bool_slot v id false
        else set string_slot v id s)
    | _ ↦ raised (expected_value lexer.last_offset)
  ]

  unfoldable pub read_val : Lexer F → OptionsDict F → Text → Result (Lexer F × OptionsDict F)
  read_val lexer (dict v s) id =
      set_val lexer v id >>= λ v'. next stof lexer >>= λ lexer'. ok (lexer', dict v' s)

  -- `parse` is `ParseList`.
  unfoldable pub read_sub_dict :
      (Lexer F → OptionsDict F → Result (Lexer F × OptionsDict F))
      → Lexer F
      → OptionsDict F
      → Text
      → Result (Lexer F × OptionsDict F)
  read_sub_dict parse lexer d id = add_subdict d id >>= λ d'.
      if same_kind lexer.token left_parenthesis
      then (next stof lexer >>= λ inner. parse inner empty >>= λ (after, sub).
          ensure_token after right_parenthesis >>= λ done. next stof after >>= λ lexer'.
          ok (lexer', dict (values_of d') (replace (subdicts_of d') id sub)))
      else ok (lexer, d')

  -- The identifier that an entry starts with, or none at the end of the list.
  unfoldable pub read_name : Lexer F → OptionsDict F → Result (Option (Text × Lexer F))
  read_name lexer d = elim lexer.token [
    | left_parenthesis ↦ ok (some (get_free_subdict_name d, lexer))
    | identifier s ↦ next stof lexer >>= λ lexer'. ok (some (s, lexer'))
    | string s ↦ next stof lexer >>= λ lexer'. ok (some (s, lexer'))
    | _ ↦ ok none
  ]

  unfoldable pub read_entry :
      (Lexer F → OptionsDict F → Result (Lexer F × OptionsDict F))
      → Lexer F
      → OptionsDict F
      → Text
      → Result (Lexer F × OptionsDict F)
  read_entry parse lexer d id =
      if same_kind lexer.token equal
      then (next stof lexer >>= λ lexer'. read_val lexer' d id)
      else read_sub_dict parse lexer d id

  unfoldable pub parse_list : ℕ → Lexer F → OptionsDict F → Result (Lexer F × OptionsDict F)
  parse_list zero lexer d = out_of_fuel
  parse_list (suc n) lexer d = read_name lexer d >>= λ start. elim start [
    | none ↦ ok (lexer, d)
    | some (id, lexer1) ↦ read_entry (parse_list n) lexer1 d id >>= λ (lexer2, d').
        if same_kind lexer2.token comma
        then (next stof lexer2 >>= λ lexer3. parse_list n lexer3 d')
        else ok (lexer2, d')
  ]

  unfoldable pub parse_main : ℕ → Lexer F → OptionsDict F → Result (OptionsDict F)
  parse_main n lexer d =
      parse_list n lexer d >>= λ (lexer', d'). ensure_token lexer' eof >>= λ done. ok d'

  unfoldable pub add_subdict_from_string : OptionsDict F → Text → Result (OptionsDict F)
  add_subdict_from_string d str = lexer_of stof str >>= λ lexer. parse_main (length str + 2) lexer d
