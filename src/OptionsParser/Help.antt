-- ===== src/OptionsParser/Help.antt =====
-- The texts of src/utils/optionsparser.cc: UCI options and help. `show_float` is std::to_string of a float and
-- `fixed_float` its text with two digits after the point.
use lc.Base.{
  ℕ, zero, suc, ◌-◌, Bool, true, false, not, ◌&&◌, ◌||◌, ◌==◌, ltb, List, [], ◌∷◌, ◌++◌, Option,
  none, some, if◌then◌else◌, length,
}
use lc.Base.Text.{Text, codes}
use lc.Strings.{is_empty, flow_text}
use lc.Uci.Responses.{int_text}
use lc.OptionsDict.{
  Result, ok, ◌>>=◌, Values, values_of, get, bool_slot, int_slot, string_slot, float_slot,
}
use lc.OptionsParser.{
  OptionId, Kind, string_option, int_option, float_option, bool_option, choice_option, ParserOption,
  OptionsParser,
}

abbrev pub help_indent : ℕ
help_indent = 15

abbrev pub help_width : ℕ
help_width = 80

-- std::string(n, ' ')
unfoldable pub spaces : ℕ → Text
spaces zero = []
spaces (suc n) = codes " " ++ spaces n

abbrev pub long_flag_text : ℕ → Text → Text
long_flag_text short long =
    if (short == 0) && is_empty long
    then codes "(uci parameter)"
    else if is_empty long
    then []
    else codes "--" ++ long

unfoldable pub indented : List Text → Text
indented [] = []
indented (line ∷ lines) = spaces help_indent ++ line ++ codes "\n" ++ indented lines

abbrev pub help_lines : ℕ → List Text → Text
help_lines used [] = []
help_lines used (line ∷ lines) =
    if ltb used (help_indent - 7)
    then spaces (help_indent - 7 - used) ++ line ++ codes "\n" ++ indented lines
    else codes "\n" ++ indented (line ∷ lines)

abbrev pub uci_line : Text → Text → Text
uci_line uci_option def =
    if is_empty def && is_empty uci_option
    then []
    else spaces help_indent
      ++ codes "["
      ++ (if is_empty uci_option then [] else codes "UCI: " ++ uci_option)
      ++ (if is_empty uci_option || is_empty def then [] else codes "  ")
      ++ (if is_empty def then [] else codes "DEFAULT: " ++ def)
      ++ codes "]\n"

-- `none` is an endless loop of StrSplit, which the delimiters of FlowText exclude.
unfoldable pub format_flag : ℕ → Text → Text → Text → Text → Option Text
format_flag short long help uci_option def = elim (flow_text help help_width) [
  | none ↦ none
  | some lines ↦ some (
      codes "  "
      ++ (if short == 0 then codes "  " else codes "-" ++ short ∷ [])
      ++ (if not (short == 0) && not (is_empty long) then codes ",  " else codes "   ")
      ++ long_flag_text short long
      ++ help_lines (length (long_flag_text short long)) lines
      ++ uci_line uci_option def
      ++ codes "\n")
]

-- EscapeMd, character by character
abbrev pub is_special : ℕ → Text → Bool
is_special c [] = false
is_special c (d ∷ ds) = (c == d) || is_special c ds

abbrev pub escaped : ℕ → Text
escaped c =
    if c == b'<'
    then codes "&lt;"
    else if c == b'>'
    then codes "&gt;"
    else if c == b'&'
    then codes "&amp;"
    else if c == 10
    then codes "<br/>"
    else if c == 13
    then []
    else if is_special c (codes "~#*_\\[]+-`|:")
    then codes "\\" ++ c ∷ []
    else c ∷ []

unfoldable pub escape_md : Text → Text
escape_md [] = []
escape_md (c ∷ cs) = escaped c ++ escape_md cs

abbrev pub bool_text : Bool → Text
bool_text true = codes "true"
bool_text false = codes "false"

unfoldable pub choices_vars : List Text → Text
choices_vars [] = []
choices_vars (c ∷ cs) = codes " var " ++ c ++ choices_vars cs

-- The choices with commas, behind those before.
unfoldable pub choices_list : Text → List Text → Text
choices_list before [] = before
choices_list before (c ∷ cs) =
    choices_list ((if is_empty before then [] else before ++ codes ",") ++ c) cs

module _ {F : Type 0} (show_float fixed_float : F → Text) where
  -- GetOptionString of each class, in a dictionary with its parents
  unfoldable pub get_option_string : OptionId → Kind F → Values F → List (Values F) → Result Text
  get_option_string o string_option own ps =
      get string_slot own ps o.id >>= λ v. ok (codes "type string default " ++ v)
  get_option_string o (int_option min max) own ps = get int_slot own ps o.id >>= λ v. ok (
      codes "type spin default "
      ++ int_text v
      ++ codes " min "
      ++ int_text min
      ++ codes " max "
      ++ int_text max)
  get_option_string o (float_option min max) own ps =
      get float_slot own ps o.id >>= λ v. ok (codes "type string default " ++ show_float v)
  get_option_string o bool_option own ps =
      get bool_slot own ps o.id >>= λ v. ok (codes "type check default " ++ bool_text v)
  get_option_string o (choice_option choices) own ps = get string_slot own ps o.id >>= λ v.
      ok (codes "type combo default " ++ v ++ choices_vars choices)

  unfoldable pub list_options :
      List (ParserOption F) → Values F → List (Values F) → Result (List Text)
  list_options [] own ps = ok []
  list_options (o ∷ os) own ps =
      let rest = list_options os own ps in
      if not (is_empty o.option_id.uci_option) && not o.hidden
      then (get_option_string o.option_id o.kind own ps >>= λ t. rest >>= λ ts.
          ok ((codes "option name " ++ o.option_id.uci_option ++ codes " " ++ t) ∷ ts))
      else rest

  abbrev pub list_options_uci : OptionsParser F → Result (List Text)
  list_options_uci p = list_options p.options (values_of p.values) (p.defaults ∷ [])

  abbrev unless_empty : Text → Text → Text
  unless_empty long t = if is_empty long then [] else t

  -- GetHelp of each class: the flag and the default that FormatFlag gets
  unfoldable pub help_parts : OptionId → Kind F → Values F → List (Values F) → Result (Text × Text)
  help_parts o string_option own ps =
      get string_slot own ps o.id >>= λ v. ok (o.long_flag ++ codes "=STRING", v)
  help_parts o (int_option min max) own ps = get int_slot own ps o.id >>= λ v. ok (
    unless_empty o.long_flag
        (o.long_flag ++ codes "=" ++ int_text min ++ codes ".." ++ int_text max),
    int_text v ++ codes "  MIN: " ++ int_text min ++ codes "  MAX: " ++ int_text max,
  )
  help_parts o (float_option min max) own ps = get float_slot own ps o.id >>= λ v. ok (
    unless_empty o.long_flag
        (o.long_flag ++ codes "=" ++ fixed_float min ++ codes ".." ++ fixed_float max),
    fixed_float v ++ codes "  MIN: " ++ fixed_float min ++ codes "  MAX: " ++ fixed_float max,
  )
  help_parts o bool_option own ps = get bool_slot own ps o.id >>= λ v.
      ok (unless_empty o.long_flag (codes "[no-]" ++ o.long_flag), bool_text v)
  help_parts o (choice_option choices) own ps = get string_slot own ps o.id >>= λ v.
      ok (o.long_flag ++ codes "=CHOICE", v ++ codes "  VALUES: " ++ choices_list [] choices)

  unfoldable pub get_help : OptionId → Kind F → Values F → List (Values F) → Result (Option Text)
  get_help o kind own ps = help_parts o kind own ps >>= λ (long, def).
      ok (format_flag o.short_flag long o.help_text o.uci_option def)
