-- ===== src/OptionsParser/Flags.antt =====
-- `ProcessFlags` and `SetUciOption` of src/utils/optionsparser.cc. The help is not printed here.
use lc.Base.{
  ℕ, Bool, true, false, not, ◌&&◌, ◌||◌, ◌==◌, List, [], ◌∷◌, Option, none, some, if◌then◌else◌,
}
use lc.Base.Text.{Text, codes, same_text}
use lc.Strings.{is_empty, after_prefix, find_delim}
use lc.OptionsDict.{Result, ok, raised, ◌>>=◌, unknown_option}
use lc.OptionsParser.{
  OptionsParser, ParserOption, process_long_flag, process_short_flag, process_short_flag_with_value,
  set_value, find_option_by_long_flag, find_option_by_uci_name, on_context, show_hidden,
}

-- What comes before the first `=`, and after it.
abbrev pub flag_and_value : Text → Text × Text
flag_and_value param = elim (find_delim (codes "=") param) [
  | some parts ↦ parts
  | none ↦ (param, [])
]

-- What comes before the first `.`, and after it.
abbrev pub context_and_flag : Text → Text × Text
context_and_flag param = elim (find_delim (codes ".") param) [
  | some parts ↦ parts
  | none ↦ ([], param)
]

abbrev pub first_or_empty : List Text → Text
first_or_empty [] = []
first_or_empty (t ∷ ts) = t

-- The character of a flag like `-t`.
abbrev pub short_char : Text → Option ℕ
short_char (d ∷ c ∷ []) = if d == b'-' then some c else none
short_char _ = none

abbrev pub is_help : Text → Bool
is_help param =
    same_text param (codes "-h")
    || same_text param (codes "--help")
    || same_text param (codes "--help-md")

module _ {F : Type 0} (stof : Text → Option F) (less : F → F → Bool) where
  -- `none` is a flag that is not processed.
  unfoldable pub long_flag : OptionsParser F → Text → Result (Option (OptionsParser F))
  long_flag p param =
      let (flag, value) = flag_and_value param in
      let (context, name) = context_and_flag flag in
      elim (find_option_by_long_flag p.options name) [
        | none ↦ ok none
        | some o ↦
            on_context p context
              (λ own. process_long_flag stof less o.option_id o.kind own name value)
      ]

  -- The loop over the options: the parser after it, and whether the flag has taken a value.
  unfoldable pub short_flag :
      List (ParserOption F) → OptionsParser F → ℕ → Text → Result (Option (OptionsParser F × Bool))
  short_flag [] p c value = ok none
  short_flag (o ∷ os) p c value =
      on_context p []
        (λ own. process_short_flag stof less o.option_id o.kind own (p.defaults ∷ []) c)
      >>= λ r. elim r [
        | some p' ↦ ok (some (p', false))
        | none ↦
            on_context p []
              (λ own. process_short_flag_with_value stof less o.option_id o.kind own c value)
            >>= λ r'. elim r' [ some p' ↦ ok (some (p', true)) | none ↦ short_flag os p c value ]
      ]

  -- The arguments in turn; `skip` passes over the value of the flag before. The result is false at the first
  -- argument that asks for help or is not known.
  unfoldable pub process_flags :
      Bool → OptionsParser F → List Text → Result (Bool × OptionsParser F)
  process_flags skip p [] = ok (true, p)
  process_flags true p (arg ∷ rest) = process_flags false p rest
  process_flags false p (arg ∷ rest) =
      if is_help arg
      then ok (false, p)
      else if same_text arg (codes "--show-hidden")
      then process_flags false (record p { options = show_hidden p.options }) rest
      else elim (after_prefix (codes "--") arg) [
        | some param ↦ long_flag p param >>= λ r. elim r [
          | none ↦ ok (false, p)
          | some p' ↦ process_flags false p' rest
        ]
        | none ↦ elim (short_char arg) [
          | none ↦ ok (false, p)
          | some c ↦ short_flag p.options p c (first_or_empty rest) >>= λ r. elim r [
            | none ↦ ok (false, p)
            | some (p', took) ↦ process_flags (took && not (is_empty (first_or_empty rest))) p' rest
          ]
        ]
      ]

  -- The arguments of the configuration file, and then those of the command line.
  unfoldable pub process_all_flags :
      OptionsParser F → List Text → List Text → Result (Bool × OptionsParser F)
  process_all_flags p config arguments = process_flags false p config >>= λ (good, p').
      if good then process_flags false p' arguments else ok (false, p')

  -- SetValue always sets a value.
  abbrev pub parser_after : OptionsParser F → Option (OptionsParser F) → OptionsParser F
  parser_after p none = p
  parser_after p (some p') = p'

  unfoldable pub set_uci_option : OptionsParser F → Text → Text → Text → Result (OptionsParser F)
  set_uci_option p name value context = elim (find_option_by_uci_name p.options name) [
    | none ↦ raised (unknown_option name)
    | some o ↦
        on_context p context
          (λ own. set_value stof less o.option_id o.kind own value >>= λ own'. ok (some own'))
        >>= λ r. ok (parser_after p r)
  ]
