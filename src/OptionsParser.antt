-- ===== src/OptionsParser.antt =====
-- The kinds of options and `OptionsParser` of src/utils/optionsparser.h and src/utils/optionsparser.cc. `stof`, the order
-- of floats and the dictionary of defaults behind the values are parameters of what uses them. The text of
-- an id is the address of the `OptionId`, as a number.
pub mod Flags
pub mod Accepted
pub mod Bounds
pub mod Kept
pub mod Help
use lc.Base.{
  ℕ, Bool, true, false, not, ◌&&◌, ◌||◌, ◌==◌, List, [], ◌∷◌, ◌++◌, Option, none, some,
  if◌then◌else◌,
}
use lc.Base.Int.{ℤ, ltb_ℤ}
use lc.Base.Text.{Text, codes, same_text}
use lc.Strings.{is_empty, strings_equal_ignore_case, to_int}
use lc.OptionsDict.{
  Slot, Fault, must_be_between, must_be_true_or_false, must_be_one_of, unknown_option, no_number,
  Result, ok, raised, ◌>>=◌, Values, bool_slot, int_slot, string_slot, float_slot, get, set,
  OptionsDict, dict, Subdicts, find_subdict, replace, subdict_not_found, add_subdict, values_of,
}

pub record OptionId : Type 0 where
  pub id : Text
  pub long_flag : Text
  pub uci_option : Text
  pub help_text : Text
  -- 0 for none.
  pub short_flag : ℕ

-- The derived classes, with their fields.
pub data Kind (F : Type 0) : Type 0 where
  string_option : Kind F
  int_option : ℤ → ℤ → Kind F
  float_option : F → F → Kind F
  bool_option : Kind F
  choice_option : List Text → Kind F

pub record ParserOption (F : Type 0) : Type 0 where
  pub option_id : OptionId
  pub kind : Kind F
  pub hidden : Bool

pub record OptionsParser (F : Type 0) : Type 0 where
  pub options : List (ParserOption F)
  pub defaults : Values F
  pub values : OptionsDict F

abbrev pub is_choice : List Text → Text → Bool
is_choice [] val = false
is_choice (c ∷ cs) val = same_text val c || is_choice cs val

abbrev pub is_bool_text : Text → Bool
is_bool_text val = same_text val (codes "true") || same_text val (codes "false")

module _ {F : Type 0} (stof : Text → Option F) (less : F → F → Bool) where
  -- SetVal of each class
  unfoldable pub set_int : OptionId → ℤ → ℤ → Values F → ℤ → Result (Values F)
  set_int o min max own val =
      if ltb_ℤ val min || ltb_ℤ max val
      then raised (must_be_between o.long_flag)
      else ok (set int_slot own o.id val)

  unfoldable pub set_float : OptionId → F → F → Values F → F → Result (Values F)
  set_float o min max own val =
      if less val min || less max val
      then raised (must_be_between o.long_flag)
      else ok (set float_slot own o.id val)

  unfoldable pub set_choice : OptionId → List Text → Values F → Text → Result (Values F)
  set_choice o choices own val =
      if is_choice choices val
      then ok (set string_slot own o.id val)
      else raised (must_be_one_of o.long_flag)

  -- The value of a text for an option that is no `BoolOption`.
  unfoldable pub set_text : OptionId → Kind F → Values F → Text → Result (Values F)
  set_text o string_option own value = ok (set string_slot own o.id value)
  set_text o (int_option min max) own value = elim (to_int value) [
    | some i ↦ set_int o min max own i
    | none ↦ raised (no_number value)
  ]
  set_text o (float_option min max) own value = elim (stof value) [
    | some x ↦ set_float o min max own x
    | none ↦ raised (no_number value)
  ]
  set_text o bool_option own value = ok own
  set_text o (choice_option choices) own value = set_choice o choices own value

  unfoldable pub validate_bool_string : OptionId → Text → Result Unit
  validate_bool_string o val =
      if is_bool_text val then ok tt else raised (must_be_true_or_false o.long_flag)

  unfoldable pub set_bool_text : OptionId → Values F → Text → Result (Values F)
  set_bool_text o own value = validate_bool_string o value >>= λ done.
      ok (set bool_slot own o.id (same_text value (codes "true")))

  unfoldable pub set_value : OptionId → Kind F → Values F → Text → Result (Values F)
  set_value o bool_option own value = set_bool_text o own value
  set_value o string_option own value = set_text o string_option own value
  set_value o (int_option min max) own value = set_text o (int_option min max) own value
  set_value o (float_option min max) own value = set_text o (float_option min max) own value
  set_value o (choice_option choices) own value = set_text o (choice_option choices) own value

  unfoldable pub bool_long_flag : OptionId → Values F → Text → Text → Result (Option (Values F))
  bool_long_flag o own flag value =
      if same_text flag (codes "no-" ++ o.long_flag)
      then ok (some (set bool_slot own o.id false))
      else if same_text flag o.long_flag && is_empty value
      then ok (some (set bool_slot own o.id true))
      else validate_bool_string o value >>= λ done.
          if same_text flag o.long_flag
          then ok (
              some
                (set bool_slot own o.id (is_empty value || not (same_text value (codes "false")))))
          else ok none

  -- `none` is the result false.
  unfoldable pub text_long_flag :
      OptionId → Kind F → Values F → Text → Text → Result (Option (Values F))
  text_long_flag o kind own flag value =
      if same_text flag o.long_flag
      then (set_text o kind own value >>= λ own'. ok (some own'))
      else ok none

  unfoldable pub process_long_flag :
      OptionId → Kind F → Values F → Text → Text → Result (Option (Values F))
  process_long_flag o bool_option own flag value = bool_long_flag o own flag value
  process_long_flag o string_option own flag value = text_long_flag o string_option own flag value
  process_long_flag o (int_option min max) own flag value =
      text_long_flag o (int_option min max) own flag value
  process_long_flag o (float_option min max) own flag value =
      text_long_flag o (float_option min max) own flag value
  process_long_flag o (choice_option choices) own flag value =
      text_long_flag o (choice_option choices) own flag value

  -- A `BoolOption` is turned over; its value may stand in the defaults.
  unfoldable pub process_short_flag :
      OptionId → Kind F → Values F → List (Values F) → ℕ → Result (Option (Values F))
  process_short_flag o bool_option own parents flag =
      if flag == o.short_flag
      then (get bool_slot own parents o.id >>= λ b. ok (some (set bool_slot own o.id (not b))))
      else ok none
  process_short_flag o _ own parents flag = ok none

  unfoldable pub process_short_flag_with_value :
      OptionId → Kind F → Values F → ℕ → Text → Result (Option (Values F))
  process_short_flag_with_value o bool_option own flag value = ok none
  process_short_flag_with_value o kind own flag value =
      if flag == o.short_flag
      then (set_text o kind own value >>= λ own'. ok (some own'))
      else ok none

-- The first option that passes, or null.
abbrev pub first_option :
    {F : Type 0} → (ParserOption F → Bool) → List (ParserOption F) → Option (ParserOption F)
first_option test [] = none
first_option test (o ∷ os) = if test o then some o else first_option test os

abbrev pub find_option_by_long_flag :
    {F : Type 0} → List (ParserOption F) → Text → Option (ParserOption F)
find_option_by_long_flag os flag =
    first_option
      (λ o.
        same_text flag o.option_id.long_flag
        || same_text flag (codes "no-" ++ o.option_id.long_flag))
      os

abbrev pub find_option_by_uci_name :
    {F : Type 0} → List (ParserOption F) → Text → Option (ParserOption F)
find_option_by_uci_name os name =
    first_option (λ o. strings_equal_ignore_case o.option_id.uci_option name) os

-- `GetMutableOptions(context)` and what is then done with the values of that dictionary.
unfoldable pub on_context :
    {F : Type 0}
    → OptionsParser F
    → Text
    → (Values F → Result (Option (Values F)))
    → Result (Option (OptionsParser F))
on_context p context act = elim p.values [
  | dict v s ↦
      if is_empty context
      then (act v >>= λ r.
          ok (elim r [ some v' ↦ some (record p { values = dict v' s }) | none ↦ none ]))
      else elim (find_subdict s context) [
        | none ↦ raised (subdict_not_found context)
        | some (dict w t) ↦ act w >>= λ r. ok (elim r [
          | some w' ↦ some (record p { values = dict v (replace s context (dict w' t)) })
          | none ↦ none
        ])
      ]
]

abbrev pub with_hidden : {F : Type 0} → Bool → ParserOption F → ParserOption F
with_hidden h o = record o { hidden = h }

unfoldable pub show_hidden : {F : Type 0} → List (ParserOption F) → List (ParserOption F)
show_hidden [] = []
show_hidden (o ∷ os) = with_hidden false o ∷ show_hidden os

-- HideOption, of the first option with the id
unfoldable pub hide_option : {F : Type 0} → List (ParserOption F) → Text → List (ParserOption F)
hide_option [] id = []
hide_option (o ∷ os) id =
    let rest = hide_option os id in
    if same_text id o.option_id.id then with_hidden true o ∷ os else o ∷ rest

unfoldable pub add_context : {F : Type 0} → OptionsParser F → Text → Result (OptionsParser F)
add_context p context = add_subdict p.values context >>= λ d. ok (record p { values = d })

-- Add, with the value that is assigned to the reference that it returns.
unfoldable pub add :
    {F A : Type 0} → Slot F A → OptionsParser F → ParserOption F → A → OptionsParser F
add slot p o value = record p {
  options = p.options ++ o ∷ [];
  defaults = set slot p.defaults o.option_id.id value;
}
