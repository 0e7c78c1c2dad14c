-- ===== src/OptionsDict.antt =====
-- `OptionsDict` of src/utils/optionsdict.h and src/utils/optionsdict.cc: a dictionary of each type of value, with
-- sub-dictionaries by name, which look up in their parents what they do not have themselves. The C++
-- `float` is the parameter `F`. A text is the list of its codes.
pub mod Lexer
pub mod Parser
pub mod Lookup
pub mod Progress
pub mod Terminates
pub mod FreeName
use lc.Base.{
  ℕ, Bool, true, false, ◌&&◌, ◌==◌, ltb, List, [], ◌∷◌, Option, none, some, if◌then◌else◌,
}
use lc.Base.Int.{ℤ}
use lc.Base.Text.{Text, same_text, less_text, TextMap, find, assign}

pub data Fault : Type 0 where
  key_not_set : Text → Fault
  subdict_not_found : Text → Fault
  subdict_exists : Text → Fault
  -- The errors of the lexer, with the offset.
  unable_to_parse_token : ℕ → Fault
  string_not_closed : ℕ → Fault
  unable_to_parse_number : ℕ → Fault
  expected_token : ℕ → Fault
  expected_value : ℕ → Fault
  -- The errors of the options, with the flag, and the exceptions of std::stoi and std::stof.
  must_be_between : Text → Fault
  must_be_true_or_false : Text → Fault
  must_be_one_of : Text → Fault
  unknown_option : Text → Fault
  no_number : Text → Fault

-- A value, an exception, or no end within the fuel.
pub data Result (A : Type 0) : Type 0 where
  ok : A → Result A
  raised : Fault → Result A
  out_of_fuel : Result A

infixl 5 ◌>>=◌
abbrev pub ◌>>=◌ : {A B : Type 0} → Result A → (A → Result B) → Result B
◌>>=◌ (ok x) f = f x
◌>>=◌ (raised e) f = raised e
◌>>=◌ out_of_fuel f = out_of_fuel

-- The dictionary of one type.
abbrev pub TypeDict : Type 0 → Type 0
TypeDict A = TextMap A

pub record Values (F : Type 0) : Type 0 where
  pub bools : TypeDict Bool
  pub ints : TypeDict ℤ
  pub strings : TypeDict Text
  pub floats : TypeDict F

-- The dictionary of one type among those of an object.
pub record Slot (F A : Type 0) : Type 0 where
  pub dict_of : Values F → TypeDict A
  pub with_dict : Values F → TypeDict A → Values F

abbrev pub bool_slot : {F : Type 0} → Slot F Bool
bool_slot = record { dict_of = λ v. v.bools; with_dict = λ v d. record v { bools = d } }

abbrev pub int_slot : {F : Type 0} → Slot F ℤ
int_slot = record { dict_of = λ v. v.ints; with_dict = λ v d. record v { ints = d } }

abbrev pub string_slot : {F : Type 0} → Slot F Text
string_slot = record { dict_of = λ v. v.strings; with_dict = λ v d. record v { strings = d } }

abbrev pub float_slot : {F : Type 0} → Slot F F
float_slot = record { dict_of = λ v. v.floats; with_dict = λ v d. record v { floats = d } }

module _ {F A : Type 0} (slot : Slot F A) where
  -- A dictionary is its own values with those of its parents, the nearest first.
  unfoldable pub get : Values F → List (Values F) → Text → Result A
  get own [] key = elim (find (slot.dict_of own) key) [
    | some v ↦ ok v
    | none ↦ raised (key_not_set key)
  ]
  get own (p ∷ ps) key = elim (find (slot.dict_of own) key) [ some v ↦ ok v | none ↦ get p ps key ]

  unfoldable pub exists : Values F → List (Values F) → Text → Bool
  exists own [] key = elim (find (slot.dict_of own) key) [ some v ↦ true | none ↦ false ]
  exists own (p ∷ ps) key = elim (find (slot.dict_of own) key) [
    | some v ↦ true
    | none ↦ exists p ps key
  ]

  unfoldable pub get_or_default : Values F → List (Values F) → Text → A → A
  get_or_default own [] key d = elim (find (slot.dict_of own) key) [ some v ↦ v | none ↦ d ]
  get_or_default own (p ∷ ps) key d = elim (find (slot.dict_of own) key) [
    | some v ↦ v
    | none ↦ get_or_default p ps key d
  ]

  unfoldable pub is_default : Values F → List (Values F) → Text → Bool
  is_default own [] key = true
  is_default own (p ∷ ps) key = elim (find (slot.dict_of own) key) [
    | some v ↦ false
    | none ↦ is_default p ps key
  ]

  unfoldable pub set : Values F → Text → A → Values F
  set own key value = slot.with_dict own (assign (slot.dict_of own) key value)

-- The object with its sub-dictionaries, in the order of their names.
mutual
  pub data OptionsDict (F : Type 0) : Type 0 where
    dict : Values F → Subdicts F → OptionsDict F

  pub data Subdicts (F : Type 0) : Type 0 where
    no_subdicts : Subdicts F
    subdict : Text → OptionsDict F → Subdicts F → Subdicts F

abbrev pub no_values : {F : Type 0} → Values F
no_values = record { bools = []; ints = []; strings = []; floats = [] }

abbrev pub empty : {F : Type 0} → OptionsDict F
empty = dict no_values no_subdicts

abbrev pub values_of : {F : Type 0} → OptionsDict F → Values F
values_of (dict v s) = v

abbrev pub subdicts_of : {F : Type 0} → OptionsDict F → Subdicts F
subdicts_of (dict v s) = s

abbrev pub find_subdict : {F : Type 0} → Subdicts F → Text → Option (OptionsDict F)
find_subdict no_subdicts name = none
find_subdict (subdict n d rest) name = if same_text n name then some d else find_subdict rest name

-- Insertion into the ordered map.
abbrev pub emplace : {F : Type 0} → Subdicts F → Text → OptionsDict F → Subdicts F
emplace no_subdicts name d = subdict name d no_subdicts
emplace (subdict n e rest) name d =
    if less_text name n
    then subdict name d (subdict n e rest)
    else subdict n e (emplace rest name d)

-- The sub-dictionary of the name after its own operations.
abbrev pub replace : {F : Type 0} → Subdicts F → Text → OptionsDict F → Subdicts F
replace no_subdicts name d = no_subdicts
replace (subdict n e rest) name d =
    if same_text n name then subdict n d rest else subdict n e (replace rest name d)

abbrev pub names : {F : Type 0} → Subdicts F → List Text
names no_subdicts = []
names (subdict n d rest) = n ∷ names rest

-- GetSubdict and GetMutableSubdict
unfoldable pub get_subdict : {F : Type 0} → OptionsDict F → Text → Result (OptionsDict F)
get_subdict (dict v s) name = elim (find_subdict s name) [
  | some d ↦ ok d
  | none ↦ raised (subdict_not_found name)
]

unfoldable pub has_subdict : {F : Type 0} → OptionsDict F → Text → Bool
has_subdict (dict v s) name = elim (find_subdict s name) [ some d ↦ true | none ↦ false ]

unfoldable pub add_subdict : {F : Type 0} → OptionsDict F → Text → Result (OptionsDict F)
add_subdict (dict v s) name = elim (find_subdict s name) [
  | some d ↦ raised (subdict_exists name)
  | none ↦ ok (dict v (emplace s name empty))
]

unfoldable pub list_subdicts : {F : Type 0} → OptionsDict F → List Text
list_subdicts (dict v s) = names s
