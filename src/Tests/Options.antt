-- ===== src/Tests/Options.antt =====
-- The theorems on dictionaries of options, and the parser on concrete texts. A `float` is its text here.
use lc.Base.Text.{TextMap, Text, codes}
use lc.Base.{Bool, List, ◌∷◌, [], ℕ, ◌≡◌, ◌≢◌, ◌<◌, refl, true, false, [], ◌∷◌, some}
use lc.Base.Int.{ℤ, pos, negsuc}
use lc.OptionsDict
use lc.OptionsDict.{
  values_of, must_be_between, must_be_one_of, ◌>>=◌, Values, OptionsDict, dict, subdict,
  no_subdicts, no_values, Result, ok, raised, out_of_fuel, string_slot, int_slot, get, exists,
  get_or_default, is_default, set, key_not_set, has_subdict, subdict_exists, expected_token,
  unable_to_parse_number, string_not_closed, subdicts_of, add_subdict, find_subdict, emplace, ◌>>=◌,
  list_subdicts, get_subdict,
}
use lc.OptionsDict.Lexer.{
  next, read_token, read_string, read_identifier, read_number, span, to_quote, stoi, digits_of,
}
use lc.OptionsDict.Parser.{
  numbered, get_free_subdict_name, add_subdict_from_string, parse_main, parse_list, read_name,
  read_entry, read_sub_dict, read_val, set_val, ensure_token, free_name, to_digits,
}
use lc.Strings.{
  after_prefix, find_delim, left_trim, flow_text, flow_paragraphs, flow_words, split_rounds,
}
use lc.OptionsParser.{
  int_option, choice_option, ParserOption, OptionsParser, on_context, process_long_flag,
  process_short_flag, process_short_flag_with_value, text_long_flag, set_text, set_int, set_choice,
}
use lc.OptionsParser.Flags.{process_flags, set_uci_option, long_flag, short_flag}
use lc.OptionsParser.Accepted.{Gives}
use lc.OptionsParser.Bounds.{AcceptedDict}
use lc.OptionsParser.Kept.{flags-Accepted}
use lc.OptionsParser.Help.{format_flag, spaces, indented}
use lc.OptionsDict.Lookup.{nearest_lem, get-set}
use lc.OptionsDict.Terminates.{add_subdict_from_string-Ends}
use lc.OptionsDict.FreeName.{get_free_subdict_name_lem}

abbrev F : Type 0
F = Text

abbrev root : Values F
root = record no_values { ints = (codes "threads", pos 2) ∷ [] }

abbrev child : Values F
child = record no_values { ints = (codes "batch", pos 8) ∷ [] }

nearest_lem_example :
    (get int_slot child (root ∷ []) (codes "threads") ≡ ok (pos 2))
    × (exists {F = F} int_slot child (root ∷ []) (codes "threads") ≡ true)
    × (get_or_default {F = F} int_slot child (root ∷ []) (codes "threads") (pos 1) ≡ pos 2)
    × (is_default {F = F} int_slot child (root ∷ []) (codes "threads") ≡ true)
nearest_lem_example = nearest_lem int_slot (codes "threads") child (root ∷ []) (pos 1)

get-set_example :
    get {F = F} int_slot
      (set int_slot child (codes "threads") (pos 4))
      (root ∷ [])
      (codes "threads")
    ≡ ok (pos 4)
get-set_example =
    get-set int_slot (codes "threads") (λ v d. refl) child (root ∷ []) (codes "threads") (pos 4)

abbrev two_lists : OptionsDict F
two_lists =
    dict no_values (
      subdict (codes "[0]") OptionsDict.empty (subdict (codes "[2]") OptionsDict.empty no_subdicts))

get_free_subdict_name_lem_example :
    (i : ℕ) × (get_free_subdict_name two_lists ≡ numbered i)
    × (has_subdict two_lists (numbered i) ≡ false)
    × ((j : ℕ) → j < i → has_subdict two_lists (numbered j) ≡ true)
get_free_subdict_name_lem_example = get_free_subdict_name_lem two_lists

add_subdict_from_string-ends_example :
    add_subdict_from_string {F = F} some OptionsDict.empty (codes "a=1, (b=x), (c") ≢ out_of_fuel
add_subdict_from_string-ends_example =
    add_subdict_from_string-Ends some OptionsDict.empty (codes "a=1, (b=x), (c")

abbrev parse : Text → Result (OptionsDict F)
parse = add_subdict_from_string some OptionsDict.empty

parse_test :
    parse (codes "option1=-1, option_two = \"string val\", sub(option3=3.14), ()")
    ≡ ok (
        dict
          (record no_values {
            ints = (codes "option1", negsuc 0) ∷ [];
            strings = (codes "option_two", codes "string val") ∷ [];
          })
          (subdict (codes "[0]") OptionsDict.empty (
            subdict
              (codes "sub")
              (dict
                (record no_values { floats = (codes "option3", codes "3.14") ∷ [] })
                no_subdicts)
              no_subdicts)))
unfolding add_subdict_from_string parse_main parse_list read_name read_entry read_sub_dict read_val
    set_val ensure_token free_name to_digits next read_token read_string read_identifier read_number
    span to_quote stoi digits_of set add_subdict has_subdict
parse_test = refl

errors_test :
    (parse (codes "a, a") ≡ raised (subdict_exists (codes "a")))
    × (parse (codes "a(b=1") ≡ raised (expected_token 5))
    × (parse (codes "a=1 b") ≡ raised (expected_token 4))
    × (parse (codes "a=9999999999") ≡ raised (unable_to_parse_number 2))
    × (parse (codes "a='b") ≡ raised (string_not_closed 4))
unfolding add_subdict_from_string parse_main parse_list read_name read_entry read_sub_dict read_val
    set_val ensure_token free_name to_digits next read_token read_string read_identifier read_number
    span to_quote stoi digits_of set add_subdict has_subdict
errors_test = (refl, refl, refl, refl, refl)

-- An option with bounds and one with choices.
abbrev threads : ParserOption F
threads = record {
  option_id = record {
    id = codes "1";
    long_flag = codes "threads";
    uci_option = codes "Threads";
    help_text = codes "Number of threads";
    short_flag = b't';
  };
  kind = int_option (pos 1) (pos 128);
  hidden = false;
}

abbrev backend : ParserOption F
backend = record {
  option_id = record {
    id = codes "2";
    long_flag = codes "backend";
    uci_option = codes "Backend";
    help_text = [];
    short_flag = 0;
  };
  kind = choice_option (codes "blas" ∷ codes "cudnn" ∷ []);
  hidden = true;
}

abbrev parser : OptionsParser F
parser = record { options = threads ∷ backend ∷ []; defaults = root; values = OptionsDict.empty }

abbrev no_order : F → F → Bool
no_order x y = false

flags-Accepted_example :
    ((args : List Text)
      → Gives
          (λ r. AcceptedDict {F = F} some no_order parser.options r.1.values)
          (process_flags some no_order false parser args))
    × ((name value context : Text)
        → Gives
            (λ p'. AcceptedDict {F = F} some no_order parser.options p'.values)
            (set_uci_option some no_order parser name value context))
flags-Accepted_example =
    flags-Accepted some no_order parser
      (record { bools = tt; ints = tt; strings = tt; floats = tt }, tt)

abbrev ints_after : Result (Bool × OptionsParser F) → Result (Bool × TextMap ℤ)
ints_after r = r >>= λ (good, p). ok (good, (values_of p.values).ints)

flags_test :
    (ints_after (
        process_flags some no_order false parser
          (codes "--threads=8" ∷ codes "--backend=blas" ∷ []))
      ≡ ok (true, (codes "1", pos 8) ∷ []))
    × (ints_after (process_flags some no_order false parser (codes "-t" ∷ codes "4" ∷ []))
        ≡ ok (true, (codes "1", pos 4) ∷ []))
    × (ints_after (process_flags some no_order false parser (codes "--threads=0" ∷ []))
        ≡ raised (must_be_between (codes "threads")))
    × (ints_after (process_flags some no_order false parser (codes "--backend=opencl" ∷ []))
        ≡ raised (must_be_one_of (codes "backend")))
    × (ints_after (process_flags some no_order false parser (codes "--cores=3" ∷ []))
        ≡ ok (false, []))
unfolding process_flags after_prefix long_flag short_flag find_delim on_context process_long_flag
    process_short_flag process_short_flag_with_value text_long_flag set_text set_int set_choice set
    stoi digits_of left_trim
flags_test = (refl, refl, refl, refl, refl)

help_test :
    format_flag b't'
      (codes "threads=1..128")
      (codes "Number of threads")
      (codes "Threads")
      (codes "2")
    ≡ some (
        codes
          "  -t,  --threads=1..128\n               Number of threads\n               [UCI: Threads  DEFAULT: 2]\n\n")
unfolding format_flag flow_text split_rounds find_delim after_prefix flow_paragraphs flow_words
    spaces indented
help_test = refl
