-- ===== src/Tests/Uci.antt =====
-- The theorems on texts and on the UCI loop, and commands of the protocol.
use lc.Base.{◌≡◌, refl, List, [], ◌∷◌, Option, none, some}
use lc.Base.Int.{pos, negsuc}
use lc.Base.Text.{Text, codes}
use lc.OptionsDict.Lexer.{stoi, digits_of}
use lc.Strings.{
  split_rounds, find_delim, after_prefix, words_after, join_onto, left_trim, right_trim, flow_text,
  flow_paragraphs, flow_words, trim, parse_int_list, ints_of,
}
use lc.Uci.{
  Command, Error, ok, cmd_uci, parse_command, read_params, known_commands, run_loop, run_line,
  read_line, dispatch_command, go_params, go_option, go_flag, get_numeric, End, terminated,
  out_of_range, handler,
}
use lc.Uci.Params.{params_of, parse_command_lem}

parse_command_lem_example :
    parse_command (codes " setoption  name Move Overhead value 7 ")
    ≡ ok (
      codes "setoption",
      params_of
          ((codes "name", codes "Move" ∷ codes "Overhead" ∷ [])
            ∷ (codes "value", codes "7" ∷ [])
            ∷ [])
          [],
    )
unfolding words_after known_commands join_onto
parse_command_lem_example =
    parse_command_lem (codes " setoption  name Move Overhead value 7 ") (codes "setoption")
      (codes "context" ∷ codes "name" ∷ codes "value" ∷ [])
      ((codes "name", codes "Move" ∷ codes "Overhead" ∷ []) ∷ (codes "value", codes "7" ∷ []) ∷ [])
      refl refl
      (refl, refl, ((refl, refl), ((refl, refl), tt)), (refl, refl, ((refl, refl), tt), tt))

-- A handler that notes the commands, and throws at `uci`.
abbrev note : List Command → Command → List Command × Option Error
note s cmd_uci = (s, some (handler []))
note s c = (c ∷ s, none)

abbrev session : List Text → List Command × List Error × End
session = run_loop note []

-- A number that is too large for an `int` ends the program.
go_test :
    (session (codes "go nodes x" ∷ codes "go nodes 99999999999" ∷ codes "quit" ∷ [])).2
    ≡ terminated out_of_range
unfolding run_loop run_line read_line parse_command words_after known_commands dispatch_command
    read_params go_params go_option go_flag get_numeric stoi digits_of left_trim
go_test = refl

flow_test :
    flow_text (codes "one two three\nfour") 8
    ≡ some (codes "one two" ∷ codes "three" ∷ codes "four" ∷ [])
unfolding flow_text split_rounds find_delim after_prefix flow_paragraphs flow_words
flow_test = refl

trim_test : trim (codes "  a b ") ≡ codes "a b"
unfolding left_trim right_trim
trim_test = refl

ints_test : parse_int_list (codes "1,-2, 3") ≡ some (pos 1 ∷ negsuc 1 ∷ pos 3 ∷ [])
unfolding parse_int_list split_rounds find_delim after_prefix ints_of stoi digits_of left_trim
ints_test = refl
