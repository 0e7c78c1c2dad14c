-- ===== src/Uci.antt =====
-- `ParseCommand` and `UciLoop` of src/chess/uciloop.cc. A command handler is a parameter, as it is a virtual method; its
-- state is of the type `S`. Times are integers within 32 bits, as std::stoi gives them.
pub mod Responses
pub mod Params
pub mod Loop
use lc.Base.{
  ℕ, Bool, true, false, not, ◌&&◌, ◌||◌, ◌==◌, List, [], ◌∷◌, ◌++◌, Option, none, some,
  if◌then◌else◌,
}
use lc.Base.Int.{ℤ}
use lc.Base.Text.{Text, codes, same_text, TextMap, find, assign, is_digit}
use lc.Strings.{is_empty, str_split_at_whitespace, left_trim, to_int}

-- The exceptions of the program, with what the message has, and those of the standard library.
pub data Error : Type 0 where
  unknown_command : Text → Error
  unexpected_token : Text → Error
  fen_or_startpos : Error
  unexpected_error : Error
  expected_value : Text → Error
  invalid_value : Text → Error
  -- Of a command handler.
  handler : Text → Error
  out_of_range : Error

-- RunLoop catches the first kind.
abbrev pub is_caught : Error → Bool
is_caught out_of_range = false
is_caught _ = true

pub data Result (A : Type 0) : Type 0 where
  ok : A → Result A
  raised : Error → Result A

infixl 5 ◌>>=◌
abbrev pub ◌>>=◌ : {A B : Type 0} → Result A → (A → Result B) → Result B
◌>>=◌ (ok x) f = f x
◌>>=◌ (raised e) f = raised e

abbrev pub Params : Type 0
Params = TextMap Text

-- kKnownCommands
unfoldable pub known_commands : TextMap (List Text)
known_commands =
    (codes "uci", [])
    ∷ (codes "isready", [])
    ∷ (codes "setoption", codes "context" ∷ codes "name" ∷ codes "value" ∷ [])
    ∷ (codes "ucinewgame", [])
    ∷ (codes "position", codes "fen" ∷ codes "startpos" ∷ codes "moves" ∷ [])
    ∷ (
      codes "go",
      codes "infinite"
          ∷ codes "wtime"
          ∷ codes "btime"
          ∷ codes "winc"
          ∷ codes "binc"
          ∷ codes "movestogo"
          ∷ codes "depth"
          ∷ codes "nodes"
          ∷ codes "movetime"
          ∷ codes "searchmoves"
          ∷ codes "ponder"
          ∷ [],
    )
    ∷ (codes "start", [])
    ∷ (codes "stop", [])
    ∷ (codes "ponderhit", [])
    ∷ (codes "quit", [])
    ∷ (codes "xyzzy", [])
    ∷ []

abbrev pub is_among : List Text → Text → Bool
is_among [] token = false
is_among (k ∷ ks) token = same_text k token || is_among ks token

abbrev pub text_or_empty : Option Text → Text
text_or_empty none = []
text_or_empty (some t) = t

abbrev pub get_or_empty : Params → Text → Text
get_or_empty params key = text_or_empty (find params key)

-- &params[token]
abbrev pub touch : Params → Text → Params
touch params key = assign params key (get_or_empty params key)

-- The loop over the tokens: `value` is the key whose value is written, if there is one.
unfoldable pub read_params : List Text → List Text → Params → Option Text → Text → Result Params
read_params keys [] params value whitespace = ok params
read_params keys (token ∷ rest) params value whitespace =
    let more : Text → Result Params = λ key.
      read_params keys rest (assign params key (get_or_empty params key ++ (whitespace ++ token)))
        (some key) (codes " ") in
    let other = read_params keys rest (touch params token) (some token) [] in
    if is_among keys token
    then other
    else elim value [ some key ↦ more key | none ↦ raised (unexpected_token token) ]

abbrev pub command_of : Text → List Text → Result (Text × Params)
command_of line [] = ok ([], [])
command_of line (token ∷ rest) = elim (find known_commands token) [
  | none ↦ raised (unknown_command line)
  | some keys ↦ read_params keys rest [] none [] >>= λ params. ok (token, params)
]

unfoldable pub parse_command : Text → Result (Text × Params)
parse_command line = command_of line (str_split_at_whitespace line)

abbrev pub contains_key : Params → Text → Bool
contains_key params key = elim (find params key) [ some v ↦ true | none ↦ false ]

-- Whether std::stoi gets as far as a number, which is then out of range if it fails.
abbrev starts_with_digit : Text → Bool
starts_with_digit [] = false
starts_with_digit (c ∷ cs) = is_digit c

abbrev without_sign : Text → Text
without_sign [] = []
without_sign (c ∷ cs) = if (c == b'-') || (c == b'+') then cs else c ∷ cs

abbrev pub is_number : Text → Bool
is_number str = starts_with_digit (without_sign (left_trim str))

unfoldable pub get_numeric : Params → Text → Result ℤ
get_numeric params key = elim (find params key) [
  | none ↦ raised unexpected_error
  | some str ↦ if is_empty str then raised (expected_value key) else elim (to_int str) [
    | some i ↦ ok i
    | none ↦ if is_number str then raised out_of_range else raised (invalid_value str)
  ]
]

pub record GoParams : Type 0 where
  pub wtime : Option ℤ
  pub btime : Option ℤ
  pub winc : Option ℤ
  pub binc : Option ℤ
  pub movestogo : Option ℤ
  pub depth : Option ℤ
  pub nodes : Option ℤ
  pub movetime : Option ℤ
  pub infinite : Bool
  pub searchmoves : List Text
  pub ponder : Bool

pub data Command : Type 0 where
  cmd_uci : Command
  cmd_is_ready : Command
  cmd_set_option : Text → Text → Text → Command
  cmd_uci_new_game : Command
  cmd_position : Text → List Text → Command
  cmd_go : GoParams → Command
  cmd_stop : Command
  cmd_ponder_hit : Command
  cmd_start : Command
  nothing_happens : Command
  quit : Command

-- UCIGOOPTION
unfoldable pub go_option : Params → Text → Result (Option ℤ)
go_option params key =
    if contains_key params key then (get_numeric params key >>= λ i. ok (some i)) else ok none

-- A flag, which is to have no value.
unfoldable pub go_flag : Params → Text → Result Bool
go_flag params key =
    if contains_key params key
    then (if is_empty (get_or_empty params key)
        then ok true
        else raised (unexpected_token (get_or_empty params key)))
    else ok false

unfoldable pub go_params : Params → Result GoParams
go_params params = do
  infinite ← go_flag params (codes "infinite")
  ponder ← go_flag params (codes "ponder")
  wtime ← go_option params (codes "wtime")
  btime ← go_option params (codes "btime")
  winc ← go_option params (codes "winc")
  binc ← go_option params (codes "binc")
  movestogo ← go_option params (codes "movestogo")
  depth ← go_option params (codes "depth")
  nodes ← go_option params (codes "nodes")
  movetime ← go_option params (codes "movetime")
  ok (record {
    wtime = wtime;
    btime = btime;
    winc = winc;
    binc = binc;
    movestogo = movestogo;
    depth = depth;
    nodes = nodes;
    movetime = movetime;
    infinite = infinite;
    searchmoves = str_split_at_whitespace (get_or_empty params (codes "searchmoves"));
    ponder = ponder;
  })

-- What DispatchCommand calls.
unfoldable pub dispatch_command : Text → Params → Result Command
dispatch_command command params =
    if same_text command (codes "uci")
    then ok cmd_uci
    else if same_text command (codes "isready")
    then ok cmd_is_ready
    else if same_text command (codes "setoption")
    then ok (
        cmd_set_option (get_or_empty params (codes "name")) (get_or_empty params (codes "value"))
          (get_or_empty params (codes "context")))
    else if same_text command (codes "ucinewgame")
    then ok cmd_uci_new_game
    else if same_text command (codes "position")
    then (if contains_key params (codes "fen") && contains_key params (codes "startpos")
          || not (contains_key params (codes "fen") || contains_key params (codes "startpos"))
        then raised fen_or_startpos
        else ok (
            cmd_position (get_or_empty params (codes "fen"))
              (str_split_at_whitespace (get_or_empty params (codes "moves")))))
    else if same_text command (codes "go")
    then (go_params params >>= λ p. ok (cmd_go p))
    else if same_text command (codes "stop")
    then ok cmd_stop
    else if same_text command (codes "ponderhit")
    then ok cmd_ponder_hit
    else if same_text command (codes "start")
    then ok cmd_start
    else if same_text command (codes "xyzzy")
    then ok nothing_happens
    else if same_text command (codes "quit")
    then ok quit
    else raised (unknown_command command)

-- How the loop ends: at the end of the input, at `quit`, or by an exception that it does not catch.
pub data End : Type 0 where
  end_of_input : End
  quitted : End
  terminated : Error → End

-- The command of a line, or none for an empty one.
unfoldable pub read_line : Text → Result (Option Command)
read_line line = parse_command line >>= λ (command, params).
    if is_empty command then ok none else (dispatch_command command params >>= λ c. ok (some c))

-- A handler gives the state after it, with the exception if it throws one.
module _ {S : Type 0} (handle : S → Command → S × Option Error) where
  -- The state after the command, and whether the loop goes on.
  abbrev pub call : S → Command → S × Result Bool
  call s quit = (s, ok false)
  call s c = let (s', e) = handle s c in (s', elim e [ none ↦ ok true | some e' ↦ raised e' ])

  unfoldable pub run_line : S → Text → S × Result Bool
  run_line s line = elim (read_line line) [
    | raised e ↦ (s, raised e)
    | ok none ↦ (s, ok true)
    | ok (some c) ↦ call s c
  ]

  -- What a line and then the lines after it come to.
  abbrev pub after_line : S → Result Bool → S × List Error × End → S × List Error × End
  after_line s (ok true) rest = rest
  after_line s (ok false) rest = (s, [], quitted)
  after_line s (raised e) rest =
      if is_caught e then (rest.0, e ∷ rest.1, rest.2) else (s, [], terminated e)

  -- The lines in turn, with the errors that are sent as responses.
  unfoldable pub run_loop : S → List Text → S × List Error × End
  run_loop s [] = (s, [], end_of_input)
  run_loop s (line ∷ lines) =
      let (s', outcome) = run_line s line in after_line s' outcome (run_loop s' lines)
