-- ===== src/Uci/Responses.antt =====
-- The responses of src/chess/uciloop.cc, with the records of src/chess/callbacks.h. `none` is a move that has no text.
use lc.Base.{suc, Bool, true, false, List, [], ◌∷◌, ◌++◌, Option, none, some, ◌>>=◌, if◌then◌else◌}
use lc.Base.Int.{ℤ, pos, negsuc, eq_ℤ, leb_ℤ}
use lc.Base.Text.{Text, codes}
use lc.Strings.{is_empty}
use lc.OptionsDict.Parser.{to_string}
use lc.Move.{Move, as_string, is_set}

-- std::to_string of an integer
abbrev pub int_text : ℤ → Text
int_text (pos n) = to_string n
int_text (negsuc n) = codes "-" ++ to_string (suc n)

pub record BestMoveInfo : Type 0 where
  pub bestmove : Move
  pub ponder : Move
  pub player : ℤ
  pub game_id : ℤ
  pub is_black : Option Bool

pub record ThinkingInfo : Type 0 where
  pub depth : ℤ
  pub seldepth : ℤ
  pub time : ℤ
  pub nodes : ℤ
  pub nps : ℤ
  pub hashfull : ℤ
  pub score : Option ℤ
  pub tb_hits : ℤ
  pub pv : List Move
  pub multipv : ℤ
  pub comment : Text
  pub player : ℤ
  pub game_id : ℤ
  pub is_black : Option Bool

-- A part that is there unless the number is -1.
abbrev pub unless_minus_one : Text → ℤ → Text
unless_minus_one label i = if eq_ℤ i (negsuc 0) then [] else label ++ int_text i

-- A part that is there if the number is not negative.
abbrev pub if_known : Text → ℤ → Text
if_known label i = if leb_ℤ (pos 0) i then label ++ int_text i else []

abbrev pub side_text : Option Bool → Text
side_text none = []
side_text (some true) = codes " side black"
side_text (some false) = codes " side white"

unfoldable pub send_best_move : BestMoveInfo → Option Text
send_best_move move = do
  best ← as_string move.bestmove
  ponder ←
      if is_set move.ponder
      then (as_string move.ponder >>= λ t. some (codes " ponder " ++ t))
      else some []
  some (
      codes "bestmove "
      ++ best
      ++ ponder
      ++ unless_minus_one (codes " player ") move.player
      ++ unless_minus_one (codes " gameid ") move.game_id
      ++ side_text move.is_black)

unfoldable pub pv_text : List Move → Option Text
pv_text [] = some []
pv_text (m ∷ ms) = as_string m >>= λ t. pv_text ms >>= λ ts. some (codes " " ++ t ++ ts)

abbrev pub score_text : Option ℤ → Text
score_text none = []
score_text (some i) = codes " score cp " ++ int_text i

abbrev pub all_pv : List Move → Option Text
all_pv [] = some []
all_pv (m ∷ ms) = pv_text (m ∷ ms) >>= λ t. some (codes " pv" ++ t)

unfoldable pub info_text : ThinkingInfo → Option Text
info_text info = do
  pv ← all_pv info.pv
  some (
      codes "info"
      ++ unless_minus_one (codes " player ") info.player
      ++ unless_minus_one (codes " gameid ") info.game_id
      ++ side_text info.is_black
      ++ if_known (codes " depth ") info.depth
      ++ if_known (codes " seldepth ") info.seldepth
      ++ if_known (codes " time ") info.time
      ++ if_known (codes " nodes ") info.nodes
      ++ score_text info.score
      ++ if_known (codes " hashfull ") info.hashfull
      ++ if_known (codes " nps ") info.nps
      ++ if_known (codes " tbhits ") info.tb_hits
      ++ if_known (codes " multipv ") info.multipv
      ++ pv
      ++ (if is_empty info.comment then [] else codes " string " ++ info.comment))

unfoldable pub send_info : List ThinkingInfo → Option (List Text)
send_info [] = some []
send_info (info ∷ infos) = info_text info >>= λ t. send_info infos >>= λ ts. some (t ∷ ts)

unfoldable pub send_id : Text → List Text
send_id version = (codes "id name Lc0 v" ++ version) ∷ codes "id author The LCZero Authors." ∷ []
