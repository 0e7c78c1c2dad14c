-- ===== src/Uci/Params.antt =====
-- `ParseCommand` of src/chess/uciloop.cc on a line of parameters with their words.
use lc.Base.{
  true, false, ◌≡◌, refl, sym, ap, subst, ◌∙◌, List, [], ◌∷◌, ◌++◌, Option, none, some, All,
}
use mathlib.Core.List.{append_assoc}
use lc.Base.Text.{Text, codes, find, assign, assign-assign, find-assign_same}
use lc.Strings.{is_empty, str_split_at_whitespace, str_join, join_onto}
use lc.Uci.{known_commands, parse_command, command_of, Params, ok, read_params, is_among}

-- A parameter with its words.
abbrev pub Group : Type 0
Group = Text × List Text

abbrev pub tokens : List Group → List Text
tokens [] = []
tokens ((key, words) ∷ gs) = key ∷ (words ++ tokens gs)

-- Each parameter with its words joined.
abbrev pub params_of : List Group → Params → Params
params_of [] params = params
params_of ((key, words) ∷ gs) params = params_of gs (assign params key (str_join words (codes " ")))

-- The keys are parameters of the command, and new ones; the words are none of them.
abbrev pub Fits : List Text → List Group → Params → Type 0
Fits keys [] params = Unit
Fits keys ((key, words) ∷ gs) params =
    (is_among keys key ≡ true)
    × (find params key ≡ none)
    × All (λ w. (is_among keys w ≡ false) × (is_empty w ≡ false)) words
    × Fits keys gs (assign params key (str_join words (codes " ")))

abbrev append_words : Text → Text → List Text → Text
append_words acc sep [] = acc
append_words acc sep (w ∷ ws) = append_words (acc ++ (sep ++ w)) (codes " ") ws

nonempty-append : (acc w : Text) → is_empty w ≡ false → is_empty (acc ++ w) ≡ false
nonempty-append [] w h = h
nonempty-append (c ∷ cs) w h = refl

append_words-join :
    (acc : Text) (ws : List Text)
    → is_empty acc ≡ false
    → All (λ w. is_empty w ≡ false) ws
    → append_words acc (codes " ") ws ≡ join_onto acc ws (codes " ")
unfolding join_onto
append_words-join acc [] full all = refl
append_words-join acc (w ∷ ws) full all =
    let same = append_assoc acc (codes " ") w in
    let rest =
      append_words-join (acc ++ (codes " " ++ w)) ws (nonempty-append acc (codes " " ++ w) refl)
        all.1 in
    rw full (
      subst
        (λ a. append_words (acc ++ (codes " " ++ w)) (codes " ") ws ≡ join_onto a ws (codes " "))
        (sym same) rest)

append_words-str_join :
    (ws : List Text)
    → All (λ w. is_empty w ≡ false) ws
    → append_words [] [] ws ≡ str_join ws (codes " ")
unfolding join_onto
append_words-str_join [] all = refl
append_words-str_join (w ∷ ws) all = append_words-join w ws all.0 all.1

All-weaken :
    (keys ws : List Text)
    → All (λ w. (is_among keys w ≡ false) × (is_empty w ≡ false)) ws
    → All (λ w. is_empty w ≡ false) ws
All-weaken keys [] all = tt
All-weaken keys (w ∷ ws) all = (all.0.1, All-weaken keys ws all.1)

module _ (keys : List Text) where
  read_words :
      (words rest : List Text) (params : Params) (key acc sep : Text)
      → All (λ w. (is_among keys w ≡ false) × (is_empty w ≡ false)) words
      → (sep' : Text) × (read_params keys (words ++ rest) (assign params key acc) (some key) sep
          ≡ read_params keys rest (assign params key (append_words acc sep words)) (some key) sep')
  unfolding read_params
  read_words [] rest params key acc sep all = (sep, refl)
  read_words (w ∷ ws) rest params key acc sep all =
      let value = find-assign_same params key acc in
      let again = assign-assign params key acc (acc ++ (sep ++ w)) in
      let (sep', run) = read_words ws rest params key (acc ++ (sep ++ w)) (codes " ") all.1 in
      (sep', rw (all.0.0, value, again) run)

  read_params_lem :
      (gs : List Group) (params : Params) (value : Option Text) (sep : Text)
      → Fits keys gs params
      → read_params keys (tokens gs) params value sep ≡ ok (params_of gs params)
  unfolding read_params
  read_params_lem [] params value sep fits = refl
  read_params_lem ((key, words) ∷ gs) params value sep (known, new, plain, fits) =
      let joined = append_words-str_join words (All-weaken keys words plain) in
      let (sep', run) = read_words words (tokens gs) params key [] [] plain in
      let rest =
        read_params_lem gs (assign params key (str_join words (codes " "))) (some key) sep' fits in
      rw (known, new)
        (run
          ∙ ap (λ t. read_params keys (tokens gs) (assign params key t) (some key) sep') joined
          ∙ rest)

-- A line of a known command with parameters of it, each once, whose words are none of its parameters, is read
-- as that command, with the words of each parameter joined by spaces.
pub parse_command_lem :
    (line command : Text) (keys : List Text) (gs : List Group)
    → str_split_at_whitespace line ≡ command ∷ tokens gs
    → find known_commands command ≡ some keys
    → Fits keys gs []
    → parse_command line ≡ ok (command, params_of gs [])
unfolding parse_command known_commands
parse_command_lem line command keys gs split known fits =
    ap (λ ts. command_of line ts) split ∙ rw (known, read_params_lem keys gs [] none [] fits) refl
