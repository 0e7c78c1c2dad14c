-- ===== src/OptionsDict/Terminates.antt =====
-- The parser of src/utils/optionsdict.cc ends on every text.
use lc.Base.Text.{Text}
use lc.Base.{
  ℕ, zero, suc, ◌+◌, ◌≤◌, ◌<◌, ◌≡◌, ◌≢◌, refl, sym, subst, ◌∙◌, true, false, arith, Option, none,
  some, if◌then◌else◌, length,
}
use lc.OptionsDict.{
  Result, ok, raised, out_of_fuel, ◌>>=◌, OptionsDict, dict, Values, add_subdict, empty,
  find_subdict, emplace, subdict_exists,
}
use lc.OptionsDict.Lexer.{
  Token, integer, string, identifier, left_parenthesis, right_parenthesis, comma, equal, eof, Lexer,
  next, lexer_of,
}
use lc.OptionsDict.Progress.{
  Ends, Ends-bind, Ends-if, Ends-elim, Ends-weaken, measure, weight, le_measure, next-Ends,
}
use lc.OptionsDict.Parser.{
  same_kind, ensure_token, set_val, read_val, read_sub_dict, read_name, read_entry, parse_list,
  parse_main, add_subdict_from_string,
}

-- No property.
abbrev Any : {A : Type 0} → A → Type 0
Any a = Unit

module _ {F : Type 0} (stof : Text → Option F) where
  abbrev Parsed : ℕ → Lexer F × OptionsDict F → Type 0
  Parsed n r = measure r.0 ≤ n

  ensure_token-Ends : (lexer : Lexer F) (t : Token F) → Ends Any (ensure_token lexer t)
  unfolding ensure_token
  ensure_token-Ends lexer t = Ends-if Any (same_kind lexer.token t) _ _ (λ h. tt) (λ h. tt)

  set_val-Ends : (lexer : Lexer F) (v : Values F) (id : Text) → Ends Any (set_val stof lexer v id)
  unfolding set_val
  set_val-Ends lexer v id =
      elim (lexer.token) as (λ t. Ends Any (set_val stof (record lexer { token = t }) v id)) [
        | integer i ↦ tt
        | _ ↦ tt
      ]

  add_subdict-Ends : (d : OptionsDict F) (id : Text) → Ends Any (add_subdict d id)
  unfolding add_subdict
  add_subdict-Ends (dict v s) id =
      Ends-elim Any (find_subdict s id) (λ d. raised (subdict_exists id))
        (ok (dict v (emplace s id empty))) (λ d h. tt) tt

  next-measure : (lexer : Lexer F) → Ends (λ l. measure l ≤ measure lexer) (next stof lexer)
  next-measure lexer =
      Ends-weaken (λ l. measure l ≤ length lexer.rest) (λ l. measure l ≤ measure lexer) _
        (λ l h. omega (arith, h, le_measure lexer)) (next-Ends stof lexer)

  read_val-Ends :
      (lexer : Lexer F) (d : OptionsDict F) (id : Text)
      → Ends (Parsed (measure lexer)) (read_val stof lexer d id)
  unfolding read_val
  read_val-Ends lexer (dict v s) id =
      Ends-bind Any (Parsed (measure lexer)) (set_val stof lexer v id) _ (set_val-Ends lexer v id)
        (λ v' t.
          Ends-bind (λ l. measure l ≤ measure lexer) (Parsed (measure lexer)) (next stof lexer) _
            (next-measure lexer) (λ l h. h))

  weight_one : (t u : Token F) → same_kind t u ≡ true → same_kind eof u ≡ false → weight t ≡ 1
  weight_one t u = elim t as (λ k. same_kind k u ≡ true → same_kind eof u ≡ false → weight k ≡ 1) [
    | eof ↦ λ h e. let bad = sym h ∙ e in cc
    | _ ↦ λ h e. refl
  ]

  -- A token that is not the end is passed.
  same_kind-next :
      (lexer : Lexer F) (t : Token F)
      → same_kind lexer.token t ≡ true
      → same_kind eof t ≡ false
      → Ends (λ l. measure l < measure lexer) (next stof lexer)
  same_kind-next lexer t h e =
      Ends-weaken (λ l. measure l ≤ length lexer.rest) (λ l. measure l < measure lexer) _
        (λ l le. omega (arith, le, weight_one lexer.token t h e)) (next-Ends stof lexer)

  module _ (n : ℕ) (parse : Lexer F → OptionsDict F → Result (Lexer F × OptionsDict F))
      (inner : (l : Lexer F) (d : OptionsDict F)
        → measure l < n
        → Ends (Parsed (measure l)) (parse l d)) where
    read_sub_dict-Ends :
        (lexer : Lexer F) (d : OptionsDict F) (id : Text)
        → measure lexer ≤ n
        → Ends (Parsed (measure lexer)) (read_sub_dict stof parse lexer d id)
    unfolding read_sub_dict
    read_sub_dict-Ends lexer d id small =
        let P : Lexer F × OptionsDict F → Type 0 = Parsed (measure lexer) in
        Ends-bind Any P (add_subdict d id) _ (add_subdict-Ends d id) (λ d' t.
          Ends-if P (same_kind lexer.token left_parenthesis) _ _
            (λ h.
              Ends-bind (λ l. measure l < measure lexer) P (next stof lexer) _
                (same_kind-next lexer left_parenthesis h refl)
                (λ l less.
                  Ends-bind (Parsed (measure l)) P (parse l empty) _
                    (inner l empty (omega (arith, less)))
                    (λ r within.
                      Ends-bind Any P (ensure_token r.0 right_parenthesis) _
                        (ensure_token-Ends r.0 right_parenthesis)
                        (λ done t'.
                          Ends-bind (λ k. measure k ≤ measure r.0) P (next stof r.0) _
                            (next-measure r.0) (λ k le. omega (arith, less, within, le))))))
            (λ h. omega arith))

    read_entry-Ends :
        (lexer : Lexer F) (d : OptionsDict F) (id : Text)
        → measure lexer ≤ n
        → Ends (Parsed (measure lexer)) (read_entry stof parse lexer d id)
    unfolding read_entry
    read_entry-Ends lexer d id small =
        let P : Lexer F × OptionsDict F → Type 0 = Parsed (measure lexer) in
        Ends-if P (same_kind lexer.token equal) _ _
          (λ h.
            Ends-bind (λ l. measure l ≤ measure lexer) P (next stof lexer) _ (next-measure lexer)
              (λ l le.
                Ends-weaken (Parsed (measure l)) P _ (λ r w. omega (arith, w, le))
                  (read_val-Ends l d id)))
          (λ h. read_sub_dict-Ends lexer d id small)

  abbrev Started : ℕ → Option (Text × Lexer F) → Type 0
  Started n none = Unit
  Started n (some (id, l)) = measure l ≤ n

  read_name-Ends :
      (lexer : Lexer F) (d : OptionsDict F)
      → Ends (Started (measure lexer)) (read_name stof lexer d)
  unfolding read_name
  read_name-Ends lexer d =
      elim lexer.token
        as (λ t.
          Ends (Started (measure (record lexer { token = t })))
            (read_name stof (record lexer { token = t }) d)) [
              | left_parenthesis ↦ omega arith
              | identifier s ↦
                  let l = record lexer { token = identifier s } in
                  Ends-bind (λ k. measure k ≤ measure l) (Started (measure l)) (next stof l) _
                    (next-measure l) (λ k h. h)
              | string s ↦
                  let l = record lexer { token = string s } in
                  Ends-bind (λ k. measure k ≤ measure l) (Started (measure l)) (next stof l) _
                    (next-measure l) (λ k h. h)
              | _ ↦ tt
            ]

  parse_list-Ends :
      (n : ℕ) (lexer : Lexer F) (d : OptionsDict F)
      → measure lexer < n
      → Ends (Parsed (measure lexer)) (parse_list stof n lexer d)
  unfolding parse_list
  parse_list-Ends zero lexer d less = absurd (omega arith)
  parse_list-Ends (suc n) lexer d less =
      let P : Lexer F × OptionsDict F → Type 0 = Parsed (measure lexer) in
      Ends-bind (Started (measure lexer)) P (read_name stof lexer d) _ (read_name-Ends lexer d)
        (λ start s.
          elim start
              as (λ o.
                Started (measure lexer) o
                → Ends P (elim o [
                  | none ↦ ok (lexer, d)
                  | some (id, lexer1) ↦
                      read_entry stof (parse_list stof n) lexer1 d id >>= λ (lexer2, d').
                      if same_kind lexer2.token comma
                      then (next stof lexer2 >>= λ lexer3. parse_list stof n lexer3 d')
                      else ok (lexer2, d')
                ])) [
                  | none ↦ λ s. omega arith
                  | some (id, l) ↦ λ s.
                      Ends-bind (Parsed (measure l)) P (read_entry stof (parse_list stof n) l d id)
                        _
                        (read_entry-Ends n (parse_list stof n)
                          (λ l' d' less'. parse_list-Ends n l' d' less') l d id
                          (omega (arith, s, less)))
                        (λ r within.
                          Ends-if P (same_kind r.0.token comma) _ _
                            (λ h.
                              Ends-bind (λ k. measure k < measure r.0) P (next stof r.0) _
                                (same_kind-next r.0 comma h refl)
                                (λ k fewer.
                                  Ends-weaken (Parsed (measure k)) P _
                                    (λ r' w. omega (arith, w, fewer, within, s))
                                    (parse_list-Ends n k r.1
                                      (omega (arith, fewer, within, s, less)))))
                            (λ h. omega (arith, within, s)))
                ]
            s)

  -- With the fuel that is given, the parser ends on every text, in a dictionary or an exception.
  pub add_subdict_from_string-Ends :
      (d : OptionsDict F) (str : Text) → add_subdict_from_string stof d str ≢ out_of_fuel
  unfolding add_subdict_from_string parse_main
  add_subdict_from_string-Ends d str h =
      let start : Lexer F = record { rest = str; idx = 0; last_offset = 0; token = eof } in
      let ends : Ends Any (add_subdict_from_string stof d str) =
        Ends-bind (λ l. measure l ≤ length str) Any (lexer_of stof str) _ (next-Ends stof start)
          (λ l le.
            Ends-bind (Parsed (measure l)) Any (parse_list stof (length str + 2) l d) _
              (parse_list-Ends (length str + 2) l d (omega (arith, le)))
              (λ r w.
                Ends-bind Any Any (ensure_token r.0 eof) _ (ensure_token-Ends r.0 eof)
                  (λ done t. tt))) in
      subst (λ r. Ends Any r) h ends
