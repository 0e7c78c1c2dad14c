-- ===== src/OptionsParser/Kept.antt =====
-- The loops of `ProcessFlags` and `SetUciOption` of src/utils/optionsparser.cc over what is accepted.
use lc.Base.{
  ℕ, ◌≡◌, refl, sym, subst, ◌∙◌, arith, Bool-cases, some-injective, inl, inr, Bool, true, false,
  not, ◌&&◌, ◌||◌, List, [], ◌∷◌, ◌++◌, any, All, Option, none, some,
}
use lc.Base.Text.{Text, codes, same_text, same_text_refl}
use lc.Strings.{is_empty, after_prefix, strings_equal_ignore_case}
use lc.OptionsDict.{Result, ok, ◌>>=◌, Values, dict, find_subdict, replace}
use lc.OptionsParser.{
  OptionId, Kind, ParserOption, OptionsParser, set_value, process_long_flag, process_short_flag,
  process_short_flag_with_value, on_context, show_hidden, first_option, find_option_by_long_flag,
  find_option_by_uci_name,
}
use lc.OptionsParser.Flags.{
  long_flag, short_flag, process_flags, set_uci_option, parser_after, flag_and_value,
  context_and_flag, is_help, short_char, first_or_empty,
}
use lc.OptionsParser.Accepted.{
  Accepted, Owns, Maybe, Gives, Gives-bind, Gives-elim, Gives-if, Gives-weaken, takes_bool,
  takes_int, takes_string, takes_float, set_value-Accepted,
}
use lc.OptionsParser.Bounds.{
  AcceptedDict, find-Accepted, replace-Accepted, process_long_flag-Accepted,
  process_short_flag-Accepted, short_with_value-Accepted,
}

module _ {F : Type 0} (stof : Text → Option F) (less : F → F → Bool)
    (os : List (ParserOption F)) where
  -- Lists of options that differ at most in what is hidden, seen by a test.
  abbrev passes : (OptionId → Kind F → Bool) → List (ParserOption F) → Bool
  passes test = any (λ o. test o.option_id o.kind)

  abbrev Same : List (ParserOption F) → Type 0
  Same os' = (test : OptionId → Kind F → Bool) → passes test os' ≡ passes test os

  abbrev In : ParserOption F → Type 0
  In o = (test : OptionId → Kind F → Bool) → test o.option_id o.kind ≡ true → passes test os ≡ true

  In-Owns : (o : ParserOption F) → In o → Owns less os o.option_id o.kind
  In-Owns o there =
      let same = same_text_refl o.option_id.id in
      record {
        bools =
            λ b h. there (λ i k. same_text i.id o.option_id.id && takes_bool less k b) (rw same h);
        ints =
            λ b h. there (λ i k. same_text i.id o.option_id.id && takes_int less k b) (rw same h);
        strings = λ b h.
            there (λ i k. same_text i.id o.option_id.id && takes_string less k b) (rw same h);
        floats =
            λ b h. there (λ i k. same_text i.id o.option_id.id && takes_float less k b) (rw same h);
      }

  -- All members of a list whose tests are passed by the options.
  members :
      (xs : List (ParserOption F))
      → ((test : OptionId → Kind F → Bool) → passes test xs ≡ true → passes test os ≡ true)
      → All In xs
  members [] sub = tt
  members (x ∷ xs) sub =
      (λ test h. sub test (ground (arith, h)), members xs (λ test h. sub test (ground (arith, h))))

  first_option-In :
      (test : ParserOption F → Bool) (xs : List (ParserOption F)) (o : ParserOption F)
      → All In xs
      → first_option test xs ≡ some o
      → In o
  first_option-In test [] o all h = cc
  first_option-In test (x ∷ xs) o all h = elim (Bool-cases (test x)) [
    | inl e ↦ subst In (some-injective (rw e at h)) all.0
    | inr e ↦ first_option-In test xs o all.1 (rw e at h)
  ]

  -- A parser with the options, whose values they accept.
  pub record Kept (p : OptionsParser F) : Type 0 where
    pub same : Same p.options
    pub accepted : AcceptedDict stof less os p.values

  abbrev MaybeKept : Option (OptionsParser F) → Type 0
  MaybeKept none = Unit
  MaybeKept (some p) = Kept p

  on_context-Kept :
      (p : OptionsParser F) (context : Text) (act : Values F → Result (Option (Values F)))
      → Kept p
      → ((v : Values F) → Accepted less os v → Gives (Maybe less os) (act v))
      → Gives MaybeKept (on_context p context act)
  unfolding on_context
  on_context-Kept p context act k h =
      elim p.values
          as (λ d.
            AcceptedDict stof less os d
            → Gives MaybeKept (on_context (record p { values = d }) context act)) [
              | dict v s ↦ λ a.
                  Gives-if MaybeKept (is_empty context) _ _
                    (λ e. Gives-bind (Maybe less os) MaybeKept (act v) _ (h v a.0) (λ r g.
                      elim r
                          as (λ r'.
                            Maybe less os r'
                            → MaybeKept (elim r' [
                              | some v' ↦ some (record p { values = dict v' s })
                              | none ↦ none
                            ])) [
                              | none ↦ λ g'. tt
                              | some v' ↦ λ g'. record { same = k.same; accepted = (g', a.1) }
                            ]
                        g))
                    (λ e.
                      Gives-elim MaybeKept (find_subdict s context) _ _
                        (λ x found.
                          elim x
                              as (λ d.
                                find_subdict s context ≡ some d
                                → Gives MaybeKept (elim d [
                                  | dict w t ↦ act w >>= λ r. ok (elim r [
                                    | some w' ↦ some (record p {
                                      values = dict v (replace s context (dict w' t));
                                    })
                                    | none ↦ none
                                  ])
                                ])) [
                                  | dict w t ↦ λ found'.
                                      let ok_w =
                                        find-Accepted stof less os s context w t a.1 found' in
                                      Gives-bind (Maybe less os) MaybeKept (act w) _ (h w ok_w)
                                        (λ r g.
                                          elim r
                                              as (λ r'.
                                                Maybe less os r'
                                                → MaybeKept (elim r' [
                                                  | some w' ↦ some (record p {
                                                    values = dict v (replace s context (dict w' t));
                                                  })
                                                  | none ↦ none
                                                ])) [
                                                  | none ↦ λ g'. tt
                                                  | some w' ↦ λ g'. record {
                                                    same = k.same;
                                                    accepted = (
                                                      a.0,
                                                      replace-Accepted stof less os s context w' t
                                                          a.1 g',
                                                    );
                                                  }
                                                ]
                                            g)
                                ]
                            found)
                        tt)
            ]
        k.accepted

  long_flag-Kept :
      (p : OptionsParser F) (param : Text) → Kept p → Gives MaybeKept (long_flag stof less p param)
  unfolding long_flag
  long_flag-Kept p param k =
      let (flag, value) = flag_and_value param in
      let (context, name) = context_and_flag flag in
      let all = members p.options (λ test h. sym (k.same test) ∙ h) in
      Gives-elim MaybeKept (find_option_by_long_flag p.options name) _ _
        (λ o found.
          let owns = In-Owns o (
            first_option-In
              (λ o'.
                same_text name o'.option_id.long_flag
                || same_text name (codes "no-" ++ o'.option_id.long_flag))
              p.options o all found) in
          on_context-Kept p context
            (λ own. process_long_flag stof less o.option_id o.kind own name value) k
            (λ v a. process_long_flag-Accepted stof less os o.option_id v a o.kind owns name value))
        tt

  abbrev MaybeTook : Option (OptionsParser F × Bool) → Type 0
  MaybeTook none = Unit
  MaybeTook (some (p, took)) = Kept p

  short_flag-Kept :
      (xs : List (ParserOption F)) (p : OptionsParser F) (c : ℕ) (value : Text)
      → All In xs
      → Kept p
      → Gives MaybeTook (short_flag stof less xs p c value)
  unfolding short_flag
  short_flag-Kept [] p c value all k = tt
  short_flag-Kept (o ∷ xs) p c value all k =
      let owns = In-Owns o all.0 in
      Gives-bind MaybeKept MaybeTook
        (on_context p []
          (λ own. process_short_flag stof less o.option_id o.kind own (p.defaults ∷ []) c))
        _
        (on_context-Kept p []
          (λ own. process_short_flag stof less o.option_id o.kind own (p.defaults ∷ []) c) k
          (λ v a.
            process_short_flag-Accepted stof less os o.option_id v a o.kind owns (p.defaults ∷ [])
              c))
        (λ r g.
          elim r
              as (λ r'.
                MaybeKept r'
                → Gives MaybeTook (elim r' [
                  | some p' ↦ ok (some (p', false))
                  | none ↦
                      on_context p [] (λ own.
                        process_short_flag_with_value stof less o.option_id o.kind own c value)
                      >>= λ r''. elim r'' [
                        | some p' ↦ ok (some (p', true))
                        | none ↦ short_flag stof less xs p c value
                      ]
                ])) [
                  | some p' ↦ λ g'. g'
                  | none ↦ λ g'.
                      Gives-bind MaybeKept MaybeTook
                        (on_context p [] (λ own.
                          process_short_flag_with_value stof less o.option_id o.kind own c value))
                        _
                        (on_context-Kept p []
                          (λ own.
                            process_short_flag_with_value stof less o.option_id o.kind own c value)
                          k
                          (λ v a.
                            short_with_value-Accepted stof less os o.option_id v a o.kind owns c
                              value))
                        (λ r2 g2.
                          elim r2
                              as (λ r'.
                                MaybeKept r'
                                → Gives MaybeTook (elim r' [
                                  | some p' ↦ ok (some (p', true))
                                  | none ↦ short_flag stof less xs p c value
                                ])) [
                                  | some p' ↦ λ g'. g'
                                  | none ↦ λ g'. short_flag-Kept xs p c value all.1 k
                                ]
                            g2)
                ]
            g)

  show_hidden-passes :
      (test : OptionId → Kind F → Bool) (xs : List (ParserOption F))
      → passes test (show_hidden xs) ≡ passes test xs
  unfolding show_hidden
  show_hidden-passes test [] = refl
  show_hidden-passes test (x ∷ xs) = ground (arith, show_hidden-passes test xs)

  process_flags-Kept :
      (skip : Bool) (p : OptionsParser F) (args : List Text)
      → Kept p
      → Gives (λ r. Kept r.1) (process_flags stof less skip p args)
  unfolding process_flags
  process_flags-Kept skip p [] k = k
  process_flags-Kept true p (arg ∷ rest) k = process_flags-Kept false p rest k
  process_flags-Kept false p (arg ∷ rest) k =
      let Good : Bool × OptionsParser F → Type 0 = λ r. Kept r.1 in
      Gives-if Good (is_help arg) _ _ (λ h. k)
        (λ h.
          Gives-if Good (same_text arg (codes "--show-hidden")) _ _
            (λ h'.
              process_flags-Kept false (record p { options = show_hidden p.options }) rest
                (record {
                  same = λ test. show_hidden-passes test p.options ∙ k.same test;
                  accepted = k.accepted;
                }))
            (λ h'.
              Gives-elim Good (after_prefix (codes "--") arg) _ _
                (λ param found.
                  Gives-bind MaybeKept Good (long_flag stof less p param) _
                    (long_flag-Kept p param k)
                    (λ r g.
                      elim r
                          as (λ r'.
                            MaybeKept r'
                            → Gives Good (elim r' [
                              | none ↦ ok (false, p)
                              | some p' ↦ process_flags stof less false p' rest
                            ])) [
                              | none ↦ λ g'. k
                              | some p' ↦ λ g'. process_flags-Kept false p' rest g'
                            ]
                        g))
                (Gives-elim Good (short_char arg) _ _
                  (λ c found.
                    Gives-bind MaybeTook Good
                      (short_flag stof less p.options p c (first_or_empty rest)) _
                      (short_flag-Kept p.options p c (first_or_empty rest)
                        (members p.options (λ test h''. sym (k.same test) ∙ h'')) k)
                      (λ r g.
                        elim r
                            as (λ r'.
                              MaybeTook r'
                              → Gives Good (elim r' [
                                | none ↦ ok (false, p)
                                | some (p', took) ↦
                                    process_flags stof less
                                      (took && not (is_empty (first_or_empty rest))) p' rest
                              ])) [
                                | none ↦ λ g'. k
                                | some (p', took) ↦ λ g'.
                                    process_flags-Kept
                                      (took && not (is_empty (first_or_empty rest))) p' rest g'
                              ]
                          g))
                  k)))

  set_uci_option-Kept :
      (p : OptionsParser F) (name value context : Text)
      → Kept p
      → Gives Kept (set_uci_option stof less p name value context)
  unfolding set_uci_option
  set_uci_option-Kept p name value context k =
      let all = members p.options (λ test h. sym (k.same test) ∙ h) in
      Gives-elim Kept (find_option_by_uci_name p.options name) _ _
        (λ o found.
          let owns = In-Owns o (
            first_option-In (λ o'. strings_equal_ignore_case o'.option_id.uci_option name) p.options
              o all found) in
          let act : Values F → Result (Option (Values F)) =
            λ own. set_value stof less o.option_id o.kind own value >>= λ own'. ok (some own') in
          Gives-bind MaybeKept Kept (on_context p context act) _
            (on_context-Kept p context act k (λ v a.
              Gives-bind (Accepted less os) (Maybe less os)
                (set_value stof less o.option_id o.kind v value) _
                (set_value-Accepted less os o.option_id v a stof o.kind owns value) (λ v' g. g)))
            (λ r g.
              elim r as (λ r'. MaybeKept r' → Kept (parser_after stof less p r')) [
                | none ↦ λ g'. k
                | some p' ↦ λ g'. g'
              ]
                g))
        tt

-- In a parser whose values, and those of its contexts, are accepted each by an option of its id (within the
-- bounds, among the choices), the values that ProcessFlags and SetUciOption leave are accepted too.
pub flags-Accepted :
    {F : Type 0} (stof : Text → Option F) (less : F → F → Bool) (p : OptionsParser F)
    → AcceptedDict stof less p.options p.values
    → ((args : List Text)
        → Gives
            (λ r. AcceptedDict stof less p.options r.1.values)
            (process_flags stof less false p args))
      × ((name value context : Text)
          → Gives
              (λ p'. AcceptedDict stof less p.options p'.values)
              (set_uci_option stof less p name value context))
flags-Accepted stof less p a =
    let k : Kept stof less p.options p = record { same = λ test. refl; accepted = a } in
    (
      λ args.
          Gives-weaken (λ r. Kept stof less p.options r.1)
            (λ r. AcceptedDict stof less p.options r.1.values)
            (process_flags stof less false p args) (λ r g. g.accepted)
            (process_flags-Kept stof less p.options false p args k),
      λ name value context.
          Gives-weaken (Kept stof less p.options) (λ p'. AcceptedDict stof less p.options p'.values)
            (set_uci_option stof less p name value context) (λ r g. g.accepted)
            (set_uci_option-Kept stof less p.options p name value context k),
    )
