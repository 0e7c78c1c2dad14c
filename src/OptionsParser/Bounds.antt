-- ===== src/OptionsParser/Bounds.antt =====
-- `ProcessFlags` and `SetUciOption` of src/utils/optionsparser.cc keep the values within what the options accept.
use lc.Base.{
  ℕ, ◌≡◌, refl, ap, subst, Bool-cases, some-injective, inl, inr, Bool, true, false, not, ◌&&◌, ◌==◌,
  List, ◌++◌, Option, none, some, if◌then◌else◌,
}
use lc.Base.Text.{Text, codes, same_text}
use lc.Strings.{is_empty}
use lc.OptionsDict.{
  ok, ◌>>=◌, Values, OptionsDict, dict, Subdicts, no_subdicts, subdict, find_subdict, replace,
  values_of, get, bool_slot,
}
use lc.OptionsParser.{
  OptionId, Kind, string_option, int_option, float_option, bool_option, choice_option, ParserOption,
  set_text, text_long_flag, bool_long_flag, process_long_flag, process_short_flag,
  process_short_flag_with_value, validate_bool_string,
}
use lc.OptionsParser.Accepted.{
  Accepted, Owns, Maybe, Gives, Gives-bind, Gives-if, any-Gives, set_bool-Accepted,
  set_text-Accepted,
}

module _ {F : Type 0} (stof : Text → Option F) (less : F → F → Bool)
    (os : List (ParserOption F)) where
  module _ (o : OptionId) (v : Values F) (a : Accepted less os v) where
    text_long_flag-Accepted :
        (k : Kind F)
        → Owns less os o k
        → (flag value : Text) → Gives (Maybe less os) (text_long_flag stof less o k v flag value)
    unfolding text_long_flag
    text_long_flag-Accepted k w flag value =
        Gives-if (Maybe less os) (same_text flag o.long_flag) _ _
          (λ h.
            Gives-bind (Accepted less os) (Maybe less os) (set_text stof less o k v value) _
              (set_text-Accepted less os o v a stof k w value) (λ v' g. g))
          (λ h. tt)

    bool_long_flag-Accepted :
        Owns less os o bool_option
        → (flag value : Text) → Gives (Maybe less os) (bool_long_flag stof less o v flag value)
    unfolding bool_long_flag
    bool_long_flag-Accepted w flag value =
        let set_it : (b : Bool) → Accepted less os _ =
          λ b. set_bool-Accepted less os o v a b (w.bools b refl) in
        Gives-if (Maybe less os) (same_text flag (codes "no-" ++ o.long_flag)) _ _
          (λ h. set_it false)
          (λ h.
            Gives-if (Maybe less os) (same_text flag o.long_flag && is_empty value) _ _
              (λ h. set_it true)
              (λ h.
                Gives-bind (λ u. Unit) (Maybe less os) (validate_bool_string stof less o value) _
                  (any-Gives _)
                  (λ u t.
                    Gives-if (Maybe less os) (same_text flag o.long_flag) _ _ (λ h. set_it _)
                      (λ h. tt))))

    pub process_long_flag-Accepted :
        (k : Kind F)
        → Owns less os o k
        → (flag value : Text) → Gives (Maybe less os) (process_long_flag stof less o k v flag value)
    unfolding process_long_flag
    process_long_flag-Accepted bool_option w flag value = bool_long_flag-Accepted w flag value
    process_long_flag-Accepted string_option w flag value =
        text_long_flag-Accepted string_option w flag value
    process_long_flag-Accepted (int_option min max) w flag value =
        text_long_flag-Accepted (int_option min max) w flag value
    process_long_flag-Accepted (float_option min max) w flag value =
        text_long_flag-Accepted (float_option min max) w flag value
    process_long_flag-Accepted (choice_option choices) w flag value =
        text_long_flag-Accepted (choice_option choices) w flag value

    pub process_short_flag-Accepted :
        (k : Kind F)
        → Owns less os o k
        → (ps : List (Values F)) (c : ℕ)
        → Gives (Maybe less os) (process_short_flag stof less o k v ps c)
    unfolding process_short_flag
    process_short_flag-Accepted bool_option w ps c =
        Gives-if (Maybe less os) (c == o.short_flag) _ _
          (λ h.
            Gives-bind (λ b. Unit) (Maybe less os) (get bool_slot v ps o.id) _ (any-Gives _)
              (λ b t. set_bool-Accepted less os o v a (not b) (w.bools (not b) refl)))
          (λ h. tt)
    process_short_flag-Accepted string_option w ps c = tt
    process_short_flag-Accepted (int_option min max) w ps c = tt
    process_short_flag-Accepted (float_option min max) w ps c = tt
    process_short_flag-Accepted (choice_option choices) w ps c = tt

    with_value :
        (k : Kind F)
        → Owns less os o k
        → (c : ℕ) (value : Text)
        → Gives (Maybe less os) (
            if c == o.short_flag
            then (set_text stof less o k v value >>= λ v'. ok (some v'))
            else ok none)
    with_value k w c value =
        Gives-if (Maybe less os) (c == o.short_flag) _ _
          (λ h.
            Gives-bind (Accepted less os) (Maybe less os) (set_text stof less o k v value) _
              (set_text-Accepted less os o v a stof k w value) (λ v' g. g))
          (λ h. tt)

    pub short_with_value-Accepted :
        (k : Kind F)
        → Owns less os o k
        → (c : ℕ) (value : Text)
        → Gives (Maybe less os) (process_short_flag_with_value stof less o k v c value)
    unfolding process_short_flag_with_value
    short_with_value-Accepted bool_option w c value = tt
    short_with_value-Accepted string_option w c value = with_value string_option w c value
    short_with_value-Accepted (int_option min max) w c value =
        with_value (int_option min max) w c value
    short_with_value-Accepted (float_option min max) w c value =
        with_value (float_option min max) w c value
    short_with_value-Accepted (choice_option choices) w c value =
        with_value (choice_option choices) w c value

  -- The values, and those of the contexts.
  abbrev pub AcceptedSubs : Subdicts F → Type 0
  AcceptedSubs no_subdicts = Unit
  AcceptedSubs (subdict n (dict w t) rest) = Accepted less os w × AcceptedSubs rest

  abbrev pub AcceptedDict : OptionsDict F → Type 0
  AcceptedDict (dict v s) = Accepted less os v × AcceptedSubs s

  pub find-Accepted :
      (s : Subdicts F) (c : Text) (w : Values F) (t : Subdicts F)
      → AcceptedSubs s
      → find_subdict s c ≡ some (dict w t)
      → Accepted less os w
  find-Accepted no_subdicts c w t a h = cc
  find-Accepted (subdict n (dict u x) rest) c w t a h = elim (Bool-cases (same_text n c)) [
    | inl e ↦
        let same = some-injective (rw e at h) in
        subst (Accepted less os) (ap (λ d. values_of d) same) a.0
    | inr e ↦ find-Accepted rest c w t a.1 (rw e at h)
  ]

  pub replace-Accepted :
      (s : Subdicts F) (c : Text) (w : Values F) (t : Subdicts F)
      → AcceptedSubs s
      → Accepted less os w
      → AcceptedSubs (replace s c (dict w t))
  replace-Accepted no_subdicts c w t a g = tt
  replace-Accepted (subdict n (dict u x) rest) c w t a g = elim (Bool-cases (same_text n c)) [
    | inl e ↦ rw e (g, a.1)
    | inr e ↦ rw e (a.0, replace-Accepted rest c w t a.1 g)
  ]
