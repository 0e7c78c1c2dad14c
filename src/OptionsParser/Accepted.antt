-- ===== src/OptionsParser/Accepted.antt =====
-- What the flags of src/utils/optionsparser.cc leave in the dictionaries: values that their options accept.
use lc.Base.{
  refl, ap, Option, none, some, if◌then◌else◌, ◌≡◌, sym, subst, Bool-cases, inl, inr, Bool, true,
  false, not, ◌&&◌, ◌||◌, List, [], ◌∷◌, any, All,
}
use lc.Base.Int.{ℤ, ltb_ℤ}
use lc.Base.Text.{Text, same_text, codes, same_text→eq, TextMap, assign}
use lc.Strings.{to_int}
use lc.OptionsDict.{
  Result, ok, raised, out_of_fuel, ◌>>=◌, Values, set, bool_slot, int_slot, string_slot, float_slot,
}
use lc.OptionsParser.{
  Kind, string_option, int_option, float_option, bool_option, choice_option, ParserOption,
  is_choice, OptionId, set_text, set_int, set_float, set_choice, set_value, set_bool_text,
  validate_bool_string,
}

All-assign :
    {A : Type 0} (P : Text × A → Type 0) (es : TextMap A) (k : Text) (v : A)
    → All P es
    → P (k, v)
    → All P (assign es k v)
All-assign P [] k v all new = (new, tt)
All-assign P ((m, w) ∷ es) k v all new = elim (Bool-cases (same_text m k)) [
  | inl e ↦ rw e (subst (λ t. P (t, v)) (sym (same_text→eq m k e)) new, all.1)
  | inr e ↦ rw e (all.0, All-assign P es k v all.1 new)
]

-- What the computation returns, if it returns, has the property.
abbrev pub Gives : {A : Type 0} → (A → Type 0) → Result A → Type 0
Gives P (ok a) = P a
Gives P (raised e) = Unit
Gives P out_of_fuel = Unit

pub Gives-bind :
    {A B : Type 0} (Before : A → Type 0) (After : B → Type 0) (first : Result A)
    (follow : A → Result B)
    → Gives Before first
    → ((x : A) → Before x → Gives After (follow x))
    → Gives After (first >>= follow)
Gives-bind Before After (ok x) follow holds step = step x holds
Gives-bind Before After (raised e) follow holds step = tt
Gives-bind Before After out_of_fuel follow holds step = tt

pub Gives-weaken :
    {A : Type 0} (Strong Weak : A → Type 0) (r : Result A)
    → ((x : A) → Strong x → Weak x)
    → Gives Strong r
    → Gives Weak r
Gives-weaken Strong Weak (ok x) h g = h x g
Gives-weaken Strong Weak (raised e) h g = tt
Gives-weaken Strong Weak out_of_fuel h g = tt

pub Gives-elim :
    {A B : Type 0} (Good : B → Type 0) (o : Option A) (f : A → Result B) (r : Result B)
    → ((x : A) → o ≡ some x → Gives Good (f x))
    → Gives Good r
    → Gives Good (elim o [ some x ↦ f x | none ↦ r ])
Gives-elim Good none f r h g = g
Gives-elim Good (some x) f r h g = h x refl

pub Gives-if :
    {A : Type 0} (Good : A → Type 0) (b : Bool) (r s : Result A)
    → (b ≡ true → Gives Good r)
    → (b ≡ false → Gives Good s)
    → Gives Good (if b then r else s)
Gives-if Good true r s h g = h refl
Gives-if Good false r s h g = g refl

pub any-Gives : {A : Type 0} (r : Result A) → Gives (λ x. Unit {0}) r
any-Gives (ok x) = tt
any-Gives (raised e) = tt
any-Gives out_of_fuel = tt

module _ {F : Type 0} (less : F → F → Bool) where
  abbrev pub takes_int : Kind F → ℤ → Bool
  takes_int (int_option min max) i = not (ltb_ℤ i min || ltb_ℤ max i)
  takes_int _ i = false

  abbrev pub takes_float : Kind F → F → Bool
  takes_float (float_option min max) x = not (less x min || less max x)
  takes_float _ x = false

  abbrev pub takes_string : Kind F → Text → Bool
  takes_string string_option s = true
  takes_string (choice_option choices) s = is_choice choices s
  takes_string _ s = false

  abbrev pub takes_bool : Kind F → Bool → Bool
  takes_bool bool_option b = true
  takes_bool _ b = false

  -- An option of the id accepts the value.
  abbrev pub Taken : {A : Type 0} → (Kind F → A → Bool) → List (ParserOption F) → Text × A → Type 0
  Taken takes os (k, v) = any (λ o. same_text o.option_id.id k && takes o.kind v) os ≡ true

  pub record Accepted (os : List (ParserOption F)) (v : Values F) : Type 0 where
    pub bools : All (Taken takes_bool os) v.bools
    pub ints : All (Taken takes_int os) v.ints
    pub strings : All (Taken takes_string os) v.strings
    pub floats : All (Taken takes_float os) v.floats

  -- The values that the kind takes are taken under the id.
  pub record Owns (os : List (ParserOption F)) (o : OptionId) (k : Kind F) : Type 0 where
    pub bools : (b : Bool) → takes_bool k b ≡ true → Taken takes_bool os (o.id, b)
    pub ints : (i : ℤ) → takes_int k i ≡ true → Taken takes_int os (o.id, i)
    pub strings : (s : Text) → takes_string k s ≡ true → Taken takes_string os (o.id, s)
    pub floats : (x : F) → takes_float k x ≡ true → Taken takes_float os (o.id, x)

  abbrev pub Maybe : List (ParserOption F) → Option (Values F) → Type 0
  Maybe os none = Unit
  Maybe os (some v) = Accepted os v

  module _ (os : List (ParserOption F)) (o : OptionId) (v : Values F) (a : Accepted os v) where
    pub set_bool-Accepted :
        (b : Bool) → Taken takes_bool os (o.id, b) → Accepted os (set bool_slot v o.id b)
    unfolding set
    set_bool-Accepted b t = record {
      bools = All-assign (Taken takes_bool os) v.bools o.id b a.bools t;
      ints = a.ints;
      strings = a.strings;
      floats = a.floats;
    }

    set_int-Accepted : (i : ℤ) → Taken takes_int os (o.id, i) → Accepted os (set int_slot v o.id i)
    unfolding set
    set_int-Accepted i t = record {
      bools = a.bools;
      ints = All-assign (Taken takes_int os) v.ints o.id i a.ints t;
      strings = a.strings;
      floats = a.floats;
    }

    set_string-Accepted :
        (s : Text) → Taken takes_string os (o.id, s) → Accepted os (set string_slot v o.id s)
    unfolding set
    set_string-Accepted s t = record {
      bools = a.bools;
      ints = a.ints;
      strings = All-assign (Taken takes_string os) v.strings o.id s a.strings t;
      floats = a.floats;
    }

    set_float-Accepted :
        (x : F) → Taken takes_float os (o.id, x) → Accepted os (set float_slot v o.id x)
    unfolding set
    set_float-Accepted x t = record {
      bools = a.bools;
      ints = a.ints;
      strings = a.strings;
      floats = All-assign (Taken takes_float os) v.floats o.id x a.floats t;
    }

    pub set_text-Accepted :
        (stof : Text → Option F) (k : Kind F)
        → Owns os o k
        → (value : Text) → Gives (Accepted os) (set_text stof less o k v value)
    unfolding set_text set_int set_float set_choice
    set_text-Accepted stof string_option w value = set_string-Accepted value (w.strings value refl)
    set_text-Accepted stof (int_option min max) w value =
        Gives-elim (Accepted os) (to_int value) _ _
          (λ i e.
            Gives-if (Accepted os) (ltb_ℤ i min || ltb_ℤ max i) _ _ (λ h. tt)
              (λ h. set_int-Accepted i (w.ints i (ap not h))))
          tt
    set_text-Accepted stof (float_option min max) w value =
        Gives-elim (Accepted os) (stof value) _ _
          (λ x e.
            Gives-if (Accepted os) (less x min || less max x) _ _ (λ h. tt)
              (λ h. set_float-Accepted x (w.floats x (ap not h))))
          tt
    set_text-Accepted stof bool_option w value = a
    set_text-Accepted stof (choice_option choices) w value =
        Gives-if (Accepted os) (is_choice choices value) _ _
          (λ h. set_string-Accepted value (w.strings value h)) (λ h. tt)

    pub set_value-Accepted :
        (stof : Text → Option F) (k : Kind F)
        → Owns os o k
        → (value : Text) → Gives (Accepted os) (set_value stof less o k v value)
    unfolding set_value set_bool_text
    set_value-Accepted stof bool_option w value =
        Gives-bind (λ u. Unit) (Accepted os) (validate_bool_string {F = F} stof less o value) _
          (any-Gives _) (λ u t. set_bool-Accepted (same_text value (codes "true")) (w.bools _ refl))
    set_value-Accepted stof string_option w value = set_text-Accepted stof string_option w value
    set_value-Accepted stof (int_option min max) w value =
        set_text-Accepted stof (int_option min max) w value
    set_value-Accepted stof (float_option min max) w value =
        set_text-Accepted stof (float_option min max) w value
    set_value-Accepted stof (choice_option choices) w value =
        set_text-Accepted stof (choice_option choices) w value
