-- ===== src/OptionsDict/Lookup.antt =====
-- Look-ups in a dictionary of src/utils/optionsdict.h and its parents.
use lc.Base.Text.{find-assign, Text, assign, find, same_text}
use lc.Base.{
  Option-cases, ◌≡◌, refl, Bool, true, false, not, List, [], ◌∷◌, Option, none, some, if◌then◌else◌,
  Bool-cases, inl, inr,
}
use lc.OptionsDict.{
  ok, raised, TypeDict, Values, Slot, get, exists, get_or_default, is_default, set, key_not_set,
}

abbrev pub found : {A : Type 0} → Option A → Bool
found none = false
found (some v) = true

-- The first value in the dictionaries.
abbrev pub nearest : {A : Type 0} → List (TypeDict A) → Text → Option A
nearest [] key = none
nearest (d ∷ ds) key = elim (find d key) [ some v ↦ some v | none ↦ nearest ds key ]

passed_by :
    {A : Type 0} (o : Option A) (b : Bool) (m : Option A)
    → b ≡ not (found m)
    → (elim o [ some v ↦ false | none ↦ b ]) ≡ not (found (elim o [ some v ↦ some v | none ↦ m ]))
passed_by none b m h = h
passed_by (some v) b m h = refl

abbrev pub but_root : {A : Type 0} → A → List A → List A
but_root own [] = []
but_root own (p ∷ ps) = own ∷ but_root p ps

module _ {F A : Type 0} (slot : Slot F A) (key : Text) where
  abbrev dicts : List (Values F) → List (TypeDict A)
  dicts [] = []
  dicts (v ∷ vs) = slot.dict_of v ∷ dicts vs

  nearest-get :
      (own : Values F) (ps : List (Values F))
      → get slot own ps key ≡ (elim (nearest (dicts (own ∷ ps)) key) [
        | some v ↦ ok v
        | none ↦ raised (key_not_set key)
      ])
  unfolding get
  nearest-get own [] = elim (Option-cases (find (slot.dict_of own) key)) [
    | inl e ↦ rw (get, e) refl
    | inr (v, e) ↦ rw (get, e) refl
  ]
  nearest-get own (p ∷ ps) = elim (Option-cases (find (slot.dict_of own) key)) [
    | inl e ↦ rw (get, e) (nearest-get p ps)
    | inr (v, e) ↦ rw (get, e) refl
  ]

  nearest-exists :
      (own : Values F) (ps : List (Values F))
      → exists slot own ps key ≡ found (nearest (dicts (own ∷ ps)) key)
  unfolding exists
  nearest-exists own [] = elim (Option-cases (find (slot.dict_of own) key)) [
    | inl e ↦ rw (exists, nearest, e) refl
    | inr (v, e) ↦ rw (exists, nearest, e) refl
  ]
  nearest-exists own (p ∷ ps) = elim (Option-cases (find (slot.dict_of own) key)) [
    | inl e ↦ rw (exists, nearest, e) (nearest-exists p ps)
    | inr (v, e) ↦ rw (exists, nearest, e) refl
  ]

  nearest-get_or_default :
      (own : Values F) (ps : List (Values F)) (d : A)
      → get_or_default slot own ps key d
        ≡ (elim (nearest (dicts (own ∷ ps)) key) [ some v ↦ v | none ↦ d ])
  unfolding get_or_default
  nearest-get_or_default own [] d = elim (Option-cases (find (slot.dict_of own) key)) [
    | inl e ↦ rw (get_or_default, e) refl
    | inr (v, e) ↦ rw (get_or_default, e) refl
  ]
  nearest-get_or_default own (p ∷ ps) d = elim (Option-cases (find (slot.dict_of own) key)) [
    | inl e ↦ rw (get_or_default, e) (nearest-get_or_default p ps d)
    | inr (v, e) ↦ rw (get_or_default, e) refl
  ]

  nearest-is_default :
      (own : Values F) (ps : List (Values F))
      → is_default slot own ps key ≡ not (found (nearest (dicts (but_root own ps)) key))
  unfolding is_default
  nearest-is_default own [] = refl
  nearest-is_default own (p ∷ ps) =
      passed_by (find (slot.dict_of own) key) (is_default slot p ps key)
        (nearest (dicts (but_root p ps)) key) (nearest-is_default p ps)

  -- Get, Exists and GetOrDefault read the nearest dictionary, of the object or a parent, that has the key;
  -- IsDefault says that none before the root has it.
  pub nearest_lem :
      (own : Values F) (ps : List (Values F)) (d : A)
      → (get slot own ps key ≡ (elim (nearest (dicts (own ∷ ps)) key) [
        | some v ↦ ok v
        | none ↦ raised (key_not_set key)
      ]))
        × (exists slot own ps key ≡ found (nearest (dicts (own ∷ ps)) key))
        × (get_or_default slot own ps key d
            ≡ (elim (nearest (dicts (own ∷ ps)) key) [ some v ↦ v | none ↦ d ]))
        × (is_default slot own ps key ≡ not (found (nearest (dicts (but_root own ps)) key)))
  nearest_lem own ps d = (
    nearest-get own ps,
    nearest-exists own ps,
    nearest-get_or_default own ps d,
    nearest-is_default own ps,
  )

  -- After Set, Get of the key gives the value, and of any other key what it gave before.
  pub get-set :
      ((v : Values F) (d : TypeDict A) → slot.dict_of (slot.with_dict v d) ≡ d)
      → (own : Values F) (ps : List (Values F)) (k : Text) (v : A)
      → get slot (set slot own k v) ps key ≡ (if same_text k key then ok v else get slot own ps key)
  unfolding get set
  get-set law own [] k v =
      rw (get, set, law own (assign (slot.dict_of own) k v), find-assign (slot.dict_of own) k v key)
        (elim (Bool-cases (same_text k key)) [
          | inl e ↦ rw (get, e) refl
          | inr e ↦ rw (get, e) refl
        ])
  get-set law own (p ∷ ps) k v =
      rw (get, set, law own (assign (slot.dict_of own) k v), find-assign (slot.dict_of own) k v key)
        (elim (Bool-cases (same_text k key)) [
          | inl e ↦ rw (get, e) refl
          | inr e ↦ rw (get, e) refl
        ])
