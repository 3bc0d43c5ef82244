-- ===== src/Gate/Config/Settings.antt =====
-- What a look-up after the loading gives, in terms of the file.
use qt_chatting.Prelude.{
  ◌≡◌, refl, sym, ap, ◌∙◌, inl, inr, true, false, Bool-cases, String, str_eq, eq_iff, Option, none,
  some, List, [], ◌∷◌, arith, if◌then◌else◌,
}
use qt_chatting.Gate.Config.{
  Map, Ptree, assign, find, SectionInfo, or_empty, or_no_section, value_at, section_config,
  load_from, load, section_at, setting,
}

other : (key k j : String) → j ≡ key → str_eq j k ≡ false → str_eq k key ≡ false
other key k j p apart = elim (Bool-cases (str_eq k key)) [
  | inl e ↦
      let q : str_eq j k ≡ true = (eq_iff j k).1 (p ∙ sym ((eq_iff k key).0 e)) in ground arith
  | inr e ↦ e
]

module _ {ℓ} {A : Type ℓ} where
  abbrev or_else : Option A → Option A → Option A
  or_else none o = o
  or_else (some a) o = some a

  -- The last value that stands under a key.
  abbrev pub last_value : String → List (String × A) → Option A
  last_value key [] = none
  last_value key ((k, v) ∷ rest) =
      or_else (last_value key rest) (if str_eq k key then some v else none)

  or_else_assoc : (a b c : Option A) → or_else (or_else a b) c ≡ or_else a (or_else b c)
  or_else_assoc none b c = refl
  or_else_assoc (some a) b c = refl

  or_else-none : (a : Option A) → or_else a none ≡ a
  or_else-none none = refl
  or_else-none (some a) = refl

  find-assign :
      (key k : String) (v : A) (m : Map A)
      → find key (assign k v m) ≡ or_else (if str_eq k key then some v else none) (find key m)
  unfolding find assign
  find-assign key k v [] = elim (Bool-cases (str_eq k key)) [
    | inl e ↦ rw e refl
    | inr e ↦ rw e refl
  ]
  find-assign key k v ((j, u) ∷ m) = elim (Bool-cases (str_eq j k)) [
    | inl same ↦
        let p : j ≡ k = (eq_iff j k).0 same in
        elim (Bool-cases (str_eq k key)) [
          | inl e ↦
              let f : str_eq j key ≡ true = ap (λ x. str_eq x key) p ∙ e in rw (same, e, f) refl
          | inr e ↦
              let f : str_eq j key ≡ false = ap (λ x. str_eq x key) p ∙ e in rw (same, e, f) refl
        ]
    | inr apart ↦ elim (Bool-cases (str_eq j key)) [
      | inl e ↦
          let p : j ≡ key = (eq_iff j key).0 e in
          let f : str_eq k key ≡ false = other key k j p apart in rw (apart, e, f) refl
      | inr e ↦ rw (apart, e) (find-assign key k v m)
    ]
  ]

find-section_config :
    (key : String) (pairs : List (String × String)) (m : Map String)
    → find key (section_config pairs m) ≡ or_else (last_value key pairs) (find key m)
unfolding section_config
find-section_config key [] m = refl
find-section_config key ((k, v) ∷ rest) m =
    find-section_config key rest (assign k v m)
    ∙ rw (find-assign key k v m) (sym (or_else_assoc (last_value key rest) _ _))

abbrev section_of : Option (List (String × String)) → Option SectionInfo
section_of none = none
section_of (some pairs) = some (record { section_data = section_config pairs [] })

section_of-or_else :
    (a b : Option (List (String × String))) (c : Option SectionInfo)
    → or_else (section_of a) (or_else (section_of b) c) ≡ or_else (section_of (or_else a b)) c
section_of-or_else none b c = refl
section_of-or_else (some pairs) b c = refl

find-load_from :
    (name : String) (pt : Ptree) (m : Map SectionInfo)
    → find name (load_from pt m) ≡ or_else (section_of (last_value name pt)) (find name m)
unfolding load_from
find-load_from name [] m = refl
find-load_from name ((n, pairs) ∷ rest) m =
    find-load_from name rest _
    ∙ ap (or_else (section_of (last_value name rest))) (find-assign name n _ m)
    ∙ elim (Bool-cases (str_eq n name)) [
      | inl e ↦ rw e (section_of-or_else (last_value name rest) (some pairs) (find name m))
      | inr e ↦ rw e (section_of-or_else (last_value name rest) none (find name m))
    ]

abbrev pub value_in : String → Option (List (String × String)) → String
value_in key none = ""
value_in key (some pairs) = or_empty (last_value key pairs)

value_in-section :
    (key : String) (o : Option (List (String × String)))
    → value_at key (or_no_section (or_else (section_of o) none)) ≡ value_in key o
unfolding value_at find
value_in-section key none = refl
value_in-section key (some pairs) =
    ap or_empty (find-section_config key pairs [] ∙ or_else-none (last_value key pairs))

-- A setting that is looked up after config.ini was read is the last value under its key in the last
-- section of its name, and the empty text where there is no such section or no such key in it.
pub setting-load :
    (pt : Ptree) (section key : String)
    → setting (load pt) section key ≡ value_in key (last_value section pt)
unfolding setting section_at load
setting-load pt section key =
    ap (λ o. value_at key (or_no_section o)) (find-load_from section pt [])
    ∙ value_in-section key (last_value section pt)
