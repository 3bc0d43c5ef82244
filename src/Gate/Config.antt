-- ===== src/Gate/Config.antt =====
-- server/gate_server/src/ConfigMgr.cpp: the sections of config.ini and the look-up in them.
-- Boost's read_ini is not in the repository: the tree that it returns is an argument.
pub mod Settings
use qt_chatting.Prelude.{String, str_eq, Option, none, some, List, [], ◌∷◌, if◌then◌else◌}

-- A std::map from texts. A key stands in it once.
abbrev pub Map {ℓ} : Type ℓ → Type ℓ
Map A = List (String × A)

-- The property tree: the sections in the order of the file, each with its keys and their values.
abbrev pub Ptree : Type 0
Ptree = List (String × List (String × String))

module _ {ℓ} {A : Type ℓ} where
  -- m[key] = value
  pub assign : String → A → Map A → Map A
  assign key value [] = (key, value) ∷ []
  assign key value ((k, v) ∷ m) =
      if str_eq k key then (k, value) ∷ m else (k, v) ∷ assign key value m

  pub find : String → Map A → Option A
  find key [] = none
  find key ((k, v) ∷ m) = if str_eq k key then some v else find key m

pub record SectionInfo : Type 0 where
  pub section_data : Map String

abbrev or_empty : Option String → String
or_empty none = ""
or_empty (some value) = value

-- section[key] of SectionInfo
pub value_at : String → SectionInfo → String
unfolding find
value_at key section = or_empty (find key section.section_data)

-- The loop over the pairs of a section.
pub section_config : List (String × String) → Map String → Map String
unfolding assign
section_config [] m = m
section_config ((key, value) ∷ rest) m = section_config rest (assign key value m)

-- The loop over the sections.
pub load_from : Ptree → Map SectionInfo → Map SectionInfo
unfolding section_config assign
load_from [] m = m
load_from ((name, pairs) ∷ rest) m =
    load_from rest (assign name (record { section_data = section_config pairs [] }) m)

-- The constructor: config_map_.
pub load : Ptree → Map SectionInfo
unfolding load_from
load pt = load_from pt []

abbrev or_no_section : Option SectionInfo → SectionInfo
or_no_section none = record { section_data = [] }
or_no_section (some section) = section

-- config[section] of ConfigMgr
pub section_at : String → Map SectionInfo → SectionInfo
unfolding find
section_at section m = or_no_section (find section m)

-- config[section][key]
pub setting : Map SectionInfo → String → String → String
unfolding section_at value_at
setting m section key = value_at key (section_at section m)
