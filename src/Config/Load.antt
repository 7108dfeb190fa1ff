-- ===== src/Config/Load.antt =====
-- src/config.rs: `CustomMappings::load`; src/main.rs: the mappings at the start, and their watcher.
pub mod Laws
use wazuh_ocsf_etl.Base.{
  ℕ, String, List, [], ◌∷◌, Bool, true, false, not, Option, none, some, eqb, if◌then◌else◌,
}
use wazuh_ocsf_etl.Config.{CustomMappings}

-- A document of the TOML parser, by the sections and the entry that the program looks for; each may be
-- missing.
pub record MappingsToml : Type 0 where
  pub meta : Option (Option String)
  pub field_mappings : Option (List (String × String))
  pub ocsf_field_renames : Option (List (String × String))

unfoldable pub default_ocsf_version : String
default_ocsf_version = "1.7.0"

-- `#[serde(default)]` on a map
abbrev or_no_entries : Option (List (String × String)) → List (String × String)
or_no_entries none = []
or_no_entries (some entries) = entries

-- `#[serde(default)]` on `meta` takes the derived default of `MetaSection` where the section is missing, which
-- has the default text; the default of `ocsf_version` is for a section without this entry.
unfoldable pub meta_version : Option (Option String) → String
unfolding default_ocsf_version
meta_version none = ""
meta_version (some none) = default_ocsf_version
meta_version (some (some version)) = version

abbrev mappings_of : Option MappingsToml → Option CustomMappings
mappings_of none = none
mappings_of (some toml) = some (record {
  ocsf_version = meta_version toml.meta;
  field_map = or_no_entries toml.field_mappings;
  ocsf_renames = or_no_entries toml.ocsf_field_renames;
})

unfoldable pub default_mappings : CustomMappings
unfolding default_ocsf_version
default_mappings = record { ocsf_version = default_ocsf_version; field_map = []; ocsf_renames = [] }

abbrev or_default_mappings : Option CustomMappings → CustomMappings
or_default_mappings none = default_mappings
or_default_mappings (some m) = m

-- `from_toml` is `toml::from_str`; the text is none if the file cannot be read.
module _ (from_toml : String → Option MappingsToml) where
  unfoldable pub load : Option String → Option CustomMappings
  unfolding meta_version
  load none = none
  load (some text) = mappings_of (from_toml text)

  -- `load(…).unwrap_or_else(…)`
  unfoldable pub initial_mappings : Option String → CustomMappings
  unfolding load default_mappings
  initial_mappings text = or_default_mappings (load text)

-- `cur != last` on the modification times, which are none for a file without them
unfoldable pub differs : Option ℕ → Option ℕ → Bool
differs none none = false
differs (some a) (some b) = not (eqb a b)
differs _ _ = true

-- The watcher's `last`, and the mappings that it shares with the loop
pub record Watcher : Type 0 where
  pub last : Option ℕ
  pub mappings : CustomMappings

-- `*g = new`, unless the file does not load
abbrev pub replaced : Option CustomMappings → CustomMappings → CustomMappings
replaced none old = old
replaced (some new) old = new

module _ (from_toml : String → Option MappingsToml) where
  -- A tick: the modification time, and the text that is read if the time is another one
  unfoldable pub poll : Option ℕ → Option String → Watcher → Watcher
  unfolding load
  poll cur text w =
      if differs cur w.last
      then record { last = cur; mappings = replaced (load from_toml text) w.mappings }
      else w

  unfoldable pub watch : List (Option ℕ × Option String) → Watcher → Watcher
  watch [] w = w
  watch ((cur, text) ∷ ticks) w = watch ticks (poll cur text w)
