-- ===== src/Plugins/Lifecycle.antt =====
-- `PluginManager` of crates/frankclaw-plugin-sdk/src/lifecycle.rs with
-- the data of manifest.rs and discovery.rs beside it. The JSON schema of a manifest, which nothing here reads, is left out, and so
-- is `list`, which sorts the records.
pub mod Restart
mod Tests
use frankclaw.Prelude.{
  ℕ, ◌≡◌, Bool, true, false, not, ◌&&◌, ◌||◌, Option, none, some, List, [], ◌∷◌, String, chars, Map,
  lookup, insert, modify, map, is_some, any, length, ltb, leb, nat_eqb, string_eq, show,
  if◌then◌else◌,
}

pub data PluginOrigin : Type 0 where
  user workspace : PluginOrigin

pub record PluginManifest : Type 0 where
  pub id : String
  pub name : String
  pub version : String
  pub description : Option String
  pub channels : List String
  pub tools : List String

pub record DiscoveredPlugin : Type 0 where
  pub manifest : PluginManifest
  pub path : String
  pub origin : PluginOrigin

pub record PluginState : Type 0 where
  pub enabled : Bool

pub record PluginRecord : Type 0 where
  pub manifest : PluginManifest
  pub path : String
  pub enabled : Bool
  pub origin : PluginOrigin

abbrev pub PluginManager : Type 0
PluginManager = Map String PluginRecord

-- `state.get(id).map(|s| s.enabled).unwrap_or(true)`.
unfoldable pub enabled_in : Map String PluginState → String → Bool
enabled_in state id = elim (lookup id state) [ none ↦ true | some s ↦ s.enabled ]

abbrev pub record_of : Map String PluginState → DiscoveredPlugin → PluginRecord
record_of state dp = record {
  manifest = dp.manifest;
  path = dp.path;
  enabled = enabled_in state dp.manifest.id;
  origin = dp.origin;
}

-- The loop of `PluginManager::new`.
unfoldable pub insert_all :
    Map String PluginState → PluginManager → List DiscoveredPlugin → PluginManager
insert_all state plugins [] = plugins
insert_all state plugins (dp ∷ dps) =
    insert_all state (insert dp.manifest.id (record_of state dp) plugins) dps

unfoldable pub new : List DiscoveredPlugin → Map String PluginState → PluginManager
unfolding insert_all
new discovered state = insert_all state [] discovered

unfoldable pub get : String → PluginManager → Option PluginRecord
get id m = lookup id m

abbrev pub set_enabled : Bool → PluginRecord → PluginRecord
set_enabled enabled r = record r { enabled = enabled }

unfoldable pub enable : String → PluginManager → Bool × PluginManager
enable id m = (is_some (lookup id m), modify id (set_enabled true) m)

unfoldable pub disable : String → PluginManager → Bool × PluginManager
disable id m = (is_some (lookup id m), modify id (set_enabled false) m)

unfoldable pub export_state : PluginManager → Map String PluginState
export_state [] = []
export_state ((id, r) ∷ m) = (id, record { enabled = r.enabled }) ∷ export_state m

unfoldable pub count : PluginManager → ℕ
count m = length m
