-- ===== src/Plugins/Lifecycle/Tests.antt =====
-- Two plugins, one of them found twice.
use frankclaw.Prelude.{
  ◌≡◌, refl, true, false, none, List, [], ◌∷◌, String, Map, lookup, insert, modify,
}
use frankclaw.Plugins.Lifecycle.{
  DiscoveredPlugin, PluginState, PluginOrigin, user, workspace, new, export_state, enable, disable,
  insert_all, enabled_in,
}
use frankclaw.Plugins.Lifecycle.Restart.{Op, enabling, disabling, run, new-run}

abbrev plugin : String → PluginOrigin → DiscoveredPlugin
plugin id origin = record {
  manifest = record {
    id = id;
    name = id;
    version = "1";
    description = none;
    channels = [];
    tools = [];
  };
  path = id;
  origin = origin;
}

abbrev found : List DiscoveredPlugin
found = plugin "alpha" workspace ∷ plugin "beta" user ∷ plugin "alpha" user ∷ []

abbrev no_alpha : Map String PluginState
no_alpha = ("alpha", record { enabled = false }) ∷ []

abbrev ops : List Op
ops = enabling "alpha" ∷ disabling "beta" ∷ disabling "gamma" ∷ []

exported :
    export_state (run ops (new found no_alpha))
    ≡ ("alpha", record { enabled = true }) ∷ ("beta", record { enabled = false }) ∷ []
unfolding export_state new insert_all enabled_in enable disable insert modify lookup
exported = refl

new-run_example :
    new found (export_state (run ops (new found no_alpha))) ≡ run ops (new found no_alpha)
new-run_example = new-run found no_alpha ops
