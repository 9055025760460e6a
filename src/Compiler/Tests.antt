-- ===== src/Compiler/Tests.antt =====
-- The assembly of a plan on a registry of two profiles.
use testbed_services.Common.{
  String, str_eq, true, false, none, some, List, [], ◌∷◌, ◌≡◌, refl, All, not,
}
use testbed_services.Compiler.Assembly.{
  ProfileEntry, Scenario, Controller, Registry, PlanInstance, at_key, allowed_location,
  live_allowed, approved_levels, selected_level, parameters_of, supports_live, instance_at,
  compile_instance, compile_instances, assemble,
}
use testbed_services.Compiler.Bindings.{MayRun, live_allowed-MayRun}

abbrev entry : String → ProfileEntry String
entry path = record {
  is_fixed = false;
  default_location = none;
  allowed_locations = "node" ∷ [];
  executor = path;
  live_supported = true;
  allowed_scenarios = "F01-R" ∷ [];
  scenario_parameters = ("F01-R", "10") ∷ [];
  scenario_levels = [];
}

abbrev registry : Registry
registry = record {
  J = String;
  profiles = ("alpha", entry "a.py") ∷ ("beta", entry "b.py") ∷ [];
  locations = ("node", true) ∷ [];
  aliases = ("cluster", "node") ∷ [];
  empty = "";
  truthy = λ j. not (str_eq j "");
  equal = str_eq;
  sha256 = λ path. path;
}

abbrev scenario : Scenario
scenario = record {
  id = "F01-R";
  ready = true;
  injection_location = "cluster";
  profiles = "beta" ∷ "alpha" ∷ [];
}

abbrev controller : Controller String
controller = record {
  primary_ref = some "beta";
  levels = record { level_id = "low"; parameters = "10" } ∷ [];
  complete = true;
}

abbrev instances : List (PlanInstance String)
unfolding instance_at approved_levels selected_level parameters_of supports_live at_key
instances =
    instance_at registry scenario controller 0 "beta" (entry "b.py") "node" true
    ∷ instance_at registry scenario controller 1 "alpha" (entry "a.py") "node" true
    ∷ []

selected : selected_level registry scenario controller controller.levels "10" ≡ some "low"
unfolding selected_level
selected = refl

live_allowed-MayRun_example :
    (scenario.ready ≡ true)
    × (controller.complete ≡ true)
    × All (MayRun registry scenario controller) scenario.profiles
unfolding assemble compile_instances compile_instance allowed_location at_key instances live_allowed
    instance_at supports_live parameters_of approved_levels selected_level
live_allowed-MayRun_example = live_allowed-MayRun registry scenario controller instances refl refl
