-- ===== src/Compiler/ManifestTests.antt =====
-- The manifest of a scenario with a registered controller.
use testbed_services.Common.{ℕ, String, true, false, none, some, List, [], ◌∷◌, ◌≡◌, refl, ◌==◌}
use testbed_services.Compiler.Assembly.{
  Controller, PlanInstance, done, at_key, assemble, compile_instances, compile_instance,
  allowed_location, instance_at, approved_levels, selected_level, parameters_of, supports_live,
}
use testbed_services.Compiler.ContractDocs.{valid, CatalogRow, Contracts, ProfileDoc}
use testbed_services.Compiler.Contracts.{registry_of, scenario_of}
use testbed_services.Compiler.ControllerDocs.{same_texts}
use testbed_services.Compiler.Manifests.{
  ManifestDoc, RegisteredDoc, ManifestHost, cleanup_order, binding_of, is_expected, check_expected,
  check_manifest_controller, validate_manifest,
}
use testbed_services.Compiler.Cleanup.{cleanup_order-reverse}

-- JSON values by number; 0 is null
abbrev host : ManifestHost
host = record { J = ℕ; equal = ◌==◌; is_null = λ j. j == 0; strip = λ text. "" }

abbrev row : CatalogRow
row = record {
  id = "F06-H";
  slug = "f06-h-pool";
  readiness = "ready";
  prerequisite = " ";
  load_mode = "adaptive_ladder";
  injection_location = some "commerce";
  profiles = "db.pool" ∷ "load.north_south" ∷ [];
}

abbrev registered : RegisteredDoc ℕ
registered = record {
  has_dispatcher_mode = true;
  has_live_enabled = true;
  profile =
      ("primary_ref", 1) ∷ ("companion_refs", 2) ∷ ("approved_profile_id", 0) ∷ ("levels", 3) ∷ [];
  others = ("mode", 4) ∷ [];
}

abbrev manifest : ManifestDoc ℕ
manifest = record {
  id = some "F06-H";
  slug = some "f06-h-pool";
  readiness = some "ready";
  location = some "commerce";
  profile_refs = some ("injector-profiles/db.pool" ∷ "injector-profiles/load.north_south" ∷ []);
  plan_refs = some ("db.pool" ∷ "load.north_south" ∷ []);
  run_refs = some ("db.pool" ∷ "load.north_south" ∷ []);
  cleanup_refs = some ("load.north_south" ∷ "db.pool" ∷ []);
  controller = record {
    profile_kind = none;
    dispatcher_mode = some "trusted";
    live_enabled = some true;
    binding = some (("primary_ref", 1) ∷ ("companion_refs", 2) ∷ []);
    runtime = some (record { profile = some (("levels", 3) ∷ []); others = ("mode", 4) ∷ [] });
    has_other_keys = false;
  };
  gate = record {
    state = some "satisfied";
    required = some false;
    description = some "none";
    live_allowed = some true;
  };
}

manifest_valid : validate_manifest host row manifest (some registered) ≡ valid
unfolding validate_manifest check_manifest_controller check_expected is_expected binding_of at_key
    same_texts
manifest_valid = refl

abbrev profile_at : String → ProfileDoc ℕ
profile_at path = record {
  executor = path;
  is_fixed = false;
  default_location = none;
  allowed_locations = "node-1" ∷ [];
  default_queries = [];
  live_supported = true;
  allowed_scenarios = "F06-H" ∷ [];
  scenario_parameters = ("F06-H", 20) ∷ [];
  scenario_levels = [];
}

abbrev docs : Contracts
docs = record {
  J = ℕ;
  equal = ◌==◌;
  is_file = λ path. true;
  adapters = [];
  locations = ("node-1", record { transport = none; kubeconfig = none; resolved = true }) ∷ [];
  aliases = ("commerce", "node-1") ∷ [];
  queries = [];
  profiles = ("db.pool", profile_at "pool.py") ∷ ("load.north_south", profile_at "load.py") ∷ [];
  scenarios = row ∷ [];
}

abbrev controller : Controller ℕ
controller = record { primary_ref = some "db.pool"; levels = []; complete = true }

abbrev instance_of : ℕ → String → String → PlanInstance ℕ
instance_of n id path = record {
  sequence = n;
  row = record {
    profile_id = id;
    executor = path;
    executor_sha256 = path;
    parameters = 20;
    approved_levels = [];
    selected_level_id = none;
  };
  location_id = "node-1";
  resolved = true;
  live_supported = true;
}

abbrev instances : List (PlanInstance ℕ)
instances = instance_of 0 "db.pool" "pool.py" ∷ instance_of 1 "load.north_south" "load.py" ∷ []

assembled :
    assemble (registry_of docs 0 (λ j. true) (λ path. path)) (scenario_of row) controller
    ≡ done instances
unfolding assemble compile_instances compile_instance allowed_location instance_at approved_levels
    selected_level parameters_of supports_live at_key
assembled = refl

cleanup_order-reverse_example :
    (manifest.run_refs ≡ some ("db.pool" ∷ "load.north_south" ∷ []))
    × (manifest.cleanup_refs ≡ some (cleanup_order instances))
cleanup_order-reverse_example =
    cleanup_order-reverse (registry_of docs 0 (λ j. true) (λ path. path)) row controller instances
      host manifest (some registered) assembled manifest_valid
