-- ===== src/Compiler/ContractTests.antt =====
-- A small registry that is valid, and one controller of it.
use testbed_services.Common.{
  ℕ, String, true, false, none, some, List, [], ◌∷◌, ◌≡◌, refl, All, ◌==◌,
}
use testbed_services.Compiler.Assembly.{Controller, at_key}
use testbed_services.Compiler.ContractDocs.{
  CatalogRow, valid, refused, Refusal, each, ProfileDoc, Contracts, required_adapters, is_slug,
  is_level_id, is_distinct,
}
use testbed_services.Compiler.Contracts.{check_ladder, check_listed, validate_contracts}
use testbed_services.Compiler.ControllerDocs.{
  ConditionDoc, SetDoc, object, ObservationDoc, ControllerDoc, ControllersDoc, same_texts,
  catalog_row, check_items, check_set, check_escalate,
}
use testbed_services.Compiler.Controllers.{
  same_ladder, check_calibration, check_mode, check_observations, check_sets, check_gates,
  check_ladder_of, check_registered, check_binding, check_bound, validate_controllers,
}
use testbed_services.Common.Texts.{add, place, sorted}
use testbed_services.Compiler.Queries.{update, profile_queries, query_ids}
use testbed_services.Compiler.Observed.{IsRegistered, query_ids-IsRegistered}

abbrev pool_profile : ProfileDoc ℕ
pool_profile = record {
  executor = "profiles/db_pool.py";
  is_fixed = false;
  default_location = none;
  allowed_locations = "node-1" ∷ [];
  default_queries = "pods" ∷ [];
  live_supported = true;
  allowed_scenarios = "F06-H" ∷ [];
  scenario_parameters = ("F06-H", 20) ∷ [];
  scenario_levels =
      (
        "F06-H",
        some (
            record { level_id = some "low-1"; parameters = 10 }
            ∷ record { level_id = some "high-1"; parameters = 20 }
            ∷ []),
      )
      ∷ [];
}

abbrev pool_row : CatalogRow
pool_row = record {
  id = "F06-H";
  slug = "f06-h-pool";
  readiness = "ready";
  prerequisite = " ";
  load_mode = "adaptive_ladder";
  injection_location = some "commerce";
  profiles = "db.pool" ∷ [];
}

abbrev docs : Contracts
docs = record {
  J = ℕ;
  equal = ◌==◌;
  is_file = λ path. true;
  adapters = required_adapters;
  locations =
      (
        "node-1",
        record {
          transport = some "kubectl";
          kubeconfig = some "/root/tb-kubeconfig";
          resolved = true;
        },
      )
      ∷ [];
  aliases = ("commerce", "node-1") ∷ [];
  queries =
      ("pods", record { adapter = some "kubernetes"; has_promql = false; template_id = none })
      ∷ ("status", record { adapter = some "http_probe"; has_promql = false; template_id = none })
      ∷ [];
  profiles = ("db.pool", pool_profile) ∷ [];
  scenarios = pool_row ∷ [];
}

docs_valid : validate_contracts docs ≡ valid
unfolding validate_contracts each check_listed check_ladder is_distinct is_level_id is_slug at_key
docs_valid = refl

-- the same registry without the rung of the scenario's own parameters
undeclared :
    check_listed docs "db.pool"
      (some 20)
      (some (record { level_id = some "low-1"; parameters = 10 } ∷ []))
    ≡ refused (Refusal.undeclared_parameters "db.pool")
unfolding check_listed check_ladder is_distinct is_level_id is_slug
undeclared = refl

abbrev no_controller : Controller ℕ
no_controller = record { primary_ref = none; levels = []; complete = false }

abbrev condition : String → ℕ → ConditionDoc ℕ
condition signal value = record { observation = some signal; op = some "eq"; value = some value }

abbrev any_set : List (ConditionDoc ℕ) → SetDoc ℕ
any_set items = object (record { all_of = none; any_of = some items })

abbrev all_set : List (ConditionDoc ℕ) → SetDoc ℕ
all_set items = object (record { all_of = some items; any_of = none })

abbrev observation : String → String → String → ObservationDoc
observation id adapter query_id = record {
  id = some id;
  adapter = some adapter;
  query_id = some query_id;
  has_query_text = false;
}

abbrev pool_controller : ControllerDoc ℕ
pool_controller = record {
  dispatcher_mode = some "trusted";
  live_enabled = true;
  tick_interval = some "15s";
  settle_after_change = some "30s";
  clean_window = some "30m";
  required_checks =
      "coordinator-clean" ∷ "clean-window" ∷ "baseline-traffic" ∷ "target-health" ∷ [];
  mode = some "calibration";
  profile = record {
    primary_ref = some "db.pool";
    companion_refs = some [];
    kind = some "adaptive_ladder";
    approved_profile_id = none;
    levels = some (
        record { id = some "low-1"; parameters = some 10 }
        ∷ record { id = some "high-1"; parameters = some 20 }
        ∷ []);
  };
  observations =
      observation "entry_status" "http_probe" "status"
      ∷ observation "target_health" "http_probe" "status"
      ∷ observation "pod_ready" "kubernetes" "pods"
      ∷ [];
  success = any_set (condition "entry_status" 502 ∷ []);
  escalate = all_set (condition "entry_status" 200 ∷ []);
  abort = any_set (condition "entry_status" 0 ∷ []);
  must_rule_out = any_set (condition "target_health" 404 ∷ []);
  recovery = all_set (condition "target_health" 200 ∷ condition "pod_ready" 1 ∷ []);
  capture = record {
    enabled = some true;
    pre_window = some "10m";
    post_window = some "20m";
    model_snapshot = some "/var/lib/lucida/ai-models/stream-anomaly/global/v1/model.json";
    create_golden_anomaly = some false;
    has_other_keys = false;
  };
}

abbrev doc : ControllersDoc ℕ
doc = record {
  live_scenario_ids = some ("F06-H" ∷ []);
  controllers = ("F06-H", pool_controller) ∷ [];
  zero_value = 0;
  ok_value = 200;
  true_value = 1;
}

controllers_valid : validate_controllers docs doc ≡ valid
unfolding validate_controllers each check_bound check_binding check_registered check_ladder_of
    check_mode check_calibration same_ladder check_observations is_distinct check_sets check_set
    check_items check_escalate check_gates same_texts catalog_row at_key
controllers_valid = refl

listed : query_ids docs pool_row (some pool_controller.observations) ≡ "pods" ∷ "status" ∷ []
unfolding query_ids profile_queries update add sorted place at_key
listed = refl

query_ids-IsRegistered_example :
    All
      (λ (entry : String × ControllerDoc ℕ).
        All (IsRegistered docs) (query_ids docs pool_row (some entry.1.observations)))
      doc.controllers
query_ids-IsRegistered_example =
    query_ids-IsRegistered docs doc pool_row docs_valid controllers_valid
