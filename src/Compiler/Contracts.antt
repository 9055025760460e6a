-- ===== src/Compiler/Contracts.antt =====
-- `validate_contracts` of scripts/scenarios/compile-plan.py, less its last call.
use testbed_services.Common.{
  String, str_eq, Bool, false, not, ◌&&◌, ◌||◌, Option, none, some, List, [], ◌∷◌, map, any, all,
  get_or,
}
use testbed_services.Plan.{Level}
use testbed_services.Compiler.Assembly.{ProfileEntry, Scenario, Registry, is_member, at_key}
use testbed_services.Compiler.ContractDocs.{
  CatalogRow, Contracts, LevelDoc, LocationDoc, ProfileDoc, QueryDoc, Validation, adapters_differ,
  bad_level_ids, each, executor_missing, has_text, inexact_parameters, is_distinct, is_level_id,
  is_some_level_id, is_some_member, is_text, keys, kubeconfig_refused, no_levels, no_template,
  raw_promql, refused, require, required_adapters, same_set, undeclared_parameters, unknown_adapter,
  unknown_alias, unknown_level_scenario, unknown_location, unknown_profile, unknown_query, ◌>>◌,
}

module _ (docs : Contracts) where
  open docs use {J, equal, is_file, adapters, locations, aliases, queries, profiles, scenarios}

  abbrev pub check_location : String × LocationDoc → Validation
  check_location (location_id, location) =
      require
        (not (is_text location.transport "kubectl")
          || is_text location.kubeconfig "/root/tb-kubeconfig")
        (kubeconfig_refused location_id)

  abbrev pub check_query : String × QueryDoc → Validation
  check_query (query_id, query) =
      require (is_some_member query.adapter adapters) (unknown_adapter query_id)
      >> require (not query.has_promql) (raw_promql query_id)
      >> require (not (is_text query.adapter "prometheus") || has_text query.template_id)
          (no_template query_id)

  -- `value in [level.get("parameters") for level in levels]`
  abbrev pub is_declared : Option J → List (LevelDoc J) → Bool
  is_declared none levels = false
  is_declared (some value) levels = any (λ level. equal level.parameters value) levels

  -- the checks of a scenario's levels, which are a list
  unfoldable pub check_ladder : String → Option J → List (LevelDoc J) → Validation
  unfolding is_distinct is_level_id
  check_ladder profile_id selected [] = refused (no_levels profile_id)
  check_ladder profile_id selected (l ∷ levels) =
      require
        (is_distinct (map (λ level. level.level_id) (l ∷ levels))
          && all (λ level. is_some_level_id level.level_id) (l ∷ levels))
        (bad_level_ids profile_id)
      >> require (is_declared selected (l ∷ levels)) (undeclared_parameters profile_id)

  unfoldable pub check_listed : String → Option J → Option (List (LevelDoc J)) → Validation
  unfolding check_ladder
  check_listed profile_id selected none = refused (no_levels profile_id)
  check_listed profile_id selected (some levels) = check_ladder profile_id selected levels

  abbrev pub check_levels : String → ProfileDoc J → String × Option (List (LevelDoc J)) → Validation
  check_levels profile_id profile (scenario_id, levels) =
      require (is_member scenario_id (keys profile.scenario_parameters))
        (unknown_level_scenario profile_id)
      >> check_listed profile_id (at_key scenario_id profile.scenario_parameters) levels

  -- `not allowed or set(allowed) != set(parameters)`, for a live profile
  abbrev pub is_exact : ProfileDoc J → List String → Bool
  is_exact profile [] = false
  is_exact profile (s ∷ allowed) = same_set (s ∷ allowed) (keys profile.scenario_parameters)

  abbrev pub check_profile : String × ProfileDoc J → Validation
  check_profile (profile_id, profile) =
      require (is_file profile.executor) (executor_missing profile_id)
      >> each (λ l. require (is_member l (keys locations)) (unknown_location profile_id))
          profile.allowed_locations
      >> each (λ q. require (is_member q (keys queries)) (unknown_query profile_id))
          profile.default_queries
      >> require (not profile.live_supported || is_exact profile profile.allowed_scenarios)
          (inexact_parameters profile_id)
      >> each (check_levels profile_id profile) profile.scenario_levels

  abbrev pub check_scenario : CatalogRow → Validation
  check_scenario row =
      require (is_some_member row.injection_location (keys aliases)) (unknown_alias row.id)
      >> each (λ p. require (is_member p (keys profiles)) (unknown_profile row.id)) row.profiles

  -- `validate_contracts` up to its call of `validate_controllers`
  unfoldable pub validate_contracts : Validation
  unfolding each check_listed
  validate_contracts =
      require (same_set adapters required_adapters) adapters_differ
      >> each check_location locations
      >> each check_query queries
      >> each check_profile profiles
      >> each check_scenario scenarios

-- How `compile_plan` reads the documents.
abbrev pub map_values : {A B : Type 0} → (A → B) → List (String × A) → List (String × B)
map_values f [] = []
map_values f ((k, a) ∷ rows) = (k, f a) ∷ map_values f rows

-- a rung, whose level id was validated
abbrev pub rung_of : {J : Type 0} → LevelDoc J → Level J
rung_of level = record { level_id = get_or level.level_id ""; parameters = level.parameters }

abbrev pub rungs_of : {J : Type 0} → Option (List (LevelDoc J)) → List (Level J)
rungs_of none = []
rungs_of (some levels) = map rung_of levels

abbrev pub entry_of : {J : Type 0} → ProfileDoc J → ProfileEntry J
entry_of profile = record {
  is_fixed = profile.is_fixed;
  default_location = profile.default_location;
  allowed_locations = profile.allowed_locations;
  executor = profile.executor;
  live_supported = profile.live_supported;
  allowed_scenarios = profile.allowed_scenarios;
  scenario_parameters = profile.scenario_parameters;
  scenario_levels = map_values rungs_of profile.scenario_levels;
}

-- the tables of `compile_plan`; `empty` and `truthy` are of JSON, `sha256` of a file
abbrev pub registry_of :
    (docs : Contracts) → docs.J → (docs.J → Bool) → (String → String) → Registry
registry_of docs empty truthy sha256 = record {
  J = docs.J;
  profiles = map_values entry_of docs.profiles;
  locations = map_values (λ l. l.resolved) docs.locations;
  aliases = docs.aliases;
  empty = empty;
  truthy = truthy;
  equal = docs.equal;
  sha256 = sha256;
}

-- a row of the catalog, whose location alias was validated
abbrev pub scenario_of : CatalogRow → Scenario
scenario_of row = record {
  id = row.id;
  ready = str_eq row.readiness "ready";
  injection_location = get_or row.injection_location "";
  profiles = row.profiles;
}
