-- ===== src/Compiler/Controllers.antt =====
-- `validate_controllers` and `validate_observation_refs` of scripts/scenarios/compile-plan.py.
use testbed_services.Common.{
  String, str_eq, Bool, true, false, not, ◌&&◌, Option, none, some, List, [], ◌∷◌, map, any, all,
  is_none, if◌then◌else◌,
}
use testbed_services.Compiler.Assembly.{at_key}
use testbed_services.Compiler.ContractDocs.{
  live_ids_differ, not_ready, not_trusted, ticks_unbounded, settling_unbounded, baseline_open,
  binding_mismatch, unknown_primary, no_controller_levels, not_one_level, not_approved,
  parameters_not_approved, bad_calibration, ladder_differs, unsupported_mode, ids_not_unique,
  adapter_mismatch, abort_by_pod, no_abort_gate, no_recovery_gate, capture_mismatch, raw_query_text,
  unknown_query_id, index_error, Validation, refused, ◌>>◌, require, each, LevelDoc, ProfileDoc,
  CatalogRow, Contracts, keys, is_subset, is_text, is_some_member, has_text, is_distinct,
}
use testbed_services.Compiler.ControllerDocs.{
  ConditionDoc, ControllerDoc, ControllerLevel, ControllersDoc, ObservationDoc, adapter_of,
  all_items, any_items, baseline_checks, catalog_row, check_escalate, check_set, covers, is_one,
  is_policy, is_texts, query_of, rungs_for, same_text, same_texts, texts_of,
}

module _ (docs : Contracts) where
  open docs use {J, equal, queries}

  -- `==` of values that may be missing
  abbrev pub same_value : Option J → Option J → Bool
  same_value none o = is_none o
  same_value (some a) none = false
  same_value (some a) (some b) = equal a b

  -- `(observation, op, value) in pairs`
  abbrev pub has_gate : List (ConditionDoc J) → String → J → Bool
  has_gate items observation value =
      any
        (λ c.
          is_text c.observation observation && is_text c.op "eq" && same_value c.value (some value))
        items

  -- `actual_levels == expected_levels`
  unfoldable pub same_ladder : List (ControllerLevel J) → List (LevelDoc J) → Bool
  same_ladder [] [] = true
  same_ladder [] (r ∷ rungs) = false
  same_ladder (l ∷ levels) [] = false
  same_ladder (l ∷ levels) (r ∷ rungs) =
      same_text l.id r.level_id
      && same_value l.parameters (some r.parameters)
      && same_ladder levels rungs

  abbrev pub first_parameters : List (ControllerLevel J) → Option J
  first_parameters [] = none
  first_parameters (l ∷ levels) = l.parameters

  unfoldable pub check_evaluation :
      String → ControllerDoc J → String → ProfileDoc J → List (ControllerLevel J) → Validation
  check_evaluation id c primary profile levels =
      require (is_text c.profile.kind "fixed" && is_one levels) (not_one_level id)
      >> require (is_text c.profile.approved_profile_id primary) (not_approved id)
      >> require (same_value (first_parameters levels) (at_key id profile.scenario_parameters))
          (parameters_not_approved id)

  unfoldable pub check_calibration :
      String → ControllerDoc J → ProfileDoc J → List (ControllerLevel J) → Validation
  unfolding same_ladder
  check_calibration id c profile levels =
      require (is_text c.profile.kind "adaptive_ladder" && is_none c.profile.approved_profile_id)
        (bad_calibration id)
      >> require (same_ladder levels (rungs_for (at_key id profile.scenario_levels)))
          (ladder_differs id)

  -- the branch of the mode
  unfoldable pub check_mode :
      String → ControllerDoc J → String → ProfileDoc J → List (ControllerLevel J) → Validation
  check_mode id c primary profile levels =
      if is_text c.mode "evaluation"
      then check_evaluation id c primary profile levels
      else if is_text c.mode "calibration"
      then check_calibration id c profile levels
      else refused (unsupported_mode id)

  -- `validate_observation_refs`
  abbrev pub check_reference : ObservationDoc → Validation
  check_reference observation =
      require (not observation.has_query_text) raw_query_text
      >> require (is_some_member observation.query_id (keys queries)) unknown_query_id

  unfoldable pub check_observations : String → List ObservationDoc → Validation
  unfolding each is_distinct
  check_observations id observations =
      each check_reference observations
      >> require
          (is_distinct (map (λ o. o.id) observations) && all (λ o. has_text o.id) observations)
          (ids_not_unique id)
      >> each
          (λ o.
            require (same_text o.adapter (adapter_of (query_of o.query_id queries)))
              (adapter_mismatch id))
          observations

  -- the loop over the condition names
  unfoldable pub check_sets : String → ControllerDoc J → List String → Validation
  unfolding check_set check_escalate
  check_sets id c available =
      check_set id available "success" c.success
      >> check_escalate (is_text c.mode "evaluation") id available c.escalate
      >> check_set id available "abort" c.abort
      >> check_set id available "must_rule_out" c.must_rule_out
      >> check_set id available "recovery" c.recovery

module _ (docs : Contracts) (doc : ControllersDoc docs.J) where
  open docs use {J, profiles, scenarios}

  unfoldable pub check_gates : String → ControllerDoc J → Validation
  check_gates id c =
      require (not (any (λ i. is_text i.observation "pod_ready") (any_items c.abort)))
        (abort_by_pod id)
      >> require (has_gate docs (any_items c.abort) "entry_status" doc.zero_value)
          (no_abort_gate id)
      >> require
          (has_gate docs (all_items c.recovery) "target_health" doc.ok_value
            && has_gate docs (all_items c.recovery) "pod_ready" doc.true_value)
          (no_recovery_gate id)
      >> require (is_policy c.capture) (capture_mismatch id)

  -- from the levels of the profile on
  unfoldable pub check_ladder_of :
      String
      → ControllerDoc J
      → String
      → ProfileDoc J
      → Option (List (ControllerLevel J))
      → Validation
  unfolding check_mode check_observations check_sets check_gates
  check_ladder_of id c primary profile none = refused (no_controller_levels id)
  check_ladder_of id c primary profile (some []) = refused (no_controller_levels id)
  check_ladder_of id c primary profile (some (l ∷ levels)) =
      check_mode docs id c primary profile (l ∷ levels)
      >> check_observations docs id c.observations
      >> check_sets docs id c (texts_of (map (λ o. o.id) c.observations))
      >> check_gates id c

  -- the primary profile, in `profiles` or not
  unfoldable pub check_registered :
      String → ControllerDoc J → String → Option (ProfileDoc J) → Validation
  unfolding check_ladder_of
  check_registered id c primary none = refused (unknown_primary id)
  check_registered id c primary (some profile) =
      check_ladder_of id c primary profile c.profile.levels

  unfoldable pub check_binding : String → ControllerDoc J → List String → Validation
  unfolding check_registered same_texts
  check_binding id c [] = refused index_error
  check_binding id c (primary ∷ companions) =
      require
        (is_text c.profile.primary_ref primary && is_texts c.profile.companion_refs companions)
        (binding_mismatch id)
      >> check_registered id c primary (at_key primary profiles)

  unfoldable pub check_bound : String → ControllerDoc J → Option CatalogRow → Validation
  unfolding check_binding
  check_bound id c none = refused (not_ready id)
  check_bound id c (some row) =
      require (str_eq row.readiness "ready") (not_ready id)
      >> require (is_text c.dispatcher_mode "trusted" && c.live_enabled) (not_trusted id)
      >> require (is_text c.tick_interval "15s") (ticks_unbounded id)
      >> require (is_text c.settle_after_change "30s") (settling_unbounded id)
      >> require (is_text c.clean_window "30m" && is_subset baseline_checks c.required_checks)
          (baseline_open id)
      >> check_binding id c row.profiles

  abbrev pub check_controller : String × ControllerDoc J → Validation
  check_controller (id, c) = check_bound id c (catalog_row id scenarios)

  unfoldable pub validate_controllers : Validation
  unfolding each check_bound is_distinct
  validate_controllers =
      require (covers doc.live_scenario_ids (keys doc.controllers)) live_ids_differ
      >> each check_controller doc.controllers
