-- ===== src/Plan.antt =====
-- The compiled plan of scripts/scenarios/compile-plan.py, as its readers see it.
use testbed_services.Common.{String, str_append, str_eq, Bool, Option, List, filter}

-- One rung of a ladder, `{"level_id": …, "parameters": …}`; `J` is a JSON value.
pub record Level (J : Type 0) : Type 0 where
  pub level_id : String
  pub parameters : J

-- An entry of `profile_instances`. `approved_levels` is the list that the compiler writes, and
-- `selected_level_id` is `None` where no rung has the default parameters.
pub record Instance (J : Type 0) : Type 0 where
  pub profile_id : String
  pub executor : String
  pub executor_sha256 : String
  pub parameters : J
  pub approved_levels : List (Level J)
  pub selected_level_id : Option String

-- `load_mode` is a field of `plan["scenario"]`, read by `.get`.
pub record Plan (J : Type 0) : Type 0 where
  pub scenario_id : String
  pub load_mode : Option String
  pub live_allowed : Bool
  pub plan_digest : String
  pub profile_instances : List (Instance J)

-- `f"LIVE:{plan['scenario']['id']}:{plan['plan_digest']}"`
unfoldable pub confirmation : {J : Type 0} → Plan J → String
confirmation plan =
    str_append "LIVE:" (str_append plan.scenario_id (str_append ":" plan.plan_digest))

-- `[row for row in plan["profile_instances"] if row["profile_id"] == profile_id]`
unfoldable pub instances_of : {J : Type 0} → Plan J → String → List (Instance J)
instances_of plan profile_id =
    filter (λ row. str_eq row.profile_id profile_id) plan.profile_instances
