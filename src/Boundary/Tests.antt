-- ===== src/Boundary/Tests.antt =====
-- The executor boundary on a plan with one profile and a ladder of two rungs.
use testbed_services.Common.{
  String, str_eq, eq_iff, true, ◌||◌, none, some, [], ◌∷◌, ◌≡◌, refl, ◌∙◌, ◌⊎◌, if◌then◌else◌,
}
use testbed_services.Common.Int.{pos}
use testbed_services.Plan.{Plan, Level, confirmation, instances_of}
use testbed_services.Dispatcher.Host.{plan}
use testbed_services.Dispatcher.Calls.{verify}
use testbed_services.Control.Host.{value, compiled, failed}
use testbed_services.Control.Checks.{authorised_plan}
use testbed_services.Boundary.Live.{
  BoundaryHost, pass, Arguments, Profile, of_scenario, levels_or_none, default_set,
  profile_instance, authorize_live, level_at, rung_or_refuse, bind_row, bind_level, check_supplied,
  bind_instance, bind_level_parameters, add_rungs, approved_parameter_sets, compiled_plan,
  validated, launch, main_scenario, main_unbound, main_given, main_for,
}
use testbed_services.Boundary.Authorised.{IsExecution, main_for-IsExecution}
use testbed_services.Boundary.Levels.{IsDefault, IsRung, bind_level_parameters-cases}
use testbed_services.Boundary.Approved.{is_in, on_ladder, approved_parameter_sets_lem}
use testbed_services.Boundary.Agreement.{verify-authorize_live, authorised_plan-authorize_live}

abbrev low : Level String
low = record { level_id = "low"; parameters = "10" }

abbrev high : Level String
high = record { level_id = "high"; parameters = "20" }

abbrev case_plan : Plan String
case_plan = record {
  scenario_id = "F01-R";
  load_mode = none;
  live_allowed = true;
  plan_digest = "d1";
  profile_instances =
      record {
        profile_id = "alpha";
        executor = "alpha";
        executor_sha256 = "alpha";
        parameters = "10";
        approved_levels = low ∷ high ∷ [];
        selected_level_id = some "low";
      }
      ∷ [];
}

abbrev case_host : BoundaryHost
case_host = record {
  J = String;
  compile_plan = λ slug. if str_eq slug "case" then compiled case_plan else failed "unknown";
  loads = value;
  dumps = λ j. j;
  equal = str_eq;
  builder = λ p action. (action ∷ [], "script");
  validator = λ scenario_id parameters. none;
  registered = true;
  execute = λ argv stdin. 0;
}

abbrev arguments : Arguments
arguments = record {
  action = "dry-run";
  scenario = some "case";
  live = true;
  plan_digest = some "d1";
  confirm = some "LIVE:F01-R:d1";
  level_index = some (pos 1);
  parameters_json = some "20";
}

main_for-IsExecution_example : IsExecution case_host "alpha" arguments ("preflight" ∷ []) "script" 0
unfolding main_for main_given main_unbound main_scenario launch validated compiled_plan
    bind_level_parameters bind_instance check_supplied bind_level bind_row level_at rung_or_refuse
    authorize_live profile_instance instances_of confirmation
main_for-IsExecution_example =
    main_for-IsExecution case_host "alpha" arguments ("preflight" ∷ []) "script" 0 refl

bind_level_parameters-cases_example :
    IsDefault case_host case_plan "alpha"
      (some (pos 1))
      (some "20")
      (bind_level case_plan "alpha" high)
      (some "high")
    ⊎ IsRung case_host case_plan "alpha"
        (some (pos 1))
        (some "20")
        (bind_level case_plan "alpha" high)
        (some "high")
unfolding bind_level_parameters bind_instance check_supplied bind_level bind_row level_at
    rung_or_refuse profile_instance instances_of
bind_level_parameters-cases_example =
    bind_level_parameters-cases case_host case_plan "alpha" (some (pos 1)) (some "20")
      (bind_level case_plan "alpha" high) (some "high") refl

abbrev profile : Profile String
profile = record {
  scenario_parameters = ("F01-R", "10") ∷ [];
  scenario_levels = ("F01-R", low ∷ high ∷ []) ∷ [];
}

str_eq_trans : (a b c : String) → str_eq a b ≡ true → str_eq b c ≡ true → str_eq a c ≡ true
str_eq_trans a b c h k = (eq_iff a c).1 ((eq_iff a b).0 h ∙ (eq_iff b c).0 k)

sets : approved_parameter_sets case_host profile "F01-R" ≡ "10" ∷ "20" ∷ []
unfolding approved_parameter_sets add_rungs of_scenario
sets = refl

approved_parameter_sets_lem_example :
    is_in case_host "20" (approved_parameter_sets case_host profile "F01-R") ≡ (
      is_in case_host "20" (default_set (of_scenario "F01-R" profile.scenario_parameters))
      || on_ladder case_host "20" (levels_or_none (of_scenario "F01-R" profile.scenario_levels)))
approved_parameter_sets_lem_example =
    approved_parameter_sets_lem case_host str_eq_trans profile "F01-R" "20"

verify-authorize_live_example :
    authorize_live case_plan (some "d1") (some "LIVE:F01-R:d1") ≡ pass tt
unfolding verify confirmation
verify-authorize_live_example =
    verify-authorize_live (record { slug = "case"; digest = "d1"; confirmation = "LIVE:F01-R:d1" })
      (plan case_plan) case_plan refl

authorised_plan-authorize_live_example :
    authorize_live case_plan (some "d1") (some "LIVE:F01-R:d1") ≡ pass tt
unfolding authorised_plan
authorised_plan-authorize_live_example =
    authorised_plan-authorize_live "d1" "LIVE:F01-R:d1" (compiled case_plan) case_plan refl
