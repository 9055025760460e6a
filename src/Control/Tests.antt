-- ===== src/Control/Tests.antt =====
-- The controller on a concrete host, whose environment lists the verbs that fail.
use testbed_services.Common.{
  String, str_eq, true, false, none, some, List, [], ◌∷◌, ◌++◌, ◌≡◌, refl, any, if◌then◌else◌,
}
use testbed_services.Common.Int.{pos}
use testbed_services.Plan.{Instance, Plan, confirmation, instances_of}
use testbed_services.Capsule.{Reply, completed, preflight, run}
use testbed_services.Control.Host.{
  at, Lease, absent, missing, object, null, compiled, failed, ControlHost, Action, apply, cleanup,
  Operation, applied, cleaned, pass, Call, ControlWorld,
}
use testbed_services.Control.Execute.{
  Result, execute, guarded, base_line, common_line, call_executor, written, store, recovered,
  verify_recovery, after_cleanup, after_run, mutate, reverified, reverify, after_preflight,
  with_line, operate, answered, loaded, admitted, accepted, lookup, insert, request_of,
  same_identity, detail,
}
use testbed_services.Control.Checks.{
  is_key, load_file, authorised_plan, only_instance, check_expiry, check_claim, check_active,
  check_lease, trusted_path, verify_lease, authorise, supplied_json, parameters_for,
}
use testbed_services.Control.Fencing.{Adds, execute-IsFenced}
use testbed_services.Control.Ends.{Ends, verbs, execute-Ends}
use testbed_services.Control.Idempotence.{Answers, execute_injects_once}
use testbed_services.Control.Retry.{IsRetry, first_call, failed_cleanup_retries}

abbrev alpha : Instance String
alpha = record {
  profile_id = "alpha";
  executor = "alpha";
  executor_sha256 = "alpha";
  parameters = "{}";
  approved_levels = [];
  selected_level_id = none;
}

abbrev case_plan : Plan String
case_plan = record {
  scenario_id = "F01-R";
  load_mode = some "fixed";
  live_allowed = true;
  plan_digest = "d1";
  profile_instances = alpha ∷ [];
}

abbrev lease : Lease
lease = record { run_id = "r1"; fencing_token = pos 7; scenario_id = "F01-R"; expires_at = at 100 }

abbrev answer : List String → List String → Reply × List String
answer (path ∷ verb ∷ more) failing =
    (if any (str_eq verb) failing then completed 1 "" "no" else completed 0 "" "", failing)
answer line failing = (completed 2 "" "", failing)

abbrev case_host : ControlHost
case_host = record {
  J = String;
  Env = List String;
  compile_plan = λ slug env. if str_eq slug "case" then compiled case_plan else failed "unknown";
  resolve = λ path env. path;
  relative_to_root = λ path env. true;
  runnable = λ path env. true;
  sha256 = λ path env. path;
  coordinator = λ env.
      object (record { active_lease = some lease; dirty_run = none; cleanup_claim = absent });
  clock = λ env. 50;
  acquire = λ env. env;
  release = λ env. env;
  runner = answer;
  write = λ env. (true, env);
  loads = λ text. null;
  dumps = λ text. text;
  equal = str_eq;
  timestamp = λ now. "now";
  show = λ n. "n";
  strip = λ text. text;
}

abbrev operation : Action → Operation
operation action = record {
  slug = "case";
  profile_id = "alpha";
  action = action;
  run_id = "r1";
  fencing_token = pos 7;
  idempotency_key = "k";
  digest = "d1";
  confirmation = "LIVE:F01-R:d1";
  level_index = none;
  level_id = none;
  parameters_json = none;
}

abbrev start : List String → ControlWorld (List String)
start failing = record { env = failing; file = missing; trace = [] }

live : Action → ControlWorld (List String) → Result case_host
unfolding execute guarded base_line common_line call_executor written store recovered
    verify_recovery after_cleanup after_run mutate reverified reverify after_preflight with_line
    operate answered loaded admitted accepted lookup insert request_of same_identity detail is_key
    load_file authorised_plan only_instance check_expiry check_claim check_active check_lease
    trusted_path verify_lease authorise supplied_json parameters_for confirmation instances_of
live action w = execute case_host (operation action) w

apply_calls : verbs (live apply (start [])).1.trace ≡ run ∷ preflight ∷ []
unfolding live
apply_calls = refl

apply_answers : (live apply (start [])).0 ≡ pass (applied "now")
unfolding live
apply_answers = refl

replay_calls_nothing : verbs (live apply (live apply (start [])).1).1.trace ≡ run ∷ preflight ∷ []
unfolding live
replay_calls_nothing = refl

execute-IsFenced_example :
    Adds case_host (operation apply) (start []) (execute case_host (operation apply) (start [])).1
execute-IsFenced_example = execute-IsFenced case_host (operation apply) (start [])

execute-Ends_example :
    Ends case_host (operation cleanup) (start []) (execute case_host (operation cleanup) (start []))
execute-Ends_example = execute-Ends case_host (operation cleanup) (start [])

abbrev once : ControlWorld (List String)
unfolding live
once = (live apply (start [])).1

execute_injects_once_example :
    Answers case_host (applied "now") once (execute case_host (operation cleanup) once)
unfolding live
execute_injects_once_example =
    execute_injects_once case_host (operation apply) (operation cleanup) (start []) once once
      (applied "now") refl refl refl refl

-- After a cleanup whose recovery failed, and with nothing failing any more.
abbrev unrecovered : ControlWorld (List String)
unfolding live
unrecovered = record (live cleanup (start ("recovery" ∷ []))).1 { env = [] }

abbrev retry : IsRetry case_host (operation cleanup) unrecovered
unfolding live
retry = record {
  is_cleanup = refl;
  allowed = refl;
  bound = record { plan = case_plan; bound_instance = alpha; path = "alpha" };
  authorised = refl;
  state = record {
    results =
        (
          "k",
          record {
            request = request_of (operation cleanup);
            response = cleaned false none (some "no");
          },
        )
        ∷ [];
  };
  readable = refl;
  answer = record {
    request = request_of (operation cleanup);
    response = cleaned false none (some "no");
  };
  stored = refl;
  same_request = refl;
  unsuccessful = refl;
}

failed_cleanup_retries_example :
    (later : List (Call (List String))) × ((execute case_host
        (operation cleanup)
        unrecovered).1.trace
      ≡ later
        ++ first_call case_host (operation cleanup) unrecovered retry.bound ∷ unrecovered.trace)
failed_cleanup_retries_example =
    failed_cleanup_retries case_host (operation cleanup) unrecovered retry
