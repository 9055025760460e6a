-- ===== src/Dispatcher/Tests.antt =====
-- The dispatcher on a concrete host: two profiles, and a list of the executor calls that fail.
use testbed_services.Common.{
  ℕ, String, str_eq, true, ◌&&◌, Option, none, some, List, [], ◌∷◌, ◌≡◌, refl, any, if◌then◌else◌,
}
use testbed_services.Plan.{Plan, Instance, confirmation, instances_of}
use testbed_services.Dispatcher.Host.{
  Host, failed, plan, Reply, completed, missing, Stored, document, Status, Raised, Result, err,
  World, Report,
}
use testbed_services.Dispatcher.Calls.{
  Request, verify, sole, profile_ids, verified_plan, executor, prepare, argv, judge, perform,
  perform_prepared, invoke, invoke_each, preflight_all, recover, cleanup_and_recover, replaced,
  write_state,
}
use testbed_services.Dispatcher.Dispatch.{
  clean_state, read_state, next_fence, active_state, complete_report, recovered_report, next_round,
  run_profiles, run_checked, dirty_state, raise_after, report_after, conclude, roll_back, started,
  live_run, cleaned, reset_state, recover_dirty, claimed, explicit_cleanup, branch, locked,
  dispatch,
}
use testbed_services.Dispatcher.Safety.{Adds, dispatch-IsSafe}
use testbed_services.Dispatcher.Complete.{IsComplete, dispatch-IsComplete}
use testbed_services.Dispatcher.Recovery.{active_refuses}

abbrev Failing : Type 0
Failing = List (String × String)

abbrev instance_named : String → Instance ℕ
instance_named name = record {
  profile_id = name;
  executor = name;
  executor_sha256 = name;
  parameters = 0;
  approved_levels = [];
  selected_level_id = none;
}

abbrev case_plan : Plan ℕ
case_plan = record {
  scenario_id = "F01-R";
  load_mode = some "fixed";
  live_allowed = true;
  plan_digest = "d1";
  profile_instances = instance_named "alpha" ∷ instance_named "beta" ∷ [];
}

abbrev answer : List String → Failing → Reply × Failing
answer (path ∷ verb ∷ more) failing = (
  if any (λ f. str_eq f.0 path && str_eq f.1 verb) failing
      then completed 1 "" "injected failure"
      else completed 0 "" "",
  failing,
)
answer line failing = (completed 2 "" "", failing)

abbrev case_host : Host
case_host = record {
  J = ℕ;
  Env = Failing;
  compile_plan = λ slug env. if str_eq slug "case" then plan case_plan else failed "unknown slug";
  resolve = λ path env. path;
  relative_to_root = λ path env. true;
  runnable = λ path env. true;
  sha256 = λ path env. path;
  invoker = answer;
  write = λ env. (true, env);
  lock_free = λ env. true;
  strip = λ text. text;
}

abbrev request : Request
request = record { slug = "case"; digest = "d1"; confirmation = "LIVE:F01-R:d1" }

abbrev start : Failing → World Failing
start failing = record { env = failing; file = missing; trace = [] }

live : String → World Failing → Result Report × World Failing
unfolding dispatch locked branch live_run explicit_cleanup claimed recover_dirty reset_state cleaned
    started roll_back conclude report_after raise_after run_checked run_profiles next_round
    dirty_state active_state complete_report recovered_report read_state next_fence clean_state
    write_state replaced cleanup_and_recover recover preflight_all invoke_each invoke
    perform_prepared perform judge argv prepare executor verified_plan profile_ids sole verify
    confirmation instances_of
live action w = dispatch case_host request action w

-- After a run whose cleanup of alpha failed, and with nothing failing any more.
abbrev left_dirty : World Failing
left_dirty = record (live "run" (start (("alpha", "cleanup") ∷ []))).1 { env = [] }

status_of : Stored → Option Status
status_of (document doc) = some doc.status
status_of file = none

run_leaves_dirty : status_of left_dirty.file ≡ some Status.dirty
unfolding live status_of
run_leaves_dirty = refl

cleanup_of_dirty : status_of (live "cleanup" left_dirty).1.file ≡ some Status.clean
unfolding live status_of
cleanup_of_dirty = refl

rollback_is_clean : status_of (live "run" (start (("beta", "run") ∷ []))).1.file ≡ some Status.clean
unfolding live status_of
rollback_is_clean = refl

dispatch-IsSafe_example :
    Adds case_host request (start []) (dispatch case_host request "run" (start [])).1
dispatch-IsSafe_example = dispatch-IsSafe case_host request "run" (start [])

dispatch-IsComplete_example :
    IsComplete case_host request
      (start [])
      (live "run" (start [])).1
      (complete_report request case_plan 1)
unfolding live
dispatch-IsComplete_example =
    dispatch-IsComplete case_host request (start []) (live "run" (start [])).1
      (complete_report request case_plan 1) refl

abbrev interrupted : World Failing
interrupted = record { env = []; file = document (active_state request case_plan 1); trace = [] }

active_refuses_example :
    (e : Raised) × (dispatch case_host request "cleanup" interrupted ≡ (err e, interrupted))
unfolding read_state active_state
active_refuses_example =
    active_refuses case_host request "cleanup" (active_state request case_plan 1) interrupted refl
      refl
