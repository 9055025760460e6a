-- ===== src/Dispatcher/Dispatch.antt =====
-- `Dispatcher.dispatch` of scripts/scenarios/trusted_dispatcher.py: a live run, and the explicit
-- cleanup of a dirty one.
use testbed_services.Common.{
  ℕ, ◌+◌, String, str_eq, Bool, true, false, not, ◌&&◌, ◌||◌, Option, none, some, List, [], ◌∷◌,
  ◌++◌, get_or, any, all, if◌then◌else◌,
}
use testbed_services.Plan.{Plan}
use testbed_services.Dispatcher.Host.{
  Reply, run, Host, InvokeError, Status, clean, active, dirty, Applied, names, StateDoc, Stored,
  missing, unreadable, not_an_object, document, DispatchError, unknown_action, lock_held,
  state_unreadable, state_invalid, adaptive, not_clean, refused, both, not_dirty, wrong_claim,
  wrong_profiles, Raised, dispatch_error, os_error, attribute_error, Result, ok, err, World, Report,
}
use testbed_services.Dispatcher.Calls.{
  Request, Outcome, pass, refuse, profile_ids, verified_plan, invoke, preflight_all,
  cleanup_and_recover, write_state,
}

unfoldable pub clean_state : ℕ → StateDoc
clean_state fence = record {
  schema_version = "1.0";
  status = clean;
  fence = some fence;
  scenario = none;
  scenario_id = none;
  plan_digest = none;
  profiles = [];
  applied = Applied.absent;
  error = none;
}

abbrev known_status : StateDoc → Status → Result StateDoc
known_status doc clean = ok doc
known_status doc active = ok doc
known_status doc dirty = ok doc
known_status doc Status.other = err (dispatch_error state_invalid)

-- `_read_state`
unfoldable pub read_state : Stored → Result StateDoc
read_state missing = ok (clean_state 0)
read_state unreadable = err (dispatch_error state_unreadable)
read_state not_an_object = err attribute_error
read_state (document doc) = known_status doc doc.status

-- `int(state.get("fence", 0)) + 1`
unfoldable pub next_fence : StateDoc → ℕ
next_fence doc = get_or doc.fence 0 + 1

abbrev pub is_clean : Status → Bool
is_clean clean = true
is_clean active = false
is_clean dirty = false
is_clean Status.other = false

abbrev pub is_dirty : Status → Bool
is_dirty clean = false
is_dirty active = false
is_dirty dirty = true
is_dirty Status.other = false

-- the truth of `d.get(k) == text`
abbrev pub equals : Option String → String → Bool
equals none text = false
equals (some s) text = str_eq s text

module _ {J : Type 0} where
  unfoldable pub active_state : Request → Plan J → ℕ → StateDoc
  active_state r p fence = record {
    schema_version = "1.0";
    status = active;
    fence = some fence;
    scenario = some r.slug;
    scenario_id = some p.scenario_id;
    plan_digest = some r.digest;
    profiles = profile_ids p;
    applied = names [];
    error = none;
  }

  unfoldable pub complete_report : Request → Plan J → ℕ → Report
  complete_report r p fence = record {
    status = "complete";
    scenario = r.slug;
    scenario_id = p.scenario_id;
    plan_digest = r.digest;
    fence = fence;
    profiles = profile_ids p;
    cleanup = "verified";
    preflight_warnings = [];
  }

  unfoldable pub recovered_report : Request → Plan J → ℕ → List String → List InvokeError → Report
  recovered_report r p fence ids warnings = record {
    status = "recovered";
    scenario = r.slug;
    scenario_id = p.scenario_id;
    plan_digest = r.digest;
    fence = fence;
    profiles = ids;
    cleanup = "verified";
    preflight_warnings = warnings;
  }

-- the profiles that were applied, and how the loop ended
abbrev pub Progress : Type 0
Progress = List String × Result Unit

-- `f"{primary_error}; {cleanup_error}"`, or the cleanup error alone
abbrev pub joined : Option DispatchError → DispatchError → DispatchError
joined none e = e
joined (some p) e = both p e

module _ (host : Host) where
  open host use {J, Env, lock_free}

  -- One round of the loop over `run`: what follows its `_invoke`, with the rest of the loop.
  unfoldable pub next_round :
      List String
      → List String
      → Outcome Reply × World Env
      → Result Unit × World Env
      → Progress × World Env
      → Progress × World Env
  next_round applied done (refuse e, w) written more =
      ((applied, err (dispatch_error (refused e))), w)
  next_round applied done (pass reply, w) (err e, w') more = ((done, err e), w')
  next_round applied done (pass reply, w) (ok _, w') more = more

  -- The loop over `run`. `applied` is the local list that outlives an exception.
  unfoldable pub run_profiles :
      Request → ℕ → StateDoc → List String → List String → World Env → Progress × World Env
  run_profiles r fence state applied [] w = ((applied, ok tt), w)
  run_profiles r fence state applied (profile_id ∷ rest) w =
      let invoked = invoke host r fence run profile_id w in
      let done = applied ++ profile_id ∷ [] in
      let written = write_state host (record state { applied = names done }) invoked.1 in
      let more = run_profiles r fence state done rest written.1 in
      next_round applied done invoked written more

  unfoldable pub run_checked :
      Request
      → ℕ
      → StateDoc
      → List String
      → Result (List InvokeError) × World Env
      → Progress × World Env
  run_checked r fence state ids (ok _, w) = run_profiles r fence state [] ids w
  run_checked r fence state ids (err e, w) = (([], err e), w)

  module _ (r : Request) (p : Plan J) (fence : ℕ) where
    unfoldable pub dirty_state : List String → DispatchError → StateDoc
    dirty_state applied e = record (active_state r p fence) {
      status = dirty;
      applied = names applied;
      error = some e;
    }

    unfoldable pub raise_after : Raised → Result Unit × World Env → Result Report × World Env
    raise_after e (ok _, w) = (err e, w)
    raise_after e (err o, w) = (err o, w)

    unfoldable pub report_after :
        Option DispatchError → Result Unit × World Env → Result Report × World Env
    report_after none (ok _, w) = (ok (complete_report r p fence), w)
    report_after (some e) (ok _, w) = (err (dispatch_error e), w)
    report_after primary (err o, w) = (err o, w)

    -- what follows `_cleanup_and_recover` in a run
    unfoldable pub conclude :
        Option DispatchError → List String → Result Unit × World Env → Result Report × World Env
    unfolding raise_after report_after
    conclude primary applied (ok _, w) =
        report_after primary (write_state host (clean_state fence) w)
    conclude primary applied (err (dispatch_error e), w) =
        raise_after (dispatch_error (joined primary e)) (write_state host (dirty_state applied e) w)
    conclude primary applied (err os_error, w) = (err os_error, w)
    conclude primary applied (err attribute_error, w) = (err attribute_error, w)

    -- `except DispatchError` catches nothing else
    unfoldable pub roll_back : Progress × World Env → Result Report × World Env
    roll_back ((applied, ok _), w) =
        conclude none applied (cleanup_and_recover host r fence applied w)
    roll_back ((applied, err (dispatch_error e)), w) =
        conclude (some e) applied (cleanup_and_recover host r fence applied w)
    roll_back ((applied, err os_error), w) = (err os_error, w)
    roll_back ((applied, err attribute_error), w) = (err attribute_error, w)

    unfoldable pub started : Result Unit × World Env → Result Report × World Env
    unfolding run_checked
    started (err e, w) = (err e, w)
    started (ok _, w) = roll_back (
        run_checked r fence (active_state r p fence) (profile_ids p)
          (preflight_all host r fence true p w))

    -- the branch `action == "run"`
    unfoldable pub live_run : StateDoc → World Env → Result Report × World Env
    unfolding started
    live_run state w =
        if equals p.load_mode "adaptive"
        then (err (dispatch_error adaptive), w)
        else if not (is_clean state.status)
        then (err (dispatch_error (not_clean state.status)), w)
        else started (write_state host (active_state r p fence) w)

    unfoldable pub cleaned :
        List String → List InvokeError → Result Unit × World Env → Result Report × World Env
    cleaned ids warnings (ok _, w) = (ok (recovered_report r p fence ids warnings), w)
    cleaned ids warnings (err e, w) = (err e, w)

    unfoldable pub reset_state :
        List String → List InvokeError → Result Unit × World Env → Result Report × World Env
    unfolding cleaned
    reset_state ids warnings (ok _, w) =
        cleaned ids warnings (write_state host (clean_state fence) w)
    reset_state ids warnings (err e, w) = (err e, w)

    unfoldable pub recover_dirty :
        List String → Result (List InvokeError) × World Env → Result Report × World Env
    unfolding reset_state
    recover_dirty ids (ok warnings, w) =
        reset_state ids warnings (cleanup_and_recover host r fence ids w)
    recover_dirty ids (err e, w) = (err e, w)

    -- `isinstance(dirty_profiles, list)` and `set(dirty_profiles) <= set(profile_ids)`
    unfoldable pub claimed : Applied → World Env → Result Report × World Env
    unfolding recover_dirty
    claimed Applied.absent w = recover_dirty [] (preflight_all host r fence false p w)
    claimed Applied.other w = (err (dispatch_error wrong_profiles), w)
    claimed (names ids) w =
        if all (λ i. any (str_eq i) (profile_ids p)) ids
        then recover_dirty ids (preflight_all host r fence false p w)
        else (err (dispatch_error wrong_profiles), w)

    -- the branch `action == "cleanup"`
    unfoldable pub explicit_cleanup : StateDoc → World Env → Result Report × World Env
    unfolding claimed
    explicit_cleanup state w =
        if not (is_dirty state.status)
        then (err (dispatch_error not_dirty), w)
        else if not (equals state.scenario r.slug && equals state.plan_digest r.digest)
        then (err (dispatch_error wrong_claim), w)
        else claimed state.applied w

  unfoldable pub branch :
      Request → String → Plan J → Result StateDoc → World Env → Result Report × World Env
  branch r action p (err e) w = (err e, w)
  branch r action p (ok state) w =
      if str_eq action "run"
      then live_run r p (next_fence state) state w
      else explicit_cleanup r p (next_fence state) state w

  unfoldable pub locked :
      Request → String → Outcome (Plan J) → World Env → Result Report × World Env
  unfolding branch
  locked r action (refuse e) w = (err (dispatch_error (refused e)), w)
  locked r action (pass p) w = branch r action p (read_state w.file) w

  unfoldable pub dispatch : Request → String → World Env → Result Report × World Env
  unfolding locked
  dispatch r action w =
      if not (str_eq action "run" || str_eq action "cleanup")
      then (err (dispatch_error unknown_action), w)
      else if not (lock_free w.env)
      then (err (dispatch_error lock_held), w)
      else locked r action (verified_plan host r w.env) w
