-- ===== src/Control/Execute.antt =====
-- `ProfileController.execute` of scripts/scenarios/profile-control.py.
use testbed_services.Common.{
  ℕ, zero, suc, String, str_eq, Bool, true, false, not, ◌&&◌, ◌||◌, Option, none, some, List, [],
  ◌∷◌, ◌++◌, if◌then◌else◌, is_none, str_append,
}
use testbed_services.Common.Int.{ℤ, pos, negsuc, int_eq}
use testbed_services.Plan.{Instance, Level}
use testbed_services.Capsule.{
  Reply, raised, completed, Verb, preflight, run, recovery, verb_name, or_text,
}
use testbed_services.Control.Host.{
  File, object, ControlHost, Action, apply, cleanup, other, Operation, ControlRequest, Response,
  applied, cleaned, Answer, ControlState, bad_action, cleanup_with_level, bad_key, key_reused,
  preflight_failed, apply_failed, control_error, runner_error, os_error, Outcome, pass, refuse,
  ControlWorld,
}
use testbed_services.Control.Checks.{
  ◌>>=◌, is_cleanup, is_apply, is_key, load_file, Bound, authorise, parameters_for,
}

abbrev option_eq : {A : Type 0} → (A → A → Bool) → Option A → Option A → Bool
option_eq eq none none = true
option_eq eq (some a) (some b) = eq a b
option_eq eq a b = false

abbrev pub action_eq : Action → Action → Bool
action_eq apply apply = true
action_eq cleanup cleanup = true
action_eq other other = true
action_eq a b = false

-- `_identity(a) == _identity(b)`: every field but the plan's digest.
unfoldable pub same_identity : ControlRequest → ControlRequest → Bool
same_identity a b =
    str_eq a.run_id b.run_id
    && int_eq a.fencing_token b.fencing_token
    && str_eq a.scenario b.scenario
    && str_eq a.profile b.profile
    && action_eq a.action b.action
    && option_eq int_eq a.level_index b.level_index
    && option_eq str_eq a.level_id b.level_id
    && option_eq str_eq a.parameters_json b.parameters_json

unfoldable pub request_of : Operation → ControlRequest
request_of op = record {
  run_id = op.run_id;
  fencing_token = op.fencing_token;
  scenario = op.slug;
  profile = op.profile_id;
  action = op.action;
  plan_digest = op.digest;
  level_index = op.level_index;
  level_id = op.level_id;
  parameters_json = op.parameters_json;
}

-- `results.get(key)`, and `results[key] = answer`
unfoldable pub lookup : String → List (String × Answer) → Option Answer
lookup key [] = none
lookup key ((k, a) ∷ results) = if str_eq k key then some a else lookup key results

unfoldable pub insert : String → Answer → List (String × Answer) → List (String × Answer)
insert key answer [] = (key, answer) ∷ []
insert key answer ((k, a) ∷ results) =
    if str_eq k key then (key, answer) ∷ results else (k, a) ∷ insert key answer results

-- `response.get("succeeded", True)`
abbrev pub succeeded : Response → Bool
succeeded (applied at) = true
succeeded (cleaned done ended reason) = done

abbrev pub is_zero : ℕ → Bool
is_zero zero = true
is_zero (suc n) = false

abbrev pub no_results : ControlState
no_results = record { results = [] }

-- the guards of `execute` before any lock is taken
unfoldable pub guarded : Operation → Outcome Unit
guarded op =
    if not (is_apply op.action || is_cleanup op.action)
    then refuse (control_error bad_action)
    else if is_cleanup op.action
        && (not (is_none op.level_index)
            || not (is_none op.level_id)
            || not (is_none op.parameters_json))
    then refuse (control_error cleanup_with_level)
    else if not (is_key op.idempotency_key)
    then refuse (control_error bad_key)
    else pass tt

module _ (host : ControlHost) where
  open host use {J, Env, clock, acquire, release, runner, write, dumps, timestamp, show, strip}

  abbrev pub Result : Type 0
  Result = Outcome Response × ControlWorld Env

  -- Another process may change the environment while the lock is waited for.
  abbrev pub relock : ControlWorld Env → ControlWorld Env
  relock w = record w { env = acquire w.env }

  -- `common`
  unfoldable pub base_line : Operation → List String
  base_line op =
      "--scenario" ∷ op.slug ∷ "--plan-digest" ∷ op.digest ∷ "--confirm" ∷ op.confirmation
      ∷ "--live" ∷ []

  -- The lock is given up: another process may change the environment before the next step.
  abbrev pub unlock : ControlWorld Env → ControlWorld Env
  unlock w = record w { env = release w.env }

  -- `str(selected)`
  show_index : Option ℤ → String
  show_index none = "None"
  show_index (some (pos n)) = show n
  show_index (some (negsuc n)) = str_append "-" (show (suc n))

  -- `common`, extended where the profile has levels
  level_line : Operation → List (Level J) → Option ℤ × J → List String
  unfolding show_index
  level_line op [] selected = base_line op
  level_line op (l ∷ ls) (index, parameters) =
      base_line op
      ++ ("--level-index" ∷ show_index index ∷ "--parameters-json" ∷ dumps parameters ∷ [])

  -- The command line of `preflight` and of the mutation.
  unfoldable pub common_line : Operation → Instance J → Action → Outcome (List String)
  unfolding level_line
  common_line op i apply = do
    selected ← parameters_for host i op.level_index op.level_id op.parameters_json
    pass (level_line op i.approved_levels selected)
  common_line op i cleanup = pass (base_line op)
  common_line op i other = pass (base_line op)

  -- `self.runner([str(executor), verb, *common])`
  unfoldable pub call_executor :
      Verb → String → List String → Env → ControlWorld Env → Reply × ControlWorld Env
  call_executor verb path common checked w =
      let line = path ∷ verb_name verb ∷ common in
      let (reply, env') = runner line w.env in
      (
        reply,
        record w {
          env = env';
          trace = record { env = w.env; checked = checked; verb = verb; line = line } ∷ w.trace;
        },
      )

  unfoldable pub detail : String → String → String
  detail out error = or_text (or_text (strip error) (strip out)) "no detail"

  module _ (op : Operation) where
    unfoldable pub written : Response → ControlWorld Env → File ControlState → Bool × Env → Result
    written response w file (true, env') = (pass response, record w { env = env'; file = file })
    written response w file (false, env') = (refuse os_error, record w { env = env' })

    -- `state["results"][key] = …`, `_write_control` and the return
    unfoldable pub store : ControlState → Response → ControlWorld Env → Result
    unfolding written
    store state response w =
        let answer : Answer = record { request = request_of op; response = response } in
        written response w
          (object (record { results = insert op.idempotency_key answer state.results }))
          (write w.env)

    -- The response to a cleanup, from the reply to `recovery`; `now` was read before it.
    unfoldable pub recovered : ControlState → ℕ → Reply × ControlWorld Env → Result
    recovered state now (raised message, w) = (refuse (runner_error message), w)
    recovered state now (completed zero out error, w) =
        store state (cleaned true (some (timestamp now)) none) w
    recovered state now (completed (suc code) out error, w) =
        store state (cleaned false none (some (or_text (strip error) "recovery failed"))) w

    unfoldable pub verify_recovery :
        ControlState → ℕ → Outcome (Bound J) → ControlWorld Env → Result
    verify_recovery state now (refuse e) w = (refuse e, w)
    verify_recovery state now (pass b) w =
        recovered state now (call_executor recovery b.path (base_line op) w.env (unlock w))

    -- what follows the `cleanup` call
    unfoldable pub after_cleanup : ControlState → Reply × ControlWorld Env → Result
    unfolding verify_recovery
    after_cleanup state (raised message, w) = (refuse (runner_error message), w)
    after_cleanup state (completed (suc code) out error, w) =
        store state (cleaned false none (some (detail out error))) w
    after_cleanup state (completed zero out error, w) =
        let w' = relock w in verify_recovery state (clock w.env) (authorise host op w'.env) w'

    -- what follows the `run` call; `started` was read before it
    unfoldable pub after_run : ControlState → ℕ → Reply × ControlWorld Env → Result
    after_run state started (raised message, w) = (refuse (runner_error message), w)
    after_run state started (completed (suc code) out error, w) =
        (refuse (control_error (apply_failed (detail out error))), w)
    after_run state started (completed zero out error, w) =
        store state (applied (timestamp started)) w

    -- The mutation itself, by the action: `run` for an apply, `cleanup` otherwise.
    unfoldable pub mutate :
        Action → ControlState → List String → Bound J → ControlWorld Env → Result
    mutate apply state common b w =
        after_run state (clock w.env) (call_executor run b.path common w.env w)
    mutate cleanup state common b w =
        after_cleanup state (call_executor Verb.cleanup b.path common w.env (unlock w))
    mutate other state common b w =
        after_cleanup state (call_executor Verb.cleanup b.path common w.env (unlock w))

    unfoldable pub reverified :
        ControlState → List String → Outcome (Bound J) → ControlWorld Env → Result
    reverified state common (refuse e) w = (refuse e, w)
    reverified state common (pass b) w = mutate op.action state common b w

    -- The final fenced proof, once the coordinator's lock is held again.
    unfoldable pub reverify : ControlState → List String → ControlWorld Env → Result
    unfolding reverified
    reverify state common w =
        let w' = relock w in reverified state common (authorise host op w'.env) w'

    -- what follows the `preflight` call; a cleanup goes on after a failed one
    unfoldable pub after_preflight : ControlState → List String → Reply × ControlWorld Env → Result
    after_preflight state common (raised message, w) = (refuse (runner_error message), w)
    after_preflight state common (completed zero out error, w) = reverify state common w
    after_preflight state common (completed (suc code) out error, w) =
        if is_apply op.action
        then (refuse (control_error (preflight_failed (detail out error))), w)
        else reverify state common w

    unfoldable pub with_line :
        ControlState → Bound J → Outcome (List String) → ControlWorld Env → Result
    with_line state b (refuse e) w = (refuse e, w)
    with_line state b (pass common) w =
        after_preflight state common (call_executor preflight b.path common w.env (unlock w))

    -- the part of `execute` below the idempotency test
    unfoldable pub operate : ControlState → Bound J → ControlWorld Env → Result
    unfolding with_line
    operate state b w = with_line state b (common_line op b.bound_instance op.action) w

    -- the idempotency test
    unfoldable pub answered : ControlState → Bound J → Option Answer → ControlWorld Env → Result
    answered state b none w = operate state b w
    answered state b (some existing) w =
        if not (same_identity existing.request (request_of op))
        then (refuse (control_error key_reused), w)
        else if is_apply op.action || succeeded existing.response
        then (pass existing.response, w)
        else operate state b w

    unfoldable pub loaded : Bound J → Outcome ControlState → ControlWorld Env → Result
    loaded b (refuse e) w = (refuse e, w)
    loaded b (pass state) w = answered state b (lookup op.idempotency_key state.results) w

    unfoldable pub admitted : Outcome (Bound J) → ControlWorld Env → Result
    admitted (refuse e) w = (refuse e, w)
    admitted (pass b) w = loaded b (load_file no_results w.file) w

    unfoldable pub accepted : Outcome Unit → ControlWorld Env → Result
    accepted (refuse e) w = (refuse e, w)
    accepted (pass _) w = let w' = relock w in admitted (authorise host op w'.env) w'

    unfoldable pub execute : ControlWorld Env → Result
    execute w = accepted (guarded op) w
