-- ===== src/Dispatcher/Calls.antt =====
-- `_verified_plan`, `_executor`, `_invoke` and the two loops over executors of
-- scripts/scenarios/trusted_dispatcher.py.
use testbed_services.Common.{
  ℕ, zero, suc, String, str_eq, Bool, true, false, not, List, [], ◌∷◌, map, reverse, if◌then◌else◌,
}
use testbed_services.Plan.{Plan, Instance, confirmation, instances_of}
use testbed_services.Capsule.{verb_name, or_text}
use testbed_services.Dispatcher.Host.{
  Compiled, failed, plan, Reply, raised, completed, Verb, preflight, cleanup, recovery, Host,
  InvokeError, compilation_failed, not_live_allowed, digest_mismatch, confirmation_mismatch,
  binding_changed, executor_escapes, executor_unavailable, hash_drift, invocation_failed,
  action_failed, StateDoc, document, preflight_failed, cleanup_incomplete, dispatch_error, os_error,
  Result, ok, err, called, saved, World,
}

-- The scenario, digest and confirmation that the shell entrypoint supplies.
pub record Request : Type 0 where
  pub slug : String
  pub digest : String
  pub confirmation : String

-- A value, or the `DispatchError` of a single executor call.
pub data Outcome (A : Type 0) : Type 0 where
  pass : A → Outcome A
  refuse : InvokeError → Outcome A

infixl 5 ◌>>=◌
abbrev pub ◌>>=◌ : {A B : Type 0} → Outcome A → (A → Outcome B) → Outcome B
pass a >>= f = f a
refuse e >>= f = refuse e

module _ {J : Type 0} where
  -- the checks of `_verified_plan` on what the compiler returned
  unfoldable pub verify : Request → Compiled J → Outcome (Plan J)
  verify r (failed message) = refuse (compilation_failed message)
  verify r (plan p) =
      if not p.live_allowed
      then refuse not_live_allowed
      else if not (str_eq r.digest p.plan_digest)
      then refuse digest_mismatch
      else if not (str_eq r.confirmation (confirmation p))
      then refuse confirmation_mismatch
      else pass p

  -- `if len(matches) != 1: raise`
  unfoldable pub sole : String → List (Instance J) → Outcome (Instance J)
  sole profile_id [] = refuse (binding_changed profile_id)
  sole profile_id (i ∷ []) = pass i
  sole profile_id (i ∷ j ∷ more) = refuse (binding_changed profile_id)

  unfoldable pub profile_ids : Plan J → List String
  profile_ids p = map (λ i. i.profile_id) p.profile_instances

module _ (host : Host) where
  open host use {
    J, Env, compile_plan, resolve, relative_to_root, runnable, sha256, invoker, write, strip,
  }

  unfoldable pub verified_plan : Request → Env → Outcome (Plan J)
  verified_plan r env = verify r (compile_plan r.slug env)

  -- `_executor`
  unfoldable pub executor : Instance J → Env → Outcome String
  executor i env =
      let candidate = resolve i.executor env in
      if not (relative_to_root candidate env)
      then refuse executor_escapes
      else if not (runnable candidate env)
      then refuse (executor_unavailable i.profile_id)
      else if not (str_eq (sha256 candidate env) i.executor_sha256)
      then refuse (hash_drift i.profile_id)
      else pass candidate

  -- What `_invoke` checks before it calls: the executor's path.
  unfoldable pub prepare : Request → String → Env → Outcome String
  prepare r profile_id env = do
    p ← verified_plan r env
    i ← sole profile_id (instances_of p profile_id)
    executor i env

  unfoldable pub argv : Request → Verb → String → List String
  argv r verb path =
      path
      ∷ verb_name verb
      ∷ "--scenario"
      ∷ r.slug
      ∷ "--plan-digest"
      ∷ r.digest
      ∷ "--confirm"
      ∷ r.confirmation
      ∷ "--live"
      ∷ []

  -- how `_invoke` reads the invoker's result
  unfoldable pub judge : ℕ → String → Verb → Reply → Outcome Reply
  judge fence profile_id verb (raised message) =
      refuse (invocation_failed profile_id verb fence message)
  judge fence profile_id verb (completed zero out error) = pass (completed zero out error)
  judge fence profile_id verb (completed (suc code) out error) = refuse (
      action_failed profile_id verb fence
        (or_text (or_text (strip error) (strip out)) "no executor detail"))

  unfoldable pub perform :
      Request → ℕ → String → Verb → World Env → String → Outcome Reply × World Env
  perform r fence profile_id verb w path =
      let line = argv r verb path in
      let (reply, env') = invoker line w.env in
      (
        judge fence profile_id verb reply,
        record w { env = env'; trace = called w.env profile_id verb line ∷ w.trace },
      )

  unfoldable pub perform_prepared :
      Request → ℕ → String → Verb → World Env → Outcome String → Outcome Reply × World Env
  perform_prepared r fence profile_id verb w (refuse e) = (refuse e, w)
  perform_prepared r fence profile_id verb w (pass path) = perform r fence profile_id verb w path

  -- `_invoke`
  unfoldable pub invoke : Request → ℕ → Verb → String → World Env → Outcome Reply × World Env
  unfolding perform perform_prepared
  invoke r fence verb profile_id w =
      perform_prepared r fence profile_id verb w (prepare r profile_id w.env)

  -- `except DispatchError as exc: failures.append(str(exc))`
  abbrev pub note : Outcome Reply → List InvokeError → List InvokeError
  note (pass reply) failures = failures
  note (refuse e) failures = e ∷ failures

  -- one `for` loop that calls every profile and collects the failures
  unfoldable pub invoke_each :
      Request → ℕ → Verb → List String → World Env → List InvokeError × World Env
  invoke_each r fence verb [] w = ([], w)
  invoke_each r fence verb (profile_id ∷ rest) w =
      let (outcome, w') = invoke r fence verb profile_id w in
      let (failures, w'') = invoke_each r fence verb rest w' in (note outcome failures, w'')

  -- `_preflight_all`
  abbrev pub strictly : Bool → List InvokeError → Result (List InvokeError)
  strictly strict [] = ok []
  strictly true (e ∷ es) = err (dispatch_error (preflight_failed (e ∷ es)))
  strictly false (e ∷ es) = ok (e ∷ es)

  unfoldable pub preflight_all :
      Request → ℕ → Bool → Plan J → World Env → Result (List InvokeError) × World Env
  preflight_all r fence strict p w =
      let (failures, w') = invoke_each r fence preflight (profile_ids p) w in
      (strictly strict failures, w')

  abbrev pub incomplete : List InvokeError → Result Unit
  incomplete [] = ok tt
  incomplete (e ∷ es) = err (dispatch_error (cleanup_incomplete (e ∷ es)))

  -- the recovery loop, which runs `if not failures`
  unfoldable pub recover :
      Request → ℕ → List String → List InvokeError × World Env → Result Unit × World Env
  recover r fence ids ([], w) =
      let (failures, w') = invoke_each r fence recovery (reverse ids) w in (incomplete failures, w')
  recover r fence ids (e ∷ es, w) = (incomplete (e ∷ es), w)

  -- `_cleanup_and_recover`
  unfoldable pub cleanup_and_recover :
      Request → ℕ → List String → World Env → Result Unit × World Env
  unfolding recover
  cleanup_and_recover r fence ids w =
      recover r fence ids (invoke_each r fence cleanup (reverse ids) w)

  unfoldable pub replaced : StateDoc → World Env → Bool × Env → Result Unit × World Env
  replaced doc w (true, env') =
      (ok tt, record w { env = env'; file = document doc; trace = saved doc ∷ w.trace })
  replaced doc w (false, env') = (err os_error, record w { env = env' })

  -- `_write_state`: the new file replaces the old one, or the write raises and the old one stays.
  unfoldable pub write_state : StateDoc → World Env → Result Unit × World Env
  unfolding replaced
  write_state doc w = replaced doc w (write w.env)
