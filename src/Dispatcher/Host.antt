-- ===== src/Dispatcher/Host.antt =====
-- What the dispatcher of scripts/scenarios/trusted_dispatcher.py meets outside itself, its errors,
-- its state file, and the world that a dispatch reads and changes.
use testbed_services.Common.{ℕ, String, Bool, Option, List}
use testbed_services.Plan.{Plan}
pub use testbed_services.Capsule.{Reply, raised, completed, Verb, preflight, run, cleanup, recovery}

-- The result of `compile_plan(slug)`: a plan, or the text of the exception that it raised.
pub data Compiled (J : Type 0) : Type 0 where
  failed : String → Compiled J
  plan : Plan J → Compiled J

-- The compiler, the file system and the executors, over an environment that a call may change.
-- `strip` is `str.strip`.
pub record Host : Type 1 where
  pub J : Type 0
  pub Env : Type 0
  pub compile_plan : String → Env → Compiled J
  pub resolve : String → Env → String
  pub relative_to_root : String → Env → Bool
  pub runnable : String → Env → Bool
  pub sha256 : String → Env → String
  pub invoker : List String → Env → Reply × Env
  pub write : Env → Bool × Env
  pub lock_free : Env → Bool
  pub strip : String → String

-- The refusals of `_verified_plan`, `_executor` and `_invoke`, all `DispatchError`.
pub data InvokeError : Type 0 where
  compilation_failed : String → InvokeError
  not_live_allowed digest_mismatch confirmation_mismatch : InvokeError
  binding_changed : String → InvokeError
  executor_escapes : InvokeError
  executor_unavailable hash_drift : String → InvokeError
  invocation_failed : String → Verb → ℕ → String → InvokeError
  action_failed : String → Verb → ℕ → String → InvokeError

-- `state["status"]`; `other` is any value that `_read_state` does not accept, or none.
pub data Status : Type 0 where
  clean active dirty other : Status

-- `both p c` is the error `f"{primary_error}; {cleanup_error}"`.
pub data DispatchError : Type 0 where
  unknown_action lock_held state_unreadable state_invalid adaptive : DispatchError
  not_clean : Status → DispatchError
  refused : InvokeError → DispatchError
  preflight_failed cleanup_incomplete : List InvokeError → DispatchError
  both : DispatchError → DispatchError → DispatchError
  not_dirty wrong_claim wrong_profiles : DispatchError

-- `state.get("applied", [])`; `other` is a value that is no list.
pub data Applied : Type 0 where
  absent other : Applied
  names : List String → Applied

-- The JSON object of the state file. A key that is not written is `none`; `error` is kept as the
-- error whose text it is.
pub record StateDoc : Type 0 where
  pub schema_version : String
  pub status : Status
  pub fence : Option ℕ
  pub scenario : Option String
  pub scenario_id : Option String
  pub plan_digest : Option String
  pub profiles : List String
  pub applied : Applied
  pub error : Option DispatchError

-- The state file: missing, not readable as JSON, JSON that is no object, or an object.
pub data Stored : Type 0 where
  missing unreadable not_an_object : Stored
  document : StateDoc → Stored

-- What a call can raise: the dispatcher's own error, an `OSError` of a write, or the
-- `AttributeError` of a state file that is no object.
pub data Raised : Type 0 where
  dispatch_error : DispatchError → Raised
  os_error attribute_error : Raised

pub data Result (A : Type 0) : Type 0 where
  ok : A → Result A
  err : Raised → Result A

-- What left the process: an executor call, with the environment in which it was made, the
-- scenario, digest and confirmation that it was made under, and its command line; or a state file.
pub data Event (Env : Type 0) : Type 0 where
  called : Env → String → Verb → List String → Event Env
  saved : StateDoc → Event Env

-- `trace` is kept newest first, and no code reads it.
pub record World (Env : Type 0) : Type 0 where
  pub env : Env
  pub file : Stored
  pub trace : List (Event Env)

-- The result of `dispatch`. A complete run's has no `preflight_warnings`.
pub record Report : Type 0 where
  pub status : String
  pub scenario : String
  pub scenario_id : String
  pub plan_digest : String
  pub fence : ℕ
  pub profiles : List String
  pub cleanup : String
  pub preflight_warnings : List InvokeError
