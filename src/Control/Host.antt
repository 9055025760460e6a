-- ===== src/Control/Host.antt =====
-- What scripts/scenarios/profile-control.py meets outside itself, its two state files, its errors,
-- and the world that an operation reads and changes.
use testbed_services.Common.{ℕ, String, Bool, Option, List}
use testbed_services.Common.Int.{ℤ}
use testbed_services.Plan.{Plan}
use testbed_services.Capsule.{Reply, Verb}

-- `lease["expires_at"]`: missing or empty, not an ISO time, or a time.
pub data Expiry : Type 0 where
  never malformed : Expiry
  at : ℕ → Expiry

-- An entry of the coordinator's state, `active_lease` or `dirty_run`.
pub record Lease : Type 0 where
  pub run_id : String
  pub fencing_token : ℤ
  pub scenario_id : String
  pub expires_at : Expiry

-- `cleanup_claim`: missing or null, a value that is no object, or a claim.
pub data Claim : Type 0 where
  absent other : Claim
  claim : String → ℤ → Claim

pub record Coordinator : Type 0 where
  pub active_lease : Option Lease
  pub dirty_run : Option Lease
  pub cleanup_claim : Claim

-- A JSON file: missing, not readable as JSON, JSON that is no object, or an object.
pub data File (A : Type 0) : Type 0 where
  missing unreadable not_an_object : File A
  object : A → File A

-- The value of `json.loads`, if there is one.
pub data Parsed (J : Type 0) : Type 0 where
  invalid null : Parsed J
  value : J → Parsed J

-- `compile_plan`, as a plan or the text of the exception that it raised
pub data Compilation (J : Type 0) : Type 0 where
  failed : String → Compilation J
  compiled : Plan J → Compilation J

-- `loads`, `dumps` and `equal` are `json.loads`, `_canonical` and `==` on JSON values; `timestamp`
-- is `_timestamp`, `show` is `str` of a number. `acquire` is what other processes have done to the
-- environment when the coordinator's lock is obtained, `release` what they have done between its
-- release and the executor call that follows, and `write` whether the control file could be
-- replaced.
pub record ControlHost : Type 1 where
  pub J : Type 0
  pub Env : Type 0
  pub compile_plan : String → Env → Compilation J
  pub resolve : String → Env → String
  pub relative_to_root : String → Env → Bool
  pub runnable : String → Env → Bool
  pub sha256 : String → Env → String
  pub coordinator : Env → File Coordinator
  pub clock : Env → ℕ
  pub acquire : Env → Env
  pub release : Env → Env
  pub runner : List String → Env → Reply × Env
  pub write : Env → Bool × Env
  pub loads : String → Parsed J
  pub dumps : J → String
  pub equal : J → J → Bool
  pub timestamp : ℕ → String
  pub show : ℕ → String
  pub strip : String → String

-- `other` is any text but `apply` and `cleanup`.
pub data Action : Type 0 where
  apply cleanup other : Action

-- The arguments of `execute`.
pub record Operation : Type 0 where
  pub slug : String
  pub profile_id : String
  pub action : Action
  pub run_id : String
  pub fencing_token : ℤ
  pub idempotency_key : String
  pub digest : String
  pub confirmation : String
  pub level_index : Option ℤ
  pub level_id : Option String
  pub parameters_json : Option String

-- The `request` that is stored with a response.
pub record ControlRequest : Type 0 where
  pub run_id : String
  pub fencing_token : ℤ
  pub scenario : String
  pub profile : String
  pub action : Action
  pub plan_digest : String
  pub level_index : Option ℤ
  pub level_id : Option String
  pub parameters_json : Option String

-- The response of an apply, `{"applied_at": …}`, and that of a cleanup.
pub data Response : Type 0 where
  applied : (applied_at : String) → Response
  cleaned : (succeeded : Bool) (effect_ended_at reason : Option String) → Response

pub record Answer : Type 0 where
  pub request : ControlRequest
  pub response : Response

-- The object of the control file: `results` by idempotency key.
pub record ControlState : Type 0 where
  pub results : List (String × Answer)

pub data ControlError : Type 0 where
  bad_action cleanup_with_level bad_key : ControlError
  compilation_failed : String → ControlError
  not_authorized confirmation_mismatch : ControlError
  not_bound escapes unavailable hash_drift : ControlError
  state_unreadable state_invalid : ControlError
  no_lease claim_fence lease_expired claim_mismatch : ControlError
  bad_json not_canonical outside_ladder wrong_level_id wrong_parameters : ControlError
  another_level level_id_given : ControlError
  key_reused : ControlError
  preflight_failed apply_failed : String → ControlError

-- What `execute` can raise: its own error, the runner's exception, an `OSError` of a write, or the
-- `ValueError` of a time that is no ISO time.
pub data Failure : Type 0 where
  control_error : ControlError → Failure
  runner_error : String → Failure
  os_error value_error : Failure

pub data Outcome (A : Type 0) : Type 0 where
  pass : A → Outcome A
  refuse : Failure → Outcome A

-- An executor call, with its verb and command line, the environment in which it was made, and the
-- one in which it was last checked under the coordinator's lock.
pub record Call (Env : Type 0) : Type 0 where
  pub env : Env
  pub checked : Env
  pub verb : Verb
  pub line : List String

-- The control file is this process's own while it holds the control lock. `trace` is kept newest
-- first, and no code reads it.
pub record ControlWorld (Env : Type 0) : Type 0 where
  pub env : Env
  pub file : File ControlState
  pub trace : List (Call Env)
