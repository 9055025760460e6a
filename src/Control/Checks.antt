-- ===== src/Control/Checks.antt =====
-- The checks of scripts/scenarios/profile-control.py before an executor may be called: `_plan`,
-- `_instance`, `_load`, `_verify_lease`, `_parameters` and the idempotency key.
use Prim.Native.Char.{code}
use testbed_services.Common.{
  ℕ, zero, suc, String, str_append, str_eq, Bool, true, false, not, ◌&&◌, ◌||◌, Option, none, some,
  List, [], ◌∷◌, leb, get_elem?, is_none, if◌then◌else◌,
}
use testbed_services.Common.Int.{ℤ, pos, negsuc, int_eq}
use testbed_services.Plan.{Plan, Instance, Level, instances_of}
use testbed_services.Control.Host.{
  Expiry, never, malformed, at, Lease, Claim, absent, claim, Coordinator, File, missing, unreadable,
  not_an_object, object, Parsed, invalid, null, value, Compilation, failed, compiled, ControlHost,
  Action, apply, cleanup, other, Operation, ControlError, compilation_failed, not_authorized,
  confirmation_mismatch, not_bound, escapes, unavailable, hash_drift, state_unreadable,
  state_invalid, no_lease, claim_fence, lease_expired, claim_mismatch, bad_json, not_canonical,
  outside_ladder, wrong_level_id, wrong_parameters, another_level, level_id_given, control_error,
  value_error, Outcome, pass, refuse,
}

infixl 5 ◌>>=◌
abbrev pub ◌>>=◌ : {A B : Type 0} → Outcome A → (A → Outcome B) → Outcome B
pass a >>= f = f a
refuse e >>= f = refuse e

abbrev pub deny : {A : Type 0} → ControlError → Outcome A
deny e = refuse (control_error e)

abbrev pub is_cleanup : Action → Bool
is_cleanup apply = false
is_cleanup cleanup = true
is_cleanup other = false

abbrev pub is_apply : Action → Bool
is_apply apply = true
is_apply cleanup = false
is_apply other = false

-- `[A-Za-z0-9]`
is_alnum : ℕ → Bool
is_alnum c = (leb b'A' c && leb c b'Z') || (leb b'a' c && leb c b'z') || (leb b'0' c && leb c b'9')

-- `[A-Za-z0-9._:-]`
is_key_char : ℕ → Bool
unfolding is_alnum
is_key_char c =
    is_alnum c
    || leb b'.' c && leb c b'.'
    || leb b'_' c && leb c b'_'
    || leb b':' c && leb c b':'
    || leb b'-' c && leb c b'-'

-- `[A-Za-z0-9._:-]{0,room}`, to the end of the text
key_rest : ℕ → String → Bool
unfolding is_key_char
key_rest room String.[] = true
key_rest zero (String.◌∷◌ c s) = false
key_rest (suc room) (String.◌∷◌ c s) = is_key_char (code c) && key_rest room s

-- `re.fullmatch(r"[A-Za-z0-9][A-Za-z0-9._:-]{0,255}", key)`
unfoldable pub is_key : String → Bool
unfolding is_alnum key_rest
is_key String.[] = false
is_key (String.◌∷◌ c s) = is_alnum (code c) && key_rest 255 s

-- `_load`
unfoldable pub load_file : {A : Type 0} → A → File A → Outcome A
load_file default missing = pass default
load_file default unreadable = deny state_unreadable
load_file default not_an_object = deny state_invalid
load_file default (object a) = pass a

module _ {J : Type 0} where
  -- `_plan`, on what the compiler returned
  unfoldable pub authorised_plan : String → String → Compilation J → Outcome (Plan J)
  authorised_plan digest confirmation (failed message) = deny (compilation_failed message)
  authorised_plan digest confirmation (compiled p) =
      if not p.live_allowed || not (str_eq p.plan_digest digest)
      then deny not_authorized
      else if not (
          str_eq confirmation
            (str_append "LIVE:" (str_append p.scenario_id (str_append ":" digest))))
      then deny confirmation_mismatch
      else pass p

  unfoldable pub only_instance : List (Instance J) → Outcome (Instance J)
  only_instance [] = deny not_bound
  only_instance (i ∷ []) = pass i
  only_instance (i ∷ j ∷ more) = deny not_bound

abbrev pub holds : Lease → String → ℤ → String → Bool
holds lease run_id token scenario_id =
    str_eq lease.run_id run_id
    && int_eq lease.fencing_token token
    && str_eq lease.scenario_id scenario_id

abbrev pub claim_matches : Claim → String → ℤ → Bool
claim_matches absent run_id token = false
claim_matches Claim.other run_id token = false
claim_matches (claim r t) run_id token = str_eq r run_id && int_eq t token

abbrev pub is_claimed : Claim → Bool
is_claimed absent = false
is_claimed Claim.other = true
is_claimed (claim r t) = true

-- `isinstance(row, dict)` and the three fields
abbrev pub is_held : Option Lease → String → ℤ → String → Bool
is_held none run_id token scenario_id = false
is_held (some lease) run_id token scenario_id = holds lease run_id token scenario_id

-- The test of `expires_at`, for the active lease.
unfoldable pub check_expiry : Expiry → ℕ → Bool → Bool → Outcome Unit
check_expiry never now allow_dirty matching = pass tt
check_expiry malformed now allow_dirty matching = refuse value_error
check_expiry (at expires) now allow_dirty matching =
    if leb expires now && not (allow_dirty && matching) then deny lease_expired else pass tt

unfoldable pub check_claim : Claim → Bool → Bool → Outcome Unit
check_claim c allow_dirty matching =
    if allow_dirty && is_claimed c && not matching then deny claim_mismatch else pass tt

-- `_verify_lease` with the active lease as the one that was found; then with the dirty run.
unfoldable pub check_active : Option Lease → ℕ → Bool → Claim → Bool → Outcome Unit
unfolding check_claim
check_active none now allow_dirty c matching = deny no_lease
check_active (some lease) now allow_dirty c matching =
    if not allow_dirty && is_claimed c then deny claim_fence else do
      checked ← check_expiry lease.expires_at now allow_dirty matching
      check_claim c allow_dirty matching

unfoldable pub check_lease : Coordinator → ℕ → String → ℤ → String → Bool → Outcome Unit
check_lease state now run_id token scenario_id allow_dirty =
    if is_held state.active_lease run_id token scenario_id
    then check_active state.active_lease now allow_dirty state.cleanup_claim
        (claim_matches state.cleanup_claim run_id token)
    else if allow_dirty && is_held state.dirty_run run_id token scenario_id
    then pass tt
    else deny no_lease

abbrev pub no_coordinator : Coordinator
no_coordinator = record { active_lease = none; dirty_run = none; cleanup_claim = absent }

-- A plan, the instance of the profile in it, and the path of its executor.
pub record Bound (J : Type 0) : Type 0 where
  pub plan : Plan J
  pub bound_instance : Instance J
  pub path : String

module _ (host : ControlHost) where
  open host use {
    J, Env, compile_plan, resolve, relative_to_root, runnable, sha256, coordinator, clock, loads,
    dumps, equal,
  }

  -- `_instance`
  unfoldable pub trusted_path : Instance J → Env → Outcome String
  trusted_path i env =
      let path = resolve i.executor env in
      if not (relative_to_root path env)
      then deny escapes
      else if not (runnable path env)
      then deny unavailable
      else if not (str_eq (sha256 path env) i.executor_sha256)
      then deny hash_drift
      else pass path

  unfoldable pub verify_lease : Operation → String → Env → Outcome Unit
  verify_lease op scenario_id env = do
    state ← load_file no_coordinator (coordinator env)
    check_lease state (clock env) op.run_id op.fencing_token scenario_id (is_cleanup op.action)

  -- The three checks under the coordinator's lock, before each executor call.
  unfoldable pub authorise : Operation → Env → Outcome (Bound J)
  authorise op env = do
    p ← authorised_plan op.digest op.confirmation (compile_plan op.slug env)
    i ← only_instance (instances_of p op.profile_id)
    path ← trusted_path i env
    leased ← verify_lease op p.scenario_id env
    pass (record { plan = p; bound_instance = i; path = path })

  -- `json.loads(raw) if raw is not None else None`, and the test of the encoding
  canonical_json : String → Parsed J → Outcome (Option J)
  canonical_json raw invalid = deny bad_json
  canonical_json raw null = if str_eq raw "null" then pass none else deny not_canonical
  canonical_json raw (value j) = if str_eq raw (dumps j) then pass (some j) else deny not_canonical

  unfoldable pub supplied_json : Option String → Outcome (Option J)
  unfolding canonical_json
  supplied_json none = pass none
  supplied_json (some raw) = canonical_json raw (loads raw)

  -- the truth of `supplied == expected`
  abbrev pub same_json : Option J → J → Bool
  same_json none expected = false
  same_json (some j) expected = equal j expected

  -- `levels[level_index]` within `0 <= level_index < len(levels)`
  abbrev pub rung : List (Level J) → Option ℤ → Option (Level J)
  rung levels none = none
  rung levels (some (pos i)) = get_elem? levels i
  rung levels (some (negsuc i)) = none

  abbrev pub other_text : Option String → String → Bool
  other_text none text = false
  other_text (some t) text = not (str_eq t text)

  check_rung : Option (Level J) → Option ℤ → Option String → Option J → Outcome (Option ℤ × J)
  check_rung none level_index level_id supplied = deny outside_ladder
  check_rung (some level) level_index level_id supplied =
      if other_text level_id level.level_id
      then deny wrong_level_id
      else if not (same_json supplied level.parameters)
      then deny wrong_parameters
      else pass (level_index, level.parameters)

  abbrev pub first_index : Option ℤ → Bool
  first_index none = true
  first_index (some i) = int_eq i (pos 0)

  check_fixed : J → Option ℤ → Option String → Option J → Outcome (Option ℤ × J)
  check_fixed expected level_index level_id supplied =
      if not (first_index level_index)
      then deny another_level
      else if not (is_none level_id)
      then deny level_id_given
      else if not (is_none supplied) && not (same_json supplied expected)
      then deny wrong_parameters
      else pass (level_index, expected)

  choose : List (Level J) → J → Option ℤ → Option String → Option J → Outcome (Option ℤ × J)
  unfolding check_rung check_fixed
  choose [] expected level_index level_id supplied =
      check_fixed expected level_index level_id supplied
  choose (l ∷ ls) expected level_index level_id supplied =
      check_rung (rung (l ∷ ls) level_index) level_index level_id supplied

  -- `_parameters`
  unfoldable pub parameters_for :
      Instance J → Option ℤ → Option String → Option String → Outcome (Option ℤ × J)
  unfolding choose
  parameters_for i level_index level_id raw = do
    supplied ← supplied_json raw
    choose i.approved_levels i.parameters level_index level_id supplied
