-- ===== src/Compiler/Assembly.antt =====
-- `compile_plan` of scripts/scenarios/compile-plan.py, from the validated registry and manifest on.
use testbed_services.Common.{
  ℕ, suc, String, str_eq, Bool, false, ◌&&◌, Option, none, some, List, [], ◌∷◌, any, all, get_or,
  find?, if◌then◌else◌,
}
use testbed_services.Plan.{Level, Instance}

-- An entry of `profiles`. Tables are lists of keys and values.
pub record ProfileEntry (J : Type 0) : Type 0 where
  pub is_fixed : Bool
  pub default_location : Option String
  pub allowed_locations : List String
  pub executor : String
  pub live_supported : Bool
  pub allowed_scenarios : List String
  pub scenario_parameters : List (String × J)
  pub scenario_levels : List (String × List (Level J))

pub record Scenario : Type 0 where
  pub id : String
  pub ready : Bool
  pub injection_location : String
  pub profiles : List String

-- The manifest's `execution.controller`, with its rungs as the compiler rewrites them; `complete` is
-- `controller_complete`.
pub record Controller (J : Type 0) : Type 0 where
  pub primary_ref : Option String
  pub levels : List (Level J)
  pub complete : Bool

-- The registry's tables. `resolved` says whether a location's entry is resolved; `empty`, `truthy`
-- and `equal` are the JSON value `{}`, its truth and `==`; `sha256` is the digest of a file.
pub record Registry : Type 1 where
  pub J : Type 0
  pub profiles : List (String × ProfileEntry J)
  pub locations : List (String × Bool)
  pub aliases : List (String × String)
  pub empty : J
  pub truthy : J → Bool
  pub equal : J → J → Bool
  pub sha256 : String → String

-- An entry of `profile_instances`: what its readers see, and the fields that only the compiler reads.
pub record PlanInstance (J : Type 0) : Type 0 where
  pub sequence : ℕ
  pub row : Instance J
  pub location_id : String
  pub resolved : Bool
  pub live_supported : Bool

-- A missing key of a table, or a location that the profile may not use.
pub data CompileError : Type 0 where
  key_error : String → CompileError
  location_refused : (profile_id : String) → CompileError

pub data Compiling (A : Type 0) : Type 0 where
  done : A → Compiling A
  failed : CompileError → Compiling A

infixl 5 ◌>>=◌
abbrev pub ◌>>=◌ : {A B : Type 0} → Compiling A → (A → Compiling B) → Compiling B
done a >>= f = f a
failed e >>= f = failed e

-- `table.get(key)`, and `table[key]`
unfoldable pub at_key : {A : Type 0} → String → List (String × A) → Option A
at_key key [] = none
at_key key ((k, a) ∷ rows) = if str_eq k key then some a else at_key key rows

abbrev pub or_key_error : {A : Type 0} → String → Option A → Compiling A
or_key_error key none = failed (key_error key)
or_key_error key (some a) = done a

abbrev pub is_member : String → List String → Bool
is_member x xs = any (λ y. str_eq y x) xs

abbrev pub is_primary : Option String → String → Bool
is_primary none profile_id = false
is_primary (some primary) profile_id = str_eq profile_id primary

module _ {J : Type 0} where
  abbrev pub level_id_of : Option (Level J) → Option String
  level_id_of none = none
  level_id_of (some level) = some level.level_id

  -- `validate_profile_location`, where the location may be `None`
  unfoldable pub allowed_location : String → ProfileEntry J → Option String → Compiling String
  allowed_location profile_id profile none = failed (location_refused profile_id)
  allowed_location profile_id profile (some location) =
      if is_member location profile.allowed_locations
      then done location
      else failed (location_refused profile_id)

  -- `live_allowed`
  unfoldable pub live_allowed : Scenario → Controller J → List (PlanInstance J) → Bool
  live_allowed scenario controller instances =
      scenario.ready && controller.complete && all (λ b. b.live_supported && b.resolved) instances

module _ (registry : Registry) (scenario : Scenario) (controller : Controller registry.J) where
  open registry use {J, profiles, locations, aliases, empty, truthy, equal, sha256}

  -- `approved_levels`
  unfoldable pub approved_levels : String → ProfileEntry J → List (Level J)
  approved_levels profile_id profile =
      if is_primary controller.primary_ref profile_id
      then controller.levels
      else get_or (at_key scenario.id profile.scenario_levels) []

  -- `selected_level_id`
  unfoldable pub selected_level : List (Level J) → J → Option String
  selected_level levels parameters =
      level_id_of (find? (λ level. equal level.parameters parameters) levels)

  unfoldable pub parameters_of : ProfileEntry J → J
  parameters_of profile = get_or (at_key scenario.id profile.scenario_parameters) empty

  -- `instance_live_supported`
  unfoldable pub supports_live : ProfileEntry J → Bool
  unfolding parameters_of
  supports_live profile =
      profile.live_supported
      && is_member scenario.id profile.allowed_scenarios
      && truthy (parameters_of profile)

  abbrev pub location_of : ProfileEntry J → String → Option String
  location_of profile scenario_location =
      if profile.is_fixed then profile.default_location else some scenario_location

  -- the fields of an instance, from its location and whether that is resolved
  unfoldable pub instance_at : ℕ → String → ProfileEntry J → String → Bool → PlanInstance J
  unfolding approved_levels selected_level parameters_of supports_live
  instance_at sequence profile_id profile location_id resolved =
      let parameters = parameters_of profile in
      let levels = approved_levels profile_id profile in
      record {
        sequence = sequence;
        row = record {
          profile_id = profile_id;
          executor = profile.executor;
          executor_sha256 = sha256 profile.executor;
          parameters = parameters;
          approved_levels = levels;
          selected_level_id = selected_level levels parameters;
        };
        location_id = location_id;
        resolved = resolved;
        live_supported = supports_live profile;
      }

  -- one round of the loop over `scenario["profiles"]`
  unfoldable pub compile_instance : String → ℕ → String → Compiling (PlanInstance J)
  compile_instance scenario_location sequence profile_id = do
    profile ← or_key_error profile_id (at_key profile_id profiles)
    location ← allowed_location profile_id profile (location_of profile scenario_location)
    resolved ← or_key_error location (at_key location locations)
    done (instance_at sequence profile_id profile location resolved)

  unfoldable pub compile_instances : String → ℕ → List String → Compiling (List (PlanInstance J))
  compile_instances scenario_location sequence [] = done []
  compile_instances scenario_location sequence (profile_id ∷ more) = do
    b ← compile_instance scenario_location sequence profile_id
    rest ← compile_instances scenario_location (suc sequence) more
    done (b ∷ rest)

  -- the instances of the plan
  unfoldable pub assemble : Compiling (List (PlanInstance J))
  assemble = do
    location ← or_key_error scenario.injection_location (at_key scenario.injection_location aliases)
    compile_instances location 0 scenario.profiles
