-- ===== src/Boundary/Live.antt =====
-- The code of scripts/scenarios/profiles/executor_common.py.
use testbed_services.Common.{
  ℕ, String, str_eq, Bool, true, false, not, Option, none, some, List, [], ◌∷◌, ◌++◌, map, any,
  is_none, get_elem?, if◌then◌else◌,
}
use testbed_services.Common.Int.{ℤ, pos, negsuc}
use testbed_services.Plan.{Plan, Instance, Level, confirmation, instances_of}
use testbed_services.Control.Host.{Parsed, invalid, null, value, Compilation, failed, compiled}

-- `J` is a JSON value; `loads`, `dumps` and `equal` are `json.loads`, the canonical `json.dumps`
-- and `==`. `builder` and `validator` are those that an executor passes to `main_for`, with what a
-- validator raises as a text; `registered` is whether the registry says that the profile supports
-- live runs; `execute` is the return code of the process.
pub record BoundaryHost : Type 1 where
  pub J : Type 0
  pub compile_plan : String → Compilation J
  pub loads : String → Parsed J
  pub dumps : J → String
  pub equal : J → J → Bool
  pub builder : Plan J → String → List String × String
  pub validator : String → J → Option String
  pub registered : Bool
  pub execute : List String → String → ℕ

-- `ExecutorError`, by its message, and an exception of another part, by its text
pub data BoundaryError : Type 0 where
  not_one_instance not_allowed wrong_digest wrong_confirmation : BoundaryError
  not_together fixed_profile outside_ladder bad_json not_canonical wrong_parameters : BoundaryError
  scenario_required : BoundaryError
  invalid_parameters uncompiled : String → BoundaryError

pub data Checked (A : Type 0) : Type 0 where
  pass : A → Checked A
  refuse : BoundaryError → Checked A

infixl 5 ◌>>=◌
abbrev pub ◌>>=◌ : {A B : Type 0} → Checked A → (A → Checked B) → Checked B
pass a >>= f = f a
refuse e >>= f = refuse e

-- the arguments of the command line
pub record Arguments : Type 0 where
  pub action : String
  pub scenario : Option String
  pub live : Bool
  pub plan_digest : Option String
  pub confirm : Option String
  pub level_index : Option ℤ
  pub parameters_json : Option String

-- What `main_for` does: it prints whether live runs are supported, it prints what it would run, or
-- it has run the process, with its return code.
pub data Effect : Type 0 where
  support_printed : Bool → Effect
  invocation_printed : (argv : List String) (stdin : String) → Effect
  executed : (argv : List String) (stdin : String) (code : ℕ) → Effect

-- `profile` of the registry, by scenario
pub record Profile (J : Type 0) : Type 0 where
  pub scenario_parameters : List (String × J)
  pub scenario_levels : List (String × List (Level J))

-- the equality of an argument that may be missing with a text
abbrev pub is_text : Option String → String → Bool
is_text none text = false
is_text (some t) text = str_eq t text

abbrev pub both : Bool → Bool → Bool
both true b = b
both false b = not b

abbrev pub remote_action : String → String
remote_action action = if str_eq action "dry-run" then "preflight" else action

-- `.get(scenario_id)` of a table of the profile
unfoldable pub of_scenario : {A : Type 0} → String → List (String × A) → Option A
of_scenario scenario_id [] = none
of_scenario scenario_id ((key, a) ∷ rows) =
    if str_eq key scenario_id then some a else of_scenario scenario_id rows

module _ {J : Type 0} where
  abbrev pub sole_row : List (Instance J) → Checked (Instance J)
  sole_row [] = refuse not_one_instance
  sole_row (i ∷ []) = pass i
  sole_row (i ∷ j ∷ rows) = refuse not_one_instance

  -- `profile_instance`
  unfoldable pub profile_instance : Plan J → String → Checked (Instance J)
  profile_instance plan profile_id = sole_row (instances_of plan profile_id)

  -- `authorize_live`
  unfoldable pub authorize_live : Plan J → Option String → Option String → Checked Unit
  authorize_live plan digest confirm =
      if not plan.live_allowed
      then refuse not_allowed
      else if not (is_text digest plan.plan_digest)
      then refuse wrong_digest
      else if not (is_text confirm (confirmation plan))
      then refuse wrong_confirmation
      else pass tt

  unfoldable pub rung_or_refuse : Option (Level J) → Checked (Level J)
  rung_or_refuse none = refuse outside_ladder
  rung_or_refuse (some level) = pass level

  -- `levels[level_index]`, unless it is below zero or at least `len(levels)`
  unfoldable pub level_at : List (Level J) → ℤ → Checked (Level J)
  level_at [] index = refuse fixed_profile
  level_at (l ∷ ls) (negsuc i) = refuse outside_ladder
  level_at (l ∷ ls) (pos i) = rung_or_refuse (get_elem? (l ∷ ls) i)

  -- the assignments to `instance`, which is the one entry with its profile id
  unfoldable pub bind_row : String → Level J → Instance J → Instance J
  bind_row profile_id level row =
      if str_eq row.profile_id profile_id
      then record row { parameters = level.parameters; selected_level_id = some level.level_id }
      else row

  unfoldable pub bind_level : Plan J → String → Level J → Plan J
  unfolding bind_row
  bind_level plan profile_id level = record plan {
    profile_instances = map (bind_row profile_id level) plan.profile_instances;
  }

  abbrev pub levels_or_none : Option (List (Level J)) → List (Level J)
  levels_or_none none = []
  levels_or_none (some levels) = levels

  abbrev pub default_set : Option J → List J
  default_set none = []
  default_set (some default) = default ∷ []

module _ (host : BoundaryHost) where
  open host use {J, compile_plan, loads, dumps, equal, builder, validator, registered, execute}

  -- the checks of the raw parameters against the level that was chosen
  unfoldable pub check_supplied : String → Parsed J → Level J → Checked Unit
  check_supplied raw invalid level = refuse bad_json
  check_supplied raw null level =
      if str_eq raw "null" then refuse wrong_parameters else refuse not_canonical
  check_supplied raw (value supplied) level =
      if not (str_eq raw (dumps supplied))
      then refuse not_canonical
      else if not (equal supplied level.parameters)
      then refuse wrong_parameters
      else pass tt

  -- `bind_level_parameters`, on the instance of the profile
  unfoldable pub bind_instance :
      Plan J → String → Instance J → Option ℤ → Option String → Checked (Plan J × Option String)
  bind_instance plan profile_id i none raw = pass (plan, i.selected_level_id)
  bind_instance plan profile_id i (some index) none = refuse not_together
  bind_instance plan profile_id i (some index) (some raw) = do
    level ← level_at i.approved_levels index
    checked ← check_supplied raw (loads raw) level
    pass (bind_level plan profile_id level, some level.level_id)

  unfoldable pub bind_level_parameters :
      Plan J → String → Option ℤ → Option String → Checked (Plan J × Option String)
  bind_level_parameters plan profile_id index raw =
      if not (both (is_none index) (is_none raw))
      then refuse not_together
      else do i ← profile_instance plan profile_id; bind_instance plan profile_id i index raw

  -- one more rung of `approved_parameter_sets`
  unfoldable pub add_rungs : List J → List (Level J) → List J
  add_rungs approved [] = approved
  add_rungs approved (l ∷ ls) =
      add_rungs
        (if any (λ a. equal a l.parameters) approved
          then approved
          else approved ++ l.parameters ∷ [])
        ls

  unfoldable pub approved_parameter_sets : Profile J → String → List J
  approved_parameter_sets profile scenario_id =
      add_rungs (default_set (of_scenario scenario_id profile.scenario_parameters))
        (levels_or_none (of_scenario scenario_id profile.scenario_levels))

  unfoldable pub compiled_plan : Compilation J → Checked (Plan J)
  compiled_plan (failed message) = refuse (uncompiled message)
  compiled_plan (compiled plan) = pass plan

  unfoldable pub validated : Option String → Checked Unit
  validated none = pass tt
  validated (some message) = refuse (invalid_parameters message)

  -- the end of `main_for`, with the command line of the executor
  unfoldable pub launch : Arguments → Plan J → List String × String → Checked Effect
  launch a plan (argv, stdin) = if not a.live then pass (invocation_printed argv stdin) else do
    authorized ← authorize_live plan a.plan_digest a.confirm
    pass (executed argv stdin (execute argv stdin))

  unfoldable pub main_scenario : String → Arguments → String → Checked Effect
  main_scenario profile_id a slug = do
    plan ← compiled_plan (compile_plan slug)
    selected ← bind_level_parameters plan profile_id a.level_index a.parameters_json
    i ← profile_instance selected.0 profile_id
    valid ← validated (validator plan.scenario_id i.parameters)
    launch a plan (builder selected.0 (remote_action a.action))

  -- without a scenario, which may also be an empty text
  unfoldable pub main_unbound : Arguments → Checked Effect
  main_unbound a = if a.live then refuse scenario_required else pass (support_printed registered)

  unfoldable pub main_given : String → Arguments → Option String → Checked Effect
  main_given profile_id a none = main_unbound a
  main_given profile_id a (some slug) =
      if str_eq slug "" then main_unbound a else main_scenario profile_id a slug

  unfoldable pub main_for : String → Arguments → Checked Effect
  main_for profile_id a = main_given profile_id a a.scenario
