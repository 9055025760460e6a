-- ===== src/Compiler/ContractDocs.antt =====
-- The catalog and the registry that scripts/scenarios/compile-plan.py validates, and its refusals.
use Prim.Native.Char.{code}
use testbed_services.Common.{
  ℕ, String, str_eq, Bool, true, false, not, ◌&&◌, ◌||◌, Option, none, some, List, [], ◌∷◌, any,
  all, is_none, leb, ◌==◌,
}
use testbed_services.Compiler.Assembly.{is_member}

-- What a validation raises.
pub data Refusal : Type 0 where
  adapters_differ : Refusal
  kubeconfig_refused : (location_id : String) → Refusal
  unknown_adapter raw_promql no_template : (query_id : String) → Refusal
  executor_missing unknown_location unknown_query inexact_parameters unknown_level_scenario :
      (profile_id : String) → Refusal
  no_levels bad_level_ids undeclared_parameters : (profile_id : String) → Refusal
  unknown_alias unknown_profile : (scenario_id : String) → Refusal
  live_ids_differ : Refusal
  not_ready not_trusted ticks_unbounded settling_unbounded baseline_open binding_mismatch
        unknown_primary no_controller_levels not_one_level not_approved parameters_not_approved
        bad_calibration ladder_differs unsupported_mode ids_not_unique adapter_mismatch
        cannot_escalate abort_by_pod no_abort_gate no_recovery_gate capture_mismatch :
      (scenario_id : String) → Refusal
  no_conditions bad_conditions unbound_signals : (scenario_id condition_name : String) → Refusal
  raw_query_text unknown_query_id : Refusal
  index_error : Refusal
  missing_key : (key : String) → Refusal
  identity_mismatch injection_mismatch action_mismatch catalog_controller_mismatch
        registered_controller_mismatch prerequisite_mismatch :
      (slug : String) → Refusal

-- A validation ends without a value, or raises.
pub data Validation : Type 0 where
  valid : Validation
  refused : Refusal → Validation

infixr 4 ◌>>◌
abbrev pub ◌>>◌ : Validation → Validation → Validation
valid >> next = next
refused e >> next = refused e

-- `if not b: raise …`
abbrev pub require : Bool → Refusal → Validation
require true e = valid
require false e = refused e

-- a loop over `xs`
unfoldable pub each : {A : Type 0} → (A → Validation) → List A → Validation
each check [] = valid
each check (x ∷ xs) = check x >> each check xs

-- The documents, with the keys that are read; a value of another type than the one that the code
-- asks for counts as missing. Tables are lists of keys and values.
pub record LocationDoc : Type 0 where
  pub transport : Option String
  pub kubeconfig : Option String
  pub resolved : Bool

pub record QueryDoc : Type 0 where
  pub adapter : Option String
  pub has_promql : Bool
  pub template_id : Option String

-- A rung; one without parameters is not modelled.
pub record LevelDoc (J : Type 0) : Type 0 where
  pub level_id : Option String
  pub parameters : J

pub record ProfileDoc (J : Type 0) : Type 0 where
  pub executor : String
  pub is_fixed : Bool
  pub default_location : Option String
  pub allowed_locations : List String
  pub default_queries : List String
  pub live_supported : Bool
  pub allowed_scenarios : List String
  pub scenario_parameters : List (String × J)
  pub scenario_levels : List (String × Option (List (LevelDoc J)))

pub record CatalogRow : Type 0 where
  pub id : String
  pub slug : String
  pub readiness : String
  pub prerequisite : String
  pub load_mode : String
  pub injection_location : Option String
  pub profiles : List String

-- The catalog and the registry; `is_file` asks for an executor beside the compiler.
pub record Contracts : Type 1 where
  pub J : Type 0
  pub equal : J → J → Bool
  pub is_file : String → Bool
  pub adapters : List String
  pub locations : List (String × LocationDoc)
  pub aliases : List (String × String)
  pub queries : List (String × QueryDoc)
  pub profiles : List (String × ProfileDoc J)
  pub scenarios : List CatalogRow

abbrev pub required_adapters : List String
required_adapters =
    "loadgen_summary" ∷ "http_probe" ∷ "prometheus" ∷ "kubernetes" ∷ "database" ∷ "business_probe"
    ∷ "capture_status" ∷ "host_probe" ∷ "clickhouse" ∷ []

-- the keys of a table
abbrev pub keys : {A : Type 0} → List (String × A) → List String
keys [] = []
keys ((k, a) ∷ rows) = k ∷ keys rows

-- `set(xs) <= set(ys)` and `set(xs) == set(ys)`
abbrev pub is_subset : List String → List String → Bool
is_subset xs ys = all (λ x. is_member x ys) xs

abbrev pub same_set : List String → List String → Bool
same_set xs ys = is_subset xs ys && is_subset ys xs

-- `o == s`, `o in xs` and `bool(o)`, for a text that may be missing
abbrev pub is_text : Option String → String → Bool
is_text none s = false
is_text (some t) s = str_eq t s

abbrev pub is_some_member : Option String → List String → Bool
is_some_member none xs = false
is_some_member (some s) xs = is_member s xs

abbrev pub has_text : Option String → Bool
has_text none = false
has_text (some s) = not (str_eq s "")

-- `[a-z0-9]`
abbrev pub is_alnum : ℕ → Bool
is_alnum c = (leb b'a' c && leb c b'z') || (leb b'0' c && leb c b'9')

-- `[a-z0-9-]*`
unfoldable pub is_slug : String → Bool
is_slug String.[] = true
is_slug (String.◌∷◌ c s) = (is_alnum (code c) || code c == b'-') && is_slug s

-- `[a-z0-9][a-z0-9-]+`
unfoldable pub is_level_id : String → Bool
unfolding is_slug
is_level_id String.[] = false
is_level_id (String.◌∷◌ c String.[]) = false
is_level_id (String.◌∷◌ c (String.◌∷◌ d s)) = is_alnum (code c) && is_slug (String.◌∷◌ d s)

abbrev pub is_some_level_id : Option String → Bool
is_some_level_id none = false
is_some_level_id (some s) = is_level_id s

-- `len(xs) == len(set(xs))`, of texts that may be missing
abbrev pub occurs : Option String → List (Option String) → Bool
occurs none xs = any is_none xs
occurs (some s) xs = any (λ y. is_text y s) xs

unfoldable pub is_distinct : List (Option String) → Bool
is_distinct [] = true
is_distinct (x ∷ xs) = not (occurs x xs) && is_distinct xs
