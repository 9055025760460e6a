-- ===== src/Compiler/Manifests.antt =====
-- `validate_manifest` of scripts/scenarios/compile-plan.py.
use testbed_services.Common.{
  String, str_append, str_eq, Bool, true, false, not, ◌&&◌, ◌||◌, Option, none, some, List, [], ◌∷◌,
  map, filter, all, reverse, length, ◌==◌, is_none, if◌then◌else◌,
}
use testbed_services.Compiler.Assembly.{at_key, PlanInstance}
use testbed_services.Compiler.ContractDocs.{
  missing_key, identity_mismatch, injection_mismatch, action_mismatch, catalog_controller_mismatch,
  registered_controller_mismatch, prerequisite_mismatch, Validation, refused, ◌>>◌, require,
  CatalogRow, is_text,
}
use testbed_services.Compiler.ControllerDocs.{is_flag, same_text, is_texts}

-- A JSON object, as a list of its keys and values; each key stands once.
abbrev pub Object : Type 0 → Type 0
Object J = List (String × J)

-- `runtime` of a manifest's controller: its `profile`, and its other keys
pub record RuntimeDoc (J : Type 0) : Type 0 where
  pub profile : Option (Object J)
  pub others : Object J

-- `execution.controller` of a manifest; `profile_kind` is the kind of its profile.
pub record ManifestController (J : Type 0) : Type 0 where
  pub profile_kind : Option String
  pub dispatcher_mode : Option String
  pub live_enabled : Option Bool
  pub binding : Option (Object J)
  pub runtime : Option (RuntimeDoc J)
  pub has_other_keys : Bool

-- `prerequisite_gate`
pub record GateDoc : Type 0 where
  pub state : Option String
  pub required : Option Bool
  pub description : Option String
  pub live_allowed : Option Bool

pub record ManifestDoc (J : Type 0) : Type 0 where
  pub id : Option String
  pub slug : Option String
  pub readiness : Option String
  pub location : Option String
  pub profile_refs : Option (List String)
  pub plan_refs : Option (List String)
  pub run_refs : Option (List String)
  pub cleanup_refs : Option (List String)
  pub controller : ManifestController J
  pub gate : GateDoc

-- An entry of `controllers`, as JSON: whether it has the two keys that are taken out, its `profile`,
-- and its other keys.
pub record RegisteredDoc (J : Type 0) : Type 0 where
  pub has_dispatcher_mode : Bool
  pub has_live_enabled : Bool
  pub profile : Object J
  pub others : Object J

-- JSON's `==` and `null`, and `str.strip`
pub record ManifestHost : Type 1 where
  pub J : Type 0
  pub equal : J → J → Bool
  pub is_null : J → Bool
  pub strip : String → String

-- `f"injector-profiles/{profile_id}"`
abbrev pub profile_ref : String → String
profile_ref profile_id = str_append "injector-profiles/" profile_id

abbrev pub is_ready : CatalogRow → Bool
is_ready row = str_eq row.readiness "ready"

abbrev pub expected_gate_state : CatalogRow → String
expected_gate_state row = if is_ready row then "satisfied" else "unresolved"

-- `s or "none"`
abbrev pub or_none : String → String
or_none s = if str_eq s "" then "none" else s

-- the keys of a profile that are taken out
abbrev pub is_binding_key : String → Bool
is_binding_key key =
    str_eq key "primary_ref" || str_eq key "companion_refs" || str_eq key "approved_profile_id"

-- `cleanup_order` of a plan
abbrev pub cleanup_order : {J : Type 0} → List (PlanInstance J) → List String
cleanup_order instances = map (λ b. b.row.profile_id) (reverse instances)

module _ (host : ManifestHost) where
  open host use {J, equal, is_null, strip}

  abbrev pub is_value : Option J → J → Bool
  is_value none value = false
  is_value (some j) value = equal j value

  -- `==` of objects
  abbrev pub same_object : Object J → Object J → Bool
  same_object a b = length a == length b && all (λ row. is_value (at_key row.0 b) row.1) a

  abbrev pub is_object : Option (Object J) → Object J → Bool
  is_object none b = false
  is_object (some a) b = same_object a b

  -- `expected_binding`
  unfoldable pub binding_of : J → J → J → Object J
  binding_of primary companions approved =
      let rest = if is_null approved then [] else ("approved_profile_id", approved) ∷ [] in
      ("primary_ref", primary) ∷ ("companion_refs", companions) ∷ rest

  abbrev pub profile_left : RegisteredDoc J → Object J
  profile_left registered = filter (λ row. not (is_binding_key row.0)) registered.profile

  abbrev pub is_runtime : Option (RuntimeDoc J) → RegisteredDoc J → Bool
  is_runtime none registered = false
  is_runtime (some runtime) registered =
      is_object runtime.profile (profile_left registered)
      && same_object runtime.others registered.others

  -- `controller == {…}`
  unfoldable pub is_expected :
      ManifestController J → RegisteredDoc J → (primary companions approved : J) → Bool
  unfolding at_key binding_of
  is_expected controller registered primary companions approved =
      is_text controller.dispatcher_mode "trusted"
      && is_flag controller.live_enabled true
      && is_object controller.binding (binding_of primary companions approved)
      && is_runtime controller.runtime registered
      && not controller.has_other_keys

  -- the three keys that are taken out of the registered profile
  unfoldable pub check_expected :
      String
      → ManifestController J
      → RegisteredDoc J
      → (primary companions approved : Option J) → Validation
  unfolding is_expected
  check_expected slug controller registered none companions approved =
      refused (missing_key "primary_ref")
  check_expected slug controller registered (some p) none approved =
      refused (missing_key "companion_refs")
  check_expected slug controller registered (some p) (some c) none =
      refused (missing_key "approved_profile_id")
  check_expected slug controller registered (some p) (some c) (some a) =
      require (is_expected controller registered p c a) (registered_controller_mismatch slug)

  -- the controller, of a scenario with a registered one or without
  unfoldable pub check_manifest_controller :
      CatalogRow → ManifestController J → Option (RegisteredDoc J) → Validation
  unfolding check_expected
  check_manifest_controller row controller none =
      require
        (is_text controller.profile_kind row.load_mode && is_flag controller.live_enabled false)
        (catalog_controller_mismatch row.slug)
  check_manifest_controller row controller (some registered) =
      require registered.has_dispatcher_mode (missing_key "dispatcher_mode")
      >> require registered.has_live_enabled (missing_key "live_enabled")
      >> check_expected row.slug controller registered (at_key "primary_ref" registered.profile)
          (at_key "companion_refs" registered.profile)
          (at_key "approved_profile_id" registered.profile)

  abbrev pub is_identity : CatalogRow → ManifestDoc J → Bool
  is_identity row manifest =
      is_text manifest.id row.id
      && is_text manifest.slug row.slug
      && is_text manifest.readiness row.readiness

  abbrev pub is_injection : CatalogRow → ManifestDoc J → Bool
  is_injection row manifest =
      same_text manifest.location row.injection_location
      && is_texts manifest.profile_refs (map profile_ref row.profiles)

  abbrev pub is_action : CatalogRow → ManifestDoc J → Bool
  is_action row manifest =
      is_texts manifest.plan_refs row.profiles
      && is_texts manifest.run_refs row.profiles
      && is_texts manifest.cleanup_refs (reverse row.profiles)

  abbrev pub is_gate : CatalogRow → GateDoc → (is_registered : Bool) → Bool
  is_gate row gate is_registered =
      is_text gate.state (expected_gate_state row)
      && is_flag gate.required (not (is_ready row))
      && is_text gate.description (or_none (strip row.prerequisite))
      && is_flag gate.live_allowed is_registered

  -- `validate_manifest`, with the registered controller of the scenario, which may be missing
  unfoldable pub validate_manifest :
      CatalogRow → ManifestDoc J → Option (RegisteredDoc J) → Validation
  unfolding check_manifest_controller
  validate_manifest row manifest registered =
      require (is_identity row manifest) (identity_mismatch row.slug)
      >> require (is_injection row manifest) (injection_mismatch row.slug)
      >> require (is_action row manifest) (action_mismatch row.slug)
      >> check_manifest_controller row manifest.controller registered
      >> require (is_gate row manifest.gate (not (is_none registered)))
          (prerequisite_mismatch row.slug)
