-- ===== src/Compiler/ControllerDocs.antt =====
-- The controllers that scripts/scenarios/compile-plan.py validates, and their condition sets.
use testbed_services.Common.{
  String, str_eq, Bool, true, false, not, ◌&&◌, Option, none, some, List, [], ◌∷◌, map, filter, all,
  last?, is_none, get_or,
}
use testbed_services.Compiler.Assembly.{at_key}
use testbed_services.Compiler.ContractDocs.{
  Refusal, cannot_escalate, no_conditions, bad_conditions, unbound_signals, Validation, valid,
  refused, require, QueryDoc, LevelDoc, CatalogRow, same_set, is_text, is_some_member, is_distinct,
}

-- An item of a condition set.
pub record ConditionDoc (J : Type 0) : Type 0 where
  pub observation : Option String
  pub op : Option String
  pub value : Option J

pub record ConditionSet (J : Type 0) : Type 0 where
  pub all_of : Option (List (ConditionDoc J))
  pub any_of : Option (List (ConditionDoc J))

-- A condition set of a controller: missing or null, another value than an object, or an object.
pub data SetDoc (J : Type 0) : Type 0 where
  absent no_object : SetDoc J
  object : ConditionSet J → SetDoc J

pub record ObservationDoc : Type 0 where
  pub id : Option String
  pub adapter : Option String
  pub query_id : Option String
  pub has_query_text : Bool

pub record ControllerLevel (J : Type 0) : Type 0 where
  pub id : Option String
  pub parameters : Option J

pub record CaptureDoc : Type 0 where
  pub enabled : Option Bool
  pub pre_window : Option String
  pub post_window : Option String
  pub model_snapshot : Option String
  pub create_golden_anomaly : Option Bool
  pub has_other_keys : Bool

-- `controller["profile"]`
pub record ControllerProfile (J : Type 0) : Type 0 where
  pub primary_ref : Option String
  pub companion_refs : Option (List String)
  pub kind : Option String
  pub approved_profile_id : Option String
  pub levels : Option (List (ControllerLevel J))

-- An entry of `controllers`. `live_enabled` says whether the value is true, `required_checks` has the
-- checks of the baseline that are texts.
pub record ControllerDoc (J : Type 0) : Type 0 where
  pub dispatcher_mode : Option String
  pub live_enabled : Bool
  pub tick_interval : Option String
  pub settle_after_change : Option String
  pub clean_window : Option String
  pub required_checks : List String
  pub mode : Option String
  pub profile : ControllerProfile J
  pub observations : List ObservationDoc
  pub success : SetDoc J
  pub escalate : SetDoc J
  pub abort : SetDoc J
  pub must_rule_out : SetDoc J
  pub recovery : SetDoc J
  pub capture : CaptureDoc

-- `controllers.json`, with the JSON values that the gates are compared with.
pub record ControllersDoc (J : Type 0) : Type 0 where
  pub live_scenario_ids : Option (List String)
  pub controllers : List (String × ControllerDoc J)
  pub zero_value : J
  pub ok_value : J
  pub true_value : J

abbrev pub baseline_checks : List String
baseline_checks = "coordinator-clean" ∷ "clean-window" ∷ "baseline-traffic" ∷ "target-health" ∷ []

abbrev pub is_flag : Option Bool → Bool → Bool
is_flag none b = false
is_flag (some true) b = b
is_flag (some false) b = not b

-- the capture policy
abbrev pub is_policy : CaptureDoc → Bool
is_policy capture =
    not capture.has_other_keys
    && is_flag capture.enabled true
    && is_text capture.pre_window "10m"
    && is_text capture.post_window "20m"
    && is_text capture.model_snapshot
        "/var/lib/lucida/ai-models/stream-anomaly/global/v1/model.json"
    && is_flag capture.create_golden_anomaly false

-- `==` of lists of texts and of texts that may be missing
unfoldable pub same_texts : List String → List String → Bool
same_texts [] [] = true
same_texts [] (y ∷ ys) = false
same_texts (x ∷ xs) [] = false
same_texts (x ∷ xs) (y ∷ ys) = str_eq x y && same_texts xs ys

abbrev pub is_texts : Option (List String) → List String → Bool
is_texts none ys = false
is_texts (some xs) ys = same_texts xs ys

abbrev pub same_text : Option String → Option String → Bool
same_text none o = is_none o
same_text (some s) o = is_text o s

-- the ids, where a list is there
abbrev pub covers : Option (List String) → List String → Bool
covers none ids = false
covers (some live) ids = is_distinct (map some live) && same_set live ids

-- the last row of the catalog with the id
unfoldable pub catalog_row : String → List CatalogRow → Option CatalogRow
catalog_row id rows = last? (filter (λ row. str_eq row.id id) rows)

-- the texts among the ids
abbrev pub texts_of : List (Option String) → List String
texts_of [] = []
texts_of (none ∷ os) = texts_of os
texts_of (some s ∷ os) = s ∷ texts_of os

abbrev pub query_of : Option String → List (String × QueryDoc) → Option QueryDoc
query_of none queries = none
query_of (some id) queries = at_key id queries

abbrev pub adapter_of : Option QueryDoc → Option String
adapter_of none = none
adapter_of (some query) = query.adapter

abbrev pub is_one : {A : Type 0} → List A → Bool
is_one [] = false
is_one (x ∷ []) = true
is_one (x ∷ y ∷ ys) = false

module _ {J : Type 0} where
  abbrev pub refs_in : List String → List (ConditionDoc J) → Bool
  refs_in available items = all (λ c. is_some_member c.observation available) items

  -- the items of the only one of `all` and `any` that is there
  abbrev pub only_one :
      Option (List (ConditionDoc J)) → Option (List (ConditionDoc J)) → List (ConditionDoc J)
  only_one none none = []
  only_one none (some items) = items
  only_one (some items) none = items
  only_one (some items) (some others) = []

  -- no items where there is not exactly one list of some
  unfoldable pub check_items : Refusal → Refusal → List String → List (ConditionDoc J) → Validation
  check_items bad unbound available [] = refused bad
  check_items bad unbound available (c ∷ items) = require (refs_in available (c ∷ items)) unbound

  -- one round of the loop over the condition names
  unfoldable pub check_set : String → List String → String → SetDoc J → Validation
  unfolding check_items
  check_set scenario_id available name absent = refused (no_conditions scenario_id name)
  check_set scenario_id available name no_object = refused (no_conditions scenario_id name)
  check_set scenario_id available name (object conditions) =
      check_items (bad_conditions scenario_id name) (unbound_signals scenario_id name) available
        (only_one conditions.all_of conditions.any_of)

  -- the escalation, of a controller that evaluates or not
  unfoldable pub check_escalate : Bool → String → List String → SetDoc J → Validation
  unfolding check_set
  check_escalate true scenario_id available absent = valid
  check_escalate true scenario_id available no_object = refused (cannot_escalate scenario_id)
  check_escalate true scenario_id available (object conditions) =
      refused (cannot_escalate scenario_id)
  check_escalate false scenario_id available set = check_set scenario_id available "escalate" set

  -- `abort.get("any", [])` and `controller["recovery"].get("all", [])`
  abbrev pub any_items : SetDoc J → List (ConditionDoc J)
  any_items absent = []
  any_items no_object = []
  any_items (object conditions) = get_or conditions.any_of []

  abbrev pub all_items : SetDoc J → List (ConditionDoc J)
  all_items absent = []
  all_items no_object = []
  all_items (object conditions) = get_or conditions.all_of []

  abbrev pub rungs_for : Option (Option (List (LevelDoc J))) → List (LevelDoc J)
  rungs_for none = []
  rungs_for (some none) = []
  rungs_for (some (some levels)) = levels
