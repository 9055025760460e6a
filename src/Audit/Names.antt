-- ===== src/Audit/Names.antt =====
-- The services that an audit of scripts/scenarios/audit-run-causality.py is about.
use text.Mathlib.Text.{starts_with}
use testbed_services.Common.{
  String, str_append, str_eq, Bool, Option, none, some, List, [], ◌∷◌, ◌++◌, any, if◌then◌else◌,
  ◌||◌,
}
use testbed_services.Common.Texts.{is_in, add, discard, before_first, after_prefix, contains}
use testbed_services.Audit.Runs.{Audited, ok, audit_error, no_answer_key}

-- a table of texts, and `table.get(key)`
unfoldable pub of_table : String → List (String × String) → Option String
of_table key [] = none
of_table key ((k, v) ∷ rows) = if str_eq k key then some v else of_table key rows

abbrev pub domain_entry_service : List (String × String)
domain_entry_service =
    ("commerce", "commerce-order")
    ∷ ("food-delivery", "food-delivery-order")
    ∷ ("core-banking", "core-banking-transfer")
    ∷ []

abbrev pub signal_entry_service : List (String × String)
signal_entry_service =
    ("checkout_5xx_rate", "commerce-order")
    ∷ ("order_error_rate", "commerce-order")
    ∷ ("order_create_5xx_rate", "food-delivery-order")
    ∷ ("food_create_5xx_rate", "food-delivery-order")
    ∷ ("transfer_2xx_rate", "core-banking-transfer")
    ∷ []

-- `.get(domain or "")`
abbrev pub of_domain : Option String → List (String × String) → Option String
of_domain none table = of_table "" table
of_domain (some domain) table = of_table domain table

-- the entry service of a signal, or else what the rest of the signals and the domain give
abbrev pub or_else : Option String → Option String → Option String
or_else none o = o
or_else (some s) o = some s

unfoldable pub entry_service_for : List String → Option String → Option String
unfolding of_table
entry_service_for [] domain = of_domain domain domain_entry_service
entry_service_for (signal ∷ signals) domain =
    or_else (of_table signal signal_entry_service) (entry_service_for signals domain)

abbrev pub failure_rate_markers : List String
failure_rate_markers = "5xx_rate" ∷ "_error_rate" ∷ "_fail" ∷ "error_rate" ∷ []

abbrev pub success_rate_markers : List String
success_rate_markers = "_2xx_rate" ∷ "_success_rate" ∷ []

-- `is_failure_rate`; `lower` is `str.lower`.
unfoldable pub is_failure_rate : (lower : String → String) → String → Bool
is_failure_rate lower signal =
    let low = lower signal in
    any (contains low) failure_rate_markers || any (contains low) success_rate_markers

abbrev pub name_prefixes : List String
name_prefixes = "food-delivery-" ∷ "core-banking-" ∷ "commerce-" ∷ "food-" ∷ "banking-" ∷ []

abbrev pub domain_apm_prefix : List (String × String)
domain_apm_prefix =
    ("commerce", "commerce-")
    ∷ ("food-delivery", "food-delivery-")
    ∷ ("core-banking", "core-banking-")
    ∷ []

abbrev pub if_known : List String → String → Option String
if_known known name = if is_in name known then some name else none

-- the loop over `_NAME_PREFIXES`
unfoldable pub renamed : String → String → List String → List String → Option String
renamed base prefix known [] = none
renamed base prefix known (p ∷ ps) =
    if starts_with base p
    then if_known known (str_append prefix (after_prefix base p))
    else renamed base prefix known ps

unfoldable pub in_domain : String → List String → Option String → Option String
unfolding renamed
in_domain base known none = none
in_domain base known (some prefix) = renamed base prefix known name_prefixes

unfoldable pub to_apm_service : String → Option String → List String → Option String
unfolding in_domain of_table
to_apm_service name domain known =
    let base = before_first name ":" in
    if is_in base known
    then some base
    else in_domain base known (of_domain domain domain_apm_prefix)

-- An entry of the answer key; the ids may be missing, and what is no text is left out of the lists.
pub record AnswerKey : Type 0 where
  pub domain : Option String
  pub target_id : Option String
  pub trigger_target_id : Option String
  pub accept : List String
  pub partial : List String

abbrev pub listed : Option String → List String
listed none = []
listed (some s) = s ∷ []

unfoldable pub candidates_of : AnswerKey → List String
candidates_of meta =
    listed meta.target_id ++ (listed meta.trigger_target_id ++ (meta.accept ++ meta.partial))

abbrev pub add_found : Option String → List String → List String
add_found none found = found
add_found (some s) found = add s found

-- the set of the services that the candidates name
unfoldable pub services_of : List String → Option String → List String → List String
unfolding to_apm_service add
services_of [] domain known = []
services_of (candidate ∷ candidates) domain known =
    add_found (to_apm_service candidate domain known) (services_of candidates domain known)

abbrev pub without : Option String → List String → List String
without none targets = targets
without (some entry) targets = discard entry targets

-- `injection_targets`, on the scenario's entry of the answer key
unfoldable pub injection_targets :
    Option AnswerKey → List String → Option String → Audited (List String)
unfolding services_of candidates_of
injection_targets none known entry = audit_error no_answer_key
injection_targets (some meta) known entry =
    ok (without entry (services_of (candidates_of meta) meta.domain known))
