-- ===== src/Preflight/Survey.antt =====
-- The first part of `build_report` of scripts/akamai_state_preflight.py, up to the findings across the
-- namespaces. `str` of a value is a parameter.
use iac_modules.Common.{
  String, Bool, true, false, none, some, List, [], ◌∷◌, ◌+++◌, Dict, lookup, store, Result, ok,
  ◌>>=◌, if◌then◌else◌,
}
use iac_modules.Json.{
  pos, Value, null, bool, int, str, arr, nil, mapping, get, at, eq, truthy, members, text_value,
}
use iac_modules.Cmdb.Words.{without_prefix}
use iac_modules.Preflight.{classify_namespace}
use iac_modules.Preflight.Findings.{project_live, strings}
use iac_modules.Preflight.Claims.{namespace_of}
use iac_modules.Preflight.Mapping.{Candidate, Standing, candidates_of, map_resources}

-- The arguments, with what `str` makes of a value and the time of the run.
pub record Inputs : Type 0 where
  pub show : Value → String
  pub now : String
  pub expectations : List Value
  pub live_instances_raw : List Value
  pub live_firewalls_raw : List Value
  pub state_results : List Value
  pub legacy_object_versions : Value
  pub account : String
  pub correlation_id : String
  pub migration_sources : List Value

-- What is found before the findings across the namespaces.
pub record Survey : Type 0 where
  pub expectations : List Value
  pub historical : Value
  pub labels : List String
  pub firewall_labels : List String
  pub protected : Bool
  pub legacy : Value
  pub resources : List Value
  pub targets : List Candidate
  pub items : List Value
  pub mapped : List (Standing × Value)
  pub versions : Value

-- `historical["state_key"]`
historical_key : List Value → Result Value
historical_key [] = ok (str "")
historical_key (candidate ∷ rest) = at "state_key" candidate

-- `legacy_state`
find_legacy : Value → List Value → Result Value
find_legacy key [] = ok (
    mapping (
      ("state_key", key)
      ∷ ("present", bool false)
      ∷ ("resources", arr nil)
      ∷ ("protected_text", bool false)
      ∷ []))
find_legacy key (result ∷ rest) =
    let later = find_legacy key rest in
    do k ← at "state_key" result; if eq k key then ok result else later

-- `namespace_states`, from the results that are left and what was stored before
unfoldable pub namespace_states : List Value → Dict Value → Dict Value
namespace_states [] d = d
namespace_states (result ∷ rest) d =
    if truthy (get "namespace" result)
    then namespace_states rest (store (namespace_of result) result d)
    else namespace_states rest d

-- The values of a key that each of the mappings has to have.
column : String → List Value → Result (List Value)
column key [] = ok []
column key (v ∷ vs) = do here ← at key v; others ← column key vs; ok (here ∷ others)

any_protected : List Value → Result Bool
any_protected [] = ok false
any_protected (result ∷ rest) =
    let later = any_protected rest in
    do p ← at "protected_text" result; if truthy p then ok true else later

-- `namespace_states.get(item["namespace"], {}).get("resources", [])`
unfoldable pub resources_of : Dict Value → Value → List Value
unfolding lookup
resources_of states expected = elim (lookup (namespace_of expected) states) [
  | none ↦ []
  | some result ↦ members (get "resources" result)
]

abbrev classified : List Value → List Value → List Value → Dict Value → List Value → List Value
classified instances firewalls legacy states [] = []
classified instances firewalls legacy states (expected ∷ rest) =
    classify_namespace expected (record {
      instances = instances;
      firewalls = firewalls;
      legacy = legacy;
      namespace = resources_of states expected;
    })
    ∷ classified instances firewalls legacy states rest

-- `object_versions`, where the caller has none
abbrev no_versions : Value → Value
no_versions key = mapping (
    ("state_key", key)
    ∷ ("version_inventory_status", str "not-checked")
    ∷ ("object_present", bool false)
    ∷ ("versioning_enabled", bool false)
    ∷ ("current_version", null)
    ∷ ("previous_version_count", int (pos 0))
    ∷ ("versions", arr nil)
    ∷ (
      "suggested_archive_key",
      str ("terraform/archive/" +++ without_prefix ("terraform/" ∷ []) (text_value key)),
    )
    ∷ (
      "archive_object",
      mapping (
          ("present", bool false)
          ∷ ("matches_current_version_metadata", bool false)
          ∷ ("check_status", str "not-checked")
          ∷ []),
    )
    ∷ ("backup_prerequisite_satisfied", bool false)
    ∷ [])

-- The first part of `build_report`, with the mappings of the legacy resources.
unfoldable pub survey : Inputs → Result Survey
unfolding historical_key find_legacy column any_protected
survey c = do
  live_instances ← project_live c.show c.live_instances_raw "linode_instance"
  live_firewalls ← project_live c.show c.live_firewalls_raw "linode_firewall"
  key ← historical_key c.migration_sources
  legacy ← find_legacy key c.state_results
  let states = namespace_states c.state_results []
  listed ← at "resources" legacy
  let resources = members listed
  labels ← column "label" c.expectations
  firewall_labels ← column "firewall_label" c.expectations
  protected ← any_protected c.state_results
  targets ← candidates_of states
  mapped ← map_resources c.expectations resources targets resources
  ok (record {
    expectations = c.expectations;
    historical = key;
    labels = strings labels;
    firewall_labels = strings firewall_labels;
    protected = protected;
    legacy = legacy;
    resources = resources;
    targets = targets;
    items = classified live_instances live_firewalls resources states c.expectations;
    mapped = mapped;
    versions =
        if truthy c.legacy_object_versions then c.legacy_object_versions else no_versions key;
  })
