-- ===== src/Preflight/Report/Clean/Tests.antt =====
-- A run with one namespace, whose instance is live and in both states, with the laws at it.
use iac_modules.Common.{
  ◌≡◌, refl, String, true, false, [], ◌∷◌, ok, Result, lookup, store, starts_with,
}
use iac_modules.Json.{Value, arr, bool, items, str, null, mapping, eq, find, get, is_text}
use iac_modules.Cmdb.Words.{without_prefix}
use iac_modules.Contracts.Ownership.{owner_match}
use iac_modules.Preflight.{verdict, clean_verdict, recommended, classify_namespace}
use iac_modules.Preflight.Findings.{project_one, project_live, facts_of, failures_of}
use iac_modules.Preflight.Mapping.{
  standing_of, map_resource, map_resources, candidates_of, label_fields, standing_fields,
}
use iac_modules.Preflight.Survey.{Inputs, Survey, namespace_states, resources_of, survey}
use iac_modules.Preflight.Claims.{stop_where, stop_for}
use iac_modules.Preflight.Report.{
  final_items, failures_in, legacy_present, retirement_plan, candidate_reports, build_report,
}
use iac_modules.Preflight.Report.Clean.{IsClean, build_report-IsClean}

abbrev instance_at : Value
instance_at = mapping (
    ("address", str "linode_instance.node")
    ∷ ("resource_type", str "linode_instance")
    ∷ ("identity_sha256", str "digest")
    ∷ ("identity_complete", bool true)
    ∷ ("id", str "7")
    ∷ ("label", str "node-1")
    ∷ [])

abbrev expected : Value
expected = mapping (
    ("namespace", str "node-1")
    ∷ ("label", str "node-1")
    ∷ ("firewall_label", str "node-1-fw")
    ∷ ("lifecycle", mapping (("status", str "active") ∷ ("persistent", bool false) ∷ []))
    ∷ ("state_key", str "key")
    ∷ [])

abbrev state : String → Value → Value
state key namespace = mapping (
    ("state_key", str key)
    ∷ ("namespace", namespace)
    ∷ ("present", bool true)
    ∷ ("resources", arr (items (instance_at ∷ [])))
    ∷ ("protected_text", bool false)
    ∷ [])

abbrev source : Value
source = mapping (
    ("state_key", str "terraform/legacy")
    ∷ ("source_commit", str "c")
    ∷ ("source_path", str "p")
    ∷ [])

abbrev inputs : Inputs
inputs = record {
  show = λ v. "";
  now = "2024-01-01T00:00:00+00:00";
  expectations = expected ∷ [];
  live_instances_raw = mapping (("id", str "7") ∷ ("label", str "node-1") ∷ []) ∷ [];
  live_firewalls_raw = [];
  state_results = state "terraform/legacy" null ∷ state "key" (str "node-1") ∷ [];
  legacy_object_versions = null;
  account = "lab";
  correlation_id = "run";
  migration_sources = source ∷ [];
}

abbrev value_of : Result Value → Value
value_of (ok v) = v
value_of _ = null

abbrev report : Value
report = value_of (build_report inputs)

is_built : build_report inputs ≡ ok report
unfolding build_report legacy_present retirement_plan candidate_reports survey failures_in
    final_items namespace_states resources_of project_live project_one candidates_of map_resources
    map_resource label_fields standing_fields standing_of classify_namespace facts_of failures_of
    verdict clean_verdict recommended owner_match stop_where stop_for lookup store find eq
    starts_with without_prefix
is_built = refl

is_reported_complete : is_text "complete" (get "status" report) ≡ true
unfolding build_report legacy_present retirement_plan candidate_reports survey failures_in
    final_items namespace_states resources_of project_live project_one candidates_of map_resources
    map_resource label_fields standing_fields standing_of classify_namespace facts_of failures_of
    verdict clean_verdict recommended owner_match stop_where stop_for lookup store find eq
    starts_with without_prefix
is_reported_complete = refl

build_report-IsClean_example :
    (s : Survey) × (survey inputs ≡ ok s)
    × (get "namespaces" report ≡ arr (items s.items))
    × IsClean s
build_report-IsClean_example = build_report-IsClean inputs is_built is_reported_complete
