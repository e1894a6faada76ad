-- ===== src/Cmdb/Merge/Tests.antt =====
-- Two documents that are merged, and the law at them.
use iac_modules.Common.{
  ◌≡◌, refl, some, none, [], ◌∷◌, ok, lookup, store, without_key, starts_with, contains,
}
use iac_modules.Json.{Value, null, str, mapping, texts, find, set, eq}
use iac_modules.Cmdb.Words
use iac_modules.Cmdb.Keys
use iac_modules.Cmdb.Endpoint
use iac_modules.Cmdb.Samples.{readers, vm, worker}
use iac_modules.Cmdb.Resource.{
  Resource, check_secrets, resolve_environment, account_of, resource_id_of, endpoints_of, kind_of,
  timestamp_of, first_group, status_of, service_of, cluster_of, namespace_of, node_of,
  normalize_resource_record, value_of,
}
use iac_modules.Cmdb.Merge.{
  Merged, rename, put_host, put_serverless, add_sources, known_environments, merge_entry,
  merge_entries, merge_document, merge_all, merged_document, target_of, merge_documents,
}
use iac_modules.Cmdb.Merge.Laws.{IsMerged, merge_documents-IsMerged}

abbrev first : Value
first = mapping (
    ("environment", str "dev")
    ∷ ("cloud_provider", str "gcp-cloud")
    ∷ ("project_id", str "p")
    ∷ ("source_resources", texts ("resources/dev/a.yaml" ∷ []))
    ∷ ("hosts", mapping (("web", vm) ∷ []))
    ∷ [])

abbrev second : Value
second = mapping (
    ("environment", str "dev")
    ∷ ("source_resources", texts ("resources/dev/a.yaml" ∷ []))
    ∷ ("last_observed_at", str "late")
    ∷ ("serverless_resources", mapping (("fn", worker) ∷ []))
    ∷ [])

abbrev function : Resource
function = record {
  resource_key = "gcp:p:unknown:7";
  name = "fn";
  provider = "gcp";
  account_or_project = "p";
  region = "unknown";
  resource_id = "7";
  environment = "dev";
  runtime_form = "serverless";
  resource_kind = "serverless_service";
  ssh_host = none;
  primary_ip = none;
  public_endpoint = null;
  service = "fn";
  cluster = "";
  namespace = "";
  node = "";
  status = "active";
  observed_at = "late";
  last_observed_at = "late";
}

-- The machine "web" has become the function "fn". It is indexed as a function alone, and is still
-- a host of the merged document.
abbrev merged : Merged
merged = record {
  dicts = record {
    hosts = ("web", vm) ∷ [];
    serverless =
        (
          "fn",
          mapping (
              ("id", str "7")
              ∷ ("runtime_form", str "serverless")
              ∷ ("last_observed_at", str "late")
              ∷ ("resource_key", str "gcp:p:unknown:7")
              ∷ ("ssh_host", null)
              ∷ ("primary_ip", null)
              ∷ []),
        )
        ∷ [];
    resources = ("gcp:p:unknown:7", function) ∷ [];
    host_names = ("gcp:p:unknown:7", "web") ∷ [];
    serverless_names = ("gcp:p:unknown:7", "fn") ∷ [];
  };
  sources = str "resources/dev/a.yaml" ∷ [];
  latest = some 2;
  latest_text = "late";
}

abbrev result : Value
result = merged_document readers "dev" first merged

is_merged : merge_documents readers (first ∷ second ∷ []) ≡ ok result
unfolding merge_documents known_environments target_of merge_all merge_document merge_entries
    merge_entry put_host put_serverless rename add_sources merged_document value_of
    normalize_resource_record check_secrets resolve_environment account_of resource_id_of
    endpoints_of kind_of timestamp_of first_group status_of service_of cluster_of namespace_of
    node_of find set eq lookup store without_key starts_with contains Words.strip Words.lower
    Words.without_prefix Words.has_char Words.count_char Words.split_at Words.before_last
    Words.strip_of Words.without Words.parts Words.folders Words.last_part Words.stem Words.tokens
    Words.from_part Keys.alias_of Keys.check_form Keys.normalize_provider
    Keys.normalize_native_resource_id Keys.build_resource_key Keys.is_k3s Keys.inferred_form
    Keys.classify_runtime_form Endpoint.replace_z Endpoint.is_fake Endpoint.is_loopback_form
    Endpoint.is_secret_key Endpoint.parse_timestamp Endpoint.check_ip
    Endpoint.validate_endpoint_or_ip Endpoint.fallback_region Endpoint.infer_region
is_merged = refl

merge_documents-IsMerged_example : IsMerged readers (first ∷ second ∷ []) result
merge_documents-IsMerged_example = merge_documents-IsMerged readers (first ∷ second ∷ []) is_merged
