-- ===== src/Cmdb/Document/Tests.antt =====
-- A document in which a machine has become serverless, and the laws at it.
use iac_modules.Common.{
  ◌≡◌, refl, none, [], ◌∷◌, ok, lookup, store, without_key, starts_with, contains,
}
use iac_modules.Json.{Value, null, str, mapping, obj, Fields, fields_of, find, set, eq}
use iac_modules.Cmdb.Words
use iac_modules.Cmdb.Keys
use iac_modules.Cmdb.Endpoint
use iac_modules.Cmdb.Environment.{
  infer_environment, extract_path_environments, extract_all, environments_in, update, among,
  paths_of, check_explicit, implied,
}
use iac_modules.Cmdb.Samples.{readers, scope, vm, worker, making}
use iac_modules.Cmdb.Resource.{
  Resource, check_secrets, resolve_environment, account_of, resource_id_of, endpoints_of, kind_of,
  timestamp_of, first_group, status_of, service_of, cluster_of, namespace_of, node_of,
  normalize_resource_record,
}
use iac_modules.Cmdb.Document.{
  Index, drop_old, displace, place, serverless_entry, ingest_found, ingest_entry, ingest_entries,
  ingest, scope_of, document_of, make_document,
}
use iac_modules.Cmdb.Document.Fresh.{IsMade, make_document-IsMade}
use iac_modules.Cmdb.Document.Placed.{HostsAreBound, ingest-HostsAreBound}

abbrev hosts : Fields
hosts = fields_of (("web", vm) ∷ ("other", mapping (("id", str "8") ∷ [])) ∷ [])

abbrev functions : Fields
functions = fields_of (("fn", worker) ∷ [])

abbrev machine : Resource
machine = record {
  resource_key = "gcp:p:eu:8";
  name = "other";
  provider = "gcp";
  account_or_project = "p";
  region = "eu";
  resource_id = "8";
  environment = "dev";
  runtime_form = "vm";
  resource_kind = "vm";
  ssh_host = none;
  primary_ip = none;
  public_endpoint = null;
  service = "other";
  cluster = "";
  namespace = "";
  node = "other";
  status = "active";
  observed_at = "early";
  last_observed_at = "early";
}

abbrev function : Resource
function = record {
  resource_key = "gcp:p:eu:7";
  name = "fn";
  provider = "gcp";
  account_or_project = "p";
  region = "eu";
  resource_id = "7";
  environment = "dev";
  runtime_form = "serverless";
  resource_kind = "serverless_service";
  ssh_host = none;
  primary_ip = none;
  public_endpoint = null;
  service = "fn";
  cluster = "";
  namespace = "";
  node = "";
  status = "active";
  observed_at = "late";
  last_observed_at = "late";
}

-- The host "web" is gone.
abbrev index : Index
index = record {
  hosts = ("other", mapping (("id", str "8") ∷ [])) ∷ [];
  serverless =
      (
        "fn",
        mapping (
            ("id", str "7")
            ∷ ("runtime_form", str "serverless")
            ∷ ("last_observed_at", str "late")
            ∷ ("resource_kind", str "serverless_service")
            ∷ ("ssh_host", null)
            ∷ ("primary_ip", null)
            ∷ ("resource_key", str "gcp:p:eu:7")
            ∷ []),
      )
      ∷ [];
  resources = ("gcp:p:eu:7", function) ∷ ("gcp:p:eu:8", machine) ∷ [];
  host_names = ("gcp:p:eu:8", "other") ∷ [];
  serverless_names = ("gcp:p:eu:7", "fn") ∷ [];
}

is_ingested : ingest readers scope hosts functions ≡ ok index
unfolding ingest ingest_entries ingest_entry ingest_found displace drop_old place serverless_entry
    normalize_resource_record check_secrets resolve_environment account_of resource_id_of
    endpoints_of kind_of timestamp_of first_group status_of service_of cluster_of namespace_of
    node_of find set eq lookup store without_key starts_with contains Words.strip Words.lower
    Words.without_prefix Words.has_char Words.count_char Words.split_at Words.before_last
    Words.strip_of Words.without Words.parts Words.folders Words.last_part Words.stem Words.tokens
    Words.from_part Keys.alias_of Keys.check_form Keys.normalize_provider
    Keys.normalize_native_resource_id Keys.build_resource_key Keys.is_k3s Keys.inferred_form
    Keys.classify_runtime_form Endpoint.replace_z Endpoint.is_fake Endpoint.is_loopback_form
    Endpoint.is_secret_key Endpoint.parse_timestamp Endpoint.check_ip
    Endpoint.validate_endpoint_or_ip Endpoint.fallback_region Endpoint.infer_region
is_ingested = refl

is_inferred : infer_environment readers.show "" making.resource_paths null ≡ ok "dev"
unfolding infer_environment extract_path_environments extract_all environments_in update among
    paths_of check_explicit implied contains starts_with Words.strip Words.lower Words.split_at
    Words.without Words.parts Words.folders Words.last_part Words.stem Words.tokens
    Words.before_last Words.has_char Words.strip_of
is_inferred = refl

abbrev document : Value
document = obj (document_of making "dev" "early" index)

is_made : make_document readers making hosts functions ≡ ok document
unfolding make_document scope_of Words.strip Words.strip_of Endpoint.parse_timestamp
    Endpoint.replace_z
is_made = rw is_inferred (rw is_ingested refl)

make_document-IsMade_example : IsMade readers making hosts functions document
make_document-IsMade_example = make_document-IsMade readers making hosts functions is_made

ingest-HostsAreBound_example : HostsAreBound index
ingest-HostsAreBound_example =
    ingest-HostsAreBound readers scope hosts functions (refl, (refl, (refl, tt))) refl is_ingested
