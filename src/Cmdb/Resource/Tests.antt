-- ===== src/Cmdb/Resource/Tests.antt =====
-- A virtual machine that is normalised, and the law at it.
use iac_modules.Common.{◌≡◌, refl, some, ok, starts_with, contains}
use iac_modules.Json.{null, find}
use iac_modules.Cmdb.Words
use iac_modules.Cmdb.Keys
use iac_modules.Cmdb.Endpoint
use iac_modules.Cmdb.Samples.{readers, scope, vm}
use iac_modules.Cmdb.Resource.{
  Resource, check_secrets, resolve_environment, account_of, resource_id_of, endpoints_of, kind_of,
  timestamp_of, first_group, status_of, service_of, cluster_of, namespace_of, node_of,
  normalize_resource_record,
}
use iac_modules.Cmdb.Resource.Laws.{IsNormal, normalize_resource_record-IsNormal}

abbrev machine : Resource
machine = record {
  resource_key = "gcp:p:eu:7";
  name = "web";
  provider = "gcp";
  account_or_project = "p";
  region = "eu";
  resource_id = "7";
  environment = "dev";
  runtime_form = "vm";
  resource_kind = "vm";
  ssh_host = some "192.0.2.7";
  primary_ip = some "192.0.2.7";
  public_endpoint = null;
  service = "web";
  cluster = "";
  namespace = "";
  node = "web";
  status = "active";
  observed_at = "early";
  last_observed_at = "early";
}

is_normal : normalize_resource_record readers scope "web" vm ≡ ok machine
unfolding normalize_resource_record check_secrets resolve_environment account_of resource_id_of
    endpoints_of kind_of timestamp_of first_group status_of service_of cluster_of namespace_of
    node_of find starts_with contains Words.strip Words.lower Words.without_prefix Words.has_char
    Words.count_char Words.split_at Words.before_last Words.strip_of Keys.alias_of Keys.check_form
    Keys.normalize_provider Keys.normalize_native_resource_id Keys.build_resource_key Keys.is_k3s
    Keys.inferred_form Keys.classify_runtime_form Endpoint.replace_z Endpoint.is_fake
    Endpoint.is_loopback_form Endpoint.is_secret_key Endpoint.parse_timestamp Endpoint.check_ip
    Endpoint.validate_endpoint_or_ip Endpoint.fallback_region Endpoint.infer_region
is_normal = refl

normalize_resource_record-IsNormal_example : IsNormal readers scope vm machine
normalize_resource_record-IsNormal_example =
    normalize_resource_record-IsNormal readers scope "web" vm is_normal
