-- ===== src/Cmdb/Resource.antt =====
-- `normalize_resource_record` of terraform-hcl-standard/scripts/cmdb_v1.py: a host or a serverless
-- resource in the form that the index of a document holds.
mod Reached
pub mod Laws
mod Tests
use iac_modules.Common.{
  ℕ, String, Bool, true, false, not, ◌&&◌, ◌||◌, Option, none, some, List, [], ◌∷◌, all, any,
  member, ◌==◌, Result, ok, require, when, ◌>>=◌, ◌>>◌, if◌then◌else◌,
}
use iac_modules.Json.{
  Value, null, str, get, has, is_null, is_mapping, is_text, truthy, fields, keys, fields_of, obj,
}
use iac_modules.Evidence.Inventory.{iterated}
use iac_modules.Cmdb.Words.{strip, text_of, text_or, or_text, first_of}
use iac_modules.Cmdb.Keys.{
  word, mapping_at, provider_of, groups_of, normalize_provider, normalize_native_resource_id,
  build_resource_key, classify_runtime_form,
}
use iac_modules.Cmdb.Endpoint.{
  Readers, is_secret_key, parse_timestamp, validate_endpoint_or_ip, infer_region,
}

-- The record that is returned.
pub record Resource : Type 0 where
  pub resource_key : String
  pub name : String
  pub provider : String
  pub account_or_project : String
  pub region : String
  pub resource_id : String
  pub environment : String
  pub runtime_form : String
  pub resource_kind : String
  pub ssh_host : Option String
  pub primary_ip : Option String
  pub public_endpoint : Value
  pub service : String
  pub cluster : String
  pub namespace : String
  pub node : String
  pub status : String
  pub observed_at : String
  pub last_observed_at : String

abbrev optional : Option String → Value
optional none = null
optional (some s) = str s

-- The record as the document holds it.
unfoldable pub value_of : Resource → Value
value_of r = obj (
    fields_of (
      ("resource_key", str r.resource_key)
      ∷ ("name", str r.name)
      ∷ ("provider", str r.provider)
      ∷ ("account_or_project", str r.account_or_project)
      ∷ ("region", str r.region)
      ∷ ("resource_id", str r.resource_id)
      ∷ ("environment", str r.environment)
      ∷ ("runtime_form", str r.runtime_form)
      ∷ ("resource_kind", str r.resource_kind)
      ∷ ("ssh_host", optional r.ssh_host)
      ∷ ("primary_ip", optional r.primary_ip)
      ∷ ("public_endpoint", r.public_endpoint)
      ∷ ("service", str r.service)
      ∷ ("cluster", str r.cluster)
      ∷ ("namespace", str r.namespace)
      ∷ ("node", str r.node)
      ∷ ("status", str r.status)
      ∷ ("observed_at", str r.observed_at)
      ∷ ("last_observed_at", str r.last_observed_at)
      ∷ []))

abbrev pub lifecycle_states : List String
lifecycle_states = "active" ∷ "unobserved" ∷ "collection_failed" ∷ "deleted" ∷ []

-- What the caller says of all the records: the keyword arguments.
pub record Scope : Type 0 where
  pub cloud_provider : String
  pub environment : String
  pub project_id : Value
  pub default_region : Value
  pub observed_at : Value

-- `value in (None, "")`
abbrev pub is_unset : Value → Bool
is_unset v = is_null v || is_text "" v

-- `record.get(key) if key in record else record.get(other)`
abbrev either_key : String → String → Value → Value
either_key key other entry = if has key entry then get key entry else get other entry

abbrev pub ip_of : Value → Value
ip_of entry = either_key "primary_ip" "ip" entry

abbrev pub ssh_host_of : Value → Value
ssh_host_of entry = either_key "ssh_host" "ansible_host" entry

-- Where a resource is reached: `ssh_host` and `primary_ip`.
pub record Endpoints : Type 0 where
  pub ssh : Option String
  pub ip : Option String

-- `record.get("environment") or record.get("scope")`, unless it conflicts.
module _ (r : Readers) where
  unfoldable pub check_secrets : Value → Result (Unit {0})
  check_secrets host_vars =
      require (not (any is_secret_key (keys (fields host_vars))))
        "CMDB host contains a secret-like host_vars key"

  unfoldable pub resolve_environment : String → Value → Result String
  resolve_environment environment entry = do
    let own = word r.show (first_of (get "environment" entry ∷ get "scope" entry ∷ []))
    require (own == "" || (environment == "unknown" || (own == "unknown" || own == environment)))
        "resource environment conflicts with document environment"
    ok (or_text own environment)

  unfoldable pub account_of : Scope → String → Value → String
  account_of scope environment entry = strip (
      text_of r.show (
        first_of (
          get "project_id" entry
          ∷ get "project_ref" entry
          ∷ get "account_ref" entry
          ∷ get "account" entry
          ∷ scope.project_id
          ∷ str environment
          ∷ str "default"
          ∷ [])))

  unfoldable pub resource_id_of : String → Value → Result String
  resource_id_of name entry =
      normalize_native_resource_id r.show
        (first_of (
          get "resource_id" entry
          ∷ get "native_resource_id" entry
          ∷ get "instance_id" entry
          ∷ get "id" entry
          ∷ get "name" entry
          ∷ str name
          ∷ []))
        name

  -- A serverless resource is reached nowhere, and says so.
  unfoldable pub serverless_endpoints : Value → Result Endpoints
  serverless_endpoints entry = do
    require
        (is_unset (ip_of entry)
          && (is_unset (get "private_ip" entry) && is_unset (ssh_host_of entry)))
        "serverless resource cannot define primary_ip/ip or ssh_host/ansible_host"
    ok (record { ssh = none; ip = none })

  unfoldable pub host_endpoints : Value → Result Endpoints
  host_endpoints entry = do
    ip ←
        validate_endpoint_or_ip r false
          (if is_unset (ip_of entry) then get "private_ip" entry else ip_of entry)
    ssh ← validate_endpoint_or_ip r true (
        if is_unset (ssh_host_of entry)
        then first_of (ip_of entry ∷ get "private_ip" entry ∷ [])
        else ssh_host_of entry)
    ok (record { ssh = ssh; ip = ip })

  unfoldable pub endpoints_of : String → Value → Result Endpoints
  unfolding serverless_endpoints host_endpoints
  endpoints_of form entry =
      if form == "serverless" then serverless_endpoints entry else host_endpoints entry

  unfoldable pub kind_of : String → Value → String
  kind_of form entry = strip (
      text_of r.show (
        first_of (
          get "resource_kind" entry
          ∷ str (if form == "serverless" then "serverless_service" else form)
          ∷ [])))

  unfoldable pub timestamp_of : Scope → Value → String
  timestamp_of scope entry = strip (
      text_of r.show (
        first_of (
          get "last_observed_at" entry
          ∷ get "observed_at" entry
          ∷ scope.observed_at
          ∷ str r.now
          ∷ [])))

  -- `groups[0] if groups else ""`
  unfoldable pub first_group : List Value → String
  first_group [] = ""
  first_group (g ∷ gs) = let rest = first_group gs in if truthy g then text_of r.show g else rest

  unfoldable pub status_of : Value → Result String
  status_of entry = do
    let status =
        word r.show
          (first_of (get "status" entry ∷ get "observation_status" entry ∷ str "active" ∷ []))
    require (member status lifecycle_states) "resource status is no lifecycle state"
    ok status

  -- `str(a or b or ...).strip()`
  abbrev label_of : List Value → String
  label_of values = strip (text_of r.show (first_of values))

  unfoldable pub service_of : String → Value → List Value → String
  unfolding first_group
  service_of name entry groups =
      let host_vars = mapping_at "host_vars" entry in
      label_of (
        get "service" entry
        ∷ get "service" host_vars
        ∷ get "role" host_vars
        ∷ str (first_group groups)
        ∷ get "name" entry
        ∷ str name
        ∷ [])

  unfoldable pub cluster_of : Value → String
  cluster_of entry =
      let host_vars = mapping_at "host_vars" entry in
      label_of (
        get "cluster" entry
        ∷ get "k8s_cluster_name" host_vars
        ∷ get "cluster" host_vars
        ∷ str ""
        ∷ [])

  unfoldable pub namespace_of : Value → String
  namespace_of entry =
      let host_vars = mapping_at "host_vars" entry in
      label_of (
        get "namespace" entry
        ∷ get "k8s_namespace" host_vars
        ∷ get "namespace" host_vars
        ∷ str ""
        ∷ [])

  unfoldable pub node_of : String → String → Value → String
  node_of form name entry =
      let host_vars = mapping_at "host_vars" entry in
      label_of (
        get "node" entry
        ∷ get "node_id" entry
        ∷ get "node_id" host_vars
        ∷ (if member form ("vm" ∷ "k3s_node" ∷ [])
            then first_of (get "name" entry ∷ str name ∷ [])
            else str "")
        ∷ [])

  unfoldable pub normalize_resource_record : Scope → String → Value → Result Resource
  normalize_resource_record scope name entry = do
    require (is_mapping entry) "CMDB resource must be an object"
    check_secrets (mapping_at "host_vars" entry)
    environment ← resolve_environment scope.environment entry
    provider ← normalize_provider r.show (provider_of entry (str scope.cloud_provider ∷ []))
    form ← classify_runtime_form r.show entry (str provider)
    region ← infer_region r entry scope.default_region form (str provider)
    let account = account_of scope environment entry
    id ← resource_id_of name entry
    key ← build_resource_key r.show (str provider) (str account) (str region) (str id)
    endpoints ← endpoints_of form entry
    let seen = timestamp_of scope entry
    instant ← parse_timestamp r (str seen)
    groups ← iterated (groups_of entry)
    status ← status_of entry
    ok (record {
      resource_key = key;
      name = text_of r.show (first_of (get "name" entry ∷ str name ∷ []));
      provider = provider;
      account_or_project = account;
      region = region;
      resource_id = id;
      environment = environment;
      runtime_form = form;
      resource_kind = kind_of form entry;
      ssh_host = endpoints.ssh;
      primary_ip = endpoints.ip;
      public_endpoint =
          first_of (get "public_endpoint" entry ∷ get "uri" entry ∷ get "public_ip" entry ∷ []);
      service = service_of name entry groups;
      cluster = cluster_of entry;
      namespace = namespace_of entry;
      node = node_of form name entry;
      status = status;
      observed_at = text_of r.show (first_of (get "observed_at" entry ∷ str seen ∷ []));
      last_observed_at = seen;
    })
