-- ===== src/Cmdb/Document.antt =====
-- `make_document` of terraform-hcl-standard/scripts/cmdb_v1.py.
mod Hosts
pub mod Newest
pub mod Fresh
pub mod Placed
mod Tests
use iac_modules.Common.{
  ℕ, String, Bool, true, false, not, ◌&&◌, Option, none, some, List, [], ◌∷◌, map, ltb, ◌==◌, Dict,
  lookup, store, without_key, Result, ok, require, expect, ◌>>=◌, ◌>>◌, if◌then◌else◌,
}
use iac_modules.Json.{
  Value, Fields, null, str, obj, end, field, has, put, set, merge, truthy, is_mapping, fields,
  fields_of, texts,
}
use iac_modules.Cmdb.Words.{strip, text_of, first_of}
use iac_modules.Cmdb.Environment.{Paths, infer_environment, resource_refs}
use iac_modules.Cmdb.Endpoint.{Readers, parse_timestamp}
use iac_modules.Cmdb.Resource.{Resource, Scope, normalize_resource_record, value_of}

-- The five dicts of a document in the making.
pub record Index : Type 0 where
  pub hosts : Dict Value
  pub serverless : Dict Value
  pub resources : Dict Resource
  pub host_names : Dict String
  pub serverless_names : Dict String

abbrev pub no_resources : Index
no_resources = record {
  hosts = [];
  serverless = [];
  resources = [];
  host_names = [];
  serverless_names = [];
}

-- `old = names.pop(key, None); if old and old != name: entries.pop(old, None)`, the entries
unfoldable pub drop_old : String → String → Dict String → Dict Value → Dict Value
drop_old key name names entries = elim (lookup key names) [
  | none ↦ entries
  | some old ↦ if not (old == "") && not (old == name) then without_key old entries else entries
]

-- A resource that is seen again, before it is placed.
unfoldable pub displace : String → String → Index → Index
unfolding drop_old
displace key name x = record {
  hosts = drop_old key name x.host_names x.hosts;
  serverless = drop_old key name x.serverless_names x.serverless;
  resources = x.resources;
  host_names = without_key key x.host_names;
  serverless_names = without_key key x.serverless_names;
}

-- `entry.setdefault(key, value)`
abbrev pub set_default : String → Value → Value → Value
set_default key value entry = if has key entry then entry else put key value entry

unfoldable pub serverless_entry : Resource → Value → Value
serverless_entry found entry = put "last_observed_at" (str found.last_observed_at) (
    put "resource_key" (str found.resource_key) (
      put "primary_ip" null (
        put "ssh_host" null (
          set_default "resource_kind" (str found.resource_kind)
            (set_default "runtime_form" (str "serverless") entry)))))

unfoldable pub place : Resource → String → Value → Index → Index
unfolding serverless_entry
place found name entry x =
    if found.runtime_form == "serverless"
    then record x {
      resources = store found.resource_key found x.resources;
      serverless = store name (serverless_entry found entry) x.serverless;
      serverless_names = store found.resource_key name x.serverless_names;
    }
    else record x {
      resources = store found.resource_key found x.resources;
      hosts = store name entry x.hosts;
      host_names = store found.resource_key name x.host_names;
    }

-- An entry of the serverless resources that says neither its form nor its kind.
abbrev pub forced : Bool → Value → Value
forced force entry =
    if force && (not (has "runtime_form" entry) && not (has "resource_kind" entry))
    then put "resource_kind" (str "serverless_service")
        (put "runtime_form" (str "serverless") entry)
    else entry

module _ (r : Readers) (scope : Scope) where
  unfoldable pub ingest_found : Resource → String → Value → Index → Result Index
  unfolding displace place
  ingest_found found name entry x = elim (lookup found.resource_key x.resources) [
    | none ↦ ok (place found name entry x)
    | some existing ↦ (do
      require (existing.environment == found.environment)
          "duplicate resource_key has conflicting environments"
      existing_at ← parse_timestamp r (str existing.last_observed_at)
      new_at ← parse_timestamp r (str found.last_observed_at)
      ok (
          if ltb new_at existing_at
          then x
          else place found name entry (displace found.resource_key name x)))
  ]

  unfoldable pub ingest_entry : Bool → String → Value → Index → Result Index
  unfolding ingest_found
  ingest_entry force name entry x = do
    expect (is_mapping entry)
    found ← normalize_resource_record r scope name (forced force entry)
    ingest_found found name entry x

  unfoldable pub ingest_entries : Bool → Fields → Index → Result Index
  unfolding ingest_entry
  ingest_entries force end x = ok x
  ingest_entries force (field name entry rest) x = do
    y ← ingest_entry force name entry x
    ingest_entries force rest y

  -- The hosts, and then the serverless resources.
  unfoldable pub ingest : Fields → Fields → Result Index
  unfolding ingest_entries
  ingest hosts serverless = do
    x ← ingest_entries false hosts no_resources
    ingest_entries true serverless x

-- The keyword arguments of `make_document`, with DEPLOY_ENVIRONMENT.
pub record Making : Type 0 where
  pub cloud_provider : String
  pub resource_paths : Paths
  pub project_id : Value
  pub environment : Value
  pub default_region : Value
  pub observed_at : Value
  pub legacy : Fields
  pub variable : String

abbrev pub resource_values : Dict Resource → Dict Value
resource_values [] = []
resource_values ((k, found) ∷ d) = (k, value_of found) ∷ resource_values d

-- The document of an index.
unfoldable pub document_of : Making → String → String → Index → Fields
unfolding value_of
document_of m environment seen x =
    let base = merge m.legacy (
      fields_of (
        ("schema_version", str "cmdb.v1")
        ∷ ("environment", str environment)
        ∷ ("cloud_provider", str m.cloud_provider)
        ∷ ("source_resources", texts (resource_refs m.resource_paths))
        ∷ ("observed_at", str seen)
        ∷ ("last_observed_at", str seen)
        ∷ ("hosts", obj (fields_of x.hosts))
        ∷ ("serverless_resources", obj (fields_of x.serverless))
        ∷ ("resource_index", obj (fields_of (resource_values x.resources)))
        ∷ [])) in
    merge (if truthy m.project_id then set "project_id" m.project_id base else base)
      (fields_of x.hosts)

unfoldable pub scope_of : Making → String → String → Scope
scope_of m environment seen = record {
  cloud_provider = m.cloud_provider;
  environment = environment;
  project_id = m.project_id;
  default_region = m.default_region;
  observed_at = str seen;
}

unfoldable pub make_document : Readers → Making → Fields → Fields → Result Value
unfolding document_of scope_of
make_document r m hosts serverless = do
  environment ← infer_environment r.show m.variable m.resource_paths m.environment
  let seen = strip (text_of r.show (first_of (m.observed_at ∷ str r.now ∷ [])))
  instant ← parse_timestamp r (str seen)
  x ← ingest r (scope_of m environment seen) hosts serverless
  ok (obj (document_of m environment seen x))
