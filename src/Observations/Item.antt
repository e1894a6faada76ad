-- ===== src/Observations/Item.antt =====
-- The observations of an envelope, one by one, of
-- terraform-hcl-standard/scripts/cmdb_observations_v1.py.
use iac_modules.Common.{
  ℕ, String, Bool, true, false, not, ◌&&◌, ◌||◌, Option, none, some, List, [], ◌∷◌, member, ltb,
  ◌==◌, Result, ok, require, each, ◌>>=◌, ◌>>◌, if◌then◌else◌,
}
use iac_modules.Json.{
  Value, null, str, obj, end, get, get_or, put, is_null, is_mapping, is_text, str_such, truthy, eq,
}
use iac_modules.Cmdb.Words.{strip, text_of, first_of}
use iac_modules.Cmdb.Endpoint.{Readers}
use iac_modules.Cmdb.Resource.{is_unset}
use iac_modules.Observations.Checks.{
  required_text, timestamp, normalize_provider, normalize_native_resource_id, reject_secret_keys,
  validate_endpoint_value,
}
use iac_modules.Observations.Keys.{
  plain, classify_runtime_form, infer_observation_region, resource_key, canonical_id,
}

abbrev pub scopes : List String
scopes = "dev" ∷ "shared" ∷ "sit" ∷ "uat" ∷ "prod" ∷ "unknown" ∷ []

abbrev pub among : List String → Value → Bool
among names v = str_such (λ s. member s names) v

-- A text that is needed, whatever it is.
abbrev pub needed : Value → Result (Unit {0})
needed v = do text ← required_text v; ok tt

abbrev optional : Option String → Value
optional none = null
optional (some s) = str s

-- `a or b`, of two texts that are not empty
abbrev either : Option String → Option String → Option String
either none b = b
either (some a) b = some a

-- An observation that is read: its normal form, its key, its identity and when it was last seen.
pub record Observed : Type 0 where
  pub value : Value
  pub key : String
  pub id : String
  pub seen : ℕ

module _ (r : Readers) where
  -- What an observation says of its scope, its project and its source.
  unfoldable pub check_item : Value → Value → Result (Unit {0})
  unfolding eq
  check_item run item = do
    require (is_mapping item) "must be an object"
    each (λ key. needed (get key item))
        ("provider" ∷ "resource_kind" ∷ "native_resource_id" ∷ "provider_state" ∷ "source" ∷ [])
    let scope = get "scope" item
    let environment = get "environment" item
    let project = plain r (get "project_ref" item)
    let run_project = plain r (get "project_ref" run)
    require (among scopes scope) "scope must be one of the scopes"
    require (is_text "unknown" (get "scope" run) || eq scope (get "scope" run))
        "scope conflicts with run.scope"
    require (is_null environment || among scopes environment)
        "environment must be one of the scopes"
    require (is_null environment || eq environment scope) "environment conflicts with scope"
    require (run_project == "" || (project == "" || project == run_project))
        "project_ref conflicts with run.project_ref"
    require (among ("provider_api" ∷ "external_inventory" ∷ []) (get "source" item))
        "source must be one of the sources"

  -- When the resource was last seen: not before it was observed.
  unfoldable pub last_seen : Value → Result (Value × ℕ)
  last_seen item = do
    let given = first_of (get "last_observed_at" item ∷ get "observed_at" item ∷ [])
    observed ← timestamp r (get "observed_at" item)
    last ← timestamp r given
    ok (if ltb last observed then (get "observed_at" item, observed) else (given, last))

  -- `ssh_host` and `primary_ip`, by the form and the two endpoints.
  unfoldable pub observed_endpoints :
      String → Value → Option String → Option String → Result (Option String × Option String)
  observed_endpoints form item public private =
      let raw_ssh = get "ssh_host" item in
      let raw_ip = get "primary_ip" item in
      if form == "serverless"
      then (do
        require (is_unset raw_ssh) "is serverless and cannot have ssh_host"
        require (is_unset raw_ip) "is serverless and cannot have primary_ip"
        require
            (is_null (optional private) || is_text "managed_database" (get "resource_kind" item))
            "is serverless and cannot have private_endpoint"
        ok (none, none))
      else (do
        ip ←
            validate_endpoint_value r true
              (if is_unset raw_ip then optional (either public private) else raw_ip)
        ssh ←
            validate_endpoint_value r false
              (if is_unset raw_ssh then optional (either public private) else raw_ssh)
        ok (ssh, ip))

  -- `normalized_item["project_ref"]` and `normalized_item["account_ref"]`
  unfoldable pub with_refs : Value → Value → Value
  with_refs run item =
      let run_project = plain r (get "project_ref" run) in
      let owned =
        if not (truthy (get "project_ref" item)) && not (run_project == "")
        then put "project_ref" (str run_project) item
        else item in
      if truthy (get "account_ref" owned)
      then owned
      else put "account_ref"
          (str (plain r (first_of (get "project_ref" owned ∷ get "account_ref" run ∷ [])))) owned

  -- `str(a or b or ... or "").strip()`
  abbrev first_text : List Value → Value
  first_text candidates = str (plain r (first_of candidates))

  -- Where a resource serves, by its own words or by its attributes.
  unfoldable pub with_places : String → Value → Value → Value
  with_places form item v =
      let attributes = get_or "attributes" (obj end) item in
      put "node"
        (first_text (
          get "node" item
          ∷ get "node" attributes
          ∷ (if member form ("vm" ∷ "k3s_node" ∷ []) then get "name" item else str "")
          ∷ []))
        (put "namespace"
          (first_text (
            get "namespace" item
            ∷ get "namespace" attributes
            ∷ get "k8s_namespace" attributes
            ∷ []))
          (put "cluster"
            (first_text (
              get "cluster" item
              ∷ get "cluster" attributes
              ∷ get "k8s_cluster_name" attributes
              ∷ []))
            (put "service"
              (first_text (
                get "service" item
                ∷ get "service" attributes
                ∷ get "service_name" attributes
                ∷ get "name" item
                ∷ []))
              v)))

  module _ (quote : String → String) where
    unfoldable pub normalize_item : Value → Value → Result Observed
    unfolding check_item last_seen observed_endpoints with_refs with_places
    normalize_item run item = do
      check_item run item
      last ← last_seen item
      require (is_mapping (get_or "attributes" (obj end) item)) "attributes must be an object"
      reject_secret_keys item
      form ← classify_runtime_form r item
      region ← infer_observation_region r item (plain r (get "region_ref" run))
      public ← validate_endpoint_value r false (get "public_endpoint" item)
      private ← validate_endpoint_value r false (get "private_endpoint" item)
      endpoints ← observed_endpoints form item public private
      provider ← normalize_provider (get "provider" item)
      native ← normalize_native_resource_id (get "native_resource_id" item)
      let environment =
          if truthy (get "environment" item) then get "environment" item else get "scope" item
      let status = if is_text "success" (get "outcome" run) then "active" else "collection_failed"
      let identified = put "native_resource_id" (str native) (put "provider" (str provider) item)
      let placed = put "observation_status" (str status) (
          with_places form item (
            put "last_observed_at" (str (strip (text_of r.show last.0))) (
              put "primary_ip" (optional endpoints.1) (
                put "ssh_host" (optional endpoints.0) (
                  put "runtime_form" (str form) (
                    put "environment" environment
                      (put "region" (str region) (with_refs run identified))))))))
      key ← resource_key r placed (plain r (get "region_ref" run))
      id ← canonical_id r quote placed
      ok (record {
        value = put "canonical_id" (str id) (put "resource_key" (str key) placed);
        key = key;
        id = id;
        seen = last.1;
      })
