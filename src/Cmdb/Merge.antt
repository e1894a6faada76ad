-- ===== src/Cmdb/Merge.antt =====
-- `merge_documents` of terraform-hcl-standard/scripts/cmdb_v1.py.
mod Entries
mod Laws
mod Tests
use iac_modules.Common.{
  ℕ, String, Bool, true, false, not, ◌&&◌, ◌||◌, Option, none, some, List, [], ◌∷◌, ◌++◌, any, ltb,
  leb, length, ◌==◌, lookup, store, without_key, Result, ok, require, expect, ◌>>=◌, ◌>>◌,
  if◌then◌else◌,
}
use iac_modules.Json.{
  Value, Fields, null, str, obj, arr, nil, end, field, get, put, set, merge, truthy, is_mapping,
  is_text, fields, fields_of, items, eq,
}
use iac_modules.Evidence.Inventory.{iterated}
use iac_modules.Cmdb.Words.{text_of, first_of}
use iac_modules.Cmdb.Keys.{word}
use iac_modules.Cmdb.Environment.{add}
use iac_modules.Cmdb.Endpoint.{Readers, parse_timestamp}
use iac_modules.Cmdb.Resource.{Resource, Scope, normalize_resource_record, value_of}
use iac_modules.Cmdb.Document.{Index, no_resources, resource_values}

-- `names[key] != name and entries.pop(names[key], None)`, the entries
unfoldable pub rename : String → Option String → List (String × Value) → List (String × Value)
rename name none entries = entries
rename name (some old) entries = if old == name then entries else without_key old entries

-- `dict(entry, resource_key=key, ssh_host=None, primary_ip=None)`
abbrev unreachable : String → Value → Value
unreachable key entry =
    put "primary_ip" null (put "ssh_host" null (put "resource_key" (str key) entry))

-- The dicts with a host's record.
unfoldable pub put_host : Resource → String → Value → Index → Index
unfolding rename
put_host found name entry x =
    let key = found.resource_key in
    let hosts = rename name (lookup key x.host_names) x.hosts in
    if found.runtime_form == "serverless"
    then record x {
      hosts = hosts;
      resources = store key found x.resources;
      serverless = store name (unreachable key entry) x.serverless;
      serverless_names = store key name x.serverless_names;
    }
    else record x {
      hosts = store name entry hosts;
      resources = store key found x.resources;
      host_names = store key name x.host_names;
    }

-- The dicts with a serverless resource's record.
unfoldable pub put_serverless : Resource → String → Value → Index → Index
unfolding rename
put_serverless found name entry x =
    let key = found.resource_key in
    record x {
      resources = store key found x.resources;
      serverless =
          store name (unreachable key entry)
            (rename name (lookup key x.serverless_names) x.serverless);
      serverless_names = store key name x.serverless_names;
    }

-- What is read of the documents so far.
pub record Merged : Type 0 where
  pub dicts : Index
  pub sources : List Value
  pub latest : Option ℕ
  pub latest_text : String

-- `if src not in sources: sources.append(src)`
unfoldable pub add_sources : List Value → List Value → List Value
unfolding eq
add_sources sources [] = sources
add_sources sources (src ∷ rest) =
    add_sources (if any (λ s. eq s src) sources then sources else sources ++ src ∷ []) rest

abbrev is_later : ℕ → Option ℕ → Bool
is_later t none = true
is_later t (some u) = ltb u t

module _ (r : Readers) where
  abbrev pub environment_or : String → Value → String
  environment_or default doc = word r.show (first_of (get "environment" doc ∷ str default ∷ []))

  -- The environments that documents name, each once.
  unfoldable pub known_environments : List String → List Value → List String
  known_environments found [] = found
  known_environments found (doc ∷ docs) =
      known_environments
        (if environment_or "unknown" doc == "unknown"
          then found
          else add (environment_or "unknown" doc) found)
        docs

  -- One record of a document: an older observation than the indexed one changes nothing.
  unfoldable pub merge_entry :
      (Resource → String → Value → Index → Index) → Scope → String → Value → Index → Result Index
  merge_entry put_entry scope name entry x = do
    found ← normalize_resource_record r scope name entry
    elim (lookup found.resource_key x.resources) [
      | none ↦ ok (put_entry found name entry x)
      | some previous ↦ (do
        new_at ← parse_timestamp r (str found.last_observed_at)
        previous_at ← parse_timestamp r (str previous.last_observed_at)
        ok (if ltb new_at previous_at then x else put_entry found name entry x))
    ]

  unfoldable pub merge_entries :
      (Resource → String → Value → Index → Index) → Scope → Fields → Index → Result Index
  unfolding merge_entry
  merge_entries put_entry scope end x = ok x
  merge_entries put_entry scope (field name entry rest) x = do
    y ← merge_entry put_entry scope name entry x
    merge_entries put_entry scope rest y

  -- `doc.get(key) or {}`, with its items
  abbrev pub entries_of : String → Value → Value
  entries_of key doc = first_of (get key doc ∷ obj end ∷ [])

  -- `doc.get("last_observed_at") or doc.get("observed_at") or _utc_now()`
  abbrev pub timestamp_in : Value → Value
  timestamp_in doc = first_of (get "last_observed_at" doc ∷ get "observed_at" doc ∷ str r.now ∷ [])

  -- The scope in which the records of a document are read.
  abbrev pub scope_in : String → Value → Value → Scope
  scope_in target first doc = record {
    cloud_provider =
        text_of r.show (
          first_of
            (get "cloud_provider" doc ∷ get "cloud_provider" first ∷ str "multi-cloud" ∷ []));
    environment = target;
    project_id = first_of (get "project_id" doc ∷ get "project_id" first ∷ []);
    default_region = null;
    observed_at = str (text_of r.show (timestamp_in doc));
  }

  unfoldable pub merge_document : String → Value → Value → Merged → Result Merged
  unfolding merge_entries put_host put_serverless add_sources
  merge_document target first doc m = do
    expect (is_mapping doc)
    require
        (not (truthy (get "schema_version" doc)) || is_text "cmdb.v1" (get "schema_version" doc))
        "unsupported schema_version"
    let own = environment_or target doc
    require (target == "unknown" || (own == "unknown" || own == target))
        "cross-environment document merge rejected"
    sources ← iterated (first_of (get "source_resources" doc ∷ arr nil ∷ []))
    seen ← parse_timestamp r (timestamp_in doc)
    expect (is_mapping (entries_of "hosts" doc))
    x ← merge_entries put_host (scope_in target first doc) (fields (entries_of "hosts" doc)) m.dicts
    expect (is_mapping (entries_of "serverless_resources" doc))
    y ←
        merge_entries put_serverless (scope_in target first doc)
          (fields (entries_of "serverless_resources" doc)) x
    ok (record {
      dicts = y;
      sources = add_sources m.sources sources;
      latest = if is_later seen m.latest then some seen else m.latest;
      latest_text =
          if is_later seen m.latest then text_of r.show (timestamp_in doc) else m.latest_text;
    })

  unfoldable pub merge_all : String → Value → List Value → Merged → Result Merged
  unfolding merge_document
  merge_all target first [] m = ok m
  merge_all target first (doc ∷ docs) m = do
    n ← merge_document target first doc m
    merge_all target first docs n

  abbrev pub nothing_merged : Merged
  nothing_merged = record { dicts = no_resources; sources = []; latest = none; latest_text = r.now }

  unfoldable pub merged_document : String → Value → Merged → Value
  unfolding value_of
  merged_document target first m =
      let base = fields_of (
        ("schema_version", str "cmdb.v1")
        ∷ ("environment", str target)
        ∷ (
          "cloud_provider",
          str (text_of r.show (first_of (get "cloud_provider" first ∷ str "multi-cloud" ∷ []))),
        )
        ∷ ("source_resources", arr (items m.sources))
        ∷ ("observed_at", str m.latest_text)
        ∷ ("last_observed_at", str m.latest_text)
        ∷ ("hosts", obj (fields_of m.dicts.hosts))
        ∷ ("serverless_resources", obj (fields_of m.dicts.serverless))
        ∷ ("resource_index", obj (fields_of (resource_values m.dicts.resources)))
        ∷ []) in
      let project = get "project_id" first in
      obj (
        merge (if truthy project then set "project_id" project base else base)
          (fields_of m.dicts.hosts))

  -- `next(iter(environments), "unknown")`
  unfoldable pub target_of : List String → String
  target_of [] = "unknown"
  target_of (target ∷ _) = target

  unfoldable pub merge_documents : List Value → Result Value
  unfolding merge_all merged_document target_of known_environments
  merge_documents [] = do require false "at least one CMDB document is required"; ok null
  merge_documents (first ∷ docs) = do
    let environments = known_environments [] (first ∷ docs)
    require (leb (length environments) 1) "cannot merge CMDB documents across environments"
    let target = target_of environments
    m ← merge_all target first (first ∷ docs) nothing_merged
    ok (merged_document target first m)
