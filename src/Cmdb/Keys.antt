-- ===== src/Cmdb/Keys.antt =====
-- `normalize_provider`, `normalize_native_resource_id`, `build_resource_key` and
-- `classify_runtime_form` of terraform-hcl-standard/scripts/cmdb_v1.py.
use iac_modules.Common.{
  String, Bool, not, ◌&&◌, ◌||◌, List, [], ◌∷◌, any, eqb, member, ◌==◌, ◌+++◌, Result, ok, require,
  ◌>>=◌, ◌>>◌, if◌then◌else◌,
}
use iac_modules.Json.{Value, str, obj, arr, nil, end, get, is_null, is_mapping, truthy}
use iac_modules.Evidence.Inventory.{iterated}
use iac_modules.Cmdb.Words.{
  strip, strip_of, lower, without_prefix, text_of, text_or, or_text, first_of,
}

-- `PROVIDER_ALIASES.get(text, text)`
unfoldable pub alias_of : String → String
alias_of text =
    if text == "gcp-cloud"
    then "gcp"
    else if text == "aws-cloud"
    then "aws"
    else if text == "vultr-vps"
    then "vultr"
    else if text == "akamai-cloud"
    then "akamai"
    else if text == "supabase-cloud"
    then "supabase"
    else if text == "ali-cloud"
    then "alicloud"
    else if text == "azure-cloud"
    then "azure"
    else text

abbrev pub url_prefixes : List String
url_prefixes =
    "https://www.googleapis.com/compute/v1/" ∷ "http://www.googleapis.com/compute/v1/"
    ∷ "https://compute.googleapis.com/compute/v1/" ∷ "http://compute.googleapis.com/compute/v1/"
    ∷ "https://googleapis.com/compute/v1/" ∷ "http://googleapis.com/compute/v1/" ∷ []

abbrev pub serverless_kinds : List String
serverless_kinds =
    "serverless" ∷ "serverless_service" ∷ "serverless_revision" ∷ "serverless_worker"
    ∷ "serverless_pages" ∷ "cloud_run" ∷ "cloudflare_worker" ∷ "cloudflare_pages" ∷ "supabase"
    ∷ "managed_database" ∷ []

abbrev k3s_groups : List String
k3s_groups = "k3s_server" ∷ "k3s_agent" ∷ "k3s_node" ∷ "k3s" ∷ "k8s_cluster" ∷ []

abbrev pub runtime_forms : List String
runtime_forms = "vm" ∷ "k3s_node" ∷ "serverless" ∷ []

-- `record.get(key) if isinstance(record.get(key), Mapping) else {}`
abbrev pub mapping_at : String → Value → Value
mapping_at key entry = if is_mapping (get key entry) then get key entry else obj end

-- `record.get("provider") or record.get("cloud_provider") or ...`
abbrev pub provider_of : Value → List Value → Value
provider_of entry others = first_of (get "provider" entry ∷ get "cloud_provider" entry ∷ others)

-- `record.get("groups") or []`
abbrev pub groups_of : Value → Value
groups_of entry = first_of (get "groups" entry ∷ arr nil ∷ [])

-- What an explicit form may not be.
unfoldable pub check_form : String → String → Result (Unit {0})
check_form explicit kind = do
  require (member explicit runtime_forms) "runtime_form is not one of the forms"
  require (not (explicit == "serverless" && member kind ("vm" ∷ "compute" ∷ "k3s_node" ∷ [])))
      "runtime_form 'serverless' conflicts with resource_kind"
  require (not (member explicit ("vm" ∷ "k3s_node" ∷ []) && member kind serverless_kinds))
      "runtime_form conflicts with serverless resource_kind"

module _ (show : Value → String) where
  -- A text in the form in which it is compared.
  abbrev pub word : Value → String
  word v = lower (strip (text_or show v))

  unfoldable pub normalize_provider : Value → Result String
  unfolding alias_of
  normalize_provider provider = do
    let text = word provider
    require (not (text == "")) "provider must be a non-empty string"
    ok (alias_of text)

  unfoldable pub normalize_native_resource_id : Value → String → Result String
  normalize_native_resource_id resource_id fallback = do
    let raw = strip (if is_null resource_id then "" else text_of show resource_id)
    let chosen = or_text raw (strip fallback)
    require (not (chosen == "")) "resource_id must be a non-empty string"
    ok (strip_of (eqb b'/') (without_prefix url_prefixes chosen))

  unfoldable pub build_resource_key : Value → Value → Value → Value → Result String
  build_resource_key provider account region resource_id = do
    p ← normalize_provider provider
    let a = or_text (strip (text_or show account)) "default"
    let r = or_text (strip (text_or show region)) "unknown"
    id ← normalize_native_resource_id resource_id ""
    ok (p +++ (":" +++ (a +++ (":" +++ (r +++ (":" +++ id))))))

  unfoldable pub is_k3s : Value → String → List Value → Bool
  is_k3s entry kind groups =
      let host_vars = mapping_at "host_vars" entry in
      member kind ("k3s_node" ∷ "k3s" ∷ "k3s_server" ∷ "k3s_agent" ∷ [])
      || (any (λ g. truthy g && member (word g) k3s_groups) groups
          || (word (get "deployment_mode" host_vars) == "kubernetes"
              || not (strip (text_or show (get "k8s_cluster_name" host_vars)) == "")))

  -- The form of a record that does not say it.
  unfoldable pub inferred_form : Value → String → String → List Value → String
  unfolding is_k3s
  inferred_form entry kind provider groups =
      if member kind serverless_kinds || member provider ("cloudflare" ∷ "supabase" ∷ [])
      then "serverless"
      else if is_k3s entry kind groups
      then "k3s_node"
      else "vm"

  unfoldable pub classify_runtime_form : Value → Value → Result String
  classify_runtime_form entry cloud_provider = do
    let explicit = word (get "runtime_form" entry)
    let kind = word (get "resource_kind" entry)
    provider ← normalize_provider (provider_of entry (cloud_provider ∷ str "unknown" ∷ []))
    groups ← iterated (groups_of entry)
    if explicit == ""
        then ok (inferred_form entry kind provider groups)
        else check_form explicit kind >> ok explicit
