-- ===== src/Observations/Keys.antt =====
-- `classify_runtime_form`, `infer_observation_region`, `resource_key` and `canonical_id` of
-- terraform-hcl-standard/scripts/cmdb_observations_v1.py. `quote` is that of urllib.parse, with no
-- safe character.
use iac_modules.Common.{
  String, Bool, not, ◌&&◌, ◌||◌, List, [], ◌∷◌, any, member, ◌==◌, ◌+++◌, Result, ok, require,
  ◌>>=◌, ◌>>◌, if◌then◌else◌,
}
use iac_modules.Json.{Value, str, arr, nil, get, get_or, is_null, str_such, text_value, truthy}
use iac_modules.Evidence.Inventory.{iterated}
use iac_modules.Cmdb.Words.{strip, lower, text_of, text_or, or_text, first_of}
use iac_modules.Cmdb.Keys.{serverless_kinds, mapping_at, check_form, word}
use iac_modules.Cmdb.Endpoint.{Readers, region_of_zone}
use iac_modules.Observations.Checks.{
  required_text, normalize_provider, normalize_native_resource_id,
}

abbrev k3s_indicators : List String
k3s_indicators = "k3s_node" ∷ "k3s" ∷ "k3s_server" ∷ "k3s_agent" ∷ "k8s_cluster" ∷ "kubernetes" ∷ []

abbrev pub compute_kinds : List String
compute_kinds = "compute" ∷ "vm" ∷ "k3s_node" ∷ "k3s" ∷ "k3s_server" ∷ "k3s_agent" ∷ []

-- `str(v or "").strip()`
abbrev pub plain : Readers → Value → String
plain r v = strip (text_or r.show v)

module _ (r : Readers) where
  unfoldable pub is_k3s : Value → String → List Value → Bool
  is_k3s observation kind groups =
      let attributes = mapping_at "attributes" observation in
      member kind ("k3s_node" ∷ "k3s" ∷ "k3s_server" ∷ "k3s_agent" ∷ [])
      || (any (λ g. truthy g && member (word r.show g) k3s_indicators) groups
          || (word r.show (get "deployment_mode" attributes) == "kubernetes"
              || not (
                  plain r
                    (first_of (get "k8s_cluster_name" attributes ∷ get "cluster" observation ∷ []))
                  == "")))

  unfoldable pub classify_runtime_form : Value → Result String
  unfolding is_k3s check_form
  classify_runtime_form observation = do
    provider ← normalize_provider (get "provider" observation)
    raw_kind ← required_text (get "resource_kind" observation)
    let kind = lower raw_kind
    let explicit = word r.show (get "runtime_form" observation)
    groups ← iterated (
        first_of (
          get "groups" observation
          ∷ get "groups" (mapping_at "attributes" observation)
          ∷ arr nil
          ∷ []))
    if not (explicit == "")
        then (check_form explicit kind >> ok explicit)
        else ok (
            if member kind serverless_kinds || member provider ("cloudflare" ∷ "supabase" ∷ [])
            then "serverless"
            else if is_k3s observation kind groups
            then "k3s_node"
            else "vm")

  -- The region of an observation that names neither a region nor a zone: "" is none.
  unfoldable pub region_of_run : Value → String → Result String
  unfolding classify_runtime_form
  region_of_run observation run_region =
      if not (run_region == "") && not (member run_region ("all-zones" ∷ "multi-region" ∷ []))
      then ok run_region
      else (do
        form ← classify_runtime_form observation
        provider ← normalize_provider (get "provider" observation)
        ok (if form == "serverless" && provider == "cloudflare" then "global" else ""))

  -- `run_region` is that of the run, stripped, and empty where there is none.
  unfoldable pub infer_observation_region : Value → String → Result String
  unfolding region_of_run
  infer_observation_region observation run_region = do
    let attributes = mapping_at "attributes" observation
    let zone = plain r (first_of (get "zone" observation ∷ get "zone" attributes ∷ []))
    let region = get "region" observation
    require (is_null region || str_such (λ s. not (strip s == "")) region)
        "region must be a non-empty string when present"
    let explicit = strip (text_value region)
    require (explicit == "" || (region_of_zone r zone == "" || explicit == region_of_zone r zone))
        "region conflicts with zone"
    let named = or_text explicit (region_of_zone r zone)
    resolved ← (if named == "" then region_of_run observation run_region else ok named)
    require (not (member resolved ("" ∷ "unknown" ∷ []))) "region is required and cannot be unknown"
    require
        (run_region == ""
          || (member run_region ("all-zones" ∷ "global" ∷ "multi-region" ∷ [])
              || resolved == run_region))
        "region conflicts with run.region_ref"
    ok resolved

  unfoldable pub resource_key : Value → String → Result String
  unfolding infer_observation_region
  resource_key observation run_region = do
    provider ← normalize_provider (get "provider" observation)
    let account =
        or_text (plain r (get "project_ref" observation))
          (or_text (plain r (get "account_ref" observation)) "default")
    region ← infer_observation_region observation run_region
    id ← normalize_native_resource_id (get "native_resource_id" observation)
    ok (provider +++ (":" +++ (account +++ (":" +++ (region +++ (":" +++ id))))))

  -- The kind that an identity names: a machine is compute, however it is run.
  abbrev canonical_kind : String → String
  canonical_kind kind =
      if member kind ("vm" ∷ "k3s_node" ∷ [])
      then "compute"
      else if kind == "serverless"
      then "serverless_service"
      else kind

  unfoldable pub canonical_id : (String → String) → Value → Result String
  canonical_id quote observation = do
    provider ← normalize_provider (get "provider" observation)
    let project = strip (text_of r.show (get_or "project_ref" (str "") observation))
    let account = strip (text_of r.show (get_or "account_ref" (str "") observation))
    kind ← required_text (get "resource_kind" observation)
    id ← normalize_native_resource_id (get "native_resource_id" observation)
    let part = λ (s : String). or_text (quote s) "_"
    ok (
        "cmdb://"
        +++ (part provider
            +++ ("/"
                +++ (part account
                    +++ ("/"
                        +++ (part project
                            +++ ("/"
                                +++ (part (canonical_kind (lower kind))
                                    +++ ("/" +++ part id)))))))))
