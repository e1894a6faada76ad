-- ===== src/Observations/Deduplicate.antt =====
-- `deduplicate_observations`, of terraform-hcl-standard/scripts/cmdb_observations_v1.py.
pub mod Newest
mod Tests
use iac_modules.Common.{
  String, not, ◌&&◌, none, some, List, [], ◌∷◌, map, ltb, Dict, lookup, store, Result, ok, require,
  expect, ◌>>=◌, ◌>>◌, if◌then◌else◌,
}
use iac_modules.Json.{Value, str, get, put, is_mapping, truthy, eq}
use iac_modules.Cmdb.Words.{first_of}
use iac_modules.Cmdb.Endpoint.{Readers}
use iac_modules.Observations.Checks.{timestamp, normalize_provider, normalize_native_resource_id}
use iac_modules.Observations.Keys.{
  plain, classify_runtime_form, infer_observation_region, resource_key, canonical_id,
}
use iac_modules.Observations.Item.{Observed}

-- `item.get("environment") or item.get("scope")`
abbrev own_scope : Value → Value
own_scope v = first_of (get "environment" v ∷ get "scope" v ∷ [])

module _ (r : Readers) (quote : String → String) where
  unfoldable pub normal_observation : Value → Result Observed
  normal_observation item = do
    expect (is_mapping item)
    form ← classify_runtime_form r item
    region ← infer_observation_region r item ""
    provider ← normalize_provider (get "provider" item)
    native ← normalize_native_resource_id (get "native_resource_id" item)
    let placed = put "runtime_form" (str form) (
        put "region" (str region)
          (put "native_resource_id" (str native) (put "provider" (str provider) item)))
    key ← resource_key r placed ""
    let keyed = put "resource_key" (str key) placed
    id ← canonical_id r quote keyed
    let last = str (plain r (first_of (get "last_observed_at" item ∷ get "observed_at" item ∷ [])))
    seen ← timestamp r last
    ok (record {
      value = put "last_observed_at" last (put "canonical_id" (str id) keyed);
      key = key;
      id = id;
      seen = seen;
    })

  -- One observation more, over those of other resources and an older one of its own.
  unfoldable pub keep_newest : Observed → Dict Value → Result (Dict Value)
  unfolding eq
  keep_newest o found = elim (lookup o.key found) [
    | none ↦ ok (store o.key o.value found)
    | some existing ↦ (do
      let old = own_scope existing
      let new = own_scope o.value
      require (not (truthy old && (truthy new && not (eq old new))))
          "cross-environment duplicate resource_key"
      before ← timestamp r (get "last_observed_at" existing)
      ok (if ltb o.seen before then found else store o.key o.value found))
  ]

  unfoldable pub deduplicated : List Value → Dict Value → Result (Dict Value)
  unfolding normal_observation keep_newest
  deduplicated [] found = ok found
  deduplicated (item ∷ rest) found = do
    o ← normal_observation item
    next ← keep_newest o found
    deduplicated rest next

  unfoldable pub deduplicate_observations : List Value → Result (List Value)
  unfolding deduplicated
  deduplicate_observations items = do
    found ← deduplicated items []
    ok (map (λ (entry : String × Value). entry.1) found)
