-- ===== src/Observations/Deduplicate/Tests.antt =====
-- Two observations of one machine, the newer one first, and the law at them.
use iac_modules.Common.{◌≡◌, refl, List, [], ◌∷◌, ok, err, lookup, store}
use iac_modules.Json.{Value, str, get, mapping, find, set, eq}
use iac_modules.Cmdb.Words.{
  strip, strip_of, lower, without_prefix, has_char, count_char, before_first, after_first,
}
use iac_modules.Cmdb.Keys.{alias_of, check_form}
use iac_modules.Cmdb.Endpoint.{replace_z}
use iac_modules.Cmdb.Samples.{readers}
use iac_modules.Observations.Checks.{
  required_text, timestamp, normalize_provider, normalize_native_resource_id,
}
use iac_modules.Observations.Keys.{
  is_k3s, classify_runtime_form, region_of_run, infer_observation_region, resource_key,
  canonical_id,
}
use iac_modules.Observations.Deduplicate.{
  normal_observation, keep_newest, deduplicated, deduplicate_observations,
}
use iac_modules.Observations.Deduplicate.Newest.{
  IsDeduplicated, deduplicate_observations-IsDeduplicated,
}

abbrev seen : Value → Value
seen time = mapping (
    ("provider", str "gcp")
    ∷ ("project_ref", str "p")
    ∷ ("runtime_form", str "vm")
    ∷ ("native_resource_id", str "7")
    ∷ ("resource_kind", str "compute")
    ∷ ("region", str "eu")
    ∷ ("scope", str "dev")
    ∷ ("last_observed_at", time)
    ∷ [])

abbrev observations : List Value
observations = seen (str "late") ∷ seen (str "early") ∷ []

abbrev newest : List Value
unfolding deduplicate_observations deduplicated normal_observation keep_newest timestamp
    required_text normalize_provider normalize_native_resource_id classify_runtime_form
    infer_observation_region region_of_run resource_key canonical_id is_k3s alias_of check_form
    replace_z strip strip_of lower without_prefix has_char count_char before_first after_first find
    set eq lookup store
newest = elim (deduplicate_observations readers (λ s. s) observations) [ ok l ↦ l | err _ ↦ [] ]

abbrev times : List Value → List Value
times [] = []
times (v ∷ vs) = get "last_observed_at" v ∷ times vs

deduplicated_two :
    (deduplicate_observations readers (λ s. s) observations ≡ ok newest)
    × (times newest ≡ str "late" ∷ [])
unfolding deduplicate_observations deduplicated normal_observation keep_newest timestamp
    required_text normalize_provider normalize_native_resource_id classify_runtime_form
    infer_observation_region region_of_run resource_key canonical_id is_k3s alias_of check_form
    replace_z strip strip_of lower without_prefix has_char count_char before_first after_first find
    set eq lookup store
deduplicated_two = (refl, refl)

deduplicate_observations-IsDeduplicated_example :
    IsDeduplicated readers (λ s. s) observations newest
deduplicate_observations-IsDeduplicated_example =
    deduplicate_observations-IsDeduplicated readers (λ s. s) observations deduplicated_two.0
