-- ===== src/Observations/Report/Document/Tests.antt =====
-- A declared machine that is not observed beside one that is known, and the laws at them.
use iac_modules.Common.{◌≡◌, refl, [], ◌∷◌, ok, err, lookup, store}
use iac_modules.Json.{pos, Value, null, int, str, get, mapping, find, set, remove, eq}
use iac_modules.Cmdb.Words.{
  strip, strip_of, lower, without_prefix, has_char, count_char, before_first, after_first,
}
use iac_modules.Cmdb.Keys.{alias_of, check_form}
use iac_modules.Cmdb.Endpoint.{replace_z}
use iac_modules.Cmdb.Samples.{readers}
use iac_modules.Observations.Checks.{
  required_text, timestamp, normalize_provider, normalize_native_resource_id,
}
use iac_modules.Observations.Keys.{
  is_k3s, classify_runtime_form, region_of_run, infer_observation_region, resource_key,
  canonical_id,
}
use iac_modules.Observations.Desired.{
  desired_facts, desired_record, desired_kind, normalize_desired_entry, read_desired,
  read_prior_entry, read_prior, declare,
}
use iac_modules.Observations.Reconcile.{apply_runs, reconcile_state}
use iac_modules.Observations.Buckets.{bump, bump_all, count_in, declare_in}
use iac_modules.Observations.Report.{
  match_present, match_of, count_resource, detail_of, diff_of, report_resource, report_resources,
  count_desired, report_of,
}
use iac_modules.Observations.Report.Document.{reconcile_observations}
use iac_modules.Observations.Report.Document.Summary.{
  IsSummarized, reconcile_observations-IsSummarized,
}

abbrev known : Value
known = mapping (
    ("resource_key", str "k")
    ∷ ("provider", str "gcp")
    ∷ ("project_ref", str "p")
    ∷ ("runtime_form", str "vm")
    ∷ ("native_resource_id", str "7")
    ∷ ("resource_kind", str "compute")
    ∷ ("region", str "eu")
    ∷ ("scope", str "dev")
    ∷ ("last_observed_at", str "early")
    ∷ [])

-- The document, as JSON.
abbrev document : Value
unfolding reconcile_observations reconcile_state report_of read_desired normalize_desired_entry
    desired_facts desired_record desired_kind read_prior read_prior_entry declare apply_runs
    report_resources report_resource count_desired count_in declare_in match_of match_present
    count_resource diff_of detail_of bump bump_all timestamp required_text normalize_provider
    normalize_native_resource_id classify_runtime_form infer_observation_region region_of_run
    resource_key canonical_id is_k3s alias_of check_form replace_z strip strip_of lower
    without_prefix has_char count_char before_first after_first find set remove eq lookup store
document =
    elim (reconcile_observations readers (λ s. s) (str "early") null [] (known ∷ []) (known ∷ [])) [
      | ok made ↦ made
      | err _ ↦ null
    ]

-- The declared machine is not observed, and the known one is not declared.
documented :
    (reconcile_observations readers (λ s. s) (str "early") null [] (known ∷ []) (known ∷ [])
      ≡ ok document)
    × (get "summary" document
        ≡ mapping (
            ("declared_count", int (pos 1))
            ∷ ("active_count", int (pos 1))
            ∷ ("observed_active_count", int (pos 1))
            ∷ ("unobserved_count", int (pos 1))
            ∷ ("collection_failed_count", int (pos 0))
            ∷ ("deleted_count", int (pos 0))
            ∷ ("matched_count", int (pos 0))
            ∷ ("declared_only_count", int (pos 1))
            ∷ ("observed_only_count", int (pos 1))
            ∷ ("drifted_count", int (pos 0))
            ∷ []))
unfolding reconcile_observations reconcile_state report_of read_desired normalize_desired_entry
    desired_facts desired_record desired_kind read_prior read_prior_entry declare apply_runs
    report_resources report_resource count_desired count_in declare_in match_of match_present
    count_resource diff_of detail_of bump bump_all timestamp required_text normalize_provider
    normalize_native_resource_id classify_runtime_form infer_observation_region region_of_run
    resource_key canonical_id is_k3s alias_of check_form replace_z strip strip_of lower
    without_prefix has_char count_char before_first after_first find set remove eq lookup store
documented = (refl, refl)

reconcile_observations-IsSummarized_example :
    IsSummarized readers (λ s. s) (str "early") null [] (known ∷ []) (known ∷ []) document
reconcile_observations-IsSummarized_example =
    reconcile_observations-IsSummarized readers (λ s. s) (str "early") null [] (known ∷ [])
      (known ∷ []) documented.0
