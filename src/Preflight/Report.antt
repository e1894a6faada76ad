-- ===== src/Preflight/Report.antt =====
-- `build_report` of scripts/akamai_state_preflight.py. `str` of a value and the clock are parameters.
mod Missing
mod Clean
use iac_modules.Common.{
  String, Bool, true, false, not, ◌&&◌, ◌||◌, none, some, List, [], ◌∷◌, ◌++◌, any, length, eqb,
  text_leb, sorted, ◌==◌, ◌+++◌, Result, ok, ◌>>=◌, ◌>>◌, if◌then◌else◌,
}
use iac_modules.Json.{
  pos, Value, bool, int, str, arr, items, texts, mapping, get, get_or, at, eq, is_text, truthy,
  text_value,
}
use iac_modules.Contracts.Transition.{unique}
use iac_modules.Preflight.Findings.{is_nonempty, when_found}
use iac_modules.Preflight.Claims.{
  namespace_of, claims_of, target_claims, is_shared, shares, stop_where,
}
use iac_modules.Preflight.Mapping.{
  Candidate, Standing, declared_owner, is_misplaced, is_one_to_one, is_mismatched, is_duplicate,
  is_unmapped, count_such,
}
use iac_modules.Preflight.Survey.{Inputs, Survey, survey}

abbrev pub repeated : List String → Bool
repeated names = not (eqb (length (unique names)) (length names))

abbrev pub is_ambiguous : Value → Bool
is_ambiguous item = is_text "ambiguous" (get "status" item)

abbrev pub ambiguous_failures : List Value → List String
ambiguous_failures [] = []
ambiguous_failures (item ∷ rest) =
    when_found (is_ambiguous item) ("namespace_ambiguous:" +++ namespace_of item)
    ++ ambiguous_failures rest

-- A target that is both persistent and eligible for cleanup.
abbrev pub persists : Value → Bool
persists item = truthy (get "persistent" item) && truthy (get "cleanup_eligible" item)

-- The namespace that has a misplaced resource, or the one that is declared for it.
abbrev concerned : List Value → Candidate → Value → Bool
concerned expectations t item =
    (namespace_of item == t.namespace)
    || elim (declared_owner expectations (get "resource_type" t.resource)
        (get_or "label" (str "") t.resource)) [
          | none ↦ false
          | some owner ↦ eq (get "namespace" item) owner
        ]

abbrev pub misplaced_failures : List Value → List Candidate → List String
misplaced_failures expectations [] = []
misplaced_failures expectations (t ∷ ts) =
    when_found (is_misplaced expectations t.resource t)
      "namespace_state_resource_in_wrong_namespace"
    ++ misplaced_failures expectations ts

-- The reports after the loop over the states of the namespaces.
abbrev pub stop_misplaced : List Value → List Candidate → List Value → List Value
stop_misplaced expectations [] reports = reports
stop_misplaced expectations (t ∷ ts) reports = stop_misplaced expectations ts (
    if is_misplaced expectations t.resource t
    then stop_where (concerned expectations t) "namespace_state_resource_in_wrong_namespace" reports
    else reports)

-- Two namespaces have one resource, by their reports.
abbrev pub shared_ids : Survey → Bool
shared_ids s = let claims = claims_of s.items in any (is_shared claims) claims

-- Two namespaces have one resource, by their states.
abbrev pub shared_targets : Survey → Bool
shared_targets s = let claims = target_claims s.targets in any (is_shared claims) claims

-- The reports of the namespaces, as they stand at the end.
unfoldable pub final_items : Survey → List Value
final_items s = stop_misplaced s.expectations s.targets (
    if shared_ids s
    then stop_where (λ item. shares (claims_of s.items) (namespace_of item))
        "resource_id_maps_to_multiple_namespaces" s.items
    else s.items)

-- `failures`, in the order in which they are found
unfoldable pub failures_in : Survey → List String
failures_in s =
    when_found (repeated s.labels || repeated s.firewall_labels)
      "duplicate_manifest_label_across_namespaces"
    ++ when_found s.protected "protected_source_present_in_akamai_state"
    ++ ambiguous_failures s.items
    ++ when_found (shared_ids s) "resource_id_maps_to_multiple_namespaces"
    ++ when_found (any persists s.items) "persistent_target_in_cleanup_scope"
    ++ misplaced_failures s.expectations s.targets
    ++ when_found (shared_targets s) "resource_id_maps_to_multiple_namespaces"
    ++ when_found (not (eqb (count_such is_duplicate s.mapped) 0))
        "legacy_resource_maps_to_multiple_target_states"
    ++ when_found (not (eqb (count_such is_mismatched s.mapped) 0))
        "legacy_resource_mapped_to_wrong_namespace"
    ++ when_found (is_text "unavailable" (get "version_inventory_status" s.versions))
        "legacy_state_version_inventory_unavailable"
    ++ when_found (is_text "unavailable" (get "check_status" (get "archive_object" s.versions)))
        "legacy_state_archive_check_unavailable"

-- `legacy_state["present"] or bool(object_versions["object_present"])`
unfoldable pub legacy_present : Survey → Result Value
legacy_present s = do
  present ← at "present" s.legacy
  if truthy present
      then ok present
      else (do seen ← at "object_present" s.versions; ok (bool (truthy seen)))

abbrev record_values : List (Standing × Value) → List Value
record_values [] = []
record_values ((standing, v) ∷ rest) = v ∷ record_values rest

abbrev number : (Standing → Bool) → Survey → Value
number test s = int (pos (count_such test s.mapped))

-- `retirement_plan`
unfoldable pub retirement_plan : Inputs → Survey → Result Value
retirement_plan c s = do
  present ← legacy_present s
  suggested ← at "suggested_archive_key" s.versions
  ok (
      mapping (
        ("applicable", bool (is_nonempty c.migration_sources))
        ∷ ("legacy_state_key", s.historical)
        ∷ ("legacy_state_present", present)
        ∷ ("object_versions", s.versions)
        ∷ ("resource_mappings", arr (items (record_values s.mapped)))
        ∷ (
          "mapping_counts",
          mapping (
              ("legacy_resource_count", int (pos (length s.resources)))
              ∷ ("one_to_one", number is_one_to_one s)
              ∷ ("unmapped", number is_unmapped s)
              ∷ ("duplicate", number is_duplicate s)
              ∷ ("namespace_mismatch", number is_mismatched s)
              ∷ []),
        )
        ∷ (
          "retirement_prerequisites",
          mapping (
              ("all_selected_active_namespace_plans_zero_add_change_destroy", str "required")
              ∷ ("every_legacy_resource_has_one_to_one_namespace_mapping", str "required")
              ∷ ("migration_acceptance_complete", str "required")
              ∷ ("old_observability_source_unchanged_through_acceptance", str "required")
              ∷ ("versioned_or_verified_archive_backup", str "required")
              ∷ []),
        )
        ∷ ("state_rm_or_retire_allowed", bool false)
        ∷ ("suggested_archive_key", suggested)
        ∷ []))

-- `legacy_state_candidates`
unfoldable pub candidate_reports : Value → List Value → Result (List Value)
candidate_reports present [] = ok []
candidate_reports present (candidate ∷ rest) = do
  key ← at "state_key" candidate
  commit ← at "source_commit" candidate
  path ← at "source_path" candidate
  others ← candidate_reports present rest
  ok (
      mapping (
        ("state_key", key)
        ∷ ("source_commit", commit)
        ∷ ("source_path", path)
        ∷ ("present", present)
        ∷ [])
      ∷ others)

abbrev cleanup_namespaces : List Value → List Value
cleanup_namespaces [] = []
cleanup_namespaces (item ∷ rest) =
    let others = cleanup_namespaces rest in
    if truthy (get "cleanup_eligible" item) then get "namespace" item ∷ others else others

-- The report that the failures and the reports of the namespaces give.
abbrev pub report_of : Inputs → Survey → List Value → Value → Value
report_of c s candidates plan = mapping (
    ("schema_version", int (pos 1))
    ∷ ("mode", str "read-only")
    ∷ ("environment", str "uat")
    ∷ ("account", str c.account)
    ∷ ("correlation_id", str c.correlation_id)
    ∷ ("generated_at", str c.now)
    ∷ ("status", str (elim (failures_in s) [ [] ↦ "complete" | _ ↦ "failed" ]))
    ∷ ("failures", texts (sorted text_leb (unique (failures_in s))))
    ∷ ("legacy_state_candidates", arr (items candidates))
    ∷ ("future_cleanup_namespaces", arr (items (cleanup_namespaces (final_items s))))
    ∷ ("namespaces", arr (items (final_items s)))
    ∷ ("retirement_plan", plan)
    ∷ [])

unfoldable pub build_report : Inputs → Result Value
build_report c = do
  s ← survey c
  plan ← retirement_plan c s
  status ← at "version_inventory_status" s.versions
  present ← legacy_present s
  candidates ← candidate_reports present c.migration_sources
  ok (report_of c s candidates plan)
