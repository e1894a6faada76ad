-- ===== src/Observations/Report/Document.antt =====
-- `reconcile_observations` as a whole, and the document that it makes, of
-- terraform-hcl-standard/scripts/cmdb_observations_v1.py.
pub mod Summary
mod Tests
use iac_modules.Common.{ℕ, String, List, [], ◌∷◌, map, length, Dict, Result, ok, ◌>>=◌, ◌>>◌}
use iac_modules.Json.{pos, Value, null, int, str, arr, get, mapping, items}
use iac_modules.Cmdb.Words.{strip, text_of, first_of}
use iac_modules.Cmdb.Endpoint.{Readers}
use iac_modules.Observations.Buckets.{Bucket}
use iac_modules.Observations.Checks.{timestamp}
use iac_modules.Observations.Reconcile.{Reconciled, reconcile_state}
use iac_modules.Observations.Report.{Tally, Report, report_of}

abbrev counters : Dict Bucket → Value
counters buckets = mapping (
    map
      (λ (b : String × Bucket). (b.0, mapping (map (λ (c : String × ℕ). (c.0, int (pos c.1))) b.1)))
      buckets)

abbrev pub summary : ℕ → Tally → Value
summary declared t = mapping (
    map (λ (c : String × ℕ). (c.0, int (pos c.1)))
      (("declared_count", declared)
        ∷ ("active_count", t.active)
        ∷ ("observed_active_count", t.observed_active)
        ∷ ("unobserved_count", t.unobserved)
        ∷ ("collection_failed_count", t.collection_failed)
        ∷ ("deleted_count", t.deleted)
        ∷ ("matched_count", t.matched)
        ∷ ("declared_only_count", t.declared_only)
        ∷ ("observed_only_count", t.observed_only)
        ∷ ("drifted_count", t.drifted)
        ∷ []))

-- When the last run was completed, which nothing says where there is none.
abbrev last_run : List Value → Value
last_run [] = null
last_run (run ∷ runs) = elim runs [ [] ↦ get "completed_at" run | _ ∷ _ ↦ last_run runs ]

abbrev document_of : String → Reconciled → Report → Value
document_of generated x report = mapping (
    ("schema_version", str "cmdb.reconciliation.v1")
    ∷ ("generated_at", str generated)
    ∷ ("summary", summary (length x.desired) report.tally)
    ∷ ("by_environment", counters report.by_environment)
    ∷ ("by_runtime_form", counters report.by_form)
    ∷ ("runs", arr (items x.runs))
    ∷ ("diffs", arr (items report.diffs))
    ∷ ("resources", mapping report.resources)
    ∷ [])

module _ (r : Readers) where
  -- `now` is the clock's time, and `generated_at` null where the caller gives none
  unfoldable pub reconcile_observations :
      (String → String) → Value → Value → List Value → List Value → List Value → Result Value
  unfolding report_of reconcile_state timestamp
  reconcile_observations quote now generated_at envelopes desired prior = do
    x ← reconcile_state r quote envelopes desired prior
    report ← report_of r x
    let generated = strip (text_of r.show (first_of (generated_at ∷ last_run x.runs ∷ now ∷ [])))
    _ ← timestamp r (str generated)
    ok (document_of generated x report)
