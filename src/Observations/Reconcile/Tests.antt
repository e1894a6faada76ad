-- ===== src/Observations/Reconcile/Tests.antt =====
-- A failed run and a complete one over one machine, and the laws at them.
use iac_modules.Common.{◌≡◌, refl, false, true, [], ◌∷◌, ok, Dict}
use iac_modules.Json.{Value, bool, str, mapping, find, set, remove, eq}
use iac_modules.Cmdb.Words.{strip, strip_of, lower, has_char, before_first, after_first}
use iac_modules.Cmdb.Keys.{alias_of}
use iac_modules.Cmdb.Endpoint.{replace_z}
use iac_modules.Cmdb.Samples.{readers}
use iac_modules.Observations.Checks.{required_text, timestamp, normalize_provider}
use iac_modules.Observations.Envelope.{Envelope}
use iac_modules.Observations.Scope.{matches_provider, matches_run_scope}
use iac_modules.Observations.Reconcile.{
  apply_observations, is_newer, sweep_entry, sweep, apply_run, apply_runs,
}
use iac_modules.Observations.Reconcile.Records.{is_complete}
use iac_modules.Observations.Reconcile.Keeps.{DeletesNothing, apply_runs-DeletesNothing}
use iac_modules.Observations.Reconcile.Settled.{Settles, apply_run-AreSettled}

abbrev run : Value → Value → Value
run outcome complete = mapping (
    ("run_id", str "r")
    ∷ ("collector", str "gcp-compute")
    ∷ ("scope", str "dev")
    ∷ ("outcome", outcome)
    ∷ ("scope_complete", complete)
    ∷ ("completed_at", str "late")
    ∷ [])

abbrev failed : Envelope
failed = record { run = run (str "failed") (bool false); observations = [] }

abbrev complete : Envelope
complete = record { run = run (str "success") (bool true); observations = [] }

abbrev machine : Value → Value → Value
machine status lifecycle = mapping (
    ("provider", str "gcp")
    ∷ ("scope", str "dev")
    ∷ ("resource_kind", str "compute")
    ∷ ("last_observed_at", str "early")
    ∷ ("status", status)
    ∷ ("observation_status", status)
    ∷ ("lifecycle", lifecycle)
    ∷ [])

abbrev active : Dict Value
active = ("k", machine (str "active") (str "present")) ∷ []

abbrev after_failure : Value
after_failure = mapping (
    ("provider", str "gcp")
    ∷ ("scope", str "dev")
    ∷ ("resource_kind", str "compute")
    ∷ ("last_observed_at", str "early")
    ∷ ("status", str "collection_failed")
    ∷ ("observation_status", str "collection_failed")
    ∷ ("lifecycle", str "present")
    ∷ ("last_collection_error", str "failed")
    ∷ ("last_run_id", str "r")
    ∷ [])

abbrev unreached : Dict Value
unreached = ("k", after_failure) ∷ []

abbrev gone : Dict Value
gone =
    (
      "k",
      mapping (
          ("provider", str "gcp")
          ∷ ("scope", str "dev")
          ∷ ("resource_kind", str "compute")
          ∷ ("last_observed_at", str "early")
          ∷ ("status", str "deleted")
          ∷ ("observation_status", str "deleted")
          ∷ ("lifecycle", str "deletion_confirmed")
          ∷ ("provider_state", str "deleted")
          ∷ ("deleted_at", str "late")
          ∷ ("last_run_id", str "r")
          ∷ []),
    )
    ∷ []

-- The last one: a failed run makes a deleted machine present again.
runs :
    (apply_runs readers (failed ∷ []) active ≡ ok unreached)
    × (apply_run readers complete active ≡ ok gone)
    × (apply_runs readers
          (failed ∷ [])
          (("k", machine (str "deleted") (str "deletion_confirmed")) ∷ [])
        ≡ ok unreached)
    × (is_complete failed.run ≡ false)
    × (is_complete complete.run ≡ true)
unfolding apply_runs apply_run apply_observations sweep sweep_entry is_newer matches_run_scope
    matches_provider required_text timestamp normalize_provider alias_of replace_z strip strip_of
    lower has_char before_first after_first find set remove eq
runs = (refl, refl, refl, refl, refl)

apply_runs-DeletesNothing_example : DeletesNothing active unreached
apply_runs-DeletesNothing_example =
    apply_runs-DeletesNothing readers (failed ∷ []) active (runs.3, tt) (refl, tt) runs.0

apply_run-AreSettled_example : Settles readers complete active gone
apply_run-AreSettled_example = apply_run-AreSettled readers complete active runs.4 (refl, tt) runs.1
