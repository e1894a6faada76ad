-- ===== src/Observations/Envelope.antt =====
-- `validate_envelope` of terraform-hcl-standard/scripts/cmdb_observations_v1.py.
use iac_modules.Common.{
  String, Bool, not, ◌&&◌, ◌||◌, none, some, List, [], ◌∷◌, ◌++◌, member, leb, Dict, lookup, store,
  Result, ok, require, each, ◌>>=◌, ◌>>◌, if◌then◌else◌,
}
use iac_modules.Json.{
  Value, obj, get, has, put, merge, is_null, is_true, is_false, is_bool, is_mapping, is_list,
  is_text, is_str, fields, members, eq,
}
use iac_modules.Cmdb.Endpoint.{Readers}
use iac_modules.Observations.Checks.{timestamp, reject_secret_keys}
use iac_modules.Observations.Item.{scopes, among, needed, Observed, normalize_item}

-- The observations so far, each under its key, and the identities seen.
pub record Batch : Type 0 where
  pub found : Dict Value
  pub ids : List String

-- The envelope that is returned, less its schema version.
pub record Envelope : Type 0 where
  pub run : Value
  pub observations : Dict Value

module _ (r : Readers) where
  -- What a run says of its success.
  unfoldable pub check_outcome : Value → Result (Unit {0})
  check_outcome run = do
    require (among ("success" ∷ "partial" ∷ "failed" ∷ []) (get "outcome" run))
        "run.outcome must be one of the outcomes"
    require (is_bool (get "scope_complete" run)) "run.scope_complete must be a boolean"
    require (not (is_text "success" (get "outcome" run)) || is_true (get "scope_complete" run))
        "successful runs must prove the entire declared scope completed"
    require (is_text "success" (get "outcome" run) || is_false (get "scope_complete" run))
        "partial or failed runs cannot claim a complete scope"
    completed ← timestamp r (get "completed_at" run)
    ok tt

  unfoldable pub check_scope : Value → Result (Unit {0})
  unfolding eq
  check_scope run = do
    let scope = get "scope" run
    let environment = get "environment" run
    require (among scopes scope) "run.scope must be one of the scopes"
    require (is_null environment || among scopes environment)
        "run.environment must be one of the scopes"
    require
        (is_null environment
          || (is_text "unknown" scope || (is_text "unknown" environment || eq environment scope)))
        "run.environment conflicts with run.scope"
    each
        (λ key. require (not (has key run) || is_str (get key run)) "must be a string when present")
        ("account_ref" ∷ "project_ref" ∷ "region_ref" ∷ [])

  unfoldable pub check_run : Value → Result (Unit {0})
  unfolding check_outcome check_scope
  check_run run = do
    each (λ key. needed (get key run)) ("run_id" ∷ "collector" ∷ "owner_sha" ∷ [])
    started ← timestamp r (get "started_at" run)
    check_outcome run
    check_scope run

  module _ (quote : String → String) where
    -- An observation of a resource that was observed already.
    unfoldable pub observe_again : Bool → Observed → Value → Batch → Result Batch
    unfolding eq
    observe_again deduplicate o prev batch = do
      require deduplicate "duplicate canonical resource identity"
      require
          (eq (get "scope" prev) (get "scope" o.value)
            && eq (get "runtime_form" prev) (get "runtime_form" o.value))
          "conflicting duplicate observation"
      before ← timestamp r (get "last_observed_at" prev)
      let attributes = merge (fields (get "attributes" prev)) (fields (get "attributes" o.value))
      ok (
          if leb before o.seen
          then record batch {
            found = store o.key (put "attributes" (obj attributes) o.value) batch.found;
          }
          else batch)

    unfoldable pub observe : Bool → Observed → Batch → Result Batch
    unfolding observe_again
    observe deduplicate o batch = elim (lookup o.key batch.found) [
      | some prev ↦ observe_again deduplicate o prev batch
      | none ↦ (do
        require (deduplicate || not (member o.id batch.ids)) "duplicate canonical resource identity"
        ok (record { found = store o.key o.value batch.found; ids = batch.ids ++ o.id ∷ [] }))
    ]

    unfoldable pub observe_all : Bool → Value → List Value → Batch → Result Batch
    unfolding observe normalize_item
    observe_all deduplicate run [] batch = ok batch
    observe_all deduplicate run (item ∷ rest) batch = do
      o ← normalize_item r quote run item
      next ← observe deduplicate o batch
      observe_all deduplicate run rest next

    unfoldable pub validate_envelope : Bool → Value → Result Envelope
    unfolding check_run observe_all
    validate_envelope deduplicate document = do
      require (is_mapping document) "envelope must be an object"
      require (is_text "cmdb.observations.v1" (get "schema_version" document))
          "schema_version must be cmdb.observations.v1"
      let run = get "run" document
      require (is_mapping run) "run must be an object"
      require (is_list (get "observations" document)) "observations must be an array"
      check_run run
      batch ←
          observe_all deduplicate run (members (get "observations" document))
            (record { found = []; ids = [] })
      reject_secret_keys run
      ok (record { run = run; observations = batch.found })
