-- ===== src/Observations/Reconcile.antt =====
-- `reconcile_observations` of terraform-hcl-standard/scripts/cmdb_observations_v1.py: how the state
-- changes with the runs, and what is told of each run.
mod Records
mod Keeps
mod Settled
mod Tests
use iac_modules.Common.{
  ℕ, String, Bool, true, false, not, ◌&&◌, ◌||◌, Option, none, some, List, [], ◌∷◌, map, member,
  length, ltb, leb, ◌==◌, Dict, lookup, store, sorted, collect, Result, ok, require, ◌>>=◌, ◌>>◌,
  if◌then◌else◌,
}
use iac_modules.Json.{
  ℤ, pos, Value, Fields, null, int, str, obj, end, get, get_or, put, remove, merge, mapping,
  is_null, is_true, is_text, truthy, fields, eq,
}
use iac_modules.Cmdb.Words.{first_of}
use iac_modules.Cmdb.Endpoint.{Readers}
use iac_modules.Observations.Checks.{timestamp}
use iac_modules.Observations.Envelope.{Envelope, validate_envelope}
use iac_modules.Observations.Desired.{read_desired, read_prior, declare}
use iac_modules.Observations.Scope.{matches_run_scope}

-- `names` of the entries of a dict
abbrev pub names_in {ℓ} : {V : Type ℓ} → Dict V → List String
names_in [] = []
names_in ((key, v) ∷ d) = key ∷ names_in d

abbrev pub succeeded : Value → Bool
succeeded run = is_text "success" (get "outcome" run)

-- `run.get("error_class") or outcome`
abbrev error_of : Value → Value
error_of run = first_of (get "error_class" run ∷ get "outcome" run ∷ [])

-- `mapping[key] = value`, one after the other
abbrev pub assign : List (String × Value) → Value → Value
assign [] v = v
assign ((key, value) ∷ rest) v = assign rest (put key value v)

-- What is written of a resource that a run observed.
abbrev pub observed_writes : Value → List (String × Value)
observed_writes run =
    let status = str (if succeeded run then "active" else "collection_failed") in
    ("status", status)
    ∷ ("observation_status", status)
    ∷ ("lifecycle", str "present")
    ∷ ("last_run_id", get "run_id" run)
    ∷ (if succeeded run then [] else ("last_collection_error", error_of run) ∷ [])

-- What was known of a resource, what is observed over it, and what is written.
unfoldable pub observed_record : Value → Value → Fields → Value
observed_record run observation known =
    let whole = remove "deleted_at" (merge known (fields observation)) in
    assign (observed_writes run)
      (obj (if succeeded run then remove "last_collection_error" whole else whole))

-- A resource that was there, as a run sees that knows it.
abbrev pub was_there : Value → Bool
was_there current =
    is_text "present" (get "lifecycle" current) || not (is_null (get "last_observed_at" current))

-- What is written of a resource that a complete run did not find.
abbrev pub missing_writes : Value → Bool → List (String × Value)
missing_writes run there =
    if there
    then ("status", str "deleted")
      ∷ ("observation_status", str "deleted")
      ∷ ("lifecycle", str "deletion_confirmed")
      ∷ ("provider_state", str "deleted")
      ∷ ("deleted_at", get "completed_at" run)
      ∷ ("last_run_id", get "run_id" run)
      ∷ []
    else ("status", str "unobserved")
      ∷ ("observation_status", str "unobserved")
      ∷ ("lifecycle", str "never_observed")
      ∷ []

-- What is written of a resource that a run did not reach.
abbrev pub unreached_writes : Value → Bool → List (String × Value)
unreached_writes run there =
    let told = ("last_collection_error", error_of run) ∷ ("last_run_id", get "run_id" run) ∷ [] in
    ("status", str "collection_failed")
    ∷ ("observation_status", str "collection_failed")
    ∷ (if there then ("lifecycle", str "present") ∷ told else told)

-- The state of all resources after the runs, and what is told of the runs.
pub record Reconciled : Type 0 where
  pub desired : Dict Value
  pub state : Dict Value
  pub runs : List Value

module _ (r : Readers) where
  -- Whether an observation is older than what is known of its resource.
  unfoldable pub is_stale : Value → ℕ → Value → Result Bool
  unfolding eq
  is_stale observation seen existing = do
    let environment = first_of (get "environment" existing ∷ get "scope" existing ∷ [])
    require
        (not (truthy environment)
          || (is_text "unknown" environment || eq (get "environment" observation) environment))
        "cross-environment observation"
    if truthy (get "last_observed_at" existing)
        then (do before ← timestamp r (get "last_observed_at" existing); ok (ltb seen before))
        else ok false

  unfoldable pub apply_observation : Value → String → Value → Dict Value → Result (Dict Value)
  unfolding is_stale observed_record
  apply_observation run key observation state = do
    seen ← timestamp r (get "last_observed_at" observation)
    elim (lookup key state) [
      | none ↦ ok (store key (observed_record run observation end) state)
      | some existing ↦ (do
        stale ← is_stale observation seen existing
        ok (
            if stale
            then state
            else store key (observed_record run observation (fields existing)) state))
    ]

  unfoldable pub apply_observations : Value → Dict Value → Dict Value → Result (Dict Value)
  unfolding apply_observation
  apply_observations run [] state = ok state
  apply_observations run ((key, observation) ∷ rest) state = do
    next ← apply_observation run key observation state
    apply_observations run rest next

  -- Whether a resource that the run did not see is left alone.
  unfoldable pub is_newer : Value → ℕ → Result Bool
  is_newer current completed =
      if truthy (get "last_observed_at" current)
      then (do seen ← timestamp r (get "last_observed_at" current); ok (ltb completed seen))
      else ok false

  unfoldable pub sweep_entry : Value → ℕ → Value → Result Value
  unfolding is_newer
  sweep_entry run completed current = do
    covered ← matches_run_scope r current run
    newer ← (if covered then is_newer current completed else ok true)
    ok (
        if newer
        then current
        else if succeeded run && is_true (get "scope_complete" run)
        then assign (missing_writes run (was_there current)) current
        else assign (unreached_writes run (was_there current)) current)

  -- What becomes of the resources that the run did not see.
  unfoldable pub sweep : Value → ℕ → List String → Dict Value → Result (Dict Value)
  unfolding sweep_entry
  sweep run completed seen [] = ok []
  sweep run completed seen ((key, current) ∷ rest) = do
    next ← (if member key seen then ok current else sweep_entry run completed current)
    others ← sweep run completed seen rest
    ok ((key, next) ∷ others)

  unfoldable pub apply_run : Envelope → Dict Value → Result (Dict Value)
  unfolding apply_observations sweep
  apply_run envelope state = do
    completed ← timestamp r (get "completed_at" envelope.run)
    observed ← apply_observations envelope.run envelope.observations state
    sweep envelope.run completed (names_in envelope.observations) observed

  unfoldable pub apply_runs : List Envelope → Dict Value → Result (Dict Value)
  unfolding apply_run
  apply_runs [] state = ok state
  apply_runs (envelope ∷ rest) state = do next ← apply_run envelope state; apply_runs rest next

  -- What is told of a run.
  abbrev pub summary_of : Envelope → Value
  summary_of envelope =
      let run = envelope.run in
      mapping (
        ("run_id", get "run_id" run)
        ∷ ("collector", get "collector" run)
        ∷ ("scope", get "scope" run)
        ∷ ("project_ref", get_or "project_ref" (str "") run)
        ∷ ("region_ref", get_or "region_ref" (str "") run)
        ∷ ("outcome", get "outcome" run)
        ∷ ("scope_complete", get "scope_complete" run)
        ∷ ("resources_seen", int (pos (length (names_in envelope.observations))))
        ∷ ("completed_at", get "completed_at" run)
        ∷ ("error_class", get "error_class" run)
        ∷ [])

  abbrev completed_first : ℕ × Envelope → ℕ × Envelope → Bool
  completed_first a b = leb a.0 b.0

  -- An envelope and when its run was completed.
  abbrev pub timed : Envelope → Result (ℕ × Envelope)
  timed envelope = do
    completed ← timestamp r (get "completed_at" envelope.run)
    ok (completed, envelope)

  unfoldable pub reconcile_state :
      (String → String) → List Value → List Value → List Value → Result Reconciled
  unfolding apply_runs
  reconcile_state quote envelopes desired prior = do
    wanted ← read_desired r quote desired []
    known ← read_prior r quote prior []
    checked ← collect (validate_envelope r quote true) envelopes
    in_time ← collect timed checked
    let ordered = map (λ (e : ℕ × Envelope). e.1) (sorted completed_first in_time)
    state ← apply_runs ordered (declare r wanted known)
    ok (record { desired = wanted; state = state; runs = map summary_of ordered })
