-- ===== src/Contracts/Prepare/Stages.antt =====
-- The loop of `prepare` in scripts/pipeline/unified/contracts.py over the chosen targets: what a run
-- may execute on each stage, and the digests that bind the stages to their manifests.
use iac_modules.Common.{
  String, Bool, false, not, ◌&&◌, ◌||◌, List, [], ◌∷◌, ◌++◌, member, ◌==◌, ◌+++◌, Result, ok,
  require, when, ◌>>=◌, ◌>>◌, if◌then◌else◌,
}
use iac_modules.Json.{
  Value, Fields, end, field, obj, str, bool, get, get_or, has, put, is_text, is_true, truthy,
  fields, text_value, as_text,
}
use iac_modules.Contracts.Checkout.{Checkout, source_file}
use iac_modules.Contracts.Target.{validate_target}
use iac_modules.Contracts.Target.Tables.{on_demand_environments}
use iac_modules.Contracts.Catalog.{Claims, is_managed_stage, is_active}

-- What of a run decides on its stages.
pub record Run : Type 0 where
  pub action : String
  pub environment : String
  pub bootstrap_mode : String
  pub selected : List String

-- The checks of a stage that a run destroys.
unfoldable pub check_destruction : String → Value → Value → Result (Unit {0})
check_destruction environment target spec = do
  require (not (is_text "verify" (get "mode" spec)))
      "shared/external prerequisites cannot be destroyed"
  require (not (truthy (get_or "persistent" (bool false) (get_or "lifecycle" (obj end) target))))
      "persistent lifecycle blocks destruction"
  require
      (not (member environment on_demand_environments)
        || is_true (get "on_demand" (get "lifecycle" target)))
      "dev destroy requires an on-demand lifecycle"
  require (is_true (get "destroy_allowed" spec) || is_text "not_applicable" (get "mode" spec))
      "destroy is not authorized by declaration"
  require (not (truthy (get "shared" spec)) && not (truthy (get "external_references" spec)))
      "shared/external references block destruction"
  require (not (truthy (get "management_identity" spec)) && not (truthy (get "backend" spec)))
      "execution identity/backend require independent retirement"
  require
      (not (
        is_text "gcp-cloud" (get "provider" target)
        && (environment == "shared" || is_text "web-saas" (get "workspace" target))))
      "GCP shared/web-saas destroy remains protected"

-- `str(value)`
abbrev shown : Checkout → Value → String
shown root (str s) = s
shown root v = root.show v

-- The checks of a stage that a run executes.
unfoldable pub check_execution : Checkout → Run → Value → String → Value → Result (Unit {0})
check_execution root run target stage spec = do
  require (not (is_text "unsupported" (get "mode" spec))) (
      text_value (get "id" target)
      +++ ("/" +++ (stage +++ (": " +++ shown root (get "reason" spec)))))
  when (stage == "bootstrap" && run.bootstrap_mode == "reconcile") (
      require (is_text "terraform" (get "mode" spec))
        "reconcile requires an implemented bootstrap state owner; API-key verification is not reconciliation")
  when (run.action == "destroy") (check_destruction run.environment target spec)

-- A stage with the digest of its manifest.
unfoldable pub digest_stage : Checkout → Value → Result Value
digest_stage root spec =
    if truthy (get "manifest" spec)
    then (do
      path ← source_file root (get "manifest" spec)
      ok (put "manifest_sha256" (str (root.digest path)) spec))
    else ok spec

unfoldable pub digest_stages : Checkout → Fields → Result Fields
digest_stages root end = ok end
digest_stages root (field stage spec rest) = do
  digested ← digest_stage root spec
  others ← digest_stages root rest
  ok (field stage digested others)

unfoldable pub own_state : Value → List String → Result (List String)
own_state spec keys =
    if is_managed_stage spec
    then (do
      key ← as_text (get "key" (get "state" spec))
      require (not (member key keys)) "one state cannot be owned by multiple targets/stages"
      ok (keys ++ key ∷ []))
    else ok keys

-- The stage is one that the run executes.
abbrev pub executes : Run → String → Bool
executes run stage = not (run.action == "check") && member stage run.selected

-- The inner loop: the stages as it leaves them, and the keys that are taken.
unfoldable pub prepare_stages :
    Checkout → Run → Value → Fields → List String → Result (Fields × List String)
prepare_stages root run target end keys = ok (end, keys)
prepare_stages root run target (field stage spec rest) keys = do
  digested ← digest_stage root spec
  taken ← own_state digested keys
  when (executes run stage) (check_execution root run target stage digested)
  others ← prepare_stages root run target rest taken
  ok (field stage digested others.0, others.1)

-- What `prepare` checks of a target before its stages.
unfoldable pub check_chosen : Run → Value → List String → Result (Unit {0})
check_chosen run target ids = do
  require (run.action == "check" || (has "namespace" target && has "lifecycle" target))
      "execution requires explicit namespace/lifecycle"
  require (run.action == "check" || is_active target) "migration/retired targets are read-only"
  require (not (member (text_value (get "id" target)) ids)) "duplicate target"
  require (is_text run.environment (get "environment" target))
      "input must not override declared environment"

-- A target with its stages as the inner loop leaves them.
abbrev pub with_stages : Fields → Value → Value
with_stages stages target = put "stages" (obj stages) target

unfoldable pub prepare_target : Checkout → Run → Value → Claims → Result (Value × Claims)
prepare_target root run target claims = do
  valid ← validate_target root target
  check_chosen run valid claims.ids
  done ← prepare_stages root run valid (fields (get "stages" valid)) claims.keys
  ok (
    with_stages done.0 valid,
    record { ids = claims.ids ++ text_value (get "id" valid) ∷ []; keys = done.1 },
  )

unfoldable pub prepare_targets : Checkout → Run → List Value → Claims → Result (List Value)
prepare_targets root run [] claims = ok []
prepare_targets root run (target ∷ rest) claims = do
  first ← prepare_target root run target claims
  others ← prepare_targets root run rest first.1
  ok (first.0 ∷ others)
