-- ===== src/Runtime/Execute.antt =====
-- `execute` of scripts/pipeline/unified/runtime.py. The receipt is part of the world that the body
-- acts on, so that an exception leaves it as far as it was filled in.
use iac_modules.Common.{
  String, Bool, true, not, ◌&&◌, ◌||◌, Option, none, some, List, [], ◌∷◌, all, length, eqb, ◌==◌,
  ◌+++◌, Result, ok, err, malformed, if◌then◌else◌,
}
use iac_modules.Common.Steps.{Step, ◌>>=◌, ◌>>◌, lift, return, check}
use iac_modules.Json.{
  pos, Value, Fields, null, bool, int, str, obj, end, field, mapping, get, has, at, put, holds,
  is_text, is_mapping, truthy, fields, members, text_value, as_texts,
}
use iac_modules.Contracts.Checkout.{Checkout}
use iac_modules.Contracts.Ownership.{owner_match}
use iac_modules.Contracts.Prepare.{Runner, revalidate}
use iac_modules.Evidence.Guard.Changes.{Tally}
use iac_modules.Evidence.Guard.{guard_plan}
use iac_modules.Evidence.Receipts.{receipt_base, spec_at}
use iac_modules.Evidence.Inventory.{sanitize_inventory}
use iac_modules.States.{Resources, isolated_states, verify_retained, state_digest}
use iac_modules.Runtime.{
  main, source, pull, list_state, save_plan, show_plan, apply_plan, check_plan, Machine, when_step,
  initialize, dependencies,
}

-- A step of the body: it sees the receipt and the world.
abbrev pub Job : Type 0 → Type 0 → Type 0
Job W A = Step (Value × W) A

abbrev beside : {W A : Type 0} → Value → Result A × W → Result A × (Value × W)
beside r (a, w) = (a, (r, w))

-- A step that leaves the receipt as it is.
abbrev pub inner : {W A : Type 0} → Step W A → Job W A
inner s (r, w) = beside r (s w)

-- `receipt[key] = value`
abbrev pub fill : {W : Type 0} → String → Value → Job W (Unit {0})
fill key value (r, w) = (ok tt, (put key value r, w))

-- `receipt["verification"][name] = True`
abbrev pub proven : String → Value → Value
proven name r = put "verification" (put name (bool true) (get "verification" r)) r

abbrev pub prove : {W : Type 0} → String → Job W (Unit {0})
prove name (r, w) = (ok tt, (proven name r, w))

-- The stage of a run that is executed.
pub record Stage : Type 0 where
  pub context : Value
  pub action : String
  pub target : Value
  pub name : String
  pub spec : Value
  pub owners : List String

abbrev pub destroys : Stage → Bool
destroys s = s.action == "destroy"

-- The validation that a destroy cleans up, or null.
abbrev validation_of : Stage → Value
validation_of s = if destroys s then get "validation" s.target else null

abbrev pub cleans : Stage → Bool
cleans s = truthy (validation_of s)

abbrev owned_addresses : Stage → Value → Bool
owned_addresses s listed = all (λ v. owner_match (text_value v) s.owners) (members listed)

abbrev pub targets_of : Stage → Result (List String)
targets_of s = if cleans s then as_texts (get "destroy_owners" (validation_of s)) else ok []

abbrev counts : Tally → Value
counts t = mapping (
    ("create", int (pos t.create))
    ∷ ("update", int (pos t.update))
    ∷ ("delete", int (pos t.delete))
    ∷ [])

-- The hosts of GCP, which have an instance or an address.
abbrev host_facts : Fields → Fields
host_facts end = end
host_facts (field k v fs) =
    let rest = host_facts fs in
    if is_mapping v && (has "instance_id" v || has "ip" v) then field k v rest else rest

abbrev texts_in : List Value → List String
texts_in [] = []
texts_in (v ∷ vs) = text_value v ∷ texts_in vs

module _ {W : Type 0} (m : Machine W) where
  -- The isolation of a candidate, before its cleanup is planned: the resources that stay, and the
  -- serving source's state.
  unfoldable pub isolate : Stage → Job W (Resources × Value)
  isolate s = do
    binding ← lift (at "source_binding" (validation_of s))
    ready ← inner (initialize m source (get "state" binding))
    serving ← inner (m.command (pull source))
    candidate ← inner (m.command (pull main))
    found ← lift (isolated_states m.texts s.target candidate serving)
    fill "validation" (
        mapping (
          ("mode", str "cleanroom")
          ∷ ("source_state_sha256", str (state_digest m.texts serving))
          ∷ ("candidate_state_sha256", str (state_digest m.texts candidate))
          ∷ ("selected_compute_count", int (pos (length found.1)))
          ∷ []))
    prove "namespace_isolation"
    return (found.0, serving)

  unfoldable pub isolate_if : Stage → Job W (Resources × Value)
  isolate_if s = if cleans s then isolate s else return ([], null)

  unfoldable pub check_existing : Stage → Job W (Unit {0})
  check_existing s = do
    listed ← inner (m.command list_state)
    check (truthy listed && owned_addresses s listed)
        "existing state missing or belongs to another stage; explicit maintenance required"

  unfoldable pub check_destroyed : Stage → Job W (Unit {0})
  check_destroyed s = do
    listed ← inner (m.command list_state)
    check (truthy listed)
        "empty state destroy requires target investigation; refusing false success"
    check (owned_addresses s listed) "state contains resources outside selected owner"

  -- `f"{values['github_owner']}/{values['github_repository']}"`
  unfoldable pub bootstrap_repository : Stage → Job W (Option String)
  bootstrap_repository s =
      if s.name == "bootstrap"
      then (do
        values ← inner m.repository
        owner ← lift (at "github_owner" values)
        name ← lift (at "github_repository" values)
        return (some (text_value owner +++ ("/" +++ text_value name))))
      else return none

  -- The saved plan, guarded; its digest.
  unfoldable pub plan_stage : Stage → Job W String
  plan_stage s = do
    when_step (truthy (get "requires_existing_state" s.spec)) (check_existing s)
    when_step (destroys s) (check_destroyed s)
    targets ← lift (targets_of s)
    saved ← inner (m.command (save_plan (destroys s) targets))
    plan ← inner (m.command show_plan)
    repository ← bootstrap_repository s
    changes ← lift (
        guard_plan
          (record { target = s.target; stage = s.name; action = s.action; repository = repository })
          plan)
    fill "changes" (counts changes)
    check (not (cleans s) || eqb changes.delete 1)
        "validation cleanup must delete exactly one candidate instance"
    digest ← inner m.plan_digest
    fill "plan_sha256" (str digest)
    prove "ownership"
    fill "result" (str "planned")
    return digest

  unfoldable pub same_source : Value → String → Job W (Unit {0})
  same_source serving message = do
    now ← inner (m.command (pull source))
    check (state_digest m.texts now == state_digest m.texts serving) message

  -- What a destroy has left.
  unfoldable pub check_left : Stage → Resources × Value → Job W (Unit {0})
  check_left s (retained, serving) =
      if cleans s
      then (do
        owners ← lift (targets_of s)
        after ← inner (m.command (pull main))
        lift (verify_retained m.texts retained after owners)
        same_source serving "serving source state changed during cleanup"
        prove "retained_resources"
        prove "source_unchanged")
      else (do
        listed ← inner (m.command list_state)
        check (not (truthy listed)) "resources remain in target state")

  unfoldable pub publish_hosts : Stage → Job W (Unit {0})
  publish_hosts s = do
    given ← inner m.hosts
    let gcp = is_text "gcp-cloud" (get "provider" s.target)
    let raw = if gcp then obj (host_facts (fields given)) else given
    clean ← lift (sanitize_inventory m.addresses raw)
    check (truthy clean || gcp) "empty host inventory"
    digest ← inner (m.publish clean)
    fill "inventory_sha256" (str digest)

  -- The plan that was saved is applied, and a new one must find nothing to do.
  unfoldable pub converge : Stage → String → Resources × Value → Job W (Unit {0})
  converge s digest kept = do
    when_step (cleans s) (same_source kept.1 "serving source state changed before cleanup")
    again ← inner m.plan_digest
    check (again == digest) "saved plan changed before apply"
    applied ← inner (m.command apply_plan)
    when_step (destroys s) (check_left s kept)
    targets ← lift (targets_of s)
    nothing ← inner (m.command (check_plan (destroys s) targets))
    prove "convergence"
    fill "result" (str (if s.action == "apply" then "applied_verified" else "destroyed_verified"))
    when_step (s.action == "apply" && s.name == "resources") (publish_hosts s)

  unfoldable pub run_terraform : Stage → Job W (Unit {0})
  run_terraform s = do
    check (is_text "terraform" (get "mode" s.spec)) "unsupported stage"
    inner m.render
    state ← lift (at "state" s.spec)
    ready ← inner (initialize m main state)
    kept ← isolate_if s
    digest ← plan_stage s
    when_step (s.action == "apply" || s.action == "destroy") (converge s digest kept)

  -- The bootstrap stage of a run that only verifies it.
  abbrev verifies : Stage → Bool
  verifies s = s.name == "bootstrap" && is_text "verify" (get "bootstrap_mode" s.context)

  unfoldable pub verify_only : Stage → Job W (Unit {0})
  verify_only s = do
    check (not (destroys s)) "verification identity/network is protected from destroy"
    when_step (not (s.name == "bootstrap")) (inner (m.checks s.target (get "checks" s.spec)))
    fill "result" (str "verified_existing")
    prove "runtime_identity"

  -- The body of the `try`.
  unfoldable pub perform : Stage → Job W (Unit {0})
  perform s =
      if is_text "not_applicable" (get "mode" s.spec)
      then (do
        inner (dependencies m s.context s.target s.name)
        reason ← lift (at "reason" s.spec)
        fill "result" (str "not_applicable")
        fill "reason" reason)
      else (do
        inner (
            m.identity s.target
              (not (s.name == "bootstrap" && is_text "reconcile" (get "bootstrap_mode" s.context))))
        prove "identity"
        inner (dependencies m s.context s.target s.name)
        prove "dependencies"
        if is_text "verify" (get "mode" s.spec) || verifies s
            then verify_only s
            else run_terraform s)

  -- `except` and `finally`: the receipt is written whatever happened, as failed after an exception.
  abbrev pub close : Result (Unit {0}) × (Value × W) → Result Value × W
  close (ok done, (r, w)) = (m.write r >> return r) w
  close (err e, (r, w)) = (m.write (put "result" (str "failed") r) >> lift (err e)) w

  abbrev find_target : String → List Value → Result Value
  find_target id [] = err malformed
  find_target id (t ∷ ts) =
      let later = find_target id ts in if is_text id (get "id" t) then ok t else later

  -- The body, with the receipt written before and after it.
  unfoldable pub run_stage : Stage → Value → Step W Value
  run_stage s started = do m.write started; λ w. close (perform s (started, w))

  unfoldable pub execute : Runner → Checkout → Checkout → Value → String → String → Step W Value
  execute runner gitops iac context id name = do
    accepted ← lift (revalidate runner gitops iac context)
    targets ← lift (at "targets" context)
    target ← lift (find_target id (members targets))
    check (holds name (get "stages" context)) "stage was not selected by master"
    spec ← lift (spec_at name target)
    base ← lift (receipt_base context target name)
    let action = text_value (get "action" context)
    let owners = texts_in (members (get "owners" spec))
    let s : Stage = record {
      context = context;
      action = action;
      target = target;
      name = name;
      spec = spec;
      owners = owners;
    }
    run_stage s (proven "contract" base)
