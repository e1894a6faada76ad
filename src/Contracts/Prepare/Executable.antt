-- ===== src/Contracts/Prepare/Executable.antt =====
-- The stages that `prepare`, of scripts/pipeline/unified/contracts.py, lets a run execute.
use iac_modules.Common.{
  String, ◌≡◌, refl, ap, subst, true, false, ◌⊎◌, or_cases, List, member, ◌==◌, ok, when, >>=-eq-ok,
  require-eq-ok, >>-eq-ok, when-eq-ok, ok-injective, not-eq-true, not_or-eq-true, neither,
}
use iac_modules.Json.{
  Value, Fields, null, int, find, obj, arr, str, bool, end, field, get, get_or, is_text, is_true,
  truthy, fields,
}
use iac_modules.Json.Laws.{get_or-put-other, get_or-put}
use iac_modules.Contracts.Checkout.{Checkout}
use iac_modules.Contracts.Target.Tables.{on_demand_environments}
use iac_modules.Contracts.Prepare.Stages.{
  Run, check_destruction, check_execution, prepare_stages, executes, digest_stage, own_state,
  with_stages,
}

-- A stage that the declaration authorises to destroy.
pub record IsDestroyable (environment : String) (target spec : Value) : Type 0 where
  pub authorised :
      (is_true (get "destroy_allowed" spec) ≡ true)
      ⊎ (is_text "not_applicable" (get "mode" spec) ≡ true)
  pub transient :
      truthy (get_or "persistent" (bool false) (get_or "lifecycle" (obj end) target)) ≡ false
  pub on_demand :
      member environment on_demand_environments ≡ true
      → is_true (get "on_demand" (get "lifecycle" target)) ≡ true
  pub not_shared : truthy (get "shared" spec) ≡ false
  pub no_references : truthy (get "external_references" spec) ≡ false
  pub no_identity : truthy (get "management_identity" spec) ≡ false
  pub no_backend : truthy (get "backend" spec) ≡ false

pub check_destruction-IsDestroyable :
    (environment : String) (target spec : Value)
    → check_destruction environment target spec ≡ ok tt
    → IsDestroyable environment target spec
unfolding check_destruction
check_destruction-IsDestroyable environment target spec h =
    let (_, h1) = require-eq-ok _ _ _ h in
    let (transient, h2) = require-eq-ok _ _ _ h1 in
    let (demand, h3) = require-eq-ok _ _ _ h2 in
    let (allowed, h4) = require-eq-ok _ _ _ h3 in
    let (own, h5) = require-eq-ok _ _ _ h4 in
    let (execution, _) = require-eq-ok _ _ _ h5 in
    record {
      authorised = or_cases _ _ allowed;
      transient = not-eq-true _ transient;
      on_demand = not_or-eq-true _ _ demand;
      not_shared = (neither _ _ own).0;
      no_references = (neither _ _ own).1;
      no_identity = (neither _ _ execution).0;
      no_backend = (neither _ _ execution).1;
    }

-- The same of the target with other stages.
pub with_stages-IsDestroyable :
    (environment : String) (stages : Fields) (target spec : Value)
    → IsDestroyable environment target spec
    → IsDestroyable environment (with_stages stages target) spec
with_stages-IsDestroyable environment stages target spec d = record {
  authorised = d.authorised;
  transient =
      rw (get_or-put-other "lifecycle" "stages" (obj end) (obj stages) target refl) d.transient;
  on_demand =
      λ m. rw (get_or-put-other "lifecycle" "stages" null (obj stages) target refl) (d.on_demand m);
  not_shared = d.not_shared;
  no_references = d.no_references;
  no_identity = d.no_identity;
  no_backend = d.no_backend;
}

-- A stage that a run may execute.
pub record IsExecutable (run : Run) (target spec : Value) : Type 0 where
  pub supported : is_text "unsupported" (get "mode" spec) ≡ false
  pub destroyable : (run.action == "destroy") ≡ true → IsDestroyable run.environment target spec

pub check_execution-IsExecutable :
    (root : Checkout) (run : Run) (target : Value) (stage : String) (spec : Value)
    → check_execution root run target stage spec ≡ ok tt
    → IsExecutable run target spec
unfolding check_execution
check_execution-IsExecutable root run target stage spec h =
    let (supported, h1) = require-eq-ok _ _ _ h in
    let (_, h2) = >>-eq-ok _ _ h1 in
    record {
      supported = not-eq-true _ supported;
      destroyable = λ destroys.
          check_destruction-IsDestroyable run.environment target spec (when-eq-ok _ _ h2 destroys);
    }

pub with_stages-IsExecutable :
    (run : Run) (stages : Fields) (target spec : Value)
    → IsExecutable run target spec
    → IsExecutable run (with_stages stages target) spec
with_stages-IsExecutable run stages target spec x = record {
  supported = x.supported;
  destroyable = λ destroys.
      with_stages-IsDestroyable run.environment stages target spec (x.destroyable destroys);
}

-- Every stage that the run executes is one that it may execute.
abbrev pub ExecutableStages : Run → Value → Fields → Type 0
ExecutableStages run target end = Unit
ExecutableStages run target (field stage spec rest) =
    (executes run stage ≡ true → IsExecutable run target spec) × ExecutableStages run target rest

pub with_stages-ExecutableStages :
    (run : Run) (stages : Fields) (target : Value) (fs : Fields)
    → ExecutableStages run target fs
    → ExecutableStages run (with_stages stages target) fs
with_stages-ExecutableStages run stages target end x = tt
with_stages-ExecutableStages run stages target (field stage spec rest) (x, xs) = (
  (λ m. with_stages-IsExecutable run stages target spec (x m)),
  with_stages-ExecutableStages run stages target rest xs,
)

pub prepare_stages-ExecutableStages :
    (root : Checkout) (run : Run) (target : Value) (fs : Fields) (keys : List String)
    {r : Fields × List String}
    → prepare_stages root run target fs keys ≡ ok r
    → ExecutableStages run target r.0
unfolding prepare_stages
prepare_stages-ExecutableStages root run target end keys h =
    let done : ◌≡◌ {A = Fields × List String} (end, keys) _ = ok-injective h in
    subst (λ (r : Fields × List String). ExecutableStages run target r.0) done tt
prepare_stages-ExecutableStages root run target (field stage spec rest) keys h =
    let (digested, _, h1) = >>=-eq-ok (digest_stage root spec) _ h in
    let (taken, _, h2) = >>=-eq-ok (own_state digested keys) _ h1 in
    let (checked, h3) =
      >>-eq-ok (when (executes run stage) (check_execution root run target stage digested)) _ h2 in
    let (others, later, h4) = >>=-eq-ok (prepare_stages root run target rest taken) _ h3 in
    let done : ◌≡◌ {A = Fields × List String} (field stage digested others.0, others.1) _ =
      ok-injective h4 in
    subst (λ (r : Fields × List String). ExecutableStages run target r.0) done
      (
        (λ m.
            check_execution-IsExecutable root run target stage digested (when-eq-ok _ _ checked m)),
        prepare_stages-ExecutableStages root run target rest taken later,
      )

-- The stages that are written are the stages that are read.
pub fields-with_stages :
    (root : Checkout) (run : Run) (target : Value) (keys : List String) {r : Fields × List String}
    → prepare_stages root run target (fields (get "stages" target)) keys ≡ ok r
    → fields (get "stages" (with_stages r.0 target)) ≡ r.0
unfolding prepare_stages find
fields-with_stages root run (obj fs) keys {r} h = ap fields (get_or-put "stages" null (obj r.0) fs)
fields-with_stages root run null keys h = ap (λ (p : Fields × List String). p.0) (ok-injective h)
fields-with_stages root run (bool b) keys h =
    ap (λ (p : Fields × List String). p.0) (ok-injective h)
fields-with_stages root run (int n) keys h = ap (λ (p : Fields × List String). p.0) (ok-injective h)
fields-with_stages root run (str s) keys h = ap (λ (p : Fields × List String). p.0) (ok-injective h)
fields-with_stages root run (arr vs) keys h =
    ap (λ (p : Fields × List String). p.0) (ok-injective h)
