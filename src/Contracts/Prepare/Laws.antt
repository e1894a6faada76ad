-- ===== src/Contracts/Prepare/Laws.antt =====
-- On the targets that `prepare`, of scripts/pipeline/unified/contracts.py, writes into a contract.
use iac_modules.Common.{
  String, ◌≡◌, refl, sym, ap, subst, true, false, List, [], ◌∷◌, All, ◌==◌, ok, >>=-eq-ok,
  require-eq-ok, >>-eq-ok, ok-injective, require-passed, or-eq-true,
}
use iac_modules.Json.{Value, null, find, set, obj, arr, str, end, items, get, is_text, fields}
use iac_modules.Json.Laws.{get_or-put-other}
use iac_modules.Contracts.Checkout.{Checkout, source_file, checkout_sha}
use iac_modules.Contracts.Target.{validate_target}
use iac_modules.Contracts.Catalog.{Claims, no_claims, is_active, load_targets}
use iac_modules.Contracts.Prepare.{
  Runner, Demand, Resolved, run_of, resolve, contract, sealed, prepare, check_demand,
  read_selectors, declared_environment, selection_of, check_targets,
}
use iac_modules.Contracts.Prepare.Mode.{apply_resource_mode}
use iac_modules.Contracts.Prepare.Stages.{
  Run, prepare_stages, prepare_target, prepare_targets, check_chosen, with_stages,
}
use iac_modules.Contracts.Prepare.Executable.{
  ExecutableStages, with_stages-ExecutableStages, prepare_stages-ExecutableStages,
  fields-with_stages,
}

-- A target that a run may act on.
pub record IsPrepared (run : Run) (target : Value) : Type 0 where
  pub own_environment : is_text run.environment (get "environment" target) ≡ true
  pub active : (run.action == "check") ≡ false → is_active target ≡ true
  pub stages : ExecutableStages run target (fields (get "stages" target))

check_chosen-active :
    (run : Run) (v : Value) (ids : List String)
    → check_chosen run v ids ≡ ok tt
    → (is_text run.environment (get "environment" v) ≡ true)
      × ((run.action == "check") ≡ false → is_active v ≡ true)
unfolding check_chosen
check_chosen-active run v ids h =
    let (_, h1) = require-eq-ok _ _ _ h in
    let (active, h2) = require-eq-ok _ _ _ h1 in
    let (_, h3) = require-eq-ok _ _ _ h2 in (require-passed _ _ h3, or-eq-true _ _ active)

prepare_target-IsPrepared :
    (root : Checkout) (run : Run) (target : Value) (claims : Claims) {r : Value × Claims}
    → prepare_target root run target claims ≡ ok r
    → IsPrepared run r.0
unfolding prepare_target
prepare_target-IsPrepared root run target claims h =
    let (v, _, h1) = >>=-eq-ok (validate_target root target) _ h in
    let (chosen, h2) = >>-eq-ok (check_chosen run v claims.ids) _ h1 in
    let (same, active) = check_chosen-active run v claims.ids chosen in
    let (done, are_done, h3) =
      >>=-eq-ok (prepare_stages root run v (fields (get "stages" v)) claims.keys) _ h2 in
    let result : ◌≡◌ {A = Value × Claims} (with_stages done.0 v, _) _ = ok-injective h3 in
    subst (λ (r : Value × Claims). IsPrepared run r.0) result
      (record {
        own_environment =
            rw (get_or-put-other "environment" "stages" null (obj done.0) v refl) same;
        active = λ acts.
            rw (get_or-put-other "lifecycle" "stages" (obj end) (obj done.0) v refl) (active acts);
        stages = rw (fields-with_stages root run v claims.keys are_done) (
            with_stages-ExecutableStages run done.0 v done.0
              (prepare_stages-ExecutableStages root run v _ claims.keys are_done));
      })

prepare_targets-IsPrepared :
    (root : Checkout) (run : Run) (targets : List Value) (claims : Claims) {prepared : List Value}
    → prepare_targets root run targets claims ≡ ok prepared
    → All (IsPrepared run) prepared
unfolding prepare_targets
prepare_targets-IsPrepared root run [] claims h = subst (All (IsPrepared run)) (ok-injective h) tt
prepare_targets-IsPrepared root run (target ∷ rest) claims h =
    let (first, here, h1) = >>=-eq-ok (prepare_target root run target claims) _ h in
    let (others, there, h2) = >>=-eq-ok (prepare_targets root run rest first.1) _ h1 in
    subst (All (IsPrepared run)) (ok-injective h2) (
      prepare_target-IsPrepared root run target claims here,
      prepare_targets-IsPrepared root run rest first.1 there,
    )

resolve-IsPrepared :
    (gitops iac : Checkout) (d : Demand) {r : Resolved}
    → resolve gitops iac d ≡ ok r
    → All (IsPrepared (run_of d)) r.targets
unfolding resolve
resolve-IsPrepared gitops iac d h =
    let (_, h1) = >>-eq-ok (check_demand d) _ h in
    let (_, _, h2) = >>=-eq-ok (checkout_sha iac null) _ h1 in
    let (_, _, h3) = >>=-eq-ok (checkout_sha gitops null) _ h2 in
    let (_, _, h4) = >>=-eq-ok (source_file gitops d.manifest) _ h3 in
    let (selectors, _, h5) = >>=-eq-ok (read_selectors d) _ h4 in
    let chosen =
      selection_of (str (declared_environment d.environment)) selectors (d.action == "check") in
    let (loaded, _, h6) = >>=-eq-ok (load_targets gitops d.manifest chosen) _ h5 in
    let (targets, _, h7) =
      >>=-eq-ok (apply_resource_mode loaded.chosen d.resource_mode d.action d.scope) _ h6 in
    let (_, h8) = >>-eq-ok (check_targets d targets) _ h7 in
    let (prepared, are_prepared, h9) =
      >>=-eq-ok (prepare_targets gitops (run_of d) targets no_claims) _ h8 in
    subst (λ (r : Resolved). All (IsPrepared (run_of d)) r.targets) (ok-injective h9)
      (prepare_targets-IsPrepared gitops (run_of d) targets no_claims are_prepared)

-- Every target of a prepared contract is declared for its environment, is active unless the run only
-- checks, and each stage that the run executes is supported. Where the run destroys, each such
-- stage is authorised for it, belongs to no persistent target, in the dev environment to an
-- on-demand one, and is neither shared nor an identity or backend that other runs use.
pub prepare-IsPrepared :
    (runner : Runner) (gitops iac : Checkout) (d : Demand) (context : Value)
    → prepare runner gitops iac d ≡ ok context
    → (targets : List Value) × (get "targets" context ≡ arr (items targets))
      × All (IsPrepared (run_of d)) targets
unfolding prepare find set
prepare-IsPrepared runner gitops iac d context h =
    let (r, resolved, h1) = >>=-eq-ok (resolve gitops iac d) _ h in
    let done : sealed runner (contract runner gitops d r) ≡ context = ok-injective h1 in
    (r.targets, ap (get "targets") (sym done), resolve-IsPrepared gitops iac d resolved)
