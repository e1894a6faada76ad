-- ===== src/Contracts/Prepare/Binding.antt =====
-- On `revalidate`, of scripts/pipeline/unified/contracts.py, after `prepare`.
use iac_modules.Common.{
  String, ◌≡◌, refl, sym, ap, subst, Bool, true, false, not, ◌||◌, List, [], ◌∷◌, ◌==◌, eq_iff, ok,
  when, collect, >>=-eq-ok, >>=-ok, require-true, require-eq-ok, >>-eq-ok, ok-injective,
}
use iac_modules.Json.{
  Value, Fields, null, find, set, remove, arr, str, end, field, items, get, eq, truthy, fields,
}
use iac_modules.Json.Laws.{IsPlain, HasPlain, eq_refl, find-IsPlain}
use iac_modules.Contracts.Checkout.{Checkout, is_sha, source_file, checkout_sha}
use iac_modules.Contracts.Target.{validate_target}
use iac_modules.Contracts.Catalog.{Claims, Loaded, no_claims, load_targets}
use iac_modules.Contracts.Prepare.{
  Runner, Demand, Resolved, run_of, resolve, contract, sealed, prepare, check_demand,
  read_selectors, declared_environment, selection_of, check_targets, redigest, check_seal,
  revalidate, files_value,
}
use iac_modules.Contracts.Prepare.Mode.{apply_resource_mode}
use iac_modules.Contracts.Prepare.Stages.{
  Run, check_execution, prepare_stages, prepare_target, prepare_targets, check_chosen, executes,
  digest_stage, digest_stages, own_state, with_stages,
}

-- The digests of the stages do not hang on what else `prepare` checks of them.
prepare_stages-digests :
    (root : Checkout) (run : Run) (target : Value) (fs : Fields) (keys : List String)
    {r : Fields × List String}
    → prepare_stages root run target fs keys ≡ ok r
    → digest_stages root fs ≡ ok r.0
unfolding prepare_stages digest_stages
prepare_stages-digests root run target end keys h =
    ap (λ (r : Fields × List String). ok r.0) (ok-injective h)
prepare_stages-digests root run target (field stage spec rest) keys h =
    let (digested, here, h1) = >>=-eq-ok (digest_stage root spec) _ h in
    let (taken, _, h2) = >>=-eq-ok (own_state digested keys) _ h1 in
    let (_, h3) =
      >>-eq-ok (when (executes run stage) (check_execution root run target stage digested)) _ h2 in
    let (others, later, h4) = >>=-eq-ok (prepare_stages root run target rest taken) _ h3 in
    let done : ◌≡◌ {A = Fields × List String} (field stage digested others.0, others.1) _ =
      ok-injective h4 in
    >>=-ok _ here (
      >>=-ok _ (prepare_stages-digests root run target rest taken later)
        (ap (λ (r : Fields × List String). ok r.0) done))

prepare_target-redigest :
    (root : Checkout) (run : Run) (target : Value) (claims : Claims) {r : Value × Claims}
    → prepare_target root run target claims ≡ ok r
    → redigest root target ≡ ok r.0
unfolding prepare_target redigest
prepare_target-redigest root run target claims h =
    let (v, valid, h1) = >>=-eq-ok (validate_target root target) _ h in
    let (_, h2) = >>-eq-ok (check_chosen run v claims.ids) _ h1 in
    let (done, are_done, h3) =
      >>=-eq-ok (prepare_stages root run v (fields (get "stages" v)) claims.keys) _ h2 in
    let result : ◌≡◌ {A = Value × Claims} (with_stages done.0 v, _) _ = ok-injective h3 in
    >>=-ok _ valid (
      >>=-ok _ (prepare_stages-digests root run v _ claims.keys are_done)
        (ap (λ (r : Value × Claims). ok r.0) result))

prepare_targets-redigest :
    (root : Checkout) (run : Run) (targets : List Value) (claims : Claims) {prepared : List Value}
    → prepare_targets root run targets claims ≡ ok prepared
    → collect (redigest root) targets ≡ ok prepared
unfolding prepare_targets
prepare_targets-redigest root run [] claims h = h
prepare_targets-redigest root run (target ∷ rest) claims h =
    let (first, here, h1) = >>=-eq-ok (prepare_target root run target claims) _ h in
    let (others, there, h2) = >>=-eq-ok (prepare_targets root run rest first.1) _ h1 in
    >>=-ok _ (prepare_target-redigest root run target claims here)
      (>>=-ok _ (prepare_targets-redigest root run rest first.1 there) h2)

or_true : (b : Bool) → (b || true) ≡ true
or_true true = refl
or_true false = refl

-- A checkout at the commit that it was found at.
checkout_sha-again :
    (root : Checkout) {sha : String}
    → checkout_sha root null ≡ ok sha
    → checkout_sha root (str sha) ≡ ok sha
unfolding checkout_sha
checkout_sha-again root {sha} h =
    let (full, h1) = require-eq-ok (is_sha root.head) _ _ h in
    let (clean, h2) = require-eq-ok (root.changes == "") _ _ h1 in
    let same : root.head ≡ sha = ok-injective h2 in
    let same_text : (sha == root.head) ≡ true = (eq_iff sha root.head).1 (sym same) in
    rw full (rw same_text (rw (or_true (not (truthy (str sha)))) (rw clean (ap ok same))))

-- The steps of `resolve`, as far as `revalidate` repeats them.
record Steps (gitops iac : Checkout) (d : Demand) (r : Resolved) : Type 0 where
  iac_sha : checkout_sha iac null ≡ ok r.iac_sha
  gitops_sha : checkout_sha gitops null ≡ ok r.gitops_sha
  source : source_file gitops d.manifest ≡ ok r.source
  loaded : Loaded
  targets : List Value
  loads :
      load_targets gitops d.manifest
        (selection_of (str (declared_environment d.environment)) r.selectors (d.action == "check"))
      ≡ ok loaded
  files : r.files ≡ loaded.files
  applies : apply_resource_mode loaded.chosen d.resource_mode d.action d.scope ≡ ok targets
  digests : collect (redigest gitops) targets ≡ ok r.targets

resolve-Steps :
    (gitops iac : Checkout) (d : Demand) {r : Resolved}
    → resolve gitops iac d ≡ ok r
    → Steps gitops iac d r
unfolding resolve
resolve-Steps gitops iac d h =
    let (_, h1) = >>-eq-ok (check_demand d) _ h in
    let (sha, is_sha, h2) = >>=-eq-ok (checkout_sha iac null) _ h1 in
    let (sha2, is_sha2, h3) = >>=-eq-ok (checkout_sha gitops null) _ h2 in
    let (source, is_source, h4) = >>=-eq-ok (source_file gitops d.manifest) _ h3 in
    let (selectors, _, h5) = >>=-eq-ok (read_selectors d) _ h4 in
    let chosen =
      selection_of (str (declared_environment d.environment)) selectors (d.action == "check") in
    let (loaded, loads, h6) = >>=-eq-ok (load_targets gitops d.manifest chosen) _ h5 in
    let (targets, applies, h7) =
      >>=-eq-ok (apply_resource_mode loaded.chosen d.resource_mode d.action d.scope) _ h6 in
    let (_, h8) = >>-eq-ok (check_targets d targets) _ h7 in
    let (prepared, are_prepared, h9) =
      >>=-eq-ok (prepare_targets gitops (run_of d) targets no_claims) _ h8 in
    subst (Steps gitops iac d) (ok-injective h9) (record {
      iac_sha = is_sha;
      gitops_sha = is_sha2;
      source = is_source;
      loaded = loaded;
      targets = targets;
      loads = loads;
      files = refl;
      applies = applies;
      digests = prepare_targets-redigest gitops (run_of d) targets no_claims are_prepared;
    })

text_self : (s : String) → (s == s) ≡ true
text_self s = (eq_iff s s).1 refl

-- A sealed contract carries the digest of what it says.
sealed-passes :
    (runner : Runner) (gitops : Checkout) (d : Demand) (r : Resolved)
    → check_seal runner (sealed runner (contract runner gitops d r)) ≡ ok tt
unfolding check_seal find set remove eq
sealed-passes runner gitops d r =
    require-true _ (text_self (runner.json_sha256 (contract runner gitops d r)))

-- A run may go on as long as nothing that its contract binds has changed: every later job that
-- revalidates it on the same checkouts accepts it.
pub revalidate-prepare :
    (runner : Runner) (gitops iac : Checkout) (d : Demand) (context : Value)
    → prepare runner gitops iac d ≡ ok context
    → IsPlain context
    → revalidate runner gitops iac context ≡ ok context
unfolding prepare revalidate find set remove IsPlain
revalidate-prepare runner gitops iac d context h plain =
    let (r, resolved, h1) = >>=-eq-ok (resolve gitops iac d) _ h in
    let done : sealed runner (contract runner gitops d r) ≡ context = ok-injective h1 in
    let steps = resolve-Steps gitops iac d resolved in
    let written = fields (sealed runner (contract runner gitops d r)) in
    let whole : HasPlain written = subst IsPlain (sym done) plain in
    let files_plain =
      find-IsPlain "declaration_files" written {v = files_value r.files} whole refl in
    let targets_plain = find-IsPlain "targets" written {v = arr (items r.targets)} whole refl in
    subst (λ c. revalidate runner gitops iac c ≡ ok c) done
      (>>=-ok _ (checkout_sha-again iac steps.iac_sha) (
        >>=-ok _ (checkout_sha-again gitops steps.gitops_sha) (
          >>=-ok _ steps.source (
            >>=-ok _ (require-true _ (text_self (gitops.digest r.source))) (
              >>=-ok _ (sealed-passes runner gitops d r) (
                >>=-ok _ steps.loads (
                  >>=-ok _ steps.applies (
                    >>=-ok _
                      (require-true _ (
                        subst (λ fs. eq (files_value fs) (files_value r.files) ≡ true) steps.files
                          (eq_refl (files_value r.files) files_plain)))
                      (>>=-ok _ steps.digests (
                        >>=-ok _ (require-true _ (eq_refl (arr (items r.targets)) targets_plain))
                          refl))))))))))
