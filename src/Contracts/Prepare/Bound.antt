-- ===== src/Contracts/Prepare/Bound.antt =====
-- On what `revalidate`, of scripts/pipeline/unified/contracts.py, accepts.
use iac_modules.Common.{
  String, ◌≡◌, refl, sym, true, not, ◌||◌, List, ◌==◌, eq_iff, ok, collect, >>=-eq-ok,
  require-eq-ok, >>-eq-ok, require-passed, not_or-eq-true, ok-injective,
}
use iac_modules.Json.{
  Value, remove, obj, arr, str, end, items, get, get_or, at, eq, is_text, truthy, fields,
  text_value,
}
use iac_modules.Json.Laws.{at-eq-ok}
use iac_modules.Contracts.Checkout.{Checkout, is_sha, source_file, checkout_sha}
use iac_modules.Contracts.Catalog.{
  Declared, Selection, load_targets, read_declaration, keep, is_chosen,
}
use iac_modules.Contracts.Catalog.Laws.{IsResolved, load_targets-IsResolved}
use iac_modules.Contracts.Prepare.{
  Runner, selection_of, redigest, check_seal, revalidate, files_value,
}
use iac_modules.Contracts.Prepare.Mode.{apply_resource_mode}

checkout_sha-expects :
    (root : Checkout) (expected : Value) {sha : String}
    → checkout_sha root expected ≡ ok sha
    → (truthy expected ≡ true → is_text root.head expected ≡ true) × (root.changes ≡ "")
unfolding checkout_sha
checkout_sha-expects root expected h =
    let (_, h1) = require-eq-ok (is_sha root.head) _ _ h in
    let (same, h2) = require-eq-ok (not (truthy expected) || is_text root.head expected) _ _ h1 in
    let (clean, _) = require-eq-ok (root.changes == "") _ _ h2 in
    (not_or-eq-true _ _ same, (eq_iff root.changes "").0 clean)

-- The targets of a contract are those that the declarations give now: of a manifest whose targets are
-- all valid and whose ids and state keys are distinct, the selected ones in the mode of the contract,
-- each with the digest that it has now.
pub record IsDeclaredNow (gitops : Checkout) (context : Value) : Type 0 where
  pub selection : Selection
  pub selects :
      selection
      ≡ selection_of
          (get "environment" context)
          (get_or "selectors" (obj end) context)
          (is_text "check" (get "action" context))
  pub declared : Declared
  pub valid : List Value
  pub read : read_declaration gitops (get "manifest_path" context) ≡ ok declared
  pub resolved : IsResolved gitops declared valid
  pub declaration : List Value
  pub in_mode :
      apply_resource_mode
        (keep (is_chosen selection) valid)
        (text_value (get_or "resource_mode" (str "create") context))
        (text_value (get "action" context))
        (text_value (get "stage_scope" context))
      ≡ ok declaration
  pub normalized : List Value
  pub digested : collect (redigest gitops) declaration ≡ ok normalized
  pub targets : eq (arr (items normalized)) (get "targets" context) ≡ true

-- What of a contract agrees with the checkouts that a job runs on.
pub record IsBound (runner : Runner) (gitops iac : Checkout) (context : Value) : Type 0 where
  pub iac_commit :
      truthy (get "iac_sha" context) ≡ true → is_text iac.head (get "iac_sha" context) ≡ true
  pub gitops_commit :
      truthy (get "gitops_sha" context) ≡ true
      → is_text gitops.head (get "gitops_sha" context) ≡ true
  pub no_edits : (iac.changes ≡ "") × (gitops.changes ≡ "")
  pub untouched :
      eq
        (str (runner.json_sha256 (obj (remove "contract_sha256" (fields context)))))
        (get "contract_sha256" context)
      ≡ true
  pub manifest :
      (source : String) × (source_file gitops (get "manifest_path" context) ≡ ok source)
      × (is_text (gitops.digest source) (get "manifest_sha256" context) ≡ true)
  pub declared : IsDeclaredNow gitops context

check_seal-untouched :
    (runner : Runner) (context : Value)
    → check_seal runner context ≡ ok tt
    → eq
        (str (runner.json_sha256 (obj (remove "contract_sha256" (fields context)))))
        (get "contract_sha256" context)
      ≡ true
unfolding check_seal
check_seal-untouched runner context h =
    let (expected, found, h1) = >>=-eq-ok (at "contract_sha256" context) _ h in
    rw (at-eq-ok "contract_sha256" context found) (require-passed _ _ h1)

-- A contract that a later job accepts is returned as it is. Its digest fits its text, and so does
-- that of its manifest. The checkouts have no edits, and each stands at the commit that the contract
-- names for it, if it names one. Its targets are those that the declarations give now: the manifest
-- declares valid targets and historical states with distinct ids and state keys, and the selected
-- targets, in the contract's mode and with their digests computed again, equal the contract's.
pub revalidate-IsBound :
    (runner : Runner) (gitops iac : Checkout) (context result : Value)
    → revalidate runner gitops iac context ≡ ok result
    → (result ≡ context) × IsBound runner gitops iac context
unfolding revalidate
revalidate-IsBound runner gitops iac context result h =
    let (iac_sha, at_iac, h1) = >>=-eq-ok (at "iac_sha" context) _ h in
    let (_, is_iac, h2) = >>=-eq-ok (checkout_sha iac iac_sha) _ h1 in
    let (gitops_sha, at_gitops, h3) = >>=-eq-ok (at "gitops_sha" context) _ h2 in
    let (_, is_gitops, h4) = >>=-eq-ok (checkout_sha gitops gitops_sha) _ h3 in
    let (manifest, at_manifest, h5) = >>=-eq-ok (at "manifest_path" context) _ h4 in
    let (source, is_source, h6) = >>=-eq-ok (source_file gitops manifest) _ h5 in
    let (bound, at_bound, h7) = >>=-eq-ok (at "manifest_sha256" context) _ h6 in
    let (fits, h8) =
      require-eq-ok (is_text (gitops.digest source) bound) "manifest digest mismatch" _ h7 in
    let (seal, h9) = >>-eq-ok (check_seal runner context) _ h8 in
    let (environment, at_environment, h10) = >>=-eq-ok (at "environment" context) _ h9 in
    let (action, at_action, h11) = >>=-eq-ok (at "action" context) _ h10 in
    let selectors = get_or "selectors" (obj end) context in
    let selection = selection_of environment selectors (is_text "check" action) in
    let (loaded, is_loaded, h12) = >>=-eq-ok (load_targets gitops manifest selection) _ h11 in
    let (declared, valid, read, resolved, chosen, _) =
      load_targets-IsResolved gitops manifest selection loaded is_loaded in
    let (scope, at_scope, h13) = >>=-eq-ok (at "stage_scope" context) _ h12 in
    let mode = text_value (get_or "resource_mode" (str "create") context) in
    let (declaration, applied, h14) =
      >>=-eq-ok (apply_resource_mode loaded.chosen mode (text_value action) (text_value scope)) _
        h13 in
    let files = files_value loaded.files in
    let (_, h15) =
      require-eq-ok (eq files (get_or "declaration_files" files context))
        "catalog target references changed" _ h14 in
    let (normalized, digested, h16) = >>=-eq-ok (collect (redigest gitops) declaration) _ h15 in
    let (targets, at_targets, h17) = >>=-eq-ok (at "targets" context) _ h16 in
    let (same, h18) =
      require-eq-ok (eq (arr (items normalized)) targets)
        "contract identity/config differs from GitOps declaration" _ h17 in
    let (iac_same, iac_clean) = checkout_sha-expects iac iac_sha is_iac in
    let (gitops_same, gitops_clean) = checkout_sha-expects gitops gitops_sha is_gitops in
    (
      sym (ok-injective h18),
      record {
        iac_commit = rw (at-eq-ok "iac_sha" context at_iac) iac_same;
        gitops_commit = rw (at-eq-ok "gitops_sha" context at_gitops) gitops_same;
        no_edits = (iac_clean, gitops_clean);
        untouched = check_seal-untouched runner context seal;
        manifest = (
          source,
          rw (at-eq-ok "manifest_path" context at_manifest) is_source,
          rw (at-eq-ok "manifest_sha256" context at_bound) fits,
        );
        declared = record {
          selection = selection;
          selects =
              rw (at-eq-ok "environment" context at_environment)
                (rw (at-eq-ok "action" context at_action) refl);
          declared = declared;
          valid = valid;
          read = rw (at-eq-ok "manifest_path" context at_manifest) read;
          resolved = resolved;
          declaration = declaration;
          in_mode = rw (← chosen) (
              rw (at-eq-ok "action" context at_action)
                (rw (at-eq-ok "stage_scope" context at_scope) applied));
          normalized = normalized;
          digested = digested;
          targets = rw (at-eq-ok "targets" context at_targets) same;
        };
      },
    )
