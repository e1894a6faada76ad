-- ===== src/Contracts/Prepare/Tests.antt =====
-- A destroy run that is prepared and revalidated, and the laws at it.
use iac_modules.Common.{
  ◌≡◌, refl, none, List, [], ◌∷◌, ok, All, segments, contains, climbs, is_absolute, has_ink,
  starts_with,
}
use iac_modules.Json.{Value, null, end, obj, arr, items, str, get, put, find, set, eq}
use iac_modules.Json.Laws.{IsPlain}
use iac_modules.Json.Plain.{plain, plain_items, plain_fields, plain-IsPlain}
use iac_modules.Identity.{canonical_state_key, component, validate_namespace}
use iac_modules.Contracts.Samples.{checkout, node, declarations, manifest_path, resources_stage}
use iac_modules.Contracts.Secrets.{
  reject_inline_resource_secrets, is_sensitive, is_reference, holds_private_key,
}
use iac_modules.Contracts.Checkout.{contained, source_file, checkout_sha}
use iac_modules.Contracts.Target.{check_target, validate_within, validate_target}
use iac_modules.Contracts.Target.Identity.{check_identity, check_lifecycle, check_binding}
use iac_modules.Contracts.Target.Stage.{
  check_stage, check_mode, check_selection, check_manifest, check_owners, check_state_key,
  check_on_demand, check_document, check_terraform,
}
use iac_modules.Contracts.Catalog.{
  load_targets, read_declaration, claim_all, claim_targets, claim_target, claim_stages, claim_stage,
  claim_migrations, selected,
}
use iac_modules.Contracts.Prepare.{
  Runner, Demand, run_of, resolve, contract, sealed, prepare, check_demand, read_selectors,
  check_targets, revalidate,
}
use iac_modules.Contracts.Prepare.Mode.{apply_resource_mode}
use iac_modules.Contracts.Prepare.Stages.{
  check_execution, check_destruction, prepare_stages, prepare_target, prepare_targets, check_chosen,
  digest_stage, own_state,
}
use iac_modules.Contracts.Prepare.Laws.{IsPrepared, prepare-IsPrepared}
use iac_modules.Contracts.Prepare.Binding.{revalidate-prepare}
use iac_modules.Contracts.Prepare.Bound.{IsBound, revalidate-IsBound}

abbrev runner : Runner
runner = record { environ = λ name. none; json_sha256 = λ v. "digest" }

abbrev destroy_node : Demand
destroy_node = record {
  manifest = str declarations;
  environment = "dev";
  action = "destroy";
  scope = "resources";
  bootstrap_mode = "verify";
  correlation = "";
  requested_refs = null;
  selectors = null;
  resource_mode = "create";
}

abbrev bound_stages : Value
bound_stages =
    put "resources" (put "manifest_sha256" (str manifest_path) resources_stage) (get "stages" node)

abbrev destroyed : Value
destroyed = sealed runner (
    contract runner checkout destroy_node (record {
      iac_sha = checkout.head;
      gitops_sha = checkout.head;
      source = declarations;
      selectors = put "environment" (str "dev") (obj end);
      files = (declarations, declarations) ∷ [];
      targets = put "stages" bound_stages node ∷ [];
    }))

is_prepared : prepare runner checkout checkout destroy_node ≡ ok destroyed
unfolding prepare resolve check_demand read_selectors check_targets checkout_sha apply_resource_mode
    prepare_targets prepare_target prepare_stages check_chosen check_execution check_destruction
    digest_stage own_state set load_targets read_declaration claim_all claim_targets claim_target
    claim_stages claim_stage claim_migrations selected validate_target validate_within check_target
    check_identity check_lifecycle check_binding check_stage check_mode check_terraform
    check_selection check_manifest check_owners check_state_key check_document check_on_demand
    canonical_state_key component validate_namespace source_file contained climbs is_absolute
    contains starts_with has_ink segments find eq reject_inline_resource_secrets is_sensitive
    is_reference holds_private_key
is_prepared = refl

destroyed-IsPlain : IsPlain destroyed
unfolding plain plain_items plain_fields set find starts_with
destroyed-IsPlain = plain-IsPlain destroyed refl

prepare-IsPrepared_example :
    (targets : List Value) × (get "targets" destroyed ≡ arr (items targets))
    × All (IsPrepared (run_of destroy_node)) targets
prepare-IsPrepared_example =
    prepare-IsPrepared runner checkout checkout destroy_node destroyed is_prepared

revalidate-prepare_example : revalidate runner checkout checkout destroyed ≡ ok destroyed
revalidate-prepare_example =
    revalidate-prepare runner checkout checkout destroy_node destroyed is_prepared destroyed-IsPlain

revalidate-IsBound_example : (destroyed ≡ destroyed) × IsBound runner checkout checkout destroyed
revalidate-IsBound_example =
    revalidate-IsBound runner checkout checkout destroyed destroyed revalidate-prepare_example
