-- ===== src/Contracts/Catalog/Tests.antt =====
-- A manifest that is loaded, and the law at it.
use iac_modules.Common.{
  String, ◌≡◌, refl, true, false, member, All, length, List, [], ◌∷◌, ok, segments, contains,
  climbs, is_absolute, has_ink, starts_with,
}
use iac_modules.Json.{null, str, find, eq}
use iac_modules.Identity.{canonical_state_key, component, validate_namespace}
use iac_modules.Contracts.Samples.{checkout, node, declarations}
use iac_modules.Contracts.Secrets.{
  reject_inline_resource_secrets, is_sensitive, is_reference, holds_private_key,
}
use iac_modules.Contracts.Checkout.{contained, source_file}
use iac_modules.Contracts.Target.{check_target, validate_within, validate_target}
use iac_modules.Contracts.Target.Identity.{check_identity, check_lifecycle, check_binding}
use iac_modules.Contracts.Target.Stage.{
  check_stage, check_mode, check_selection, check_manifest, check_owners, check_state_key,
  check_on_demand, check_document, check_terraform,
}
use iac_modules.Contracts.Catalog.{
  Declared, Selection, Loaded, load_targets, read_declaration, claim_all, claim_targets,
  claim_target, claim_stages, claim_stage, claim_migrations, selected,
}
use iac_modules.Contracts.Transition.{
  validate_catalog_transition, catalog_keys, previous_keys, keys_of, owned_keys, source_keys,
  unique,
}
use iac_modules.Contracts.Transition.Declared.{
  IsDeclared, WereDeclared, validate_catalog_transition-retains,
}

abbrev of_dev : Selection
of_dev = record {
  environment = str "dev";
  provider = null;
  account = null;
  namespace = null;
  project = null;
  include_migrations = false;
}

abbrev loaded : Loaded
loaded = record { chosen = node ∷ []; migrations = []; files = (declarations, declarations) ∷ [] }

is_retained : validate_catalog_transition checkout checkout declarations ≡ ok 1
unfolding validate_catalog_transition catalog_keys previous_keys keys_of owned_keys source_keys
    load_targets read_declaration claim_all claim_targets claim_target claim_stages claim_stage
    claim_migrations selected validate_target validate_within check_target check_identity
    check_lifecycle check_binding check_stage check_mode check_terraform check_selection
    check_manifest check_owners check_state_key check_document check_on_demand canonical_state_key
    component validate_namespace source_file contained climbs is_absolute contains starts_with
    has_ink segments find eq reject_inline_resource_secrets is_sensitive is_reference
    holds_private_key
is_retained = refl

validate_catalog_transition-retains_example :
    (previous : List String) × (retained : List String) × WereDeclared checkout declarations
      previous
    × IsDeclared checkout declarations retained
    × All (λ key. member key retained ≡ true) previous
    × (1 ≡ length (unique previous))
validate_catalog_transition-retains_example =
    validate_catalog_transition-retains checkout checkout declarations 1 is_retained
