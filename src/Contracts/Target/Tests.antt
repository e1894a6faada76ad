-- ===== src/Contracts/Target/Tests.antt =====
-- Targets that are accepted and refused, and the laws at them.
use iac_modules.Common.{
  ◌≡◌, refl, false, ok, err, refused, segments, contains, climbs, is_absolute, has_ink, starts_with,
}
use iac_modules.Json.{bool, get, find, eq}
use iac_modules.Identity.{canonical_state_key, component, validate_namespace}
use iac_modules.Contracts.Secrets.{
  reject_inline_resource_secrets, is_sensitive, is_reference, holds_private_key,
}
use iac_modules.Contracts.Samples.{checkout, node, target_with, resources_stage}
use iac_modules.Contracts.Checkout.{contained, source_file}
use iac_modules.Contracts.Target.{check_target, validate_within, validate_target}
use iac_modules.Contracts.Target.Depth.{Recurs}
use iac_modules.Contracts.Target.Tables.{namespace_of}
use iac_modules.Contracts.Target.Identity.{check_identity, check_lifecycle, check_binding}
use iac_modules.Contracts.Target.Stage.{
  check_stage, check_mode, check_selection, check_manifest, check_owners, check_state_key,
  check_on_demand, check_document, check_terraform,
}
use iac_modules.Contracts.Target.Laws.{
  IsManaged, within_three-Recurs, validate_target_unique, validate_target-exclusive,
}

-- The functions that a run of `validate_target` calls.
validating : Unit {0}
unfolding validate_target validate_within check_target check_identity check_lifecycle check_binding
    check_stage check_mode check_terraform check_selection check_manifest check_owners
    check_state_key check_document check_on_demand canonical_state_key component validate_namespace
    source_file contained climbs is_absolute contains starts_with has_ink segments find eq
    reject_inline_resource_secrets is_sensitive is_reference holds_private_key
validating = tt

pub node_accepted : validate_target checkout node ≡ ok node
unfolding validating
node_accepted = refl

-- A dev target that is not on demand is refused.
persistent_dev_refused :
    validate_target checkout (target_with (bool false) resources_stage)
    ≡ err (refused "dev targets must declare lifecycle.on_demand: true")
unfolding validating
persistent_dev_refused = refl

-- Three rounds do no more than two.
validate_target_unique_example :
    Recurs checkout (validate_target checkout)
    × (validate_within 3 checkout node ≡ validate_target checkout node)
validate_target_unique_example =
    validate_target_unique checkout (validate_within 3 checkout) node (within_three-Recurs checkout)

node-IsManaged : IsManaged "resources" node
unfolding validating
node-IsManaged = refl

validate_target-exclusive_example :
    (get "environment" node ≡ get "environment" node)
    × (get "project" node ≡ get "project" node)
    × (get "provider" node ≡ get "provider" node)
    × (get "account" node ≡ get "account" node)
    × (namespace_of node ≡ namespace_of node)
validate_target-exclusive_example =
    validate_target-exclusive checkout checkout node node node node node_accepted node_accepted
      node-IsManaged node-IsManaged refl
