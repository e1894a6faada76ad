-- ===== src/Evidence/Guard/Tests.antt =====
-- Plans that pass and plans that are refused, and the laws at them.
use iac_modules.Common.{
  ℕ, String, ◌≡◌, ◌≢◌, refl, true, none, List, [], ◌∷◌, All, ok, err, refused, eq_iff, starts_with,
  arith,
}
use iac_modules.Json.{Value, str, arr, mapping, texts, items, find, eq}
use iac_modules.Contracts.Ownership.{owner_match}
use iac_modules.Evidence.Guard.{guard_change, guard_changes, finish, guard_plan}
use iac_modules.Evidence.Guard.Changes.{
  Request, Tally, check_ownership, check_existing, check_deletion, check_destroy, check_downgrade,
  count_change,
}
use iac_modules.Evidence.Rebind.{safe_gcp_federation_rebind}
use iac_modules.Evidence.Guard.Laws.{is_managed, IsAllowed, changes_of, guard_plan-IsAllowed}
use iac_modules.Evidence.Guard.Counts.{occurrences, guard_plan-IsCounted}

abbrev target : Value
target = mapping (
    ("provider", str "akamai-cloud")
    ∷ (
      "stages",
      mapping (
          (
            "resources",
            mapping (("mode", str "terraform") ∷ ("owners", texts ("module.node" ∷ [])) ∷ []),
          )
          ∷ []),
    )
    ∷ [])

abbrev request : String → Request
request action = record { target = target; stage = "resources"; action = action; repository = none }

abbrev change : String → List String → Value
change address actions = mapping (
    ("address", str address)
    ∷ ("type", str "linode_instance")
    ∷ ("change", mapping (("actions", texts actions) ∷ []))
    ∷ [])

abbrev plan_of : List Value → Value
plan_of changes = mapping (("resource_changes", arr (items changes)) ∷ [])

abbrev growth : Value
growth =
    plan_of (change "module.node.a" ("create" ∷ []) ∷ change "module.node.b" ("update" ∷ []) ∷ [])

abbrev removal : Value
removal = plan_of (change "module.node.a" ("delete" ∷ []) ∷ [])

abbrev tally : ℕ → ℕ → ℕ → Tally
tally create update delete = record {
  create = create;
  update = update;
  delete = delete;
  violations = [];
}

guarding : Unit {0}
unfolding guard_plan guard_changes guard_change finish check_ownership check_existing check_deletion
    check_destroy check_downgrade count_change owner_match starts_with find eq
    safe_gcp_federation_rebind
guarding = tt

growth_passes : guard_plan (request "apply") growth ≡ ok (tally 1 1 0)
unfolding guarding
growth_passes = refl

removal_passes : guard_plan (request "destroy") removal ≡ ok (tally 0 0 1)
unfolding guarding
removal_passes = refl

removal_refused :
    guard_plan (request "apply") removal
    ≡ err (refused "ordinary plan/apply cannot delete or replace resources: module.node.a")
unfolding guarding
removal_refused = refl

foreign_refused :
    guard_plan (request "apply") (plan_of (change "module.other" ("create" ∷ []) ∷ []))
    ≡ err (refused "resource outside stage ownership: module.other")
unfolding guarding
foreign_refused = refl

guard_plan-IsAllowed_example :
    All (λ item. is_managed item ≡ true → IsAllowed (request "destroy") item) (changes_of removal)
guard_plan-IsAllowed_example =
    guard_plan-IsAllowed (request "destroy") removal (tally 0 0 1) removal_passes

guard_plan-IsCounted_example :
    ((tally 1 1 0).create ≡ occurrences "create" (changes_of growth))
    × ((tally 1 1 0).update ≡ occurrences "update" (changes_of growth))
    × ((tally 1 1 0).delete ≡ occurrences "delete" (changes_of growth))
guard_plan-IsCounted_example =
    guard_plan-IsCounted (request "apply") growth (tally 1 1 0) growth_passes

apply_no_destroy : ◌≢◌ {A = String} "apply" "destroy"
apply_no_destroy = ground (arith, eq_iff "apply" "destroy")

resources_no_bootstrap : ◌≢◌ {A = String} "resources" "bootstrap"
resources_no_bootstrap = ground (arith, eq_iff "resources" "bootstrap")
