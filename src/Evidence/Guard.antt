-- ===== src/Evidence/Guard.antt =====
-- `guard_plan` of scripts/pipeline/unified/evidence.py: the check of a saved Terraform plan before
-- it is applied. The message of a refused create-only plan holds no metadata here.
pub mod Changes
pub mod Laws
pub mod Counts
mod Tests
use iac_modules.Common.{
  ℕ, ◌+◌, String, Bool, true, false, not, ◌&&◌, ◌||◌, Option, List, [], ◌∷◌, ◌++◌, Result, ok,
  require, expect, when, ◌>>=◌, ◌>>◌, ◌==◌, if◌then◌else◌,
}
use iac_modules.Json.{
  Value, arr, nil, str, get, get_or, at, as_text, as_texts, eq, texts, truthy, is_text, is_list,
  members, holds, is_container,
}
use iac_modules.Contracts.Ownership.{owner_match}
use iac_modules.Contracts.Target.Tables.{stage_of}
use iac_modules.Evidence.Rebind.{safe_gcp_federation_rebind}
use Changes.{
  Request, Tally, Violation, no_changes, actions_of, check_ownership, check_existing,
  check_deletion, check_destroy, check_downgrade, is_calm, count_change, violation_of,
}

-- One round of the loop over `resource_changes`.
unfoldable pub guard_change : Request → Tally → Value → Result Tally
guard_change r t item = if is_text "data" (get "mode" item) then ok t else do
  check_ownership r item
  _ ← at "actions" (get "change" item)
  check_existing r item
  expect (is_container (actions_of item))
  check_deletion r item
  check_destroy r item
  check_downgrade item
  ok (count_change r item t)

unfoldable pub guard_changes : Request → Tally → List Value → Result Tally
guard_changes r t [] = ok t
guard_changes r t (item ∷ rest) = do t' ← guard_change r t item; guard_changes r t' rest

abbrev pub no_violation : List Violation → Bool
no_violation [] = true
no_violation (v ∷ vs) = false

-- The refusal of the recorded violations, after the loop.
unfoldable pub finish : Tally → Result Tally
finish t = do
  require (no_violation t.violations)
      "create-only target cannot update, replace or delete existing resources; "
  ok t

-- `guard_plan`, with its counts.
unfoldable pub guard_plan : Request → Value → Result Tally
guard_plan r plan = do
  when (truthy (get "existing_only" (stage_of r.stage r.target))) (
      require (r.action == "plan" || r.action == "apply")
        "existing-only targets cannot be destroyed")
  let changes = get_or "resource_changes" (arr nil) plan
  expect (is_list changes)
  t ← guard_changes r no_changes (members changes)
  finish t
