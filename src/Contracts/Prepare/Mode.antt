-- ===== src/Contracts/Prepare/Mode.antt =====
-- `apply_resource_mode` of scripts/pipeline/unified/contracts.py: a run that adopts existing
-- resources narrows the policy of the one stage it runs.
use iac_modules.Common.{
  String, true, false, ◌&&◌, ◌||◌, List, [], ◌∷◌, member, ◌==◌, Result, ok, err, refused, require,
  ◌>>=◌, ◌>>◌, if◌then◌else◌,
}
use iac_modules.Json.{Value, obj, end, bool, get, get_or, put, is_text, is_true}

-- `len(targets) == 1` and `targets[0]`
abbrev pub sole : String → List Value → Result Value
sole message [] = err (refused message)
sole message (t ∷ []) = ok t
sole message (t ∷ u ∷ ts) = err (refused message)

-- `spec.update(...)`
abbrev pub existing_policy : Value → Value
existing_policy spec = put "create_only" (bool false) (
    put "destroy_allowed" (bool false)
      (put "requires_existing_state" (bool true) (put "existing_only" (bool true) spec)))

-- `target.get("stages", {}).get("resources", {})`
abbrev pub resources_of : Value → Value
resources_of target = get_or "resources" (obj end) (get_or "stages" (obj end) target)

-- The branch of the mode `existing`.
unfoldable pub adopt_existing : List Value → String → String → Result (List Value)
adopt_existing targets action scope = do
  require ((action == "plan" || action == "apply") && scope == "resources")
      "existing resource mode supports only plan/apply on the resources stage"
  target ← sole "existing resource mode requires exactly one selected target" targets
  require
      (is_text "akamai-cloud" (get "provider" target)
        && is_true (get "persistent" (get_or "lifecycle" (obj end) target)))
      "existing resource mode is limited to one persistent Akamai target"
  require (is_text "terraform" (get "mode" (resources_of target)))
      "existing resource mode requires a Terraform resources stage"
  let stages = put "resources" (existing_policy (resources_of target)) (get "stages" target)
  ok (put "stages" stages target ∷ [])

-- The targets, as the call leaves them.
unfoldable pub apply_resource_mode : List Value → String → String → String → Result (List Value)
apply_resource_mode targets mode action scope = do
  require (member mode ("create" ∷ "existing" ∷ [])) "invalid resource mode"
  if mode == "existing" then adopt_existing targets action scope else ok targets
