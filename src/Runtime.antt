-- ===== src/Runtime.antt =====
-- `initialize` and `dependencies` of scripts/pipeline/unified/runtime.py. Terraform, the renderers,
-- the checks of an identity and the files of a runner are a parameter.
pub mod Execute
pub mod Laws
mod Tests
use iac_modules.Common.{
  String, Bool, true, false, not, ◌&&◌, ◌||◌, Option, none, some, List, [], ◌∷◌, member, ◌==◌,
  Result, ok, err, malformed, refused, if◌then◌else◌,
}
use iac_modules.Common.Steps.{Step, ◌>>=◌, ◌>>◌, lift, return, check}
use iac_modules.Json.{Value, str, get, get_or, holds, is_text, text_value}
use iac_modules.Contracts.Target.Tables.{stages, is_among}
use iac_modules.Evidence.Receipts.{ReceiptFile, Found, last_of, collect_receipts, spec_at}
use iac_modules.Evidence.Inventory.{Addresses}
use iac_modules.States.{Texts}

-- The state that a command works on.
pub data Root : Type 0 where
  main : Root
  source : Root

-- The Terraform commands that a stage runs.
pub data Command : Type 0 where
  init : Root → Value → Command
  pull : Root → Command
  list_state : Command
  save_plan : Bool → List String → Command
  show_plan : Command
  apply_plan : Command
  check_plan : Bool → List String → Command

pub record Machine (W : Type 0) : Type 0 where
  pub identity : Value → Bool → Step W (Unit {0})
  pub checks : Value → Value → Step W (Unit {0})
  pub render : Step W (Unit {0})
  pub command : Command → Step W Value
  -- The SHA-256 of the saved plan.
  pub plan_digest : Step W String
  -- The repository that the bootstrap values name.
  pub repository : Step W Value
  -- What the renderer makes of the state, and the digest of the inventory that is written.
  pub hosts : Step W Value
  pub publish : Value → Step W String
  pub write : Value → Step W (Unit {0})
  pub receipts : List ReceiptFile
  pub texts : Texts
  pub addresses : Addresses

-- A loop of steps.
abbrev pub each_step : {W A : Type 0} → (A → Step W (Unit {0})) → List A → Step W (Unit {0})
each_step f [] = return tt
each_step f (x ∷ xs) = f x >> each_step f xs

abbrev pub when_step : {W : Type 0} → Bool → Step W (Unit {0}) → Step W (Unit {0})
when_step true m = m
when_step false m = return tt

-- `order[:order.index(stage)]`
abbrev before : String → List String → List String
before stage [] = []
before stage (s ∷ ss) = let rest = before stage ss in if s == stage then [] else s ∷ rest

abbrev pub stages_before : String → String → List String
stages_before action stage =
    before stage
      (if action == "destroy" then "resources" ∷ "account" ∷ "bootstrap" ∷ [] else stages)

abbrev chosen_of : Value → List String → List String
chosen_of context [] = []
chosen_of context (s ∷ ss) =
    let rest = chosen_of context ss in if holds s (get "stages" context) then s ∷ rest else rest

-- A stage of the same run that must be gone before a destroy goes on.
unfoldable pub check_predecessor : String → String → Found → String → Result (Unit {0})
check_predecessor action id found stage = elim (last_of (id, stage) found) [
  | none ↦ err malformed
  | some file ↦
      if not (action == "destroy")
        || is_among ("destroyed_verified" ∷ "not_applicable" ∷ []) (get "result" file.receipt)
      then ok tt
      else err (refused "downstream cleanup unproven")
]

module _ {W : Type 0} (m : Machine W) where
  unfoldable pub initialize : Root → Value → Step W Value
  initialize root state = do
    check (is_text "default" (get_or "cli_workspace" (str "default") state))
        "implicit workspace creation forbidden"
    m.command (init root state)

  -- A stage before this one that the run did not select.
  unfoldable pub check_unselected : Value → Value → String → Step W (Unit {0})
  check_unselected context target stage = do
    spec ← lift (spec_at stage target)
    if is_text "destroy" (get "action" context)
        then check (is_text "not_applicable" (get "mode" spec))
            "destroy of an upper layer requires explicit downstream cleanup receipts"
        else if is_text "verify" (get "mode" spec)
        then (if stage == "bootstrap"
            then m.identity target true
            else m.checks target (get "checks" spec))
        else check (is_text "not_applicable" (get "mode" spec))
            "blocked_by_unprovisioned_dependency: include prerequisite stage; saved external receipts are not silently reused"

  unfoldable pub check_earlier : Value → Value → List String → Step W (Unit {0})
  check_earlier context target [] = return tt
  check_earlier context target (stage ∷ rest) = do
    when_step (not (holds stage (get "stages" context))) (check_unselected context target stage)
    check_earlier context target rest

  -- The receipts of the stages before this one that the run did select.
  unfoldable pub check_receipts : Value → Value → List String → Step W (Unit {0})
  check_receipts context target [] = return tt
  check_receipts context target (first ∷ rest) = do
    found ← lift (collect_receipts context m.receipts (first ∷ rest))
    each_step
        (λ stage. lift (
          check_predecessor (text_value (get "action" context)) (text_value (get "id" target)) found
            stage))
        (first ∷ rest)

  unfoldable pub dependencies : Value → Value → String → Step W (Unit {0})
  dependencies context target stage = do
    let earlier = stages_before (text_value (get "action" context)) stage
    check_receipts context target (chosen_of context earlier)
    check_earlier context target earlier
