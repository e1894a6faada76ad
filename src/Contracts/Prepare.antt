-- ===== src/Contracts/Prepare.antt =====
-- `prepare` and `revalidate` of scripts/pipeline/unified/contracts.py: the contract of a run, and
-- its check by every later job. The process environment and SHA-256 of a JSON text are parameters.
mod Executable
pub mod Mode
pub mod Stages
pub mod Laws
pub mod Binding
pub mod Bound
mod Tests
use iac_modules.Common.{
  String, Bool, true, false, not, ◌&&◌, ◌||◌, Option, none, some, List, [], ◌∷◌, all, any,
  all_chars, is_digit, drop, starts_with, member, length, eqb, ◌==◌, ◌+++◌, Result, ok, require,
  when, collect, ◌>>=◌, ◌>>◌, if◌then◌else◌,
}
use iac_modules.Json.{
  ℤ, pos, Value, end, null, int, str, obj, arr, items, texts, mapping, keys, fields, get, get_or,
  at, put, remove, eq, is_text, truthy, or_empty, members, text_value, as_text,
}
use iac_modules.Contracts.Checkout.{Checkout, checkout_sha, source_file}
use iac_modules.Contracts.Target.{validate_target}
use iac_modules.Contracts.Target.Tables.{
  stages, github_environment, on_demand_environments, is_some, is_among,
}
use iac_modules.Contracts.Catalog.{Selection, Loaded, no_claims, load_targets}
use Mode.{apply_resource_mode}
use Stages.{Run, prepare_targets, digest_stages, with_stages}

-- `os.environ`, and the SHA-256 of `json.dumps(value, sort_keys=True)`.
pub record Runner : Type 0 where
  pub environ : String → Option String
  pub json_sha256 : Value → String

-- `os.environ.get(name, default)`
abbrev pub variable : Runner → String → String → String
variable runner name default = elim (runner.environ name) [ none ↦ default | some s ↦ s ]

-- The arguments of `prepare` beside the two checkouts.
pub record Demand : Type 0 where
  pub manifest : Value
  pub environment : String
  pub action : String
  pub scope : String
  pub bootstrap_mode : String
  pub correlation : String
  pub requested_refs : Value
  pub selectors : Value
  pub resource_mode : String

-- `GENERATION_ENVIRONMENT.fullmatch`
abbrev pub is_generation : String → Bool
is_generation e = starts_with e "prod-v" && (not (drop 6 e == "") && all_chars is_digit (drop 6 e))

abbrev pub declared_environment : String → String
declared_environment e = if is_generation e then "prod" else e

unfoldable pub check_demand : Demand → Result (Unit {0})
check_demand d = do
  require (member d.action ("check" ∷ "plan" ∷ "apply" ∷ "destroy" ∷ [])) "invalid action"
  require (member d.scope ("all" ∷ stages)) "invalid stage scope"
  require (member d.bootstrap_mode ("verify" ∷ "reconcile" ∷ [])) "invalid bootstrap mode"
  require (not (d.bootstrap_mode == "reconcile") || member d.scope ("all" ∷ "bootstrap" ∷ []))
      "reconcile needs explicit bootstrap scope"
  require (is_some (github_environment (declared_environment d.environment))) "invalid environment"

abbrev selector_names : List String
selector_names = "environment" ∷ "provider" ∷ "account" ∷ "workspace" ∷ "namespace" ∷ "project" ∷ []

-- The selectors of a run, with the environment it asks for.
unfoldable pub read_selectors : Demand → Result Value
read_selectors d = do
  let selectors = or_empty d.selectors
  let environment = declared_environment d.environment
  require (all (λ k. member k selector_names) (keys (fields selectors))) "unknown target selector"
  require
      (not (truthy (get "environment" selectors))
        || is_among (environment ∷ d.environment ∷ []) (get "environment" selectors))
      "selector environment mismatch"
  let chosen = put "environment" (str environment) selectors
  require
      (not (truthy (get "namespace" chosen))
        || (not (truthy (get "workspace" chosen))
            || eq (get "namespace" chosen) (get "workspace" chosen)))
      "selector namespace/workspace mismatch"
  ok chosen

-- `v or None`
abbrev or_none : Value → Value
or_none v = if truthy v then v else null

-- The arguments with which `prepare` and `revalidate` call `load_targets`.
abbrev pub selection_of : Value → Value → Bool → Selection
selection_of environment selectors include_migrations = record {
  environment = environment;
  provider = or_none (get "provider" selectors);
  account = or_none (get "account" selectors);
  namespace =
      if truthy (get "namespace" selectors)
      then get "namespace" selectors
      else or_none (get "workspace" selectors);
  project = or_none (get "project" selectors);
  include_migrations = include_migrations;
}

abbrev reverse_onto : List String → List String → List String
reverse_onto [] done = done
reverse_onto (s ∷ ss) done = reverse_onto ss (s ∷ done)

-- `selected`
abbrev pub selected_stages : String → String → List String
selected_stages action scope =
    let chosen = if scope == "all" then stages else scope ∷ [] in
    if action == "destroy" then reverse_onto chosen [] else chosen

-- One target and its resources stage.
abbrev pub is_single : List Value → String → Bool
is_single targets scope = eqb (length targets) 1 && scope == "resources"

-- What `prepare` checks of the targets together.
unfoldable pub check_targets : Demand → List Value → Result (Unit {0})
check_targets d targets = do
  when (d.action == "destroy" && any (λ t. truthy (get "validation" t)) targets)
      (require (is_single targets d.scope) "validation cleanup is one target/resources only")
  when
      (member (declared_environment d.environment) on_demand_environments
        && member d.action ("apply" ∷ "destroy" ∷ []))
      (require (is_single targets d.scope)
        "on-demand create/destroy is one dev target/resources only")

abbrev approval_environment : String → Value → String
approval_environment environment target =
    if environment == "prod" && is_text "aws-cloud" (get "provider" target)
    then "production"
    else elim (github_environment environment) [ none ↦ "" | some name ↦ name ]

-- The only member of a set, or nothing.
abbrev pub agreed : List String → String
agreed [] = ""
agreed (name ∷ names) = if all (λ n. name == n) names then name else ""

abbrev approvals : String → List Value → List String
approvals environment [] = []
approvals environment (t ∷ ts) = approval_environment environment t ∷ approvals environment ts

abbrev text_fields : List (String × String) → List (String × Value)
text_fields [] = []
text_fields ((k, s) ∷ rest) = (k, str s) ∷ text_fields rest

-- `files`
abbrev pub files_value : List (String × String) → Value
files_value files = mapping (text_fields files)

-- What `prepare` resolves before it writes the contract.
pub record Resolved : Type 0 where
  pub iac_sha : String
  pub gitops_sha : String
  pub source : String
  pub selectors : Value
  pub files : List (String × String)
  pub targets : List Value

abbrev pub run_of : Demand → Run
run_of d = record {
  action = d.action;
  environment = declared_environment d.environment;
  bootstrap_mode = d.bootstrap_mode;
  selected = selected_stages d.action d.scope;
}

unfoldable pub resolve : Checkout → Checkout → Demand → Result Resolved
resolve gitops iac d = do
  check_demand d
  iac_sha ← checkout_sha iac null
  gitops_sha ← checkout_sha gitops null
  source ← source_file gitops d.manifest
  selectors ← read_selectors d
  let environment = declared_environment d.environment
  loaded ←
      load_targets gitops d.manifest
        (selection_of (str environment) selectors (d.action == "check"))
  targets ← apply_resource_mode loaded.chosen d.resource_mode d.action d.scope
  check_targets d targets
  prepared ← prepare_targets gitops (run_of d) targets no_claims
  ok (record {
    iac_sha = iac_sha;
    gitops_sha = gitops_sha;
    source = source;
    selectors = selectors;
    files = loaded.files;
    targets = prepared;
  })

-- The contract before its own digest is added.
abbrev pub contract : Runner → Checkout → Demand → Resolved → Value
contract runner gitops d r =
    let run_id = variable runner "GITHUB_RUN_ID" "local" in
    let attempt = variable runner "GITHUB_RUN_ATTEMPT" "1" in
    let environment = declared_environment d.environment in
    mapping (
      ("schema_version", int (pos 1))
      ∷ ("action", str d.action)
      ∷ ("stage_scope", str d.scope)
      ∷ ("stages", texts (selected_stages d.action d.scope))
      ∷ ("environment", str environment)
      ∷ ("github_environment", str (agreed (approvals environment r.targets)))
      ∷ ("bootstrap_mode", str d.bootstrap_mode)
      ∷ (
        "correlation_id",
        str (if d.correlation == "" then run_id +++ (":" +++ attempt) else d.correlation),
      )
      ∷ ("run_id", str run_id)
      ∷ ("run_attempt", str attempt)
      ∷ ("workflow_ref", str (variable runner "GITHUB_WORKFLOW_REF" "local"))
      ∷ ("workflow_sha", str (variable runner "GITHUB_WORKFLOW_SHA" "local"))
      ∷ ("gitops_sha", str r.gitops_sha)
      ∷ ("iac_sha", str r.iac_sha)
      ∷ ("requested_refs", d.requested_refs)
      ∷ ("resource_mode", str d.resource_mode)
      ∷ ("manifest_path", d.manifest)
      ∷ ("manifest_sha256", str (gitops.digest r.source))
      ∷ ("selectors", r.selectors)
      ∷ ("declaration_files", files_value r.files)
      ∷ ("targets", arr (items r.targets))
      ∷ [])

abbrev pub sealed : Runner → Value → Value
sealed runner context = put "contract_sha256" (str (runner.json_sha256 context)) context

unfoldable pub prepare : Runner → Checkout → Checkout → Demand → Result Value
prepare runner gitops iac d = do
  r ← resolve gitops iac d
  ok (sealed runner (contract runner gitops d r))

-- The targets as the declarations give them, validated and bound to their manifests.
unfoldable pub redigest : Checkout → Value → Result Value
redigest root target = do
  valid ← validate_target root target
  stages ← digest_stages root (fields (get "stages" valid))
  ok (with_stages stages valid)

-- `original.pop("contract_sha256")` and the comparison with the digest of the rest
unfoldable pub check_seal : Runner → Value → Result (Unit {0})
check_seal runner context = do
  expected ← at "contract_sha256" context
  require (eq (str (runner.json_sha256 (obj (remove "contract_sha256" (fields context))))) expected)
      "contract digest mismatch"

unfoldable pub revalidate : Runner → Checkout → Checkout → Value → Result Value
revalidate runner gitops iac context = do
  iac_expected ← at "iac_sha" context
  iac_sha ← checkout_sha iac iac_expected
  gitops_expected ← at "gitops_sha" context
  gitops_sha ← checkout_sha gitops gitops_expected
  manifest ← at "manifest_path" context
  source ← source_file gitops manifest
  bound ← at "manifest_sha256" context
  require (is_text (gitops.digest source) bound) "manifest digest mismatch"
  check_seal runner context
  let selectors = get_or "selectors" (obj end) context
  environment ← at "environment" context
  action ← at "action" context
  loaded ←
      load_targets gitops manifest (selection_of environment selectors (is_text "check" action))
  scope ← at "stage_scope" context
  declaration ←
      apply_resource_mode loaded.chosen (text_value (get_or "resource_mode" (str "create") context))
        (text_value action) (text_value scope)
  require
      (eq (files_value loaded.files)
        (get_or "declaration_files" (files_value loaded.files) context))
      "catalog target references changed"
  normalized ← collect (redigest gitops) declaration
  targets ← at "targets" context
  require (eq (arr (items normalized)) targets)
      "contract identity/config differs from GitOps declaration"
  ok context
