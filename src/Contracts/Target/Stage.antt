-- ===== src/Contracts/Target/Stage.antt =====
-- The stage loop of `validate_target`: what a stage of a target may be, and the state it owns.
use iac_modules.Common.{
  ℕ, String, Bool, false, not, ◌&&◌, ◌||◌, Option, none, some, List, [], ◌∷◌, all, all_chars,
  length, eqb, one_of, ◌==◌, starts_with, contains, climbs, is_absolute, has_ink, is_alnum, leb,
  Result, ok, require, when, each, ◌>>=◌, ◌>>◌, ◌+++◌, if◌then◌else◌,
}
use iac_modules.Json.{
  Value, obj, arr, str, bool, null, end, nil, get, get_or, has, eq, is_mapping, is_list, is_text,
  is_bool, is_true, is_false, truthy, str_such, members, text_value,
}
use iac_modules.Identity.{canonical_state_key}
use iac_modules.Contracts.Checkout.{Checkout, source_file, is_sha}
use iac_modules.Contracts.Secrets.{reject_inline_resource_secrets}
use iac_modules.Contracts.Target.Tables.{
  provider_folder, on_demand_environments, is_among, stage_of, namespace_of, lifecycle_of,
}

-- `[\w.\[\]\"-]+`
abbrev pub is_address : (ℕ → Bool) → String → Bool
is_address unicode_word s =
    not (s == "")
    && all_chars (λ c. is_alnum c || (one_of "_.[]\"-" c || (leb 128 c && unicode_word c))) s

-- `provenance.path` names a file below some root.
abbrev pub is_plain_path : Value → Bool
is_plain_path v = str_such (λ s. not (is_absolute s) && not (climbs s)) v

unfoldable pub check_provenance : Value → Result (Unit {0})
check_provenance provenance = do
  require
      (str_such is_sha (get_or "commit" (str "") provenance)
        && str_such (λ s. not (s == "")) (get "path" provenance))
      "archived target provenance required"
  require (is_plain_path (get "path" provenance)) "invalid archived provenance path"

unfoldable pub check_selection : String → Value → Result (Unit {0})
check_selection stage spec = do
  require (is_bool (get_or "create_only" (bool false) spec)) "stage.create_only must be a boolean"
  require (is_bool (get_or "existing_only" (bool false) spec))
      "stage.existing_only must be a boolean"
  when (truthy (get "existing_only" spec)) (do
    require (stage == "resources") "existing-only selection is a resource-stage policy"
    require (is_true (get "requires_existing_state" spec))
        "existing-only selection requires existing state"
    require (is_false (get "destroy_allowed" spec) && not (truthy (get "create_only" spec)))
        "existing-only selection forbids destroy and create-only policies")

-- `f"/{target['environment']}/{PROVIDERS[target['provider']]}/"`
abbrev pub folder_part : Value → Option String → String
folder_part target none = ""
folder_part target (some folder) =
    "/" +++ (text_value (get "environment" target) +++ ("/" +++ (folder +++ "/")))

unfoldable pub check_manifest : Value → String → Result (Unit {0})
check_manifest target manifest = do
  require
      ((starts_with manifest "resources/"
          || (not (is_text "active" (get "status" (lifecycle_of target)))
              && starts_with manifest "iac/migrations/resources/"))
        && contains manifest
            (folder_part target (provider_folder (text_value (get "provider" target)))))
      "manifest provider/environment mismatch"
  when (starts_with manifest "iac/migrations/resources/")
      (check_provenance (get_or "provenance" (obj end) target))

unfoldable pub check_owners : Checkout → Value → Result (Unit {0})
check_owners root spec = do
  require (is_list (get "owners" spec) && truthy (get "owners" spec))
      "explicit Terraform address ownership required"
  require (all (str_such (is_address root.unicode_word)) (members (get "owners" spec)))
      "invalid resource address"
  require (is_list (get_or "protected" (arr nil) spec)) "protected addresses must be a list"

-- `str(value)`
abbrev pub rendered : Checkout → Value → String
rendered root (str s) = s
rendered root v = root.show v

unfoldable pub check_state_key : Checkout → Value → String → Value → Result (Unit {0})
check_state_key root target stage spec = do
  canonical ←
      canonical_state_key (get "environment" target) (get "project" target) (get "provider" target)
        (get "account" target) (namespace_of target)
  let state = get_or "state" (obj end) spec
  let environment = text_value (get "environment" target)
  let account = text_value (get "account" target)
  let identity = rendered root (get "expected_identity" (get "auth" target))
  (if stage == "bootstrap"
      then require
          (is_text
              ("platform-ops-toolkit/"
                +++ (environment
                    +++ ("/" +++ (account +++ "/gcp-oidc-bootstrap/terraform.tfstate"))))
              (get "key" state)
            || is_text
                ("platform-ops-toolkit/shared/"
                  +++ (identity +++ "/gcp-oidc-bootstrap/terraform.tfstate"))
                (get "key" state))
          "bootstrap legacy key must be retained explicitly"
      else require (is_text canonical (get "key" state))
          "state key does not match declared identity")
  require (is_text "default" (get_or "cli_workspace" (str "default") state))
      "legacy CLI workspace requires reviewed state migration"

-- `resource_document["hosts"][0]`
abbrev pub first_member : Value → Value
first_member v = elim (members v) [ [] ↦ null | w ∷ ws ↦ w ]

unfoldable pub check_on_demand : Value → Value → Result (Unit {0})
check_on_demand namespace document = do
  let host = first_member (get "hosts" document)
  require (is_mapping host && eq (get "name" host) namespace)
      "on-demand host name must equal its namespace"
  require (is_false (get "prevent_destroy" (get_or "global" (obj end) document)))
      "on-demand resources must declare prevent_destroy: false"
  require (not (truthy (get "volumes" document)) && not (truthy (get "volumes" host)))
      "on-demand targets cannot own persistent volumes"

-- The pairs of a field of `global` and the value that it must have.
abbrev pub expected_global : Value → List (String × Value)
expected_global target =
    ("provider", get "provider" target)
    ∷ ("environment", get "environment" target)
    ∷ ("project", get "project" target)
    ∷ ("account", get "account" target)
    ∷ ("state_namespace", namespace_of target)
    ∷ ("workspace", namespace_of target)
    ∷ []

unfoldable pub check_document : Value → Value → Result (Unit {0})
check_document target document = do
  require (is_mapping document) "resource manifest must be a mapping"
  reject_inline_resource_secrets document
  when (is_among ("uat" ∷ on_demand_environments) (get "environment" target)) (
      require (is_list (get "hosts" document) && eqb (length (members (get "hosts" document))) 1)
        "UAT/dev target must own exactly one host")
  when (truthy (get "on_demand" (lifecycle_of target)))
      (check_on_demand (namespace_of target) document)
  each
      (λ (expected : String × Value).
        require (eq (get expected.0 (get_or "global" (obj end) document)) expected.1)
          ("resource manifest identity mismatch: " +++ expected.0))
      (expected_global target)

unfoldable pub check_terraform : Checkout → Value → String → Value → Result (Unit {0})
check_terraform root target stage spec = do
  check_selection stage spec
  require (not (is_text "azure-cloud" (get "provider" target)))
      "Azure renderer not implemented; declare unsupported"
  when (not (stage == "resources")) (
      require (is_text "gcp-cloud" (get "provider" target) && stage == "bootstrap")
        "account state split/adapter not implemented; declare unsupported or verify")
  manifest ← source_file root (get "manifest" spec)
  check_manifest target manifest
  check_owners root spec
  check_state_key root target stage spec
  when
      (stage == "resources"
        && is_text "akamai-cloud" (get "provider" target)
        && has "namespace" target)
      (check_document target (root.load manifest))
  require (is_true (get "ownership_reviewed" spec))
      "resource/stage/state ownership review is required"
  require (not (truthy (get "backend_migration" spec)) && not (truthy (get "adopt" spec)))
      "maintenance must not run in ordinary lifecycle"

unfoldable pub check_mode : Value → String → Value → Result (Unit {0})
check_mode target stage spec = do
  require (is_mapping spec) "stage must be a mapping"
  require
      (is_among ("verify" ∷ "terraform" ∷ "not_applicable" ∷ "unsupported" ∷ []) (get "mode" spec))
      "invalid stage mode"
  when (is_among ("not_applicable" ∷ "unsupported" ∷ []) (get "mode" spec))
      (require (str_such has_ink (get "reason" spec)) "non-execution stage needs reason")
  when (is_text "not_applicable" (get "mode" spec)) (
      require
        (stage == "account" && is_among ("vultr-vps" ∷ "akamai-cloud" ∷ []) (get "provider" target))
        "not_applicable requires provider capability")
  when (is_text "verify" (get "mode" spec)) (
      require (stage == "bootstrap" || truthy (get "checks" spec))
        "verify account needs live prerequisite checks")

unfoldable pub check_stage : Checkout → Value → String → Result (Unit {0})
check_stage root target stage = do
  let spec = stage_of stage target
  check_mode target stage spec
  when (truthy (get "manifest" spec)) (do _ ← source_file root (get "manifest" spec); ok tt)
  when (is_text "terraform" (get "mode" spec)) (check_terraform root target stage spec)
