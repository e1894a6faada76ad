-- ===== src/Preflight/State.antt =====
-- `inspect_terraform_state` of scripts/akamai_state_preflight.py. The runs of Terraform, the files of
-- a temporary folder, JSON and SHA-256 are parameters.
mod Shape
use iac_modules.Common.{
  String, Bool, true, false, not, ◌&&◌, ◌||◌, Option, none, some, List, [], ◌∷◌, ◌++◌, any, all,
  contains, starts_with, eqb, member, ◌==◌, ◌+++◌, Dict, lookup, store, ok, err, refused,
  if◌then◌else◌,
}
use iac_modules.Common.Steps.{Step, ◌>>=◌, ◌>>◌, lift, return, check}
use iac_modules.Json.{ℤ, pos, Value, bool, str, arr, nil, items, mapping}
use iac_modules.Cmdb.Words.{lower}
use iac_modules.Preflight.Expectations.{protected_source}
use iac_modules.Preflight.Inspect.{has_credentials, is_zero, variable}
use iac_modules.Preflight.Show.{Texts, Resource, is_named, parse_terraform_show_json}

pub record Completed : Type 0 where
  pub returncode : ℤ
  pub stdout : String
  pub stderr : String

-- Terraform in a temporary folder, what is written there, and JSON.
pub record Terraform (W : Type 0) : Type 0 where
  pub folder : String
  pub write : String → String → Step W (Unit {0})
  -- `chmod(0o600)`
  pub restrict : String → Step W (Unit {0})
  pub run : List String → Dict String → Step W Completed
  -- `json.dumps` of a text, and `json.loads`
  pub quoted : String → String
  pub json : String → Option Value
  pub texts : Texts

-- A line for each of them.
abbrev lines : List String → String
lines [] = ""
lines (s ∷ ss) = s +++ ("\n" +++ lines ss)

-- A resource as it is reported.
unfoldable pub resource_value : Resource → Value
resource_value r = mapping (
    ("address", str r.address)
    ∷ ("resource_type", str r.kind)
    ∷ ("identity_sha256", str r.identity)
    ∷ ("identity_complete", bool r.complete)
    ∷ (if is_named r.kind then ("id", str r.id) ∷ ("label", str r.label) ∷ [] else []))

unfoldable pub resource_values : List Resource → List Value
resource_values [] = []
resource_values (r ∷ rs) = resource_value r ∷ resource_values rs

abbrev state_result : String → Bool → List Resource → Bool → Value
state_result key present resources protected = mapping (
    ("state_key", str key)
    ∷ ("present", bool present)
    ∷ ("resources", arr (items (resource_values resources)))
    ∷ ("protected_text", bool protected)
    ∷ [])

-- `_is_missing_state`
unfoldable pub is_missing_state : Completed → Bool
unfolding contains
is_missing_state c =
    any (contains (lower (c.stdout +++ ("\n" +++ c.stderr))))
      ("no state file was found" ∷ "state file was not found" ∷ "state file does not exist" ∷ [])

-- `READ_ONLY_TERRAFORM_COMMANDS`
abbrev is_read_only : List String → Bool
is_read_only [] = false
is_read_only (command ∷ rest) = member command ("init" ∷ "show" ∷ [])

abbrev has_scheme : String → Bool
has_scheme endpoint = starts_with endpoint "https://" || starts_with endpoint "http://"

module _ {W : Type 0} (t : Terraform W) where
  -- `key = json.dumps(value)`
  abbrev setting : String → String → String
  setting key value = key +++ (" = " +++ t.quoted value)

  -- `_backend_hcl`
  unfoldable pub backend_hcl : String → Dict String → Step W String
  backend_hcl key env = do
    check (has_credentials env) "terraform_state_credentials_missing"
    check (has_scheme (variable env "TF_STATE_ENDPOINT")) "terraform_state_endpoint_invalid"
    return (
        lines (
          setting "bucket" (variable env "TF_STATE_BUCKET")
          ∷ setting "key" key
          ∷ setting "region" (variable env "TF_STATE_REGION")
          ∷ setting "access_key" (variable env "TF_STATE_ACCESS_KEY")
          ∷ setting "secret_key" (variable env "TF_STATE_SECRET_KEY")
          ∷ ("endpoints = { s3 = " +++ (t.quoted (variable env "TF_STATE_ENDPOINT") +++ " }"))
          ∷ "skip_credentials_validation = true"
          ∷ "skip_region_validation = true"
          ∷ "skip_requesting_account_id = true"
          ∷ "skip_metadata_api_check = true"
          ∷ "skip_s3_checksum = true"
          ∷ "use_path_style = true"
          ∷ "use_lockfile = false"
          ∷ "workspace_key_prefix = \"env\""
          ∷ []))

  -- `_terraform_call`
  unfoldable pub terraform_call : List String → Dict String → Step W Completed
  terraform_call arguments env = do
    check (is_read_only arguments) "terraform_command_not_allowlisted"
    t.run (("-chdir=" +++ t.folder) ∷ arguments) env

  -- What is reported of the output of `terraform show`.
  unfoldable pub state_shown : String → Completed → Step W Value
  unfolding is_missing_state
  state_shown key shown =
      if not (is_zero shown.returncode)
      then (if is_missing_state shown
          then return (state_result key false [] false)
          else lift (err (refused "terraform_show_failed")))
      else elim (t.json shown.stdout) [
        | none ↦ lift (err (refused "terraform_show_json_invalid"))
        | some document ↦ (do
          (resources, present) ← lift (parse_terraform_show_json t.texts document)
          return
              (state_result key present resources (contains (lower shown.stdout) protected_source)))
      ]

  unfoldable pub inspect_terraform_state : String → Dict String → Step W Value
  inspect_terraform_state key env = do
    t.write "main.tf" "terraform {\n  backend \"s3\" {}\n}\n"
    backend ← backend_hcl key env
    t.write "backend.hcl" backend
    t.restrict "backend.hcl"
    let quiet = store "CHECKPOINT_DISABLE" "1" (store "TF_IN_AUTOMATION" "1" env)
    initialized ←
        terraform_call
          ("init"
            ∷ "-input=false"
            ∷ "-no-color"
            ∷ "-reconfigure"
            ∷ ("-backend-config=" +++ (t.folder +++ "/backend.hcl"))
            ∷ [])
          quiet
    check (is_zero initialized.returncode) "terraform_backend_read_init_failed"
    shown ← terraform_call ("show" ∷ "-json" ∷ []) quiet
    state_shown key shown
