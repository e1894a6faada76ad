-- ===== src/Preflight/Inspect.antt =====
-- `inspect_legacy_object_versions` of scripts/akamai_state_preflight.py. The runs of the AWS command
-- line are a parameter, and so are `str` of a value and `int` of a text.
mod BackedUp
use iac_modules.Common.{
  String, Bool, true, false, not, ◌&&◌, ◌||◌, Option, none, some, List, [], ◌∷◌, ◌++◌, any, all,
  contains, eqb, member, ◌==◌, Dict, lookup, store, err, malformed, refused, if◌then◌else◌,
}
use iac_modules.Common.Steps.{Step, ◌>>=◌, ◌>>◌, lift, return, check}
use iac_modules.Json.{ℤ, pos, negsuc, Value}
use iac_modules.Cmdb.Words.{lower}
use iac_modules.Preflight.Versions.{
  Readers, Version, Archive, current_of, read_versions, read_archive, no_archive, archive_key,
  unavailable, inventory,
}

-- What a run leaves: the JSON of its output is none where it has no such form.
pub record Output : Type 0 where
  pub returncode : ℤ
  pub stdout : Option Value
  pub stderr : String

-- The command line, with its arguments and its environment. A run is none without the command.
pub record Aws (W : Type 0) : Type 0 where
  pub run : List String → Dict String → Step W (Option Output)
  pub readers : Readers

-- `env.get(name)`, empty for a name that is not there
abbrev pub variable : Dict String → String → String
variable env name = elim (lookup name env) [ none ↦ "" | some s ↦ s ]

abbrev required_variables : List String
required_variables =
    "TF_STATE_ENDPOINT" ∷ "TF_STATE_BUCKET" ∷ "TF_STATE_ACCESS_KEY" ∷ "TF_STATE_SECRET_KEY"
    ∷ "TF_STATE_REGION" ∷ []

abbrev pub has_credentials : Dict String → Bool
has_credentials env = all (λ name. not (variable env name == "")) required_variables

-- `aws_env`
abbrev pub aws_environment : Dict String → Dict String
aws_environment env = store "AWS_PAGER" "" (
    store "AWS_REGION" (variable env "TF_STATE_REGION") (
      store "AWS_DEFAULT_REGION" (variable env "TF_STATE_REGION") (
        store "AWS_SECRET_ACCESS_KEY" (variable env "TF_STATE_SECRET_KEY")
          (store "AWS_ACCESS_KEY_ID" (variable env "TF_STATE_ACCESS_KEY") env))))

-- `READ_ONLY_AWS_COMMANDS`
abbrev is_read_only : List String → Bool
is_read_only (service ∷ operation ∷ rest) =
    service == "s3api" && member operation ("list-object-versions" ∷ "head-object" ∷ [])
is_read_only _ = false

abbrev pub is_zero : ℤ → Bool
is_zero (pos n) = eqb n 0
is_zero (negsuc n) = false

-- `CompletedProcess(["aws"], 127, "", "aws_cli_missing")`
abbrev no_command : Output
no_command = record { returncode = pos 127; stdout = none; stderr = "aws_cli_missing" }

-- The answer says that there is no such object.
abbrev pub is_not_found : String → Bool
is_not_found stderr = any (contains (lower stderr)) ("404" ∷ "nosuchkey" ∷ "not found" ∷ [])

-- The arguments of a request about the objects of the bucket.
abbrev pub request : Dict String → String → String → String → List String
request env operation flag key =
    "s3api"
    ∷ operation
    ∷ "--bucket"
    ∷ variable env "TF_STATE_BUCKET"
    ∷ flag
    ∷ key
    ∷ "--endpoint-url"
    ∷ variable env "TF_STATE_ENDPOINT"
    ∷ "--output"
    ∷ "json"
    ∷ []

module _ {W : Type 0} (a : Aws W) where
  -- `_aws_readonly`, with what its callers do without the command
  unfoldable pub aws_readonly : List String → Dict String → Step W Output
  aws_readonly arguments env = do
    check (is_read_only arguments) "aws_command_not_allowlisted"
    output ← a.run (arguments ++ ("--no-cli-pager" ∷ [])) env
    return (elim output [ none ↦ no_command | some o ↦ o ])

  -- The archive of a current version, as the answer to `head-object` says.
  unfoldable pub archive_in : Version → Output → Step W Archive
  archive_in current head =
      if is_zero head.returncode
      then elim head.stdout [
        | none ↦ lift (err (refused "legacy_state_archive_metadata_invalid"))
        | some metadata ↦ lift (read_archive a.readers current metadata)
      ]
      else return (no_archive (if is_not_found head.stderr then "available" else "unavailable"))

  unfoldable pub find_archive : String → Dict String → Option Version → Step W Archive
  find_archive key env none = return (no_archive "available")
  find_archive key env (some current) = do
    head ← aws_readonly (request env "head-object" "--key" (archive_key key)) (aws_environment env)
    archive_in current head

  -- What is reported of the versions that a listing holds.
  unfoldable pub inspect_listed : String → Dict String → Value → Step W Value
  inspect_listed key env payload = do
    versions ← lift (read_versions a.readers key payload)
    archive ← find_archive key env (current_of versions)
    return (inventory key versions archive)

  unfoldable pub inspect_legacy_object_versions : String → Dict String → Step W Value
  inspect_legacy_object_versions key env = do
    check (has_credentials env) "terraform_state_credentials_missing"
    result ← aws_readonly (request env "list-object-versions" "--prefix" key) (aws_environment env)
    if not (is_zero result.returncode)
        then return (unavailable key "read_failed")
        else elim result.stdout [
          | none ↦ return (unavailable key "invalid_response")
          | some payload ↦ inspect_listed key env payload
        ]
