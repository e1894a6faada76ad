-- ===== src/Contracts/Target/Tables.antt =====
-- The tables of scripts/pipeline/unified/contracts.py and the tests on a value against them.
use iac_modules.Common.{
  String, Bool, true, false, ◌||◌, List, [], ◌∷◌, Option, none, some, member, is_alnum, head_tail,
  one_of, ◌==◌, if◌then◌else◌,
}
use iac_modules.Json.{Value, str, str_such, get, get_or, obj, bool, field, end}

abbrev pub stages : List String
stages = "bootstrap" ∷ "account" ∷ "resources" ∷ []

-- `PROVIDERS`
abbrev pub provider_folder : String → Option String
provider_folder p =
    if p == "aws-cloud"
    then some "aws"
    else if p == "azure-cloud"
    then some "azure"
    else if p == "vultr-vps"
    then some "vultr"
    else if p == "gcp-cloud"
    then some "gcp"
    else if p == "ucloud"
    then some "ucloud"
    else if p == "akamai-cloud"
    then some "akamai"
    else none

abbrev pub is_some {ℓ} : {A : Type ℓ} → Option A → Bool
is_some none = false
is_some (some a) = true

-- `ENVIRONMENTS`
abbrev pub github_environment : String → Option String
github_environment e =
    if e == "dev"
    then some "dev"
    else if e == "sit"
    then some "sit"
    else if e == "uat"
    then some "uat"
    else if e == "prod"
    then some "prod"
    else if e == "shared"
    then some "prod"
    else none

-- `ON_DEMAND_ENVIRONMENTS`
abbrev pub on_demand_environments : List String
on_demand_environments = "dev" ∷ []

-- `IDENTIFIER.fullmatch`
abbrev pub is_identifier : String → Bool
is_identifier s = head_tail is_alnum (λ c. is_alnum c || one_of "._@+-" c) 126 s

-- `v in {texts}`
abbrev pub is_among : List String → Value → Bool
is_among ts v = str_such (λ s. member s ts) v

-- `target["stages"][stage]`
abbrev pub stage_of : String → Value → Value
stage_of stage target = get stage (get "stages" target)

-- `target.get("namespace", target.get("workspace"))`
abbrev pub namespace_of : Value → Value
namespace_of target = get_or "namespace" (get "workspace" target) target

-- `target.get("lifecycle", {"status": "active", "persistent": False})`
abbrev pub lifecycle_of : Value → Value
lifecycle_of target =
    get_or "lifecycle" (obj (field "status" (str "active") (field "persistent" (bool false) end)))
      target
