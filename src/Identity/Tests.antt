-- ===== src/Identity/Tests.antt =====
-- Identities that are accepted and refused, and the laws at them.
use iac_modules.Common.{String, ◌≡◌, refl, ok, err, refused}
use iac_modules.Json.{str}
use iac_modules.Identity.{component, validate_namespace, canonical_state_key}
use iac_modules.Identity.Laws.{canonical_state_key_injective}

abbrev web_key : String
web_key = "terraform/uat/web/akamai-cloud/ops/web-saas/terraform.tfstate"

web_accepted :
    canonical_state_key (str "uat") (str "web") (str "akamai-cloud") (str "ops") (str "web-saas")
    ≡ ok web_key
unfolding canonical_state_key component validate_namespace
web_accepted = refl

shared_refused :
    canonical_state_key (str "uat") (str "web") (str "akamai-cloud") (str "ops") (str "shared")
    ≡ err (refused "shared Terraform namespace is forbidden")
unfolding canonical_state_key component validate_namespace
shared_refused = refl

slash_refused : component "account" (str "a/b") ≡ err (refused "invalid state identity account")
unfolding component
slash_refused = refl

canonical_state_key_injective_example :
    (str "uat" ≡ str "uat")
    × (str "web" ≡ str "web")
    × (str "akamai-cloud" ≡ str "akamai-cloud")
    × (str "ops" ≡ str "ops")
    × (str "web-saas" ≡ str "web-saas")
canonical_state_key_injective_example =
    canonical_state_key_injective (str "uat") (str "web") (str "akamai-cloud") (str "ops")
      (str "web-saas") (str "uat") (str "web") (str "akamai-cloud") (str "ops") (str "web-saas")
      web_key web_accepted web_accepted
