-- ===== src/Preflight/State/Shape/Tests.antt =====
-- States that Terraform shows or does not find, what the API says of their instance, and the laws at
-- them.
use iac_modules.Common.{
  ◌≡◌, refl, String, true, false, List, [], ◌∷◌, some, ok, err, refused, Dict, lookup, store,
  starts_with, contains, Result, ◌==◌, if◌then◌else◌,
}
use iac_modules.Common.Steps.{return}
use iac_modules.Json.{
  Value, arr, nil, bool, pos, str, items, mapping, null, eq, find, get, members, set,
}
use iac_modules.Cmdb.Words.{lower, strip, strip_of}
use iac_modules.Preflight.Direct.{
  Api, linode_get_one, lookups_in, lookups_of, with_lookups, enrich_with_direct_lookups,
}
use iac_modules.Preflight.Expectations.{first_chars}
use iac_modules.Preflight.Mapping.{Candidate, Standing, map_resources}
use iac_modules.Preflight.Show.{Resource, parse_terraform_show_json}
use iac_modules.Preflight.State.{
  Terraform, backend_hcl, terraform_call, state_shown, inspect_terraform_state, resource_value,
  resource_values,
}
use iac_modules.Preflight.State.Shape.{HasAddress, map_resources-Returns}

abbrev instance_shown : Resource
instance_shown = record {
  address = "linode_instance.node";
  kind = "linode_instance";
  identity = "digest";
  complete = true;
  id = "7";
  label = "node-1";
}

abbrev target : Candidate
target = record {
  namespace = "node-1";
  state_key = str "key";
  resource = resource_value instance_shown;
}

has_address : HasAddress target
unfolding resource_value find
has_address = (str "linode_instance.node", refl)

map_resources-Returns_example :
    (mapped : List (Standing × Value)) × (map_resources [] []
        (target ∷ [])
        (resource_values (instance_shown ∷ []))
      ≡ ok mapped)
map_resources-Returns_example =
    map_resources-Returns [] [] (target ∷ []) (has_address, tt) (instance_shown ∷ [])

-- Terraform that shows a document without a root module.
abbrev terraform : Terraform (Unit {0})
terraform = record {
  folder = "/tmp";
  write = λ name text. return tt;
  restrict = λ name. return tt;
  run = λ arguments env. return (record { returncode = pos 0; stdout = "{}"; stderr = "" });
  quoted = λ s. s;
  json = λ s. some (mapping []);
  texts = record { show = λ v. ""; list_sha256 = λ ss. "digest" };
}

abbrev env : Dict String
env =
    ("TF_STATE_ENDPOINT", "https://s3")
    ∷ ("TF_STATE_BUCKET", "states")
    ∷ ("TF_STATE_ACCESS_KEY", "a")
    ∷ ("TF_STATE_SECRET_KEY", "s")
    ∷ ("TF_STATE_REGION", "r")
    ∷ []

abbrev empty_state : Value
empty_state = mapping (
    ("state_key", str "key")
    ∷ ("present", bool false)
    ∷ ("resources", arr nil)
    ∷ ("protected_text", bool false)
    ∷ [])

shows_empty_state : inspect_terraform_state terraform "key" env tt ≡ (ok empty_state, tt)
unfolding inspect_terraform_state backend_hcl terraform_call state_shown resource_values
    parse_terraform_show_json lookup store starts_with contains lower find
shows_empty_state = refl

without_credentials :
    inspect_terraform_state terraform "key" [] tt
    ≡ (err (refused "terraform_state_credentials_missing"), tt)
unfolding inspect_terraform_state backend_hcl lookup
without_credentials = refl

-- The API knows no instance.
abbrev api : Api (Unit {0})
api = record {
  read = λ path.
      return (record { status = if path == "profile" then 200 else 404; body = mapping [] });
  sha256 = λ s. "0123456789abcdef";
  show = λ v. "";
}

abbrev item : Value
item = mapping (("legacy_state_instances", arr (items (mapping (("id", str "7") ∷ []) ∷ []))) ∷ [])

abbrev enriched : Result Value × Unit {0} → Value
enriched (ok v, _) = v
enriched _ = null

abbrev first : Value → Value
first v = elim (members v) [ [] ↦ null | w ∷ ws ↦ w ]

abbrev verdicts : Value → Value
verdicts report = get "verdict" (first (get "direct_lookups" (first (get "namespaces" report))))

not_in_account :
    verdicts (
      enriched (
        enrich_with_direct_lookups api "token" "lab"
          (mapping (("namespaces", arr (items (item ∷ []))) ∷ []))
          tt))
    ≡ str "not_found_in_token_account"
unfolding enrich_with_direct_lookups linode_get_one lookups_in lookups_of with_lookups starts_with
    strip strip_of find set eq first_chars
not_in_account = refl
