-- ===== src/Preflight/Tests.antt =====
-- A namespace that is absent and one whose firewall is left, with the laws at them.
use iac_modules.Common.{◌≡◌, refl, true, false, List, [], ◌∷◌, All, ok, starts_with}
use iac_modules.Json.{Value, arr, items, bool, str, mapping, get, is_text, find, eq}
use iac_modules.Contracts.Ownership.{owner_match}
use iac_modules.Preflight.{verdict, clean_verdict, recommended, classify_namespace}
use iac_modules.Preflight.Findings.{Listed, facts_of, failures_of}
use iac_modules.Preflight.Show.{
  Texts, Resource, check_named, read_resource, read_resources, own_resources, visit_module,
  visit_children, visit_list, visit_items, parse_terraform_show_json,
}
use iac_modules.Preflight.Identified.{IsIdentified, parse_terraform_show_json-IsIdentified}
use iac_modules.Preflight.Laws.{IsVacant, classify_namespace-IsVacant}

abbrev expected : Value
expected = mapping (
    ("namespace", str "node-1")
    ∷ ("label", str "node-1")
    ∷ ("firewall_label", str "node-1-fw")
    ∷ ("lifecycle", mapping (("status", str "active") ∷ ("persistent", bool false) ∷ []))
    ∷ ("state_key", str "k")
    ∷ [])

-- Another instance is live and stands in the legacy state.
abbrev elsewhere : Listed
elsewhere = record {
  instances = mapping (("id", str "8") ∷ ("label", str "node-2") ∷ []) ∷ [];
  firewalls = [];
  legacy =
      mapping
        (("resource_type", str "linode_instance") ∷ ("id", str "8") ∷ ("label", str "node-2") ∷ [])
      ∷ [];
  namespace = [];
}

abbrev orphan : Listed
orphan = record {
  instances = [];
  firewalls = mapping (("id", str "7") ∷ ("label", str "node-1-fw") ∷ []) ∷ [];
  legacy = [];
  namespace = [];
}

is_absent : is_text "absent" (get "status" (classify_namespace expected elsewhere)) ≡ true
unfolding classify_namespace facts_of failures_of verdict clean_verdict recommended owner_match find
    eq starts_with
is_absent = refl

is_orphan : is_text "ambiguous" (get "status" (classify_namespace expected orphan)) ≡ true
unfolding classify_namespace facts_of failures_of verdict clean_verdict recommended owner_match find
    eq starts_with
is_orphan = refl

classify_namespace-IsVacant_example : IsVacant expected elsewhere
classify_namespace-IsVacant_example = classify_namespace-IsVacant expected elsewhere is_absent

abbrev texts : Texts
texts = record { show = λ v. ""; list_sha256 = λ ss. "digest" }

abbrev instance_of_state : Value
instance_of_state = mapping (
    ("address", str "module.compute_web.linode_instance.node")
    ∷ ("type", str "linode_instance")
    ∷ ("values", mapping (("id", str "7") ∷ ("label", str "node-1") ∷ []))
    ∷ [])

abbrev child : Value
child = mapping (("resources", arr (items (instance_of_state ∷ []))) ∷ [])

abbrev document : Value
document = mapping (
    (
      "values",
      mapping (("root_module", mapping (("child_modules", arr (items (child ∷ []))) ∷ [])) ∷ []),
    )
    ∷ [])

abbrev found : List Resource
found =
    record {
      address = "module.compute_web.linode_instance.node";
      kind = "linode_instance";
      identity = "digest";
      complete = true;
      id = "7";
      label = "node-1";
    }
    ∷ []

is_parsed : parse_terraform_show_json texts document ≡ ok (found, true)
unfolding parse_terraform_show_json visit_module visit_children visit_list visit_items own_resources
    read_resources read_resource check_named find
is_parsed = refl

parse_terraform_show_json-IsIdentified_example : All IsIdentified found
parse_terraform_show_json-IsIdentified_example =
    parse_terraform_show_json-IsIdentified texts document found true is_parsed
