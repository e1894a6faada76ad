-- ===== src/States/Tests.antt =====
-- The states of a candidate and of its serving source, and the laws at them.
use iac_modules.Common.{String, ◌≡◌, refl, List, [], ◌∷◌, ok, starts_with}
use iac_modules.Json.{Value, str, arr, items, texts, mapping, find, eq}
use iac_modules.Contracts.Ownership.{owner_match}
use iac_modules.States.{
  Texts, Resources, add_instance, add_instances, add_resource, add_resources, state_resources,
  isolated_states, verify_retained,
}
use iac_modules.States.Laws.{
  IsIsolated, isolated_states-IsIsolated, IsRetained, verify_retained-IsRetained,
}

abbrev json : Texts
json = record { dumps = λ v. ""; sha256 = λ v. ""; show = λ v. "" }

abbrev resource : String → String → String → String → Value
resource group kind name id = mapping (
    ("module", str group)
    ∷ ("type", str kind)
    ∷ ("name", str name)
    ∷ ("provider", str "provider[\"linode\"]")
    ∷ ("instances", arr (items (mapping (("attributes", mapping (("id", str id) ∷ [])) ∷ []) ∷ [])))
    ∷ [])

abbrev state : String → List Value → Value
state lineage resources =
    mapping (("lineage", str lineage) ∷ ("resources", arr (items resources)) ∷ [])

abbrev firewall : Value
firewall = resource "module.network" "linode_firewall" "web" "7"

abbrev candidate : Value
candidate = state "c" (resource "module.compute_next" "linode_instance" "node" "2" ∷ firewall ∷ [])

abbrev source : Value
source = state "s" (resource "module.compute_web" "linode_instance" "node" "1" ∷ [])

abbrev cleaned : Value
cleaned = state "c" (firewall ∷ [])

abbrev selected : Resources
selected = ("module.compute_next.linode_instance.node", ("linode", "linode_instance", "2")) ∷ []

abbrev kept : Resources
kept = ("module.network.linode_firewall.web", ("linode", "linode_firewall", "7")) ∷ []

abbrev current : Resources
current = ("module.compute_next.linode_instance.node", ("linode", "linode_instance", "2")) ∷ kept

abbrev owners : List String
owners = "module.compute_next" ∷ []

abbrev target : Value
target = mapping (
    (
      "validation",
      mapping (
          ("destroy_owners", texts owners)
          ∷ ("source_binding", mapping (("owners", texts ("module.compute_web" ∷ [])) ∷ []))
          ∷ []),
    )
    ∷ (
      "stages",
      mapping (
          (
            "resources",
            mapping (
                ("owners", texts ("module.compute_next" ∷ "module.network" ∷ []))
                ∷ ("protected", texts ("module.network" ∷ []))
                ∷ []),
          )
          ∷ []),
    )
    ∷ [])

-- The functions that a run calls.
reading : Unit {0}
unfolding isolated_states verify_retained state_resources add_resources add_resource add_instances
    add_instance owner_match find eq starts_with
reading = tt

are_isolated : isolated_states json target candidate source ≡ ok (current, selected)
unfolding reading
are_isolated = refl

is_retained : verify_retained json current cleaned owners ≡ ok tt
unfolding reading
is_retained = refl

isolated_states-IsIsolated_example : IsIsolated json target candidate source current selected
isolated_states-IsIsolated_example =
    isolated_states-IsIsolated json target candidate source current selected are_isolated

verify_retained-IsRetained_example :
    (found : Resources) × (state_resources json cleaned ≡ ok found)
    × IsRetained current found owners
verify_retained-IsRetained_example =
    verify_retained-IsRetained json current cleaned owners is_retained

is_read : state_resources json candidate ≡ ok current
unfolding reading
is_read = refl
