-- ===== src/Preflight/Mapping.antt =====
-- How `build_report`, of scripts/akamai_state_preflight.py, maps the resources of the legacy state to
-- those of the namespaces' states.
mod Paired
use iac_modules.Common.{
  ℕ, zero, suc, ◌+◌, String, Bool, true, false, not, ◌&&◌, ◌||◌, Option, none, some, List, [], ◌∷◌,
  ◌++◌, eqb, leb, length, Dict, Result, ok, ◌>>=◌, ◌>>◌, if◌then◌else◌,
}
use iac_modules.Json.{pos, Value, int, str, get, get_or, at, eq, is_text, truthy, members, mapping}

-- A resource of a namespace's state.
pub record Candidate : Type 0 where
  pub namespace : String
  pub state_key : Value
  pub resource : Value

candidates_in : String → Value → List Value → Result (List Candidate)
candidates_in namespace result [] = ok []
candidates_in namespace result (resource ∷ rest) = do
  identity ← at "identity_sha256" resource
  key ← at "state_key" result
  others ← candidates_in namespace result rest
  ok (record { namespace = namespace; state_key = key; resource = resource } ∷ others)

-- `target_by_identity`, before it is grouped
unfoldable pub candidates_of : Dict Value → Result (List Candidate)
unfolding candidates_in
candidates_of [] = ok []
candidates_of ((namespace, result) ∷ rest) = do
  resources ← at "resources" result
  here ← candidates_in namespace result (members resources)
  others ← candidates_of rest
  ok (here ++ others)

abbrev pub identity_of : Value → Value
identity_of resource = get "identity_sha256" resource

-- `target_by_identity.get(identity, [])`
abbrev pub same_identity : Value → List Candidate → List Candidate
same_identity identity [] = []
same_identity identity (t ∷ ts) =
    let rest = same_identity identity ts in
    if eq (identity_of t.resource) identity then t ∷ rest else rest

-- `legacy_identity_counts[identity]`
abbrev pub count_identity : Value → List Value → ℕ
count_identity identity [] = 0
count_identity identity (v ∷ vs) =
    let rest = count_identity identity vs in if eq (identity_of v) identity then suc rest else rest

-- An expectation that names a resource of this type and label.
abbrev names_resource : Value → Value → Value → Bool
names_resource kind label expected =
    (is_text "linode_instance" kind && eq (get "label" expected) label)
    || (is_text "linode_firewall" kind && eq (get "firewall_label" expected) label)

-- The namespace that is declared for a type and a label; the last one that is.
abbrev pub declared_owner : List Value → Value → Value → Option Value
declared_owner [] kind label = none
declared_owner (expected ∷ rest) kind label = elim (declared_owner rest kind label) [
  | some namespace ↦ some namespace
  | none ↦ if names_resource kind label expected then some (get "namespace" expected) else none
]

abbrev pub is_complete : Value → Bool
is_complete resource = truthy (get "identity_complete" resource)

-- Another namespace is declared for the resource than the one that has it.
abbrev pub is_misplaced : List Value → Value → Candidate → Bool
is_misplaced expectations resource t =
    elim (declared_owner expectations (get "resource_type" resource)
      (get_or "label" (str "") resource)) [
        | none ↦ false
        | some namespace ↦ not (eq (str t.namespace) namespace)
      ]

-- What a resource of the legacy state is mapped to.
pub data Standing : Type 0 where
  one_to_one mismatched : Candidate → Standing
  duplicate unmapped : Standing

-- The one counterpart that both states have once.
abbrev pub paired : Value → List Candidate → ℕ → Option Candidate
paired resource (t ∷ []) count =
    if is_complete resource && (is_complete t.resource && eqb count 1) then some t else none
paired resource _ count = none

unfoldable pub standing_of : List Value → List Value → List Candidate → Value → Standing
standing_of expectations legacy targets resource =
    let matches = same_identity (identity_of resource) targets in
    let count = count_identity (identity_of resource) legacy in
    elim (paired resource matches count) [
      | some t ↦ if is_misplaced expectations resource t then mismatched t else one_to_one t
      | none ↦ if leb 2 (length matches) || leb 2 count then duplicate else unmapped
    ]

abbrev status_fields : String → Candidate → Result (List (String × Value))
status_fields status t = do
  address ← at "address" t.resource
  ok (
      ("mapping_status", str status)
      ∷ ("target_namespace", str t.namespace)
      ∷ ("target_state_key", t.state_key)
      ∷ ("target_address", address)
      ∷ [])

unfoldable pub standing_fields : Standing → ℕ → Result (List (String × Value))
standing_fields (one_to_one t) matches = status_fields "one-to-one" t
standing_fields (mismatched t) matches = status_fields "namespace-mismatch" t
standing_fields duplicate matches =
    ok (("mapping_status", str "duplicate") ∷ ("target_matches", int (pos matches)) ∷ [])
standing_fields unmapped matches =
    ok (("mapping_status", str "unmapped") ∷ ("target_matches", int (pos 0)) ∷ [])

-- The id and the label of a resource of the two types that are reported by them.
unfoldable pub label_fields : Value → Result (List (String × Value))
label_fields resource =
    if is_text "linode_instance" (get "resource_type" resource)
      || is_text "linode_firewall" (get "resource_type" resource)
    then (do
      id ← at "id" resource
      label ← at "label" resource
      ok (("id", id) ∷ ("label", label) ∷ []))
    else ok []

unfoldable pub map_resource :
    List Value → List Value → List Candidate → Value → Result (Standing × Value)
map_resource expectations legacy targets resource = do
  identity ← at "identity_sha256" resource
  address ← at "address" resource
  kind ← at "resource_type" resource
  labels ← label_fields resource
  let standing = standing_of expectations legacy targets resource
  stands ← standing_fields standing (length (same_identity identity targets))
  ok (
    standing,
    mapping (
        ("legacy_address", address)
        ∷ ("resource_type", kind)
        ∷ ("identity_sha256", identity)
        ∷ (labels ++ stands)),
  )

-- The mappings of some resources of the legacy state.
unfoldable pub map_resources :
    List Value → List Value → List Candidate → List Value → Result (List (Standing × Value))
unfolding map_resource
map_resources expectations legacy targets [] = ok []
map_resources expectations legacy targets (resource ∷ rest) = do
  here ← map_resource expectations legacy targets resource
  others ← map_resources expectations legacy targets rest
  ok (here ∷ others)

abbrev pub is_one_to_one : Standing → Bool
is_one_to_one (one_to_one t) = true
is_one_to_one _ = false

abbrev pub is_mismatched : Standing → Bool
is_mismatched (mismatched t) = true
is_mismatched _ = false

abbrev pub is_duplicate : Standing → Bool
is_duplicate duplicate = true
is_duplicate _ = false

abbrev pub is_unmapped : Standing → Bool
is_unmapped unmapped = true
is_unmapped _ = false

-- The number of mappings of one kind.
abbrev pub count_such : (Standing → Bool) → List (Standing × Value) → ℕ
count_such test [] = 0
count_such test ((standing, v) ∷ rest) =
    let others = count_such test rest in if test standing then suc others else others
