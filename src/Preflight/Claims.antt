-- ===== src/Preflight/Claims.antt =====
-- `id_owners` and `target_resource_owners` of `build_report`, of scripts/akamai_state_preflight.py,
-- and how it marks the namespaces that it has to stop for.
use iac_modules.Common.{String, Bool, not, ◌&&◌, List, [], ◌∷◌, ◌++◌, any, ◌==◌, if◌then◌else◌}
use iac_modules.Json.{Value, arr, items, str, get, get_or, put, truthy, members, text_value}
use iac_modules.Preflight.Mapping.{Candidate}

-- A type, an id and a namespace that has it.
pub record Claim : Type 0 where
  pub kind : String
  pub id : String
  pub namespace : String

abbrev claims_for : String → String → List Value → List Claim
claims_for kind namespace [] = []
claims_for kind namespace (v ∷ vs) =
    let rest = claims_for kind namespace vs in
    if truthy (get "id" v)
    then record { kind = kind; id = text_value (get "id" v); namespace = namespace } ∷ rest
    else rest

abbrev listed : String → Value → List Value
listed key item = members (get key item)

abbrev pub namespace_of : Value → String
namespace_of item = text_value (get "namespace" item)

-- What one report of a namespace adds to `id_owners`.
abbrev item_claims : Value → List Claim
item_claims item =
    claims_for "linode_instance" (namespace_of item) (
      listed "live_instances" item
      ++ listed "legacy_state_instances" item
      ++ listed "namespace_state_instances" item)
    ++ claims_for "linode_firewall" (namespace_of item) (
        listed "live_firewalls" item
        ++ listed "legacy_state_firewalls" item
        ++ listed "namespace_state_firewalls" item)

abbrev pub claims_of : List Value → List Claim
claims_of [] = []
claims_of (item ∷ rest) = item_claims item ++ claims_of rest

-- `target_resource_owners`
abbrev pub target_claims : List Candidate → List Claim
target_claims [] = []
target_claims (t ∷ ts) =
    claims_for (text_value (get_or "resource_type" (str "") t.resource)) t.namespace
      (t.resource ∷ [])
    ++ target_claims ts

-- The same resource, claimed by another namespace.
abbrev pub disagree : Claim → Claim → Bool
disagree c d = (d.kind == c.kind && d.id == c.id) && not (d.namespace == c.namespace)

-- Another namespace has the same resource.
abbrev pub is_shared : List Claim → Claim → Bool
is_shared claims c = any (disagree c) claims

-- A namespace that has one of the shared resources.
abbrev pub shares : List Claim → String → Bool
shares claims namespace = any (λ c. c.namespace == namespace && is_shared claims c) claims

-- What is done to the report of a namespace for a finding about several of them.
unfoldable pub stop_for : String → Value → Value
stop_for finding item =
    put "findings" (arr (items (members (get "findings" item) ++ str finding ∷ []))) (
      put "recommendation" (str "stop-and-reconcile-manually")
        (put "status" (str "ambiguous") item))

-- The loop over the reports that marks some of them.
unfoldable pub stop_where : (Value → Bool) → String → List Value → List Value
stop_where test finding [] = []
stop_where test finding (item ∷ rest) =
    let others = stop_where test finding rest in
    if test item then stop_for finding item ∷ others else item ∷ others
