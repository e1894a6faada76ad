-- ===== src/Preflight/Mapping/Paired/Tests.antt =====
-- A legacy state with one instance that a namespace's state has too, with the laws at it.
use iac_modules.Common.{◌≡◌, refl, true, List, [], ◌∷◌, All, ok}
use iac_modules.Json.{Value, bool, str, mapping, eq, find}
use iac_modules.Preflight.Mapping.{
  Candidate, Standing, one_to_one, standing_of, label_fields, standing_fields, map_resource,
  map_resources,
}
use iac_modules.Preflight.Mapping.Paired.{IsPaired, map_resources-ArePaired}

abbrev instance_at : Value
instance_at = mapping (
    ("address", str "linode_instance.node")
    ∷ ("resource_type", str "linode_instance")
    ∷ ("identity_sha256", str "digest")
    ∷ ("identity_complete", bool true)
    ∷ ("id", str "7")
    ∷ ("label", str "node-1")
    ∷ [])

abbrev expected : Value
expected = mapping (
    ("namespace", str "node-1")
    ∷ ("label", str "node-1")
    ∷ ("firewall_label", str "node-1-fw")
    ∷ [])

abbrev target : Candidate
target = record { namespace = "node-1"; state_key = str "key"; resource = instance_at }

abbrev mapped : List (Standing × Value)
mapped =
    (
      one_to_one target,
      mapping (
          ("legacy_address", str "linode_instance.node")
          ∷ ("resource_type", str "linode_instance")
          ∷ ("identity_sha256", str "digest")
          ∷ ("id", str "7")
          ∷ ("label", str "node-1")
          ∷ ("mapping_status", str "one-to-one")
          ∷ ("target_namespace", str "node-1")
          ∷ ("target_state_key", str "key")
          ∷ ("target_address", str "linode_instance.node")
          ∷ []),
    )
    ∷ []

is_mapped :
    map_resources (expected ∷ []) (instance_at ∷ []) (target ∷ []) (instance_at ∷ []) ≡ ok mapped
unfolding map_resources map_resource label_fields standing_fields standing_of find eq
is_mapped = refl

map_resources-ArePaired_example :
    All (IsPaired (expected ∷ []) (instance_at ∷ []) (target ∷ [])) (instance_at ∷ [])
map_resources-ArePaired_example =
    map_resources-ArePaired (expected ∷ []) (instance_at ∷ []) (target ∷ []) is_mapped refl
