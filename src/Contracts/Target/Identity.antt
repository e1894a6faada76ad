-- ===== src/Contracts/Target/Identity.antt =====
-- The first half of `validate_target`: what a target is, and its lifecycle.
use iac_modules.Common.{
  String, Bool, false, not, ◌&&◌, List, [], ◌∷◌, member, all, Result, ok, err, malformed, require,
  when, each, ◌>>=◌, ◌>>◌, ◌+++◌,
}
use iac_modules.Json.{
  Value, obj, end, bool, keys, get, get_or, eq, is_mapping, is_bool, is_false, truthy, str_such,
}
use iac_modules.Contracts.Target.Tables.{
  stages, provider_folder, is_some, github_environment, on_demand_environments, is_identifier,
  is_among, namespace_of, lifecycle_of,
}

abbrev pub identity_keys : List String
identity_keys = "id" ∷ "environment" ∷ "project" ∷ "provider" ∷ "account" ∷ "workspace" ∷ []

unfoldable pub check_identity : Value → Result (Unit {0})
check_identity target = do
  require (is_mapping target) "target must be a mapping"
  each (λ key. require (str_such is_identifier (get key target)) ("invalid target " +++ key))
      identity_keys
  require (eq (namespace_of target) (get "workspace" target)) "namespace/workspace alias mismatch"

unfoldable pub check_lifecycle : Value → Result (Unit {0})
check_lifecycle target = do
  let lifecycle = lifecycle_of target
  require
      (is_mapping lifecycle
        && is_among ("active" ∷ "migration" ∷ "retired" ∷ []) (get "status" lifecycle))
      "invalid target lifecycle"
  require (is_bool (get "persistent" lifecycle)) "explicit lifecycle persistence required"
  let on_demand = get_or "on_demand" (bool false) lifecycle
  require (is_bool on_demand) "lifecycle.on_demand must be a boolean"
  when (truthy on_demand) (do
    require (is_among on_demand_environments (get "environment" target))
        "on-demand lifecycle is limited to dev targets"
    require (is_false (get "persistent" lifecycle)) "on-demand targets cannot be persistent")
  when (is_among on_demand_environments (get "environment" target))
      (require (truthy on_demand) "dev targets must declare lifecycle.on_demand: true")

-- `set(target.get("stages", {})) == set(STAGES)`
abbrev pub declares_stages : Value → Result Bool
declares_stages (obj fs) =
    ok (all (λ stage. member stage (keys fs)) stages && all (λ key. member key stages) (keys fs))
declares_stages _ = err malformed

unfoldable pub check_binding : Value → Result (Unit {0})
check_binding target = do
  require (str_such (λ p. is_some (provider_folder p)) (get "provider" target))
      "unsupported provider; existing hosts use their own adapter"
  require (str_such (λ e. is_some (github_environment e)) (get "environment" target))
      "unsupported environment"
  require (not (is_among ("default" ∷ "primary" ∷ "main" ∷ []) (get "account" target)))
      "concrete account required"
  declared ← declares_stages (get_or "stages" (obj end) target)
  require declared "declare all three stages explicitly"
  require (is_mapping (get "auth" target)) "provider authentication declaration required"
  require (truthy (get "expected_identity" (get "auth" target)))
      "actual provider identity binding required"
