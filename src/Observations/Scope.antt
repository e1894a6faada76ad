-- ===== src/Observations/Scope.antt =====
-- `_matches_run_scope` of terraform-hcl-standard/scripts/cmdb_observations_v1.py.
use iac_modules.Common.{
  String, Bool, true, not, ◌&&◌, ◌||◌, [], ◌∷◌, member, ◌==◌, Result, ok, ◌>>=◌, if◌then◌else◌,
}
use iac_modules.Json.{Value, str, get, get_or}
use iac_modules.Cmdb.Words.{has_char, before_first, after_first, or_text, first_of}
use iac_modules.Cmdb.Keys.{serverless_kinds, word}
use iac_modules.Cmdb.Endpoint.{Readers}
use iac_modules.Observations.Checks.{normalize_provider}
use iac_modules.Observations.Keys.{plain, compute_kinds}

module _ (r : Readers) where
  -- The kind of resources that a run covers, and whether a resource is of that kind.
  abbrev run_kind : Value → String → String
  run_kind run collector =
      let suffix = after_first b'-' collector in
      or_text (word r.show (get "resource_kind" run)) (
        if has_char b'-' collector
        then (if suffix == "compute"
            then "compute"
            else if suffix == "cloudrun"
            then "serverless_service"
            else suffix)
        else "")

  abbrev is_of_kind : String → String → String → Bool
  is_of_kind wanted kind form =
      let compute = member wanted compute_kinds in
      let serverless = member wanted serverless_kinds in
      (not compute || (member kind compute_kinds || member form ("vm" ∷ "k3s_node" ∷ [])))
      && ((not serverless || (member kind serverless_kinds || form == "serverless"))
          && (compute || (serverless || kind == wanted)))

  unfoldable pub matches_provider : Value → Value → String → Result Bool
  matches_provider resource run collector =
      let wanted = word r.show (
        first_of (
          get "provider" run
          ∷ str (if has_char b'-' collector then before_first b'-' collector else "")
          ∷ [])) in
      if wanted == "" then ok true else (do
        own ← normalize_provider (get_or "provider" (str "unknown") resource)
        other ← normalize_provider (str wanted)
        ok (own == other))

  unfoldable pub matches_run_scope : Value → Value → Result Bool
  unfolding matches_provider
  matches_run_scope resource run = do
    let collector = word r.show (get "collector" run)
    same ← matches_provider resource run collector
    let scope = word r.show (get "scope" run)
    let own_scope = word r.show (first_of (get "scope" resource ∷ get "environment" resource ∷ []))
    let project = plain r (first_of (get "project_ref" run ∷ get "account_ref" run ∷ []))
    let own_project =
        plain r (first_of (get "project_ref" resource ∷ get "account_ref" resource ∷ []))
    let kind = run_kind run collector
    let region = plain r (get "region_ref" run)
    ok (
        same
        && ((scope == "" || (scope == "unknown" || own_scope == scope))
            && ((project == "" || (own_project == "" || project == own_project))
                && ((kind == ""
                      || is_of_kind kind (word r.show (get "resource_kind" resource))
                          (word r.show (get "runtime_form" resource)))
                    && (region == ""
                        || (member region ("all-zones" ∷ "global" ∷ "multi-region" ∷ [])
                            || plain r (get "region" resource) == region))))))
