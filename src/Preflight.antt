-- ===== src/Preflight.antt =====
-- The verdict of `_classify_namespace`, of scripts/akamai_state_preflight.py, on the live resources
-- and the states of one declared namespace. `str` is a parameter.
pub mod Findings
pub mod Laws
pub mod Show
pub mod Identified
pub mod Pages
pub mod Mapping
pub mod Claims
pub mod Survey
pub mod Report
pub mod Versions
pub mod Inspect
pub mod Expectations
pub mod State
pub mod Direct
mod Tests
use iac_modules.Common.{
  String, Bool, true, false, not, ◌&&◌, ◌||◌, List, [], ◌∷◌, ◌++◌, any, all_chars, is_digit, length,
  leb, member, ◌==◌, Result, ok, refused, require, ◌>>=◌, ◌>>◌, if◌then◌else◌,
}
use iac_modules.Json.{
  ℤ, pos, Value, Fields, null, bool, int, str, arr, end, field, items, texts, mapping, get, get_or,
  eq, is_true, is_text, is_str, truthy, members, text_value,
}
use iac_modules.Contracts.Ownership.{owner_match}
use iac_modules.Preflight.Findings.{
  is_nonempty, shown, is_scalar, scalars, live_keys, project_one, project_live, one_by_label,
  of_kind, Facts, Listed, facts_of, when_found, strings, same_id, first_label_differs,
  label_failures, mislabelled, first_ids_differ, several, missing, failures_of,
}

pub record Verdict : Type 0 where
  pub status : String
  pub recommendation : String
  pub findings : List String

abbrev pub is_active_in : Value → Bool
is_active_in expected = is_text "active" (get "status" (get "lifecycle" expected))

-- Something is left of the namespace although no instance is live.
abbrev pub partial : Facts → Bool
partial f =
    is_nonempty f.state_instances
    || (is_nonempty f.state_firewalls
        || (is_nonempty f.target_instances
            || (is_nonempty f.target_firewalls || is_nonempty f.live_firewall)))

-- The choice where there is no failure.
unfoldable pub clean_verdict : Value → Facts → Verdict
clean_verdict expected f =
    if is_nonempty f.live_instance && is_nonempty f.state_instances
    then record {
      status = "existing-in-legacy-state";
      recommendation = "adopt-from-legacy-state-after-reviewed-state-migration";
      findings = [];
    }
    else if is_nonempty f.live_instance && is_nonempty f.target_instances
    then record {
      status = "existing-in-namespace-state";
      recommendation = "verify-current-namespace-plan-without-reimport";
      findings = [];
    }
    else if is_nonempty f.live_instance
    then record {
      status = "existing-unmanaged";
      recommendation = "import-existing-resource-after-namespace-ownership-review";
      findings = [];
    }
    else if partial f
    then record {
      status = "ambiguous";
      recommendation = "stop-and-reconcile-manually";
      findings = "partial_resource_set" ∷ [];
    }
    else record {
      status = "absent";
      recommendation =
          if is_active_in expected
          then "plan-create-in-namespace-after-review"
          else "retain-until-reviewed-state-retirement";
      findings = [];
    }

unfoldable pub verdict : Value → List String → Facts → Verdict
verdict expected [] f = clean_verdict expected f
verdict expected (failure ∷ failures) f = record {
  status = "ambiguous";
  recommendation = "stop-and-reconcile-manually";
  findings = failure ∷ failures;
}

-- The recommendation of a target that is no longer active.
unfoldable pub recommended : Value → Listed → Facts → Verdict → String
recommended expected l f v =
    if is_active_in expected
    then v.recommendation
    else if is_nonempty l.namespace || (is_nonempty f.live_instance || is_nonempty f.live_firewall)
    then "retain-for-reviewed-state-handoff"
    else "eligible-for-declaration-retirement-review"

abbrev pub cleanup_eligible : Value → Bool
cleanup_eligible expected =
    is_active_in expected
    && (not (truthy (get "persistent" (get "lifecycle" expected)))
        && is_true (get "destroy_allowed" expected))

-- The verdict on a namespace.
abbrev pub judge : Value → Listed → Verdict
judge expected l =
    verdict expected (failures_of expected l (facts_of expected l)) (facts_of expected l)

abbrev list_value : List Value → Value
list_value vs = arr (items vs)

-- `_classify_namespace`
unfoldable pub classify_namespace : Value → Listed → Value
classify_namespace expected l =
    let f = facts_of expected l in
    let v = judge expected l in
    mapping (
      ("namespace", get "namespace" expected)
      ∷ ("manifest", get "manifest" expected)
      ∷ ("expected_label", get "label" expected)
      ∷ ("expected_firewall_label", get "firewall_label" expected)
      ∷ ("region", get "region" expected)
      ∷ ("type", get "type" expected)
      ∷ ("status", str v.status)
      ∷ ("target_id", get_or "target_id" (get "namespace" expected) expected)
      ∷ ("lifecycle", get "lifecycle" expected)
      ∷ ("persistent", get "persistent" (get "lifecycle" expected))
      ∷ ("cleanup_eligible", bool (cleanup_eligible expected))
      ∷ ("state_key", get "state_key" expected)
      ∷ ("state_binding_count", int (pos (length l.namespace)))
      ∷ ("state_resources", list_value l.namespace)
      ∷ ("live_instances", list_value f.live_instance)
      ∷ ("live_firewalls", list_value f.live_firewall)
      ∷ ("legacy_state_instances", list_value f.state_instances)
      ∷ ("legacy_state_firewalls", list_value f.state_firewalls)
      ∷ ("namespace_state_instances", list_value f.target_instances)
      ∷ ("namespace_state_firewalls", list_value f.target_firewalls)
      ∷ ("recommendation", str (recommended expected l f v))
      ∷ ("findings", texts v.findings)
      ∷ [])
