-- ===== src/Preflight/Expectations/Permitted/Tests.antt =====
-- One target whose manifest declares one host, with the laws at it.
use iac_modules.Common.{
  ◌≡◌, refl, true, false, [], ◌∷◌, ok, err, refused, starts_with, segments, is_absolute,
}
use iac_modules.Json.{Value, bool, str, arr, nil, mapping, find}
use iac_modules.Cmdb.Words.{strip, strip_of, lower}
use iac_modules.Preflight.Expectations.{
  Renderer, Loading, given, raises, first_chars, firewall_label, only_host, check_host, describe,
  as_posix, expectation_of, load_manifest_expectations,
}
use iac_modules.Preflight.Expectations.Permitted.{
  ArePermitted, load_manifest_expectations-ArePermitted,
}

abbrev host : Value
host = mapping (("label", str "uat-node-1") ∷ ("region", str "jp") ∷ ("plan", str "g6") ∷ [])

abbrev renderer : Loading → Renderer
renderer loading = record {
  is_file = λ s. true;
  load_sources = λ s. loading;
  sha256 = λ s. "0123456789";
  show = λ v. "";
}

abbrev target : Value
target = mapping (
    ("id", str "node-1")
    ∷ ("namespace", str "node-1")
    ∷ ("lifecycle", mapping [])
    ∷ (
      "stages",
      mapping (
          (
            "resources",
            mapping (
                ("manifest", str "iac/./node.yaml")
                ∷ ("state", mapping (("key", str "k") ∷ []))
                ∷ ("owners", arr nil)
                ∷ ("destroy_allowed", bool false)
                ∷ []),
          )
          ∷ []),
    )
    ∷ [])

abbrev settings : Value
settings = mapping (("state_namespace", str "node-1") ∷ [])

abbrev expectation : Value
expectation = mapping (
    ("namespace", str "node-1")
    ∷ ("target_id", str "node-1")
    ∷ ("lifecycle", mapping [])
    ∷ ("state_key", str "k")
    ∷ ("owners", arr nil)
    ∷ ("destroy_allowed", bool false)
    ∷ ("manifest", str "iac/node.yaml")
    ∷ ("label", str "uat-node-1")
    ∷ ("firewall_label", str "uat-node-1-firewall")
    ∷ ("region", str "jp")
    ∷ ("type", str "g6")
    ∷ [])

is_expected :
    load_manifest_expectations (renderer (given settings (host ∷ []))) (target ∷ [])
    ≡ ok (expectation ∷ [])
unfolding load_manifest_expectations expectation_of only_host check_host describe firewall_label
    first_chars as_posix segments starts_with is_absolute strip strip_of lower find
is_expected = refl

two_hosts_refused :
    load_manifest_expectations (renderer (given settings (host ∷ host ∷ []))) (target ∷ [])
    ≡ err (refused "manifest_host_count_invalid:node-1")
unfolding load_manifest_expectations expectation_of only_host find
two_hosts_refused = refl

-- A long label is cut, and its digest stands at the end.
long_label :
    firewall_label (renderer raises) "uat-open-platform-node-number-1"
    ≡ "uat-open-platform-node--01234567"
unfolding firewall_label first_chars
long_label = refl

load_manifest_expectations-ArePermitted_example : ArePermitted (target ∷ []) (expectation ∷ [])
load_manifest_expectations-ArePermitted_example =
    load_manifest_expectations-ArePermitted (renderer (given settings (host ∷ []))) (target ∷ [])
      is_expected
