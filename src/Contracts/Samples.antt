-- ===== src/Contracts/Samples.antt =====
-- A small declaration of one node, and a checkout that holds it.
use iac_modules.Common.{String, true, false, ◌||◌, [], ◌∷◌, ◌==◌, if◌then◌else◌}
use iac_modules.Json.{Value, mapping, str, bool, arr, texts, items}
use iac_modules.Contracts.Checkout.{Checkout}

abbrev pub host_manifest : Value
host_manifest = mapping (
    (
      "global",
      mapping (
          ("provider", str "akamai-cloud")
          ∷ ("environment", str "dev")
          ∷ ("project", str "web")
          ∷ ("account", str "ops")
          ∷ ("state_namespace", str "node-1")
          ∷ ("workspace", str "node-1")
          ∷ ("prevent_destroy", bool false)
          ∷ []),
    )
    ∷ ("hosts", arr (items (mapping (("name", str "node-1") ∷ []) ∷ [])))
    ∷ [])

abbrev pub manifest_path : String
manifest_path = "resources/web/dev/akamai/node.yaml"

abbrev pub node_key : String
node_key = "terraform/dev/web/akamai-cloud/ops/node-1/terraform.tfstate"

abbrev pub unsupported_stage : Value
unsupported_stage = mapping (("mode", str "unsupported") ∷ ("reason", str "none") ∷ [])

abbrev pub resources_stage : Value
resources_stage = mapping (
    ("mode", str "terraform")
    ∷ ("manifest", str manifest_path)
    ∷ ("owners", texts ("module.compute_node" ∷ []))
    ∷ ("state", mapping (("key", str node_key) ∷ []))
    ∷ ("ownership_reviewed", bool true)
    ∷ ("destroy_allowed", bool true)
    ∷ [])

abbrev pub target_with : Value → Value → Value
target_with on_demand resources = mapping (
    ("id", str "node-1")
    ∷ ("environment", str "dev")
    ∷ ("project", str "web")
    ∷ ("provider", str "akamai-cloud")
    ∷ ("account", str "ops")
    ∷ ("workspace", str "node-1")
    ∷ ("namespace", str "node-1")
    ∷ (
      "lifecycle",
      mapping
          (("status", str "active") ∷ ("persistent", bool false) ∷ ("on_demand", on_demand) ∷ []),
    )
    ∷ ("auth", mapping (("expected_identity", str "ops") ∷ []))
    ∷ (
      "stages",
      mapping (
          ("bootstrap", unsupported_stage)
          ∷ ("account", unsupported_stage)
          ∷ ("resources", resources)
          ∷ []),
    )
    ∷ [])

abbrev pub node : Value
node = target_with (bool true) resources_stage

abbrev pub declarations : String
declarations = "iac/targets/dev.yaml"

abbrev targets_document : Value
targets_document = mapping (
    ("apiVersion", str "gitops.svc.plus/v1alpha1")
    ∷ ("kind", str "IaCPipelineTargets")
    ∷ ("targets", arr (items (node ∷ [])))
    ∷ [])

abbrev pub checkout : Checkout
checkout = record {
  head = "0123456789abcdef0123456789abcdef01234567";
  changes = "";
  is_file = λ path. path == declarations;
  target_files = [];
  resolves = λ path. path == declarations || path == manifest_path;
  tracked = λ path. true;
  load = λ path. if path == declarations then targets_document else host_manifest;
  digest = λ path. path;
  unicode_word = λ c. false;
  show = λ v. "";
}
