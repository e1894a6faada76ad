-- ===== src/Evidence/Samples.antt =====
-- A run that applied one stage, and its receipt.
use iac_modules.Common.{String, true, none, [], ◌∷◌}
use iac_modules.Json.{pos, Value, obj, arr, items, texts, end, str, bool, int, mapping}
use iac_modules.Evidence.Receipts.{ReceiptFile, Found}

abbrev pub target : Value
target = mapping (
    ("id", str "node-1")
    ∷ ("environment", str "dev")
    ∷ ("project", str "web")
    ∷ ("provider", str "akamai-cloud")
    ∷ ("account", str "ops")
    ∷ ("workspace", str "node-1")
    ∷ ("stages", mapping (("resources", mapping (("mode", str "terraform") ∷ [])) ∷ []))
    ∷ [])

abbrev pub context : Value
context = mapping (
    ("correlation_id", str "1:1")
    ∷ ("run_id", str "1")
    ∷ ("run_attempt", str "1")
    ∷ ("workflow_ref", str "local")
    ∷ ("workflow_sha", str "local")
    ∷ ("gitops_sha", str "g")
    ∷ ("iac_sha", str "i")
    ∷ ("contract_sha256", str "c")
    ∷ ("requested_refs", obj end)
    ∷ ("action", str "apply")
    ∷ ("manifest_sha256", str "m")
    ∷ ("bootstrap_mode", str "verify")
    ∷ ("targets", arr (items (target ∷ [])))
    ∷ ("stage_scope", str "resources")
    ∷ ("stages", texts ("resources" ∷ []))
    ∷ ("manifest_path", str "iac/targets/dev.yaml")
    ∷ [])

abbrev pub plan_digest : String
plan_digest = "0123456789abcdef0123456789abcdef0123456789abcdef0123456789abcdef"

abbrev pub proofs : Value
proofs = mapping (
    ("contract", bool true)
    ∷ ("cleanup", bool true)
    ∷ ("identity", bool true)
    ∷ ("ownership", bool true)
    ∷ ("convergence", bool true)
    ∷ [])

abbrev pub receipt : Value
receipt = mapping (
    ("schema_version", int (pos 1))
    ∷ ("correlation_id", str "1:1")
    ∷ ("run_id", str "1")
    ∷ ("run_attempt", str "1")
    ∷ ("workflow_ref", str "local")
    ∷ ("workflow_sha", str "local")
    ∷ ("gitops_sha", str "g")
    ∷ ("iac_sha", str "i")
    ∷ ("contract_sha256", str "c")
    ∷ ("manifest_sha256", str "m")
    ∷ ("requested_refs", obj end)
    ∷ ("target_id", str "node-1")
    ∷ ("environment", str "dev")
    ∷ ("project", str "web")
    ∷ ("provider", str "akamai-cloud")
    ∷ ("account", str "ops")
    ∷ ("workspace", str "node-1")
    ∷ ("stage", str "resources")
    ∷ ("action", str "apply")
    ∷ ("owner_action", str ".github/actions/iac-resources")
    ∷ ("state_key", str "")
    ∷ ("result", str "applied_verified")
    ∷ ("verification", proofs)
    ∷ ("plan_sha256", str plan_digest)
    ∷ ("inventory_sha256", str "")
    ∷ [])

abbrev pub file : ReceiptFile
file = record { path = "node-1/receipt.json"; receipt = receipt; inventory = none; hosts = obj end }

abbrev pub found : Found
found = (("node-1", "resources"), file) ∷ []
