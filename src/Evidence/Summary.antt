-- ===== src/Evidence/Summary.antt =====
-- `summarize` and `verify_summary` of scripts/pipeline/unified/evidence.py: the result of a whole
-- run. Files and digests are parameters.
pub mod Laws
mod Tests
use iac_modules.Common.{
  ℕ, String, Bool, true, false, not, ◌&&◌, ◌||◌, Option, none, some, List, [], ◌∷◌, ◌++◌, all,
  member, text_leb, sorted, ◌==◌, ◌+++◌, Result, ok, err, malformed, refused, require, expect, when,
  each, ◌>>=◌, ◌>>◌, if◌then◌else◌,
}
use iac_modules.Json.{
  ℤ, pos, Value, Fields, Items, int, str, obj, arr, nil, cons, end, field, mapping, items, texts,
  get, get_or, at, has, eq, set, merge, remove, is_text, is_list, is_mapping, truthy, members,
  fields, text_value, as_text, as_texts,
}
use iac_modules.Contracts.Target.Tables.{stages}
use iac_modules.Contracts.Prepare.{selected_stages}
use iac_modules.Evidence.Receipts.{
  Key, Found, ReceiptFile, has_key, last_of, expected_of, key_of_receipt, verify_receipt,
  collect_receipts,
}

abbrev key_leb : Key → Key → Bool
key_leb a b = if a.0 == b.0 then text_leb a.1 b.1 else text_leb a.0 b.0

-- `"destroy-" + stage`
abbrev pub destroy_job : String → String
destroy_job stage = "destroy-" +++ stage

abbrev destroy_jobs : List String → List String
destroy_jobs [] = []
destroy_jobs (s ∷ ss) = destroy_job s ∷ destroy_jobs ss

abbrev pub expected_jobs : String → List String → List String
expected_jobs action chosen =
    if action == "check" then [] else if action == "destroy" then destroy_jobs chosen else chosen

-- `needs.get(job, {}).get("result")`
abbrev pub outcome : String → Value → Value
outcome job needs = get "result" (get_or job (obj end) needs)

abbrev wanted : List String → String → String
wanted expected job = if member job expected then "success" else "skipped"

unfoldable pub check_job : List String → Value → String → Result (Unit {0})
check_job expected needs job =
    require (is_text (wanted expected job) (outcome job needs))
      ("job " +++ (job +++ (" must be " +++ wanted expected job)))

unfoldable pub check_jobs : List String → Value → Result (Unit {0})
check_jobs expected needs =
    each (λ stage. check_job expected needs stage >> check_job expected needs (destroy_job stage))
      stages

-- What a run of an action that succeeded is called.
abbrev pub operation_result : String → Option String
operation_result action =
    if action == "check"
    then some "static_checked"
    else if action == "plan"
    then some "planned"
    else if action == "apply"
    then some "applied_verified"
    else if action == "destroy"
    then some "destroyed_verified"
    else none

-- `{"target_id": target_id, "host": name, **facts}`
abbrev pub host_entries : String → Fields → List Value
host_entries target end = []
host_entries target (field name facts rest) =
    obj (merge (field "target_id" (str target) (field "host" (str name) end)) (fields facts))
    ∷ host_entries target rest

-- The loop over the sorted receipts: the hosts, and the inventories by target.
abbrev gather : Found → Fields → List Value × Fields
gather [] inventories = ([], inventories)
gather ((key, file) ∷ rest) inventories =
    let recorded = truthy (get "inventory_sha256" file.receipt) in
    let later = gather rest (if recorded then set key.0 file.hosts inventories else inventories) in
    (if recorded then host_entries key.0 (fields file.hosts) ++ later.0 else later.0, later.1)

abbrev receipts_of : Found → List Value
receipts_of [] = []
receipts_of ((key, file) ∷ rest) = file.receipt ∷ receipts_of rest

abbrev job_results : List String → List String → List (String × Value)
job_results expected [] = []
job_results expected (job ∷ rest) =
    (job, str (if member job expected then "success" else "not_selected"))
    ∷ job_results expected rest

-- The summary and the inventories that are written.
unfoldable pub summarize : Value → List ReceiptFile → Value → Result (Value × Value)
summarize context files needs = do
  named ← at "stages" context
  chosen ← as_texts named
  action ← at "action" context
  let expected = expected_jobs (text_value action) chosen
  require (is_text "success" (outcome "prepare" needs)) "prepare failed or cancelled"
  check_jobs expected needs
  found ← collect_receipts context files (if is_text "check" action then [] else chosen)
  let ordered = sorted (λ a b. key_leb a.0 b.0) found
  let gathered = gather ordered end
  result ← elim (operation_result (text_value action)) [ none ↦ err malformed | some r ↦ ok r ]
  ok (
    mapping (
        ("schema_version", int (pos 1))
        ∷ ("result", str result)
        ∷ ("context", context)
        ∷ ("receipts", arr (items (receipts_of ordered)))
        ∷ ("deploy_matrix", arr (items gathered.0))
        ∷ ("jobs", mapping (job_results expected (stages ++ destroy_jobs stages)))
        ∷ []),
    obj gathered.1,
  )

-- The files of a summary, and the SHA-256 of a JSON text and of an inventory file.
pub record Published : Type 0 where
  pub digest : String
  pub summary : Value
  pub inventories : Value
  pub json_sha256 : Value → String
  pub file_sha256 : Value → String

-- What the caller expects of the summary.
pub record Expectation : Type 0 where
  pub checksum : String
  pub run_id : String
  pub attempt : String
  pub gitops_sha : String
  pub iac_sha : String
  pub manifest : String
  pub action : String
  pub correlation : String

abbrev pub bindings : Expectation → List (String × String)
bindings e =
    ("run_id", e.run_id)
    ∷ ("run_attempt", e.attempt)
    ∷ ("gitops_sha", e.gitops_sha)
    ∷ ("iac_sha", e.iac_sha)
    ∷ ("manifest_path", e.manifest)
    ∷ ("action", e.action)
    ∷ ("correlation_id", e.correlation)
    ∷ []

abbrev pub has_seen : Key → List Key → Bool
has_seen k [] = false
has_seen k (l ∷ ls) = (k.0 == l.0 && k.1 == l.1) || has_seen k ls

-- One round of the loop over the receipts of the summary.
unfoldable pub verify_entry : Value → List (Key × Value) → List Key → Value → Result (List Key)
verify_entry context expected seen receipt = do
  let key = key_of_receipt receipt
  target ← elim (last_of key expected) [
    | none ↦ err (refused "unexpected/duplicate aggregate receipt")
    | some t ↦ ok t
  ]
  require (not (has_seen key seen)) "unexpected/duplicate aggregate receipt"
  verified ← verify_receipt context target key.1 receipt
  ok (key ∷ seen)

unfoldable pub verify_entries :
    Value → List (Key × Value) → List Value → List Key → Result (List Key)
verify_entries context expected [] seen = ok seen
verify_entries context expected (receipt ∷ rest) seen = do
  more ← verify_entry context expected seen receipt
  verify_entries context expected rest more

-- An inventory that a receipt names by its digest.
unfoldable pub verify_inventory : Published → Value → Result (Unit {0})
verify_inventory p receipt = do
  named ← at "inventory_sha256" receipt
  when (truthy named) (do
    let target = text_value (get "target_id" receipt)
    require (has target p.inventories) "missing aggregate inventory"
    require (is_text (p.file_sha256 (get target p.inventories)) named)
        "aggregate inventory mismatch")

abbrev named_fields : Fields → List (String × Value)
named_fields end = []
named_fields (field k v fs) = (k, v) ∷ named_fields fs

abbrev matrix : List (String × Value) → List Value
matrix [] = []
matrix ((target, inventory) ∷ rest) = host_entries target (fields inventory) ++ matrix rest

abbrev pub expected_matrix : Value → Value
expected_matrix inventories = arr (
    items (
      matrix
        (sorted (λ (a b : String × Value). text_leb a.0 b.0) (named_fields (fields inventories)))))

-- The checks of what a summary is bound to.
unfoldable pub check_summary : Published → Expectation → Value → Result (Unit {0})
check_summary p e context = do
  require (p.digest == e.checksum) "summary checksum mismatch"
  digest ← at "contract_sha256" context
  require (is_text (p.json_sha256 (obj (remove "contract_sha256" (fields context)))) digest)
      "aggregate contract digest mismatch"
  scope ← at "stage_scope" context
  named ← at "stages" context
  require (eq named (texts (selected_stages e.action (text_value scope))))
      "aggregate stage scope mismatch"
  each
      (λ (b : String × String).
        require (is_text b.1 (get b.0 context)) ("summary binding mismatch: " +++ b.0))
      (bindings e)

-- The receipts that the summary must hold.
unfoldable pub summary_owes : Value → String → Result (List (Key × Value))
summary_owes context action = if action == "check" then ok [] else (do
  targets ← at "targets" context
  expect (is_list targets)
  named ← at "stages" context
  chosen ← as_texts named
  expected_of (members targets) chosen)

unfoldable pub verify_summary : Published → Expectation → Result Value
verify_summary p e = do
  context ← at "context" p.summary
  check_summary p e context
  expected ← summary_owes context e.action
  receipts ← at "receipts" p.summary
  expect (is_list receipts)
  seen ← verify_entries context expected (members receipts) []
  require (all (λ (k : Key × Value). has_seen k.0 seen) expected) "incomplete aggregate receipts"
  wanted_result ← elim (operation_result e.action) [ none ↦ err malformed | some r ↦ ok r ]
  result ← at "result" p.summary
  require (is_text wanted_result result) "wrong operation result"
  each (verify_inventory p) (members receipts)
  hosts ← at "deploy_matrix" p.summary
  require (eq hosts (expected_matrix p.inventories)) "deploy matrix differs from verified inventory"
  ok p.summary
