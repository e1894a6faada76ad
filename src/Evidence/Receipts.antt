-- ===== src/Evidence/Receipts.antt =====
-- `receipt_base`, `verify_receipt` and `collect` of scripts/pipeline/unified/evidence.py: what a
-- stage must prove, and the exact set of proofs. The evidence directory is a parameter.
pub mod Laws
pub mod Exact
mod Tests
use iac_modules.Common.{
  ℕ, String, Bool, true, false, not, ◌&&◌, ◌||◌, Option, none, some, List, [], ◌∷◌, ◌++◌, all,
  member, length, size, eqb, ◌==◌, ◌+++◌, Result, ok, err, malformed, refused, require, expect,
  when, each, collect, ◌>>=◌, ◌>>◌, if◌then◌else◌,
}
use iac_modules.Json.{
  ℤ, pos, Value, Fields, null, int, str, obj, arr, end, field, mapping, get, get_or, at, eq,
  is_text, is_true, truthy, is_list, members, fields, elems, field_count, text_value, as_text,
}
use iac_modules.Contracts.Target.Tables.{is_among}

-- Some fields of a mapping, all of which must be there.
unfoldable pub take_fields : List String → Value → Result (List (String × Value))
take_fields [] v = ok []
take_fields (k ∷ ks) v = do w ← at k v; rest ← take_fields ks v; ok ((k, w) ∷ rest)

abbrev pub run_fields : List String
run_fields =
    "correlation_id" ∷ "run_id" ∷ "run_attempt" ∷ "workflow_ref" ∷ "workflow_sha" ∷ "gitops_sha"
    ∷ "iac_sha" ∷ "contract_sha256" ∷ "requested_refs" ∷ "action" ∷ []

abbrev pub target_fields : List String
target_fields = "environment" ∷ "project" ∷ "provider" ∷ "account" ∷ "workspace" ∷ []

-- The fields of a receipt that its stage has to fill in.
abbrev pub open_fields : List String
open_fields = "result" ∷ "verification" ∷ "plan_sha256" ∷ "inventory_sha256" ∷ []

-- The fields that bind a receipt to its run, target and stage.
unfoldable pub binding_fields : Value → Value → String → Value → Result (List (String × Value))
binding_fields context target stage spec = do
  run ← take_fields run_fields context
  manifest ← at "manifest_sha256" context
  id ← at "id" target
  identity ← take_fields target_fields target
  ok (
      ("schema_version", int (pos 1))
      ∷ ("manifest_sha256", get_or "manifest_sha256" manifest spec)
      ∷ ("target_id", id)
      ∷ ("stage", str stage)
      ∷ ("owner_action", str (".github/actions/iac-" +++ stage))
      ∷ ("state_key", get_or "key" (str "") (get_or "state" (obj end) spec))
      ∷ (run ++ identity))

-- `target["stages"][stage]`
abbrev pub spec_at : String → Value → Result Value
spec_at stage target = do stages ← at "stages" target; at stage stages

unfoldable pub receipt_base : Value → Value → String → Result Value
receipt_base context target stage = do
  spec ← spec_at stage target
  bound ← binding_fields context target stage spec
  ok (
      mapping (
        bound
        ++ ("result", str "failed")
          ∷ ("verification", obj end)
          ∷ ("plan_sha256", str "")
          ∷ ("inventory_sha256", str "")
          ∷ []))

-- `SUCCESS`
abbrev pub successes : String → Option (List String)
successes action =
    if action == "check"
    then some ("static_checked" ∷ [])
    else if action == "plan"
    then some ("planned" ∷ "verified_existing" ∷ "not_applicable" ∷ [])
    else if action == "apply"
    then some ("applied_verified" ∷ "verified_existing" ∷ "not_applicable" ∷ [])
    else if action == "destroy"
    then some ("destroyed_verified" ∷ "not_applicable" ∷ [])
    else none

-- `receipt.get("verification", {}).get(name) is True`
abbrev pub proves : Value → String → Bool
proves receipt name = is_true (get name (get_or "verification" (obj end) receipt))

-- `len(v) == n`
abbrev pub has_length : ℕ → Value → Bool
has_length n (str s) = eqb (size s) n
has_length n (arr xs) = eqb (length (elems xs)) n
has_length n (obj fs) = eqb (field_count fs) n
has_length n v = false

-- The loop over the expected fields.
unfoldable pub check_binding_fields : String → Value → Fields → Result (Unit {0})
check_binding_fields place receipt end = ok tt
check_binding_fields place receipt (field k v rest) = do
  when (not (member k open_fields))
      (require (eq (get k receipt) v) ("receipt binding mismatch: " +++ (place +++ ("/" +++ k))))
  check_binding_fields place receipt rest

-- What Terraform's stages must prove.
unfoldable pub check_terraform_receipt : String → Value → String → Value → Result (Unit {0})
check_terraform_receipt action target stage receipt = do
  when (truthy (get "validation" target) && action == "destroy") (
      each
        (λ name. require (proves receipt name) ("missing validation cleanup evidence: " +++ name))
        ("namespace_isolation" ∷ "retained_resources" ∷ "source_unchanged" ∷ []))
  require (proves receipt "ownership") "missing resource ownership verification"
  require (has_length 64 (get_or "plan_sha256" (str "") receipt)) "missing saved plan digest"
  when (not (action == "plan"))
      (require (proves receipt "convergence") "missing target convergence")
  when (stage == "bootstrap" && action == "apply") (do
    require (proves receipt "runtime_identity") "runtime federation unverified"
    require (proves receipt "runtime_metadata_published") "runtime metadata publication unverified"
    require (proves receipt "bootstrap_credential_removed")
        "one-time bootstrap credential removal unverified")

-- The capability that a stage has.
unfoldable pub check_mode_receipt : Value → Value → Result (Unit {0})
check_mode_receipt spec receipt =
    if is_text "not_applicable" (get "mode" spec)
    then (do
      reason ← at "reason" spec
      require (is_text "not_applicable" (get "result" receipt) && eq (get "reason" receipt) reason)
          "missing capability reason")
    else require (proves receipt "identity") "missing provider identity verification"

-- Whether the stage ran Terraform.
abbrev pub ran_terraform : String → Value → Value → Bool
ran_terraform stage spec bootstrap_mode =
    is_text "terraform" (get "mode" spec)
    && not (stage == "bootstrap" && is_text "verify" bootstrap_mode)

unfoldable pub verify_receipt : Value → Value → String → Value → Result Value
verify_receipt context target stage receipt = do
  expected ← receipt_base context target stage
  let place = text_value (get "id" target) +++ ("/" +++ stage)
  check_binding_fields place receipt (fields expected)
  action ← at "action" context
  results ← elim (successes (text_value action)) [ none ↦ err malformed | some rs ↦ ok rs ]
  require (is_among results (get "result" receipt)) ("stage failed/blocked: " +++ place)
  require (proves receipt "contract") "missing owner contract verification"
  require (proves receipt "cleanup") "credential cleanup failed or missing"
  spec ← spec_at stage target
  check_mode_receipt spec receipt
  when (ran_terraform stage spec (get "bootstrap_mode" context))
      (check_terraform_receipt (text_value action) target stage receipt)
  ok receipt

-- A receipt file; the digest of the inventory beside it, if there is one, and what it holds.
pub record ReceiptFile : Type 0 where
  pub path : String
  pub receipt : Value
  pub inventory : Option String
  pub hosts : Value

-- The key of a receipt: its target and its stage.
abbrev pub Key : Type 0
Key = String × String

abbrev pub same_key : Key → Key → Bool
same_key a b = a.0 == b.0 && a.1 == b.1

abbrev pub has_key {ℓ} : {A : Type ℓ} → Key → List (Key × A) → Bool
has_key k [] = false
has_key k (p ∷ ps) = same_key k p.0 || has_key k ps

-- The value of a key that was set last.
abbrev pub last_of {ℓ} : {A : Type ℓ} → Key → List (Key × A) → Option A
last_of k [] = none
last_of k (p ∷ ps) = elim (last_of k ps) [
  | some a ↦ some a
  | none ↦ if same_key k p.0 then some p.1 else none
]

abbrev pairs_of : Value → String → List String → List (Key × Value)
pairs_of target id [] = []
pairs_of target id (stage ∷ rest) = ((id, stage), target) ∷ pairs_of target id rest

-- The receipts that a run owes.
unfoldable pub expected_of : List Value → List String → Result (List (Key × Value))
expected_of [] stages = ok []
expected_of (target ∷ rest) stages = do
  id ← at "id" target
  text ← as_text id
  others ← expected_of rest stages
  ok (pairs_of target text stages ++ others)

abbrev pub Found : Type 0
Found = List (Key × ReceiptFile)

-- The key that a receipt gives itself.
abbrev pub key_of_receipt : Value → Key
key_of_receipt receipt = (text_value (get "target_id" receipt), text_value (get "stage" receipt))

unfoldable pub check_inventory : ReceiptFile → Result (Unit {0})
check_inventory file = when (truthy (get "inventory_sha256" file.receipt)) (
    require
      (elim file.inventory [
        | none ↦ false
        | some d ↦ is_text d (get "inventory_sha256" file.receipt)
      ])
      "inventory checksum mismatch")

-- One round of the loop over the files.
unfoldable pub collect_file : Value → List (Key × Value) → Found → ReceiptFile → Result Found
collect_file context expected found file = do
  let key = key_of_receipt file.receipt
  target ← elim (last_of key expected) [
    | none ↦ err (refused "unexpected receipt target/stage")
    | some t ↦ ok t
  ]
  require (not (has_key key found)) "duplicate receipt"
  verified ← verify_receipt context target key.1 file.receipt
  check_inventory file
  ok (found ++ (key, file) ∷ [])

unfoldable pub collect_files : Value → List (Key × Value) → List ReceiptFile → Found → Result Found
collect_files context expected [] found = ok found
collect_files context expected (file ∷ rest) found = do
  grown ← collect_file context expected found file
  collect_files context expected rest grown

abbrev pub all_found : List (Key × Value) → Found → Bool
all_found expected found = all (λ p. has_key p.0 found) expected

-- `collect`
unfoldable pub collect_receipts : Value → List ReceiptFile → List String → Result Found
collect_receipts context files stages = do
  targets ← at "targets" context
  expect (is_list targets)
  expected ← expected_of (members targets) stages
  found ← collect_files context expected files []
  require (all_found expected found) "missing receipts"
  ok found
