-- ===== src/Evidence/Receipts/Tests.antt =====
-- A receipt of an applied stage, and the laws at it.
use iac_modules.Common.{◌≡◌, refl, true, List, [], ◌∷◌, All, ok}
use iac_modules.Json.{Value, members, at, find, eq}
use iac_modules.Evidence.Samples.{target, context, receipt, file, found}
use iac_modules.Evidence.Receipts.{
  take_fields, binding_fields, receipt_base, check_binding_fields, check_terraform_receipt,
  check_mode_receipt, verify_receipt, Key, has_key, expected_of, check_inventory, collect_file,
  collect_files, collect_receipts,
}
use iac_modules.Evidence.Receipts.Laws.{IsProven, verify_receipt-IsProven}
use iac_modules.Evidence.Receipts.Exact.{IsSound, collect_receipts-IsExact}

is_accepted : verify_receipt context target "resources" receipt ≡ ok receipt
unfolding verify_receipt receipt_base binding_fields take_fields check_binding_fields
    check_terraform_receipt check_mode_receipt find eq
is_accepted = refl

is_collected : collect_receipts context (file ∷ []) ("resources" ∷ []) ≡ ok found
unfolding collect_receipts collect_files collect_file expected_of check_inventory verify_receipt
    receipt_base binding_fields take_fields check_binding_fields check_terraform_receipt
    check_mode_receipt find eq
is_collected = refl

verify_receipt-IsProven_example : IsProven context target "resources" receipt
verify_receipt-IsProven_example =
    verify_receipt-IsProven context target "resources" receipt receipt is_accepted

collect_receipts-IsExact_example :
    (targets : Value) × (expected : List (Key × Value)) × (at "targets" context ≡ ok targets)
    × (expected_of (members targets) ("resources" ∷ []) ≡ ok expected)
    × IsSound context expected found
    × All (λ (p : Key × Value). has_key p.0 found ≡ true) expected
collect_receipts-IsExact_example =
    collect_receipts-IsExact context (file ∷ []) ("resources" ∷ []) found is_collected
