-- ===== src/Evidence/Summary/Tests.antt =====
-- A summary that is accepted, and the law at it.
use iac_modules.Common.{◌≡◌, refl, [], ◌∷◌, ok}
use iac_modules.Json.{Value, obj, arr, nil, end, str, items, mapping, get, find, remove, eq}
use iac_modules.Evidence.Samples.{context, receipt}
use iac_modules.Evidence.Receipts.{
  take_fields, binding_fields, receipt_base, check_binding_fields, check_terraform_receipt,
  check_mode_receipt, verify_receipt, expected_of,
}
use iac_modules.Evidence.Summary.{
  Published, Expectation, verify_entry, verify_entries, verify_inventory, check_summary,
  summary_owes, verify_summary,
}
use iac_modules.Evidence.Summary.Laws.{IsComplete, verify_summary-IsComplete}

abbrev summary : Value
summary = mapping (
    ("result", str "applied_verified")
    ∷ ("context", context)
    ∷ ("receipts", arr (items (receipt ∷ [])))
    ∷ ("deploy_matrix", arr nil)
    ∷ [])

abbrev published : Published
published = record {
  digest = "d";
  summary = summary;
  inventories = obj end;
  json_sha256 = λ v. "c";
  file_sha256 = λ v. "f";
}

abbrev wanted : Expectation
wanted = record {
  checksum = "d";
  run_id = "1";
  attempt = "1";
  gitops_sha = "g";
  iac_sha = "i";
  manifest = "iac/targets/dev.yaml";
  action = "apply";
  correlation = "1:1";
}

is_accepted : verify_summary published wanted ≡ ok summary
unfolding verify_summary check_summary summary_owes expected_of verify_entries verify_entry
    verify_inventory verify_receipt receipt_base binding_fields take_fields check_binding_fields
    check_terraform_receipt check_mode_receipt find remove eq
is_accepted = refl

verify_summary-IsComplete_example :
    (summary ≡ summary) × IsComplete published wanted (get "context" summary)
verify_summary-IsComplete_example = verify_summary-IsComplete published wanted summary is_accepted
