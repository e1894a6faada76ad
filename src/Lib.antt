-- ===== src/Lib.antt =====
-- Verification of the infrastructure modules: the contract that a declaration must meet before
-- anything runs, the guard of a saved Terraform plan, and the identity of a Terraform state.
--
-- The program turns declarations (YAML at one commit) into Terraform runs. `contracts.py` resolves
-- the targets that a run selects, validates them and binds them into a contract that every later
-- job revalidates; `runtime.py` executes one stage of the contract and calls `evidence.py`, which
-- guards the plan that Terraform saved, and `validation.py`, which checks the states around the
-- cleanup of a candidate. Each stage leaves a receipt; `evidence.py` collects exactly the receipts
-- that a run owes and publishes a summary. `iac_identity.py` names the state that a target owns.
-- `dns-reconcile.py` is a program of its own: it plans, applies and restores one DNS record. So is
-- `akamai_state_preflight.py`, which compares declarations with live resources and states.
-- `cmdb_v1.py` writes the documents of hosts that playbooks read, and `cmdb_observations_v1.py`
-- reconciles them with what collectors observe. One reading of the clock serves a whole call.
--
-- Files, and the code that each models:
--   Common/*        shared tests, lists, texts, paths, refusals as values, and steps on a world
--   Json/*          the values that YAML and JSON load to (dict.get, `in`, truth, `is True`, `==`)
--   Identity        terraform-hcl-standard/scripts/iac_identity.py
--   Contracts/*     scripts/pipeline/unified/contracts.py: Ownership is `owner_match`, Secrets is
--                   `reject_inline_resource_secrets`, Checkout is `contained`, `checkout_sha` and
--                   `source_file`, Catalog is `load_targets`, Prepare is `prepare`,
--                   `apply_resource_mode` and `revalidate`, Transition is
--                   `validate_catalog_transition` and `state_lock_key`, Target is `validate_target`,
--                   with `validate_candidate` of scripts/pipeline/unified/validation.py in
--                   Target/Candidate
--   Evidence/*      scripts/pipeline/unified/evidence.py: Guard is `guard_plan`, Rebind is
--                   `_safe_gcp_federation_rebind`, Receipts is `receipt_base`, `verify_receipt` and
--                   `collect`, Inventory is `sanitize_inventory`, Summary is `summarize` and
--                   `verify_summary`
--   States/*        scripts/pipeline/unified/validation.py: `state_resources`, `isolated_states`,
--                   `verify_retained`, `state_digest`
--   Runtime/*       scripts/pipeline/unified/runtime.py: `dependencies`, and `execute` as steps on a
--                   receipt and a world
--   Dns/*           scripts/pipeline/dns-reconcile.py: Record is the checks of an intent and of a
--                   provider's record, Host the provider's interface, Plan and Validate the plan,
--                   Checkpoint, Apply and Restore the operations
--   Preflight/*     scripts/akamai_state_preflight.py: Findings is `_project_live`, `_one_by_label` and
--                   the failures of a namespace, Preflight `_classify_namespace`, Show
--                   `parse_terraform_show_json`, Pages `linode_get_pages`; of `build_report`, Mapping
--                   is how the legacy state is mapped, Claims who has which resource, Survey what is
--                   found first and Report the whole of it; Expectations
--                   `load_manifest_expectations`, State `inspect_terraform_state`, Versions and
--                   Inspect `inspect_legacy_object_versions`, Direct `enrich_with_direct_lookups`
--   Cmdb/*          terraform-hcl-standard/scripts/cmdb_v1.py: Words is its string methods, Keys the
--                   names of providers and resources, Environment `infer_environment` and
--                   `resource_refs`, Endpoint `infer_region` and the checks of addresses and times,
--                   Resource `normalize_resource_record`, Document `make_document`, Merge
--                   `merge_documents`
--   Observations/*  terraform-hcl-standard/scripts/cmdb_observations_v1.py: Checks and Keys are its
--                   small checks and the keys of resources, Item and Envelope `validate_envelope`,
--                   Deduplicate `deduplicate_observations`, Desired `_normalize_desired_entry` and
--                   the first state, Scope `_matches_run_scope`, Reconcile how
--                   `reconcile_observations` changes the state with each run, Buckets and Report
--                   its counts and differences, Report/Document the whole of it
--
-- Conventions. A declaration is a value of a dynamic language, `Json.Value`; a function that raises
-- returns `Result`. Where Python raises a TypeError inside the condition of a `require`, the model's
-- condition is false, so that the value is refused as well. Git, the file system, PyYAML and SHA-256
-- are the fields of the record `Checkout`; the module ipaddress, `str` of a value and JSON texts are
-- parameters too. A regular expression is the test that it stands for. Letters and digits are those of
-- ASCII, also where Python's `lower`, `casefold`, `isdigit`, `isdecimal` and `\d` know more; `strip`
-- knows all blanks of Unicode. A field that an earlier check has found is read by `get`, which gives
-- null where Python would raise a KeyError: so does Preflight, on expectations and lists of its own.
-- `validate_target` follows the source of a validation target; two rounds are enough, since a source
-- has no validation of its own. The hundred pages that `linode_get_pages` may read are the source's
-- own limit. What the renderer of terraform-hcl-standard/akamai-cloud reads of a manifest is a
-- parameter of Preflight/Expectations; its `firewall_label` is not.
--
-- Dns, Runtime and the reads of Preflight act on a world: a step returns or raises, and leaves a world in both cases. The
-- world and what its calls do are a parameter, so a theorem holds whatever others do in between.
--
-- Not modelled: floats and keys that are no strings; the transport of provider calls, the starting of
-- processes, the copying of trees and the writing of private files; scripts/pipeline/unified/auth.py,
-- the renderers of terraform-hcl-standard, the collectors of the CMDB, the inventory scripts, and
-- the other DNS commands of scripts/pipeline.
mod Common
pub mod Json
pub mod Identity
pub mod Contracts
pub mod Evidence
pub mod Dns
pub mod States
pub mod Runtime
pub mod Preflight
pub mod Cmdb
pub mod Observations
