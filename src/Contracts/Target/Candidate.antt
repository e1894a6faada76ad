-- ===== src/Contracts/Target/Candidate.antt =====
-- `validate_candidate` of scripts/pipeline/unified/validation.py: what a validation target may own.
use iac_modules.Common.{
  String, Bool, not, ◌&&◌, ◌||◌, List, [], ◌∷◌, length, any, eqb, is_alnum, all_chars, starts_with,
  size, drop, ◌==◌, all, Result, ok, require, expect, when, ◌>>=◌, ◌>>◌, ◌+++◌, if◌then◌else◌,
}
use iac_modules.Json.{
  Value, at, holds, is_hashable, is_str, obj, arr, str, end, field, nil, items, get, get_or, put,
  eq, is_mapping, is_list, is_text, is_true, is_false, truthy, str_such, members, text_value,
  as_texts,
}
use iac_modules.Contracts.Ownership.{owner_match}
use iac_modules.Contracts.Checkout.{Checkout, source_file}
use iac_modules.Contracts.Target.Tables.{stage_of}
use iac_modules.Contracts.Target.Stage.{first_member}

-- `module\.compute_[A-Za-z0-9_]+`
abbrev pub is_compute_module : String → Bool
is_compute_module s =
    starts_with s "module.compute_"
    && (all_chars (λ c. is_alnum c || eqb c b'_') (drop (size "module.compute_") s)
        && not (drop (size "module.compute_") s == ""))

-- The members of a list whose field is the value.
abbrev pub having : String → Value → List Value → List Value
having key value [] = []
having key value (v ∷ vs) =
    let rest = having key value vs in if eq (get key v) value then v ∷ rest else rest

-- The one match, if it serves.
unfoldable pub only_serving : List Value → Result Value
only_serving matches = do
  let source = first_member (arr (items matches))
  require (eqb (length matches) 1 && not (truthy (get "validation" source)))
      "one serving source target required"
  ok source

-- The one serving source target that the candidate names.
unfoldable pub serving_source : Checkout → Value → Result (String × Value)
serving_source root validation = do
  path ← source_file root (get "source_manifest" validation)
  let document = root.load path
  require
      (is_mapping document
        && is_text "IaCPipelineTargets" (get "kind" document)
        && is_text "gitops.svc.plus/v1alpha1" (get "apiVersion" document))
      "validation source must be a target declaration"
  expect (all is_mapping (members (get_or "targets" (arr nil) document)))
  let matches =
      having "id" (get "source_target" validation) (members (get_or "targets" (arr nil) document))
  source ← only_serving matches
  ok (path, source)

-- The candidate shares nothing with its source.
unfoldable pub check_isolation : Value → Value → Value → Result (Unit {0})
check_isolation target source validation = do
  let spec = stage_of "resources" target
  let source_spec = stage_of "resources" source
  require
      (eq (get "environment" target) (get "environment" source)
        && eq (get "project" target) (get "project" source))
      "validation source must share the declared environment/project"
  require (is_text "terraform" (get "mode" spec) && is_text "terraform" (get "mode" source_spec))
      "validation needs explicit candidate/source state owners"
  require (not (eq (get "workspace" target) (get "workspace" source)))
      "validation and serving source namespaces must differ"
  require (not (eq (get "key" (get "state" spec)) (get "key" (get "state" source_spec))))
      "validation cannot share serving source state"
  require (not (eq (get "manifest" spec) (get "manifest" source_spec)))
      "validation cannot use serving source resources"
  require (not (truthy (get "shared" spec)) && not (truthy (get "external_references" spec)))
      "validation cannot own shared/external resources"
  let owners = get "destroy_owners" validation
  require
      (is_list owners
        && eqb (length (members owners)) 1
        && str_such is_compute_module (first_member owners))
      "validation must select exactly one compute module"
  let owner = text_value (first_member owners)
  protected ← as_texts (get_or "protected" (arr nil) spec)
  require (holds owner (get "owners" spec) && not (owner_match owner protected))
      "validation compute owner is not authorized"

-- The resource manifest describes one isolated host, and nothing that outlives it.
unfoldable pub check_resource : Value → Value → Result Value
check_resource target resource = do
  let global = get_or "global" (obj end) resource
  require
      (eq (get "workspace" global) (get "workspace" target)
        && eq (get "environment" global) (get "environment" target))
      "validation resource identity mismatch"
  require
      (eq (get "provider" global) (get "provider" target)
        && eq (get "account" global) (get "account" target))
      "validation provider/account mismatch"
  require (not (truthy (get "manage_account_ssh_keys" global)))
      "validation cannot manage account identities"
  require (is_true (get "prevent_destroy" global))
      "validation must retain default deletion protection"
  require
      (eqb (length (members (get "hosts" resource))) 1
        && not (truthy (get "volumes" resource))
        && not (truthy (get "storage" resource)))
      "validation cleanup requires one host and no independent storage"
  let host = first_member (get "hosts" resource)
  require (not (truthy (get "volume" host))) "validation cannot own an attached data volume"
  require (holds "generation_candidate" (get_or "groups" (arr nil) host))
      "serving hosts cannot enter validation cleanup"
  let values = get_or "host_vars" (obj end) host
  require
      (is_false (get "public_dns_cutover" values)
        && is_false (get "database_background_writers" values))
      "validation requires isolated traffic and writers"
  require
      (truthy (get "target_generation" values)
        && truthy (get "source_generation" values)
        && not (eq (get "target_generation" values) (get "source_generation" values)))
      "source/target generations must differ"
  ok host

-- `{item.get("name") for item in source_resource.get("hosts", [])}` holds the name.
abbrev pub names_host : Value → Value → Bool
names_host name resource = any (λ item. eq (get "name" item) name) (members (get "hosts" resource))

-- `prefix + "-" + host["name"] if prefix else host["name"]`
abbrev pub instance_label : Value → Value → Result Value
instance_label prefix host = do
  name ← at "name" host
  when (truthy prefix) (expect (is_str prefix && is_str name))
  ok (if truthy prefix then str (text_value prefix +++ ("-" +++ text_value name)) else name)

-- The facts about the source that a later cleanup binds to.
abbrev pub source_binding : Checkout → String → Value → Value
source_binding root path source = obj (
    field "manifest_sha256" (str (root.digest path)) (
      field "state" (get "state" (stage_of "resources" source)) (
        field "owners" (get "owners" (stage_of "resources" source)) (
          field "environment" (get "environment" source) (
            field "project" (get "project" source) (
              field "provider" (get "provider" source) (
                field "account" (get "account" source)
                  (field "workspace" (get "workspace" source) end))))))))

-- The rest of `validate_candidate`, once its source target is valid. The result is the target with
-- the two facts that the source writes into its `validation`.
unfoldable pub bind_candidate : Checkout → Value → Value → String → Value → Result Value
bind_candidate root target validation path source = do
  check_isolation target source validation
  manifest ← source_file root (get "manifest" (stage_of "resources" target))
  let resource = root.load manifest
  host ← check_resource target resource
  source_manifest ← source_file root (get "manifest" (stage_of "resources" source))
  expect (
      all (λ item. is_mapping item && is_hashable (get "name" item))
        (members (get "hosts" (root.load source_manifest))))
  require (not (names_host (get "name" host) (root.load source_manifest)))
      "candidate hostname overlaps serving source"
  let global = get_or "global" (obj end) resource
  label ← instance_label (get_or "name_prefix" (str "") global) host
  let region = get_or "region" (get "region" global) host
  require (truthy region) "candidate region is required"
  let expected = obj (field "label" label (field "region" region end))
  ok (
      put "validation"
        (put "source_binding" (source_binding root path source)
          (put "expected_instance" expected validation))
        target)

-- `validate_candidate`, given how a source target is validated.
unfoldable pub validate_candidate : (Value → Result Value) → Checkout → Value → Result Value
validate_candidate validate root target = do
  let validation = get "validation" target
  require (is_mapping validation && is_text "cleanroom" (get "mode" validation))
      "unknown validation mode"
  require (is_text "akamai-cloud" (get "provider" target))
      "validation compute cleanup currently supports Akamai only"
  found ← serving_source root validation
  source ← validate found.1
  bind_candidate root target validation found.0 source
