-- ===== src/Contracts/Catalog.antt =====
-- `load_targets` of scripts/pipeline/unified/contracts.py: the targets that one manifest or
-- catalog declares.
pub mod Claimed
pub mod Laws
mod Tests
use iac_modules.Common.{
  String, Bool, true, false, not, ◌&&◌, ◌||◌, List, [], ◌∷◌, ◌++◌, all, any, member, climbs,
  is_absolute, ◌==◌, ◌+++◌, Result, ok, err, require, expect, each, ◌>>=◌, ◌>>◌, if◌then◌else◌,
}
use iac_modules.Json.{
  Value, str, arr, obj, nil, end, get, get_or, has, eq, values, fields, is_null, is_mapping,
  is_list, is_str, is_text, is_bool, is_true, truthy, members, str_such, text_value, as_text,
}
use iac_modules.Contracts.Checkout.{Checkout, source_file, is_sha}
use iac_modules.Contracts.Target.{validate_target}
use iac_modules.Contracts.Target.Tables.{
  provider_folder, is_some, github_environment, is_identifier, is_among,
}
use iac_modules.Contracts.Target.Stage.{is_plain_path}

-- The ids and the state keys that are taken, in the order of their claims.
pub record Claims : Type 0 where
  pub ids : List String
  pub keys : List String

abbrev pub no_claims : Claims
no_claims = record { ids = []; keys = [] }

-- The key of a stage that Terraform runs.
abbrev pub is_managed_stage : Value → Bool
is_managed_stage spec = is_text "terraform" (get "mode" spec)

unfoldable pub claim_stage : Value → List String → Result (List String)
claim_stage spec keys =
    if is_managed_stage spec
    then (do
      key ← as_text (get "key" (get "state" spec))
      require (not (member key keys)) "duplicate state ownership"
      ok (keys ++ key ∷ []))
    else ok keys

unfoldable pub claim_stages : List Value → List String → Result (List String)
claim_stages [] keys = ok keys
claim_stages (spec ∷ rest) keys = do taken ← claim_stage spec keys; claim_stages rest taken

-- One round of the loop over the targets. The target is returned as `validate_target` leaves it.
unfoldable pub claim_target : Checkout → Value → Claims → Result (Value × Claims)
claim_target root target claims = do
  valid ← validate_target root target
  id ← as_text (get "id" valid)
  require (not (member id claims.ids)) "duplicate target"
  keys ← claim_stages (values (fields (get "stages" valid))) claims.keys
  ok (valid, record { ids = claims.ids ++ id ∷ []; keys = keys })

unfoldable pub claim_targets : Checkout → List Value → Claims → Result (List Value × Claims)
claim_targets root [] claims = ok ([], claims)
claim_targets root (target ∷ rest) claims = do
  first ← claim_target root target claims
  others ← claim_targets root rest first.1
  ok (first.0 ∷ others.0, others.1)

abbrev migration_fields : List String
migration_fields = "id" ∷ "environment" ∷ "project" ∷ "provider" ∷ "account" ∷ "namespace" ∷ []

-- The key that a historical state must have.
abbrev pub migration_key : Value → String
migration_key item =
    "terraform/"
    +++ (text_value (get "environment" item)
        +++ ("/"
            +++ (text_value (get "project" item)
                +++ ("/"
                    +++ (text_value (get "provider" item)
                        +++ ("/"
                            +++ (text_value (get "account" item)
                                +++ ("/"
                                    +++ (text_value (get "namespace" item)
                                        +++ "/terraform.tfstate")))))))))

-- What a migration source must be, apart from what it claims.
unfoldable pub check_migration : Value → Result (Unit {0})
check_migration item = do
  require
      (is_text "migration" (get "status" (get_or "lifecycle" (obj end) item))
        && is_true (get "read_only" item))
      "historical state sources must be read-only migration objects"
  require
      (str_such (λ p. is_some (provider_folder p)) (get "provider" item)
        && str_such (λ e. is_some (github_environment e)) (get "environment" item))
      "unsupported migration provider/environment"
  require (not (is_among ("primary" ∷ "default" ∷ "main" ∷ []) (get "account" item)))
      "concrete migration account required"
  require (is_bool (get "persistent" (get "lifecycle" item))) "migration persistence required"
  let provenance = get_or "provenance" (obj end) item
  require
      (str_such is_sha (get_or "commit" (str "") provenance)
        && str_such (λ s. not (s == "")) (get "path" provenance))
      "historical source provenance required"
  require (is_plain_path (get "path" provenance)) "invalid historical source path"

-- One round of the loop over the migration sources.
unfoldable pub claim_migration : Value → Claims → Result Claims
claim_migration item claims = do
  require (is_mapping item) "migration source must be a mapping"
  each (λ field. require (str_such is_identifier (get field item)) ("invalid migration " +++ field))
      migration_fields
  let id = text_value (get "id" item)
  require (not (member id claims.ids)) "duplicate migration identity"
  check_migration item
  let state = get_or "state" (obj end) item
  require (is_text (migration_key item) (get_or "key" (str "") state))
      "historical state key/identity mismatch"
  require (is_text "default" (get "cli_workspace" state)) "migration workspace must be explicit"
  let key = migration_key item
  require (not (member key claims.keys)) "migration state overlaps active target"
  ok (record { ids = claims.ids ++ id ∷ []; keys = claims.keys ++ key ∷ [] })

unfoldable pub claim_migrations : List Value → Claims → Result Claims
claim_migrations [] claims = ok claims
claim_migrations (item ∷ rest) claims = do
  taken ← claim_migration item claims
  claim_migrations rest taken

-- The targets of one manifest that a catalog names.
unfoldable pub catalog_child : Checkout → Value → Value → Result (List Value)
catalog_child root document ref = do
  path ← source_file root ref
  let child = root.load path
  require
      (is_mapping child
        && is_text "IaCPipelineTargets" (get "kind" child)
        && eq (get "apiVersion" child) (get "apiVersion" document))
      "catalog references must be target manifests"
  require (is_list (get "targets" child) && truthy (get "targets" child)) "empty target reference"
  each
      (λ target.
        require (has "namespace" target && has "lifecycle" target)
          "catalog targets require explicit namespace/lifecycle")
      (members (get "targets" child))
  ok (members (get "targets" child))

unfoldable pub catalog_children : Checkout → Value → List Value → Result (List Value)
catalog_children root document [] = ok []
catalog_children root document (ref ∷ rest) = do
  targets ← catalog_child root document ref
  others ← catalog_children root document rest
  ok (targets ++ others)

-- No reference stands twice.
abbrev distinct_refs : List Value → Bool
distinct_refs [] = true
distinct_refs (v ∷ vs) = not (any (is_text (text_value v)) vs) && distinct_refs vs

-- What a manifest declares: targets, migration sources, and the files that it was read from.
pub record Declared : Type 0 where
  pub targets : List Value
  pub migrations : List Value
  pub files : List String

abbrev texts_in : List Value → List String
texts_in [] = []
texts_in (v ∷ vs) = text_value v ∷ texts_in vs

unfoldable pub read_catalog : Checkout → String → Value → Result Declared
read_catalog root source document = do
  let refs = get "target_manifests" document
  require (is_list refs && truthy refs && all is_str (members refs) && distinct_refs (members refs))
      "unique nonempty target references required"
  targets ← catalog_children root document (members refs)
  let migrations = get_or "migration_sources" (arr nil) document
  require (is_list migrations) "migration_sources must be a list"
  ok (record {
    targets = targets;
    migrations = members migrations;
    files = source ∷ texts_in (members refs);
  })

unfoldable pub read_declaration : Checkout → Value → Result Declared
read_declaration root manifest = do
  source ← source_file root manifest
  let document = root.load source
  require (is_mapping document && is_text "gitops.svc.plus/v1alpha1" (get "apiVersion" document))
      "IaC declaration required"
  if is_text "IaCTargetCatalog" (get "kind" document)
      then read_catalog root source document
      else (do
        require (is_text "IaCPipelineTargets" (get "kind" document))
            "IaCPipelineTargets or IaCTargetCatalog required"
        let targets = get_or "targets" (arr nil) document
        require (is_list targets) "empty target set rejected"
        ok (record { targets = members targets; migrations = []; files = source ∷ [] }))

-- What a run selects by; null is no selection.
pub record Selection : Type 0 where
  pub environment : Value
  pub provider : Value
  pub account : Value
  pub namespace : Value
  pub project : Value
  pub include_migrations : Bool

abbrev picks : Value → Value → Bool
picks wanted found = is_null wanted || eq found wanted

-- `selected`
unfoldable pub selected : Selection → Value → Bool
selected s item =
    picks s.environment (get "environment" item)
    && (picks s.provider (get "provider" item)
        && (picks s.account (get "account" item)
            && (picks s.namespace (get_or "namespace" (get "workspace" item) item)
                && picks s.project (get "project" item))))

abbrev pub is_active : Value → Bool
is_active target =
    is_text "active" (get_or "status" (str "active") (get_or "lifecycle" (obj end) target))

abbrev pub is_chosen : Selection → Value → Bool
is_chosen s target = selected s target && (s.include_migrations || is_active target)

abbrev pub keep : (Value → Bool) → List Value → List Value
keep p [] = []
keep p (v ∷ vs) = let rest = keep p vs in if p v then v ∷ rest else rest

-- The chosen targets, the chosen migration sources, and the files with their digests.
pub record Loaded : Type 0 where
  pub chosen : List Value
  pub migrations : List Value
  pub files : List (String × String)

-- Every declared target, as validated, and all claims.
unfoldable pub claim_all : Checkout → Declared → Result (List Value × Claims)
claim_all root declared = do
  require (not (elim declared.targets [ [] ↦ true | t ∷ ts ↦ false ])) "empty target set rejected"
  valid ← claim_targets root declared.targets no_claims
  claims ← claim_migrations declared.migrations valid.1
  ok (valid.0, claims)

abbrev with_digests : Checkout → List String → List (String × String)
with_digests root [] = []
with_digests root (f ∷ fs) = (f, root.digest f) ∷ with_digests root fs

unfoldable pub load_targets : Checkout → Value → Selection → Result Loaded
load_targets root manifest s = do
  declared ← read_declaration root manifest
  claimed ← claim_all root declared
  let chosen = keep (is_chosen s) claimed.0
  require (not (elim chosen [ [] ↦ true | t ∷ ts ↦ false ])) "no matching declared IaC targets"
  ok (record {
    chosen = chosen;
    migrations = keep (selected s) declared.migrations;
    files = with_digests root declared.files;
  })
