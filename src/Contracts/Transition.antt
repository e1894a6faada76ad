-- ===== src/Contracts/Transition.antt =====
-- `validate_catalog_transition` and `state_lock_key` of scripts/pipeline/unified/contracts.py.
pub mod Declared
use iac_modules.Common.{
  ℕ, String, true, List, [], ◌∷◌, ◌++◌, member, all, length, Result, ok, require, expect, ◌>>=◌,
  ◌>>◌, if◌then◌else◌,
}
use iac_modules.Json.{
  Value, null, str, arr, nil, get, get_or, at, is_text, is_mapping, is_list, members, values,
  fields, as_text,
}
use iac_modules.Identity.{canonical_state_key}
use iac_modules.Contracts.Checkout.{Checkout, source_file}
use iac_modules.Contracts.Target.Tables.{namespace_of}
use iac_modules.Contracts.Catalog.{Selection, load_targets, is_managed_stage}

-- The SHA-256 of a text is a parameter.
unfoldable pub state_lock_key : (String → String) → Value → Result String
state_lock_key sha256 target = do
  key ←
      canonical_state_key (get "environment" target) (get "project" target) (get "provider" target)
        (get "account" target) (namespace_of target)
  ok (sha256 key)

-- The keys that the stages of one target own.
unfoldable pub owned_keys : List Value → Result (List String)
owned_keys [] = ok []
owned_keys (spec ∷ rest) =
    let later = owned_keys rest in
    if is_managed_stage spec
    then (do
      state ← at "state" spec
      value ← at "key" state
      key ← as_text value
      keys ← later
      ok (key ∷ keys))
    else later

-- `keys(targets)`
unfoldable pub keys_of : List Value → Result (List String)
keys_of [] = ok []
keys_of (target ∷ rest) = do
  stages ← at "stages" target
  expect (is_mapping stages)
  first ← owned_keys (values (fields stages))
  others ← keys_of rest
  ok (first ++ others)

-- `{source["state"]["key"] for source in sources}`
unfoldable pub source_keys : List Value → Result (List String)
source_keys [] = ok []
source_keys (source ∷ rest) = do
  state ← at "state" source
  value ← at "key" state
  key ← as_text value
  others ← source_keys rest
  ok (key ∷ others)

-- A call of `load_targets` that selects everything.
abbrev pub everything : Selection
everything = record {
  environment = null;
  provider = null;
  account = null;
  namespace = null;
  project = null;
  include_migrations = true;
}

-- All keys that a catalog owns.
unfoldable pub catalog_keys : Checkout → String → Result (List String)
catalog_keys root catalog = do
  loaded ← load_targets root (str catalog) everything
  active ← keys_of loaded.chosen
  sources ← source_keys loaded.migrations
  ok (active ++ sources)

-- The keys of the manifests that stood there before there was a catalog.
unfoldable pub historical_keys : Checkout → List String → Result (List String)
historical_keys root [] = ok []
historical_keys root (path ∷ rest) = do
  source ← source_file root (str path)
  let document = root.load source
  expect (is_mapping document)
  require (is_text "IaCPipelineTargets" (get "kind" document))
      "invalid historical target declaration"
  let targets = get_or "targets" (arr nil) document
  expect (is_list targets)
  first ← keys_of (members targets)
  others ← historical_keys root rest
  ok (first ++ others)

unfoldable pub previous_keys : Checkout → String → Result (List String)
previous_keys root catalog =
    if root.is_file catalog
    then catalog_keys root catalog
    else historical_keys root root.target_files

-- The members of a set that is built from the list.
abbrev pub unique : List String → List String
unique [] = []
unique (x ∷ xs) = let rest = unique xs in if member x rest then rest else x ∷ rest

unfoldable pub validate_catalog_transition : Checkout → Checkout → String → Result ℕ
validate_catalog_transition before after catalog = do
  retained ← catalog_keys after catalog
  previous ← previous_keys before catalog
  require (all (λ key. member key retained) previous)
      "state ownership removed from catalog; retain a migration/retired target until reviewed state retirement"
  ok (length (unique previous))
