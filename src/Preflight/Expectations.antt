-- ===== src/Preflight/Expectations.antt =====
-- `load_preflight_targets` and `load_manifest_expectations` of scripts/akamai_state_preflight.py.
-- What the renderer reads of a manifest is a parameter, and so are `str` and SHA-256.
mod Permitted
use iac_modules.Common.{
  ℕ, zero, suc, ◌-◌, String, Bool, true, false, not, ◌&&◌, ◌||◌, List, [], ◌∷◌, any, leb, size,
  member, segments, is_absolute, ◌==◌, ◌+++◌, Result, ok, err, malformed, refused, require, ◌>>=◌,
  ◌>>◌, if◌then◌else◌,
}
use iac_modules.Json.{Value, str, null, get, get_or, at, mapping, truthy, text_value}
use iac_modules.Cmdb.Words.{strip, lower}
use iac_modules.Contracts.Checkout.{Checkout}
use iac_modules.Contracts.Catalog.{Selection, load_targets}
use iac_modules.Preflight.Findings.{shown}
use iac_modules.Preflight.Show.{is_label}

-- What `load_sources` of the renderer does: its values, an `Exception`, or an exit of the process.
pub data Loading : Type 0 where
  given : Value → List Value → Loading
  raises exits : Loading

pub record Renderer : Type 0 where
  -- `manifest.is_file()`, for a path below the root of the declarations
  pub is_file : String → Bool
  pub load_sources : String → Loading
  pub sha256 : String → String
  pub show : Value → String

-- `text[:n]`
unfoldable pub first_chars : ℕ → String → String
first_chars zero s = String.[]
first_chars (suc n) String.[] = String.[]
first_chars (suc n) (String.◌∷◌ c cs) = String.◌∷◌ c (first_chars n cs)

-- The parts of a relative path that `pathlib` keeps, joined again.
abbrev joined_parts : List String → String
joined_parts [] = ""
joined_parts (p ∷ ps) =
    let rest = joined_parts ps in
    if p == "" || p == "." then rest else if rest == "" then p else p +++ ("/" +++ rest)

-- `Path(text).as_posix()`, of a path without a drive or a double slash in front
unfoldable pub as_posix : String → String
unfolding segments
as_posix path =
    let joined = joined_parts (segments path) in
    if is_absolute path then "/" +++ joined else if joined == "" then "." else joined

-- The single historical source of a selection, as a candidate.
unfoldable candidates_from : List Value → Result (List Value)
candidates_from [] = ok []
candidates_from (item ∷ rest) = do
  state ← at "state" item
  key ← at "key" state
  provenance ← at "provenance" item
  commit ← at "commit" provenance
  path ← at "path" provenance
  others ← candidates_from rest
  ok (
      mapping (("state_key", key) ∷ ("source_commit", commit) ∷ ("source_path", path) ∷ [])
      ∷ others)

abbrev is_single : List Value → Bool
is_single (a ∷ b ∷ rest) = false
is_single _ = true

-- The targets, the candidates and the files of an account.
unfoldable load_preflight_targets :
    Checkout → Value → Value → Value → Result (List Value × List Value × List (String × String))
load_preflight_targets root catalog environment account = do
  loaded ← load_targets root catalog (record {
    environment = environment;
    provider = str "akamai-cloud";
    account = account;
    namespace = null;
    project = null;
    include_migrations = true;
  })
  require (is_single loaded.migrations) "multiple_historical_sources_require_separate_scope"
  candidates ← candidates_from loaded.migrations
  ok (loaded.chosen, candidates, loaded.files)

abbrev pub protected_source : String
protected_source = "observability.svc.plus"

-- The values of the only host of a manifest.
unfoldable pub only_host : String → Loading → Result (Value × Value)
only_host namespace (given settings (host ∷ [])) = ok (settings, host)
only_host namespace (given settings hosts) =
    err (refused ("manifest_host_count_invalid:" +++ namespace))
only_host namespace raises = err (refused ("manifest_parse_failed:" +++ namespace))
only_host namespace exits = err malformed

module _ (r : Renderer) where
  -- `firewall_label` of the renderer
  unfoldable pub firewall_label : String → String
  firewall_label label =
      let candidate = label +++ "-firewall" in
      let digest = first_chars 8 (r.sha256 label) in
      if leb (size candidate) 32
      then candidate
      else first_chars (32 - size digest - 1) label +++ ("-" +++ digest)

  -- `str(host.get(key, ""))`
  abbrev pub text_at : String → Value → String
  text_at key v = shown r.show (get_or key (str "") v)

  -- `managed_identity`
  abbrev pub managed_identity : Value → List String
  managed_identity host =
      lower (strip (text_at "name" host))
      ∷ lower (strip (text_at "label" host))
      ∷ lower (strip (text_at "hostname" host))
      ∷ lower (strip (text_at "instance_label" host))
      ∷ []

  -- `str(a or b or "")`
  abbrev either : Value → Value → String
  either a b = if truthy a then shown r.show a else if truthy b then shown r.show b else ""

  -- The refusals of a host.
  unfoldable pub check_host : String → Value → Value → Result (Unit {0})
  check_host namespace settings host = do
    require (not (member (lower protected_source) (managed_identity host)))
        ("protected_source_as_managed_host:" +++ namespace)
    require (strip (text_at "state_namespace" settings) == namespace)
        ("manifest_namespace_mismatch:" +++ namespace)
    require (is_label (text_at "label" host) && is_label (firewall_label (text_at "label" host)))
        ("manifest_label_invalid:" +++ namespace)

  -- What is appended to `expectations`.
  unfoldable pub describe : Value → Value → String → String → Value → Value → Result Value
  describe target resources namespace relative settings host = do
    id ← at "id" target
    lifecycle ← at "lifecycle" target
    state ← at "state" resources
    key ← at "key" state
    owners ← at "owners" resources
    destroy ← at "destroy_allowed" resources
    ok (
        mapping (
          ("namespace", str namespace)
          ∷ ("target_id", id)
          ∷ ("lifecycle", lifecycle)
          ∷ ("state_key", key)
          ∷ ("owners", owners)
          ∷ ("destroy_allowed", destroy)
          ∷ ("manifest", str relative)
          ∷ ("label", str (text_at "label" host))
          ∷ ("firewall_label", str (firewall_label (text_at "label" host)))
          ∷ ("region", str (either (get "region" host) (get "region" settings)))
          ∷ ("type", str (either (get_or "type" (get_or "plan" (str "") host) host) null))
          ∷ []))

  -- One round of the loop over the targets.
  unfoldable pub expectation_of : Value → Result Value
  expectation_of target = do
    given_namespace ← at "namespace" target
    let namespace = text_value given_namespace
    stages ← at "stages" target
    resources ← at "resources" stages
    manifest ← at "manifest" resources
    let relative = as_posix (text_value manifest)
    require (r.is_file relative) ("manifest_missing:" +++ namespace)
    (settings, host) ← only_host namespace (r.load_sources relative)
    check_host namespace settings host
    describe target resources namespace relative settings host

  unfoldable pub load_manifest_expectations : List Value → Result (List Value)
  load_manifest_expectations [] = ok []
  load_manifest_expectations (target ∷ rest) = do
    here ← expectation_of target
    others ← load_manifest_expectations rest
    ok (here ∷ others)
