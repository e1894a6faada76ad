-- ===== src/Preflight/Direct.antt =====
-- `_linode_get_one` and `enrich_with_direct_lookups` of scripts/akamai_state_preflight.py. The answers
-- of the API are a parameter, and so are `str` of a value and SHA-256.
use iac_modules.Common.{
  ℕ, String, Bool, not, ◌&&◌, ◌||◌, List, [], ◌∷◌, ◌++◌, all_chars, is_digit, drop, eqb, leb, size,
  starts_with, member, ◌==◌, ◌+++◌, if◌then◌else◌,
}
use iac_modules.Common.Steps.{Step, ◌>>=◌, ◌>>◌, return, check}
use iac_modules.Json.{
  pos, Value, null, bool, int, str, arr, items, mapping, get, get_or, has, put, eq, members,
}
use iac_modules.Cmdb.Words.{strip}
use iac_modules.Preflight.Expectations.{first_chars}
use iac_modules.Preflight.Findings.{shown}
use iac_modules.Preflight.Pages.{is_token}
use iac_modules.Preflight.Show.{is_decimal}

-- An HTTP status and the document that came with it.
pub record Answer : Type 0 where
  pub status : ℕ
  pub body : Value

pub record Api (W : Type 0) : Type 0 where
  -- The answer for a path; an error of HTTP is an answer without a document.
  pub read : String → Step W Answer
  pub sha256 : String → String
  pub show : Value → String

-- One to twelve digits after a prefix.
abbrev is_numbered : String → String → Bool
is_numbered prefix path =
    starts_with path prefix
    && (all_chars is_digit (drop (size prefix) path)
        && (leb 1 (size (drop (size prefix) path)) && leb (size (drop (size prefix) path)) 12))

-- The paths that may be asked.
abbrev is_direct_path : String → Bool
is_direct_path path =
    member path ("profile" ∷ "account" ∷ [])
    || (is_numbered "linode/instances/" path || is_numbered "networking/firewalls/" path)

abbrev is_ok : Answer → Bool
is_ok a = eqb a.status 200

-- The lists of a namespace's report whose resources are asked for, and the kind of each.
abbrev sources : List (String × String)
sources =
    ("namespace_state_instances", "linode/instances")
    ∷ ("namespace_state_firewalls", "networking/firewalls")
    ∷ ("legacy_state_instances", "linode/instances")
    ∷ ("legacy_state_firewalls", "networking/firewalls")
    ∷ []

module _ {W : Type 0} (api : Api W) (token : String) where
  -- `_linode_get_one`
  unfoldable pub linode_get_one : String → Step W Answer
  linode_get_one path = do
    check (is_direct_path path) "linode_endpoint_not_allowlisted"
    check (is_token (strip token)) "linode_token_invalid"
    api.read path

  -- `verdict`
  abbrev verdict_of : Value → Answer → String
  verdict_of recorded answer =
      if is_ok answer
      then (if eq (get "label" answer.body) (get "label" recorded)
          then "exists_same_label"
          else "exists_renamed")
      else if eqb answer.status 404
      then "not_found_in_token_account"
      else "lookup_http_" +++ api.show (int (pos answer.status))

  abbrev lookup_value : String → String → Value → Answer → Value
  lookup_value key id recorded answer = mapping (
      ("source", str key)
      ∷ ("id", str id)
      ∷ ("state_label", get "label" recorded)
      ∷ ("http_status", int (pos answer.status))
      ∷ ("live_label", if is_ok answer then get "label" answer.body else null)
      ∷ ("live_status", if is_ok answer then get "status" answer.body else null)
      ∷ ("verdict", str (verdict_of recorded answer))
      ∷ [])

  -- The lookups of one list. A resource without a decimal id is skipped.
  unfoldable pub lookups_in : String → String → List Value → Step W (List Value)
  lookups_in key kind [] = return []
  lookups_in key kind (recorded ∷ rest) =
      let later = lookups_in key kind rest in
      let id = shown api.show (get_or "id" (str "") recorded) in
      if is_decimal id
      then (do
        answer ← linode_get_one (kind +++ ("/" +++ id))
        others ← later
        return (lookup_value key id recorded answer ∷ others))
      else later

  unfoldable pub lookups_of : List (String × String) → Value → Step W (List Value)
  lookups_of [] item = return []
  lookups_of ((key, kind) ∷ rest) item =
      let later = lookups_of rest item in
      do
        here ← lookups_in key kind (members (get key item))
        others ← later
        return (here ++ others)

  unfoldable pub with_lookups : List Value → Step W (List Value)
  with_lookups [] = return []
  with_lookups (item ∷ rest) = do
    found ← lookups_of sources item
    others ← with_lookups rest
    return (put "direct_lookups" (arr (items found)) item ∷ others)

  -- `token_identity`
  abbrev identity_of_token : String → Answer → Answer → Value
  identity_of_token account profile acct =
      let uuid = if is_ok acct then shown api.show (get_or "euuid" (str "") acct.body) else "" in
      let username =
        if is_ok profile then shown api.show (get_or "username" (str "") profile.body) else "" in
      mapping (
        ("profile_http_status", int (pos profile.status))
        ∷ ("profile_username", str username)
        ∷ (
          "profile_username_matches_declared_account",
          bool (not (username == "") && username == account),
        )
        ∷ ("account_http_status", int (pos acct.status))
        ∷ (
          "account_euuid_sha256_12",
          str (if uuid == "" then "" else first_chars 12 (api.sha256 uuid)),
        )
        ∷ [])

  unfoldable pub enrich_with_direct_lookups : String → Value → Step W Value
  enrich_with_direct_lookups account report = do
    profile ← linode_get_one "profile"
    acct ← linode_get_one "account"
    let identified = put "token_identity" (identity_of_token account profile acct) report
    namespaces ← with_lookups (members (get "namespaces" report))
    return (
        if has "namespaces" report
        then put "namespaces" (arr (items namespaces)) identified
        else identified)
