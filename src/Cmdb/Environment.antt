-- ===== src/Cmdb/Environment.antt =====
-- `_extract_path_environments`, `infer_environment` and `resource_refs` of
-- terraform-hcl-standard/scripts/cmdb_v1.py.
pub mod Laws
use iac_modules.Common.{
  String, Bool, true, false, not, ◌&&◌, ◌||◌, List, [], ◌∷◌, ◌++◌, eqb, leb, length, member,
  contains, ◌==◌, Result, ok, require, ◌>>=◌, ◌>>◌, if◌then◌else◌,
}
use iac_modules.Json.{Value, is_null}
use iac_modules.Cmdb.Words.{
  strip, lower, split_at, without, parts, folders, last_part, stem, tokens, from_part, text_of,
}

-- `resource_paths`: a list, or a text with commas.
pub data Paths : Type 0 where
  listed : List String → Paths
  joined : String → Paths

abbrev pub supported_environments : List String
supported_environments = "dev" ∷ "sit" ∷ "uat" ∷ "prod" ∷ "shared" ∷ []

unfoldable pub paths_of : Paths → List String
paths_of (listed paths) = paths
paths_of (joined s) = split_at (eqb b',') s

-- `found.add(x)`, `found.update(xs)`
abbrev pub add : String → List String → List String
add x found = if member x found then found else found ++ x ∷ []

unfoldable pub update : List String → List String → List String
update found [] = found
update found (x ∷ xs) = update (add x found) xs

-- The members that are environments.
unfoldable pub among : List String → List String
among [] = []
among (x ∷ xs) = let rest = among xs in if member x supported_environments then x ∷ rest else rest

-- What the folders of a path say, or else its file name.
unfoldable pub environments_in : String → List String
unfolding among parts folders last_part stem tokens
environments_in path =
    let above = among (folders (parts path)) in
    let named = among (tokens (lower (stem (last_part (parts path))))) in
    elim above [ [] ↦ named | x ∷ xs ↦ x ∷ xs ]

unfoldable pub extract_all : List String → List String → List String
unfolding environments_in update
extract_all found [] = found
extract_all found (path ∷ paths) =
    extract_all (if strip path == "" then found else update found (environments_in (strip path)))
      paths

unfoldable pub extract_path_environments : Paths → List String
unfolding extract_all paths_of
extract_path_environments paths = extract_all [] (paths_of paths)

-- `explicit is not None and str(explicit).strip()`
abbrev pub explicit_text : (Value → String) → Value → String
explicit_text show explicit = if is_null explicit then "" else strip (text_of show explicit)

-- An explicit environment.
unfoldable pub check_explicit : List String → String → Result String
check_explicit found candidate = do
  require (member candidate supported_environments || candidate == "unknown")
      "unsupported environment"
  require
      (elim found [ [] ↦ true | path_env ∷ _ ↦ candidate == "unknown" || candidate == path_env ])
      "explicit environment conflicts with resource path environment"
  ok candidate

-- The environment of the paths, or of the process.
unfoldable pub implied : List String → String → Result String
implied [] env_var = ok (if member env_var supported_environments then env_var else "unknown")
implied (path_env ∷ _) env_var = do
  require (env_var == path_env || not (member env_var supported_environments))
      "DEPLOY_ENVIRONMENT conflicts with resource path environment"
  ok path_env

-- `show` is `str` of a value that is no text, and `variable` is DEPLOY_ENVIRONMENT.
unfoldable pub infer_environment : (Value → String) → String → Paths → Value → Result String
infer_environment show variable paths explicit = do
  let found = extract_path_environments paths
  require (leb (length found) 1) "resource_paths span multiple environments"
  let given = explicit_text show explicit
  if given == "" then implied found (lower (strip variable)) else check_explicit found (lower given)

-- Where a path has come from, without the folders of a workstation.
unfoldable pub resource_ref : String → String
unfolding from_part parts last_part contains
resource_ref path =
    if contains path "resources/" then from_part "resources/" path else last_part (parts path)

unfoldable pub refs_of : List String → List String
unfolding resource_ref
refs_of [] = []
refs_of (raw ∷ rest) =
    let refs = refs_of rest in if strip raw == "" then refs else resource_ref (strip raw) ∷ refs

unfoldable pub resource_refs : Paths → List String
unfolding refs_of paths_of
resource_refs paths = refs_of (paths_of paths)
