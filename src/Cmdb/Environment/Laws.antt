-- ===== src/Cmdb/Environment/Laws.antt =====
-- On `infer_environment` and `resource_refs` of terraform-hcl-standard/scripts/cmdb_v1.py.
use iac_modules.Common.{
  String, ◌≡◌, true, ◌||◌, not, ◌⊎◌, inl, inr, List, [], ◌∷◌, member, All, length, leb, ◌==◌, arith,
  eq_iff, ok, ok-injective, require-eq-ok, Bool-cases, or_cases, subst, sym,
}
use iac_modules.Json.{Value}
use iac_modules.Cmdb.Words.{strip, lower}
use iac_modules.Cmdb.Environment.{
  Paths, extract_path_environments, supported_environments, explicit_text, check_explicit, implied,
  infer_environment,
}

-- Every environment that the paths name is the one, if it is known.
abbrev pub AreOne : String → List String → Type 0
AreOne env found = (env ≡ "unknown") ⊎ All (λ name. env ≡ name) found

check_explicit-AreOne :
    (found : List String) (candidate : String) {env : String}
    → leb (length found) 1 ≡ true
    → check_explicit found candidate ≡ ok env
    → AreOne env found
unfolding check_explicit
check_explicit-AreOne [] candidate one h = inr tt
check_explicit-AreOne (p ∷ q ∷ found) candidate one h = absurd (ground arith)
check_explicit-AreOne (p ∷ []) candidate one h =
    let (_, h1) =
      require-eq-ok (member candidate supported_environments || candidate == "unknown")
        "unsupported environment" _ h in
    let (agrees, h2) =
      require-eq-ok (candidate == "unknown" || candidate == p)
        "explicit environment conflicts with resource path environment" _ h1 in
    subst (λ e. AreOne e (p ∷ [])) (ok-injective h2)
      (elim (or_cases (candidate == "unknown") (candidate == p) agrees) [
        | inl unknown ↦ inl ((eq_iff candidate "unknown").0 unknown)
        | inr same ↦ inr ((eq_iff candidate p).0 same, tt)
      ])

implied-AreOne :
    (found : List String) (variable : String) {env : String}
    → leb (length found) 1 ≡ true
    → implied found variable ≡ ok env
    → AreOne env found
unfolding implied
implied-AreOne [] variable one h = inr tt
implied-AreOne (p ∷ q ∷ found) variable one h = absurd (ground arith)
implied-AreOne (p ∷ []) variable one h =
    let (_, h1) =
      require-eq-ok (variable == p || not (member variable supported_environments))
        "DEPLOY_ENVIRONMENT conflicts with resource path environment" _ h in
    inr (sym (ok-injective h1), tt)

-- An environment that is inferred is known as the environment of every resource path that names
-- one, in a folder or in the file's name, whatever is given explicitly or by the process; or it is
-- "unknown".
pub infer_environment-AreOne :
    (show : Value → String) (variable : String) (paths : Paths) (explicit : Value) {env : String}
    → infer_environment show variable paths explicit ≡ ok env
    → AreOne env (extract_path_environments paths)
unfolding infer_environment
infer_environment-AreOne show variable paths explicit h =
    let found = extract_path_environments paths in
    let (one, h1) =
      require-eq-ok (leb (length found) 1) "resource_paths span multiple environments" _ h in
    elim (Bool-cases (explicit_text show explicit == "")) [
      | inl nothing ↦ implied-AreOne found (lower (strip variable)) one (rw nothing at h1)
      | inr given ↦
          check_explicit-AreOne found (lower (explicit_text show explicit)) one (rw given at h1)
    ]
