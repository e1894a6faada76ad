-- ===== src/Cmdb/Resource/Laws.antt =====
-- On `normalize_resource_record` of terraform-hcl-standard/scripts/cmdb_v1.py.
use iac_modules.Common.{
  ℕ, String, ◌≡◌, subst, sym, true, false, not, ◌||◌, ◌⊎◌, inl, inr, [], ◌∷◌, any, member, ◌==◌,
  eq_iff, ok, require-passed, ◌∙◌, ok-injective, require-eq-ok, >>=-eq-ok, >>-eq-ok, not-eq-true,
  or_cases, Bool-cases,
}
use iac_modules.Json.{Value, str, get, fields, keys, is_mapping}
use iac_modules.Evidence.Inventory.{iterated}
use iac_modules.Cmdb.Words.{first_of}
use iac_modules.Cmdb.Keys.{
  word, runtime_forms, mapping_at, provider_of, groups_of, normalize_provider, build_resource_key,
  classify_runtime_form,
}
use iac_modules.Cmdb.Endpoint.{Readers, is_secret_key, parse_timestamp, infer_region}
use iac_modules.Cmdb.Resource.{
  Resource, Scope, lifecycle_states, check_secrets, resolve_environment, account_of, resource_id_of,
  endpoints_of, timestamp_of, status_of, normalize_resource_record,
}
use iac_modules.Cmdb.Resource.Reached.{
  IsReached, classify_runtime_form-member, endpoints_of-IsReached,
}

-- A resource that `normalize_resource_record` returns, beside the record it is made from.
pub record IsNormal (r : Readers) (scope : Scope) (entry : Value) (found : Resource) : Type 0 where
  pub object : is_mapping entry ≡ true
  pub no_secrets : any is_secret_key (keys (fields (mapping_at "host_vars" entry))) ≡ false
  pub environment :
      (scope.environment ≡ "unknown")
      ⊎ ((found.environment ≡ "unknown") ⊎ (found.environment ≡ scope.environment))
  pub form : member found.runtime_form runtime_forms ≡ true
  pub key :
      build_resource_key r.show
        (str found.provider)
        (str found.account_or_project)
        (str found.region)
        (str found.resource_id)
      ≡ ok found.resource_key
  pub reached : IsReached r found.runtime_form found.ssh_host found.primary_ip
  pub seen : (instant : ℕ) × (parse_timestamp r (str found.last_observed_at) ≡ ok instant)
  pub status : member found.status lifecycle_states ≡ true

check_secrets-clean :
    (r : Readers) (host_vars : Value)
    → check_secrets r host_vars ≡ ok tt
    → any is_secret_key (keys (fields host_vars)) ≡ false
unfolding check_secrets
check_secrets-clean r host_vars h = not-eq-true _ (
    require-passed (not (any is_secret_key (keys (fields host_vars))))
      "CMDB host contains a secret-like host_vars key" h)

resolve_environment-agrees :
    (r : Readers) (environment : String) (entry : Value) {own : String}
    → resolve_environment r environment entry ≡ ok own
    → (environment ≡ "unknown") ⊎ ((own ≡ "unknown") ⊎ (own ≡ environment))
unfolding resolve_environment
resolve_environment-agrees r environment entry h =
    let own = word r.show (first_of (get "environment" entry ∷ get "scope" entry ∷ [])) in
    let (agrees, h1) =
      require-eq-ok
        (own == "" || (environment == "unknown" || (own == "unknown" || own == environment)))
        "resource environment conflicts with document environment" _ h in
    elim (Bool-cases (own == "")) [
      | inl nothing ↦ inr (inr (sym (ok-injective (rw nothing at h1))))
      | inr given ↦
          let e = ok-injective (rw given at h1) in
          elim (or_cases (environment == "unknown") _ (rw given at agrees)) [
            | inl unknown ↦ inl ((eq_iff environment "unknown").0 unknown)
            | inr rest ↦ inr (elim (or_cases (own == "unknown") (own == environment) rest) [
              | inl unknown ↦ inl (sym e ∙ (eq_iff own "unknown").0 unknown)
              | inr same ↦ inr (sym e ∙ (eq_iff own environment).0 same)
            ])
          ]
    ]

status_of-member :
    (r : Readers) (entry : Value) {status : String}
    → status_of r entry ≡ ok status
    → member status lifecycle_states ≡ true
unfolding status_of
status_of-member r entry h =
    let status =
      word r.show
        (first_of (get "status" entry ∷ get "observation_status" entry ∷ str "active" ∷ [])) in
    let (known, h1) =
      require-eq-ok (member status lifecycle_states) "resource status is no lifecycle state" _ h in
    subst (λ s. member s lifecycle_states ≡ true) (ok-injective h1) known

-- A resource that is accepted has one of the three forms and a known status, is seen at a readable
-- time and stands under the key of its provider, account, region and id. Its environment agrees
-- with the document's. No host variable has a secret's name. If it is serverless, it has neither
-- address nor host name; else each that it has is no placeholder, and the address is none of the
-- machine itself.
pub normalize_resource_record-IsNormal :
    (r : Readers) (scope : Scope) (name : String) (entry : Value) {found : Resource}
    → normalize_resource_record r scope name entry ≡ ok found
    → IsNormal r scope entry found
unfolding normalize_resource_record
normalize_resource_record-IsNormal r scope name entry h =
    let (object, h1) = require-eq-ok (is_mapping entry) "CMDB resource must be an object" _ h in
    let (clean, h2) = >>-eq-ok (check_secrets r (mapping_at "host_vars" entry)) _ h1 in
    let (environment, h3, h4) = >>=-eq-ok (resolve_environment r scope.environment entry) _ h2 in
    let (provider, _, h5) =
      >>=-eq-ok (normalize_provider r.show (provider_of entry (str scope.cloud_provider ∷ []))) _
        h4 in
    let (form, h6, h7) = >>=-eq-ok (classify_runtime_form r.show entry (str provider)) _ h5 in
    let (region, _, h8) =
      >>=-eq-ok (infer_region r entry scope.default_region form (str provider)) _ h7 in
    let account = account_of r scope environment entry in
    let (id, _, h9) = >>=-eq-ok (resource_id_of r name entry) _ h8 in
    let (key, h10, h11) =
      >>=-eq-ok (build_resource_key r.show (str provider) (str account) (str region) (str id)) _
        h9 in
    let (endpoints, h12, h13) = >>=-eq-ok (endpoints_of r form entry) _ h11 in
    let (instant, h14, h15) =
      >>=-eq-ok (parse_timestamp r (str (timestamp_of r scope entry))) _ h13 in
    let (groups, _, h16) = >>=-eq-ok (iterated (groups_of entry)) _ h15 in
    let (status, h17, h18) = >>=-eq-ok (status_of r entry) _ h16 in
    subst (IsNormal r scope entry) (ok-injective h18) (record {
      object = object;
      no_secrets = check_secrets-clean r (mapping_at "host_vars" entry) clean;
      environment = resolve_environment-agrees r scope.environment entry h3;
      form = classify_runtime_form-member r.show entry (str provider) h6;
      key = h10;
      reached = endpoints_of-IsReached r form entry h12;
      seen = (instant, h14);
      status = status_of-member r entry h17;
    })
