-- ===== src/Cmdb/Resource/Reached.antt =====
-- The forms and the endpoints of resources, in terraform-hcl-standard/scripts/cmdb_v1.py.
use iac_modules.Common.{
  String, ◌≡◌, refl, subst, sym, Bool, true, false, not, ◌&&◌, ◌||◌, ◌⊎◌, inl, inr, Option, none,
  some, List, [], ◌∷◌, member, ◌==◌, arith, eq_iff, ok, when, require-passed, ok-injective,
  require-eq-ok, >>=-eq-ok, >>-eq-ok, Option-cases, if◌then◌else◌, not-eq-true, Bool-cases,
}
use iac_modules.Json.{Value, str, get, is_null}
use iac_modules.Evidence.Inventory.{iterated}
use iac_modules.Cmdb.Words.{lower, strip, text_of, first_of}
use iac_modules.Cmdb.Keys.{
  word, runtime_forms, provider_of, groups_of, normalize_provider, classify_runtime_form,
  check_form, inferred_form, serverless_kinds, is_k3s,
}
use iac_modules.Cmdb.Endpoint.{Readers, IpAddress, is_fake, check_ip, validate_endpoint_or_ip}
use iac_modules.Cmdb.Resource.{
  Endpoints, endpoints_of, serverless_endpoints, host_endpoints, is_unset, ip_of, ssh_host_of,
}

-- A property of a value, if there is one.
abbrev pub IfSome : (String → Type 0) → Option String → Type 0
IfSome P none = Unit
IfSome P (some s) = P s

-- A host that is no placeholder, and an address that is none of the machine itself.
abbrev pub IsHost : String → Type 0
IsHost s = is_fake (lower s) ≡ false

pub record IsAddress (r : Readers) (s : String) : Type 0 where
  pub real : is_fake (lower s) ≡ false
  pub address : IpAddress
  pub reads : r.ip_address s ≡ some address
  pub specified : address.unspecified ≡ false
  pub remote : address.loopback ≡ false

-- A serverless resource is reached nowhere, a host at a real name and a public or private address.
abbrev pub IsReached : Readers → String → Option String → Option String → Type 0
IsReached r form ssh ip =
    ((form ≡ "serverless") × (ssh ≡ none) × (ip ≡ none))
    ⊎ (((form == "serverless") ≡ false) × IfSome IsHost ssh × IfSome (IsAddress r) ip)

pub inferred_form-member :
    (show : Value → String) (entry : Value) (kind provider : String) (groups : List Value)
    → member (inferred_form show entry kind provider groups) runtime_forms ≡ true
unfolding inferred_form
inferred_form-member show entry kind provider groups =
    elim (Bool-cases
      (member kind serverless_kinds || member provider ("cloudflare" ∷ "supabase" ∷ []))) [
        | inl serverless ↦ rw serverless refl
        | inr hosted ↦ rw hosted (elim (Bool-cases (is_k3s show entry kind groups)) [
          | inl node ↦ rw node refl
          | inr plain ↦ rw plain refl
        ])
      ]

pub check_form-member :
    (explicit kind : String)
    → check_form explicit kind ≡ ok tt
    → member explicit runtime_forms ≡ true
unfolding check_form
check_form-member explicit kind h =
    (require-eq-ok (member explicit runtime_forms) "runtime_form is not one of the forms" _ h).0

pub classify_runtime_form-member :
    (show : Value → String) (entry provider : Value) {form : String}
    → classify_runtime_form show entry provider ≡ ok form
    → member form runtime_forms ≡ true
unfolding classify_runtime_form
classify_runtime_form-member show entry provider h =
    let explicit = word show (get "runtime_form" entry) in
    let kind = word show (get "resource_kind" entry) in
    let (p, _, h1) =
      >>=-eq-ok (normalize_provider show (provider_of entry (provider ∷ str "unknown" ∷ []))) _ h in
    let (groups, _, h2) = >>=-eq-ok (iterated (groups_of entry)) _ h1 in
    elim (Bool-cases (explicit == "")) [
      | inl nothing ↦
          subst (λ f. member f runtime_forms ≡ true) (ok-injective (rw nothing at h2))
            (inferred_form-member show entry kind p groups)
      | inr given ↦
          let (passed, h3) = >>-eq-ok (check_form explicit kind) _ (rw given at h2) in
          subst (λ f. member f runtime_forms ≡ true) (ok-injective h3)
            (check_form-member explicit kind passed)
    ]

pub check_ip-IsAddress :
    (r : Readers) (s : String) → IsHost s → check_ip r s ≡ ok tt → IsAddress r s
unfolding check_ip
check_ip-IsAddress r s real h = elim (Option-cases (r.ip_address s)) [
  | inl nothing ↦ absurd (let raised = rw nothing at h in cc)
  | inr found ↦
      let (address, reads) = found in
      let h1 =
        require-passed (not (address.unspecified || address.loopback))
          "loopback or unspecified address is not allowed" (rw reads at h) in
      record {
        real = real;
        address = address;
        reads = reads;
        specified = ground arith;
        remote = ground arith;
      }
]

pub validate_cases :
    (r : Readers) (allow : Bool) (value : Value) {o : Option String}
    → validate_endpoint_or_ip r allow value ≡ ok o
    → (o ≡ none)
      ⊎ ((s : String) × (o ≡ some s) × IsHost s × (when (not allow) (check_ip r s) ≡ ok tt))
unfolding validate_endpoint_or_ip
validate_cases r allow value h =
    let text = if is_null value then "" else strip (text_of r.show value) in
    elim (Bool-cases (text == "")) [
      | inl nothing ↦ inl (sym (ok-injective (rw nothing at h)))
      | inr given ↦
          let (real, h1) =
            require-eq-ok (not (is_fake (lower text)))
              "fabricated or placeholder endpoint is not allowed" _ (rw given at h) in
          let (checked, h2) = >>-eq-ok (when (not allow) (check_ip r text)) _ h1 in
          inr (text, sym (ok-injective h2), not-eq-true _ real, checked)
    ]

pub validate-IsHost :
    (r : Readers) (value : Value) {o : Option String}
    → validate_endpoint_or_ip r true value ≡ ok o
    → IfSome IsHost o
validate-IsHost r value h = elim (validate_cases r true value h) [
  | inl nothing ↦ rw nothing tt
  | inr (s, is_s, real, _) ↦ rw is_s real
]

pub validate-IsAddress :
    (r : Readers) (value : Value) {o : Option String}
    → validate_endpoint_or_ip r false value ≡ ok o
    → IfSome (IsAddress r) o
validate-IsAddress r value h = elim (validate_cases r false value h) [
  | inl nothing ↦ rw nothing tt
  | inr (s, is_s, real, checked) ↦ rw is_s (check_ip-IsAddress r s real checked)
]

pub endpoints_of-IsReached :
    (r : Readers) (form : String) (entry : Value) {e : Endpoints}
    → endpoints_of r form entry ≡ ok e
    → IsReached r form e.ssh e.ip
unfolding endpoints_of
endpoints_of-IsReached r form entry h = elim (Bool-cases (form == "serverless")) [
  | inl same ↦
      let (_, h1) =
        require-eq-ok
          (is_unset (ip_of entry)
            && (is_unset (get "private_ip" entry) && is_unset (ssh_host_of entry)))
          "serverless resource cannot define primary_ip/ip or ssh_host/ansible_host" _
          (rw (same, serverless_endpoints) at h) in
      subst (λ e. IsReached r form e.ssh e.ip) (ok-injective h1)
        (inl ((eq_iff form "serverless").0 same, refl, refl))
  | inr other ↦
      let address = if is_unset (ip_of entry) then get "private_ip" entry else ip_of entry in
      let name =
        if is_unset (ssh_host_of entry)
        then first_of (ip_of entry ∷ get "private_ip" entry ∷ [])
        else ssh_host_of entry in
      let (ip, h1, h2) =
        >>=-eq-ok (validate_endpoint_or_ip r false address) _ (rw (other, host_endpoints) at h) in
      let (ssh, h3, h4) = >>=-eq-ok (validate_endpoint_or_ip r true name) _ h2 in
      subst (λ e. IsReached r form e.ssh e.ip) (ok-injective h4)
        (inr (other, validate-IsHost r name h3, validate-IsAddress r address h1))
]
