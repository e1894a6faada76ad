-- ===== src/Preflight/Expectations/Permitted.antt =====
-- On `load_manifest_expectations` of scripts/akamai_state_preflight.py.
mod Tests
use text.Mathlib.TextLemmas.{nil-append, cons-append}
use iac_modules.Common.{
  ℕ, zero, suc, ◌+◌, ◌-◌, ◌≤◌, String, ◌≡◌, refl, sym, ap, subst, ◌∙◌, Bool, true, false, not, ◌&&◌,
  ◌||◌, Bool-cases, inl, inr, and-eq-true, List, [], ◌∷◌, leb, size, member, arith, ◌==◌, ◌+++◌,
  eq_iff, Result, ok, require, >>=-eq-ok, >>-eq-ok, require-passed, require-eq-ok, ok-injective,
  if◌then◌else◌,
}
use iac_modules.Json.{Value, str, at, get, find, text_value}
use iac_modules.Json.Laws.{at-eq-ok}
use iac_modules.Cmdb.Words.{strip, lower}
use iac_modules.Preflight.Show.{is_label}
use iac_modules.Preflight.Expectations.{
  Renderer, first_chars, firewall_label, text_at, managed_identity, protected_source, only_host,
  check_host, describe, expectation_of, load_manifest_expectations, as_posix,
}

size-append : (a b : String) → size (a +++ b) ≡ size a + size b
size-append String.[] b = rw (nil-append b) (omega arith)
size-append (String.◌∷◌ c cs) b =
    let rest = size-append cs b in rw (cons-append c cs b) (omega arith)

size-first_chars : (n : ℕ) (s : String) → size (first_chars n s) ≤ n
unfolding first_chars
size-first_chars zero s = omega arith
size-first_chars (suc n) String.[] = omega arith
size-first_chars (suc n) (String.◌∷◌ c cs) = let rest = size-first_chars n cs in omega arith

-- The firewall's label is within the limit of the provider.
firewall_label-bound : (r : Renderer) (label : String) → size (firewall_label r label) ≤ 32
unfolding firewall_label
firewall_label-bound r label = elim (Bool-cases (leb (size (label +++ "-firewall")) 32)) [
  | inl fits ↦ rw fits (ground arith)
  | inr long ↦
      let digest = first_chars 8 (r.sha256 label) in
      let eight = size-first_chars 8 (r.sha256 label) in
      let most = size-first_chars (32 - size digest - 1) label in
      rw
        (
          long,
          size-append (first_chars (32 - size digest - 1) label) ("-" +++ digest),
          size-append "-" digest,
        )
        (omega arith)
]

-- What is expected of a target's host.
pub record IsPermitted (target expectation : Value) : Type 0 where
  pub namespace : get "namespace" expectation ≡ str (text_value (get "namespace" target))
  pub label : is_label (text_value (get "label" expectation)) ≡ true
  pub firewall_label : is_label (text_value (get "firewall_label" expectation)) ≡ true
  pub bound : size (text_value (get "firewall_label" expectation)) ≤ 32
  pub unprotected :
      (lower (strip (text_value (get "label" expectation))) == lower protected_source) ≡ false

-- One expectation for each target, in the order of the targets.
abbrev pub ArePermitted : List Value → List Value → Type 0
ArePermitted [] [] = Unit
ArePermitted (t ∷ ts) (e ∷ es) = IsPermitted t e × ArePermitted ts es
ArePermitted _ _ = ⊥

refuted : (b : Bool) → not b ≡ true → b ≡ false
refuted b h = ground arith

not_second : (a b c : Bool) → (a || (b || c)) ≡ false → b ≡ false
not_second a b c h = ground arith

module _ (r : Renderer) where
  check_host-passed :
      (namespace : String) (settings host : Value)
      → check_host r namespace settings host ≡ ok tt
      → ((lower (strip (text_at r "label" host)) == lower protected_source) ≡ false)
        × (is_label (text_at r "label" host) ≡ true)
        × (is_label (firewall_label r (text_at r "label" host)) ≡ true)
  unfolding check_host
  check_host-passed namespace settings host h =
      let (foreign, h1) =
        require-eq-ok (not (member (lower protected_source) (managed_identity r host))) _ _ h in
      let (_, h2) =
        require-eq-ok (strip (text_at r "state_namespace" settings) == namespace) _ _ h1 in
      let (label, firewall) = and-eq-true _ _ (require-passed _ _ h2) in
      (not_second _ _ _ (refuted _ foreign), label, firewall)

  describe-eq-ok :
      (target resources : Value) (namespace relative : String) (settings host : Value) {e : Value}
      → describe r target resources namespace relative settings host ≡ ok e
      → (get "namespace" e ≡ str namespace)
        × (get "label" e ≡ str (text_at r "label" host))
        × (get "firewall_label" e ≡ str (firewall_label r (text_at r "label" host)))
  unfolding describe find
  describe-eq-ok target resources namespace relative settings host {e} h =
      let (_, _, h1) = >>=-eq-ok (at "id" target) _ h in
      let (_, _, h2) = >>=-eq-ok (at "lifecycle" target) _ h1 in
      let (state, _, h3) = >>=-eq-ok (at "state" resources) _ h2 in
      let (_, _, h4) = >>=-eq-ok (at "key" state) _ h3 in
      let (_, _, h5) = >>=-eq-ok (at "owners" resources) _ h4 in
      let (_, _, h6) = >>=-eq-ok (at "destroy_allowed" resources) _ h5 in
      let same = sym (ok-injective h6) in
      (ap (get "namespace") same, ap (get "label") same, ap (get "firewall_label") same)

  expectation_of-IsPermitted :
      (target : Value) {e : Value} → expectation_of r target ≡ ok e → IsPermitted target e
  unfolding expectation_of
  expectation_of-IsPermitted target h =
      let (given_namespace, named, h1) = >>=-eq-ok (at "namespace" target) _ h in
      let (stages, _, h2) = >>=-eq-ok (at "stages" target) _ h1 in
      let (resources, _, h3) = >>=-eq-ok (at "resources" stages) _ h2 in
      let (manifest, _, h4) = >>=-eq-ok (at "manifest" resources) _ h3 in
      let relative = as_posix (text_value manifest) in
      let (_, h5) = require-eq-ok (r.is_file relative) _ _ h4 in
      let ((settings, host), _, h6) =
        >>=-eq-ok (only_host (text_value given_namespace) (r.load_sources relative)) _ h5 in
      let (checked, h7) = >>-eq-ok (check_host r (text_value given_namespace) settings host) _ h6 in
      let (unprotected, label, firewall) =
        check_host-passed (text_value given_namespace) settings host checked in
      let (is_namespace, is_label_of, is_firewall) =
        describe-eq-ok target resources (text_value given_namespace) relative settings host h7 in
      let labels = sym (ap text_value is_label_of) in
      let firewalls = sym (ap text_value is_firewall) in
      record {
        namespace =
            is_namespace ∙ ap (λ v. str (text_value v)) (sym (at-eq-ok "namespace" target named));
        label = subst (λ s. is_label s ≡ true) labels label;
        firewall_label = subst (λ s. is_label s ≡ true) firewalls firewall;
        bound =
            subst (λ s. size s ≤ 32) firewalls (firewall_label-bound r (text_at r "label" host));
        unprotected =
            subst (λ s. (lower (strip s) == lower protected_source) ≡ false) labels unprotected;
      }

  -- Every expectation that is derived from the declarations is of its target's namespace, its label
  -- and its firewall's label have the permitted form, the firewall's label is at most 32 characters
  -- long, and the label, without blanks around it and in lower case, is not the protected source.
  pub load_manifest_expectations-ArePermitted :
      (targets : List Value) {expectations : List Value}
      → load_manifest_expectations r targets ≡ ok expectations
      → ArePermitted targets expectations
  unfolding load_manifest_expectations
  load_manifest_expectations-ArePermitted [] h = subst (ArePermitted []) (ok-injective h) tt
  load_manifest_expectations-ArePermitted (target ∷ rest) h =
      let (here, is_here, h1) = >>=-eq-ok (expectation_of r target) _ h in
      let (others, later, h2) = >>=-eq-ok (load_manifest_expectations r rest) _ h1 in
      subst (ArePermitted (target ∷ rest)) (ok-injective h2) (
        expectation_of-IsPermitted target is_here,
        load_manifest_expectations-ArePermitted rest later,
      )
